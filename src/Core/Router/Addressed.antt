-- ===== src/Core/Router/Addressed.antt =====
-- router.rs: whom the actions of a history of calls are addressed to.
use win_xtend.Prelude.{
  ◌≡◌, refl, subst, ◌∙◌, false, ◌==◌, inl, inr, some, List, [], ◌∷◌, ◌++◌, Bool-cases, some_inj,
  All,
}
use win_xtend.Proto.Ids.{NodeId, GlobalMonitorId}
use win_xtend.Proto.Float.{Floats}
use win_xtend.Proto.Input.{InputEvent}
use win_xtend.Core.Transfer.{
  InputRouter, RouteAction, deliver, remote, handoff, yield, Out, emit, next_seq,
}
use win_xtend.Core.Router.Steps.{Op, run}
use win_xtend.Core.Router.Keeps.{Keeps, step_keeps}
use win_xtend.Core.Router.Numbering.{run_cons}

module _ {F : Type 0} where
  -- An action that names a node names another one than `this`.
  abbrev pub Away : NodeId → RouteAction F → Type 0
  Away this (deliver target event) = Unit
  Away this (remote node frame) = (node == this) ≡ false
  Away this (handoff node target entry via) = (node == this) ≡ false
  Away this (yield node) = (node == this) ≡ false

  abbrev Addressed : NodeId → Out F → Type 0
  Addressed this o = (o.0.this_node ≡ this) × All (Away this) o.1

  All-append :
      (P : RouteAction F → Type 0) (xs ys : List (RouteAction F))
      → All P xs
      → All P ys
      → All P (xs ++ ys)
  All-append P [] ys h k = k
  All-append P (x ∷ xs) ys h k = (h.0, All-append P xs ys h.1 k)

  emit-Addressed :
      (this : NodeId) (t : GlobalMonitorId) (e : InputEvent F) (o : Out F)
      → Addressed this o
      → Addressed this (emit t e o)
  unfolding emit next_seq
  emit-Addressed this t e o h = elim (Bool-cases (t.node == o.0.this_node)) [
    | inl here ↦ rw here (h.0, All-append (Away this) o.1 _ h.1 (tt, tt))
    | inr away ↦
        rw away
          (h.0, All-append (Away this) o.1 _ h.1 (subst (λ n. (t.node == n) ≡ false) h.0 away, tt))
  ]

  Addressed-Keeps : (this : NodeId) → Keeps (Addressed this)
  Addressed-Keeps this = record {
    on_emit = emit-Addressed this;
    on_held = λ h r out p. p;
    on_yield = λ n r out e p.
        (p.0, All-append (Away this) out _ p.1 (subst (λ k. (n == k) ≡ false) p.0 e, tt));
    on_handoff = λ n m entry via r out e p.
        (p.0, All-append (Away this) out _ p.1 (subst (λ k. (n == k) ≡ false) p.0 e, tt));
  }

module _ {F : Type 0} ⦃fl : Floats F⦄ where
  -- Over any history of calls that does not panic, from any state, no frame, handoff or yield is
  -- addressed to the node that the router runs on, and the router stays on that node.
  pub run-Away :
      (r : InputRouter F) (ops : List (Op F)) (o : Out F)
      → run r ops ≡ some o
      → (o.0.this_node ≡ r.this_node) × All (Away r.this_node) o.1
  unfolding run
  run-Away r [] o e = subst (Addressed r.this_node) (some_inj e) (refl, tt)
  run-Away r (op ∷ ops) o e =
      let (first, rest, s, t, split) = run_cons r op ops o e in
      let one =
        step_keeps (Addressed r.this_node) (Addressed-Keeps r.this_node) r (λ c l h. (refl, tt)) op
          first s in
      let later = run-Away first.0 ops rest t in
      rw split (
        later.0 ∙ one.0,
        All-append (Away r.this_node) first.1 rest.1 one.1
            (subst (λ n. All (Away n) rest.1) one.0 later.1),
      )
