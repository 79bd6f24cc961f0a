-- ===== src/Core/Router/Sequence.antt =====
-- The numbers on the frames that router.rs sends to each peer, over any history of calls.
use win_xtend.Prelude.{
  ℕ, ◌+◌, ◌%◌, ◌^◌, ◌≡◌, refl, ap, subst, true, false, ◌==◌, inl, inr, if◌then◌else◌, List, [], ◌∷◌,
  ◌++◌, arith, Bool-cases,
}
use win_xtend.Prelude.Maps.{insert, lookup-insert}
use win_xtend.Proto.Ids.{NodeId, GlobalMonitorId, node_key, node_eq_sound}
use win_xtend.Proto.Input.{InputEvent, InputFrame}
use win_xtend.Core.Transfer.{
  InputRouter, RouteAction, deliver, remote, handoff, yield, Out, emit, next_seq, counter,
}
use win_xtend.Core.Router.Keeps.{Keeps}

counter-insert :
    (seq : List (NodeId × ℕ)) (k n : NodeId) (v : ℕ)
    → counter (insert k v seq) n ≡ (if k == n then v else counter seq n)
unfolding counter
counter-insert seq k n v = ground (arith, lookup-insert k n v seq)

module _ {F : Type 0} where
  -- The frames addressed to one peer, in order.
  unfoldable pub frames_to : NodeId → List (RouteAction F) → List (InputFrame F)
  frames_to n [] = []
  frames_to n (remote node frame ∷ acts) =
      if node == n then frame ∷ frames_to n acts else frames_to n acts
  frames_to n (a ∷ acts) = frames_to n acts

  pub frames_to-append :
      (n : NodeId) (xs ys : List (RouteAction F))
      → frames_to n (xs ++ ys) ≡ frames_to n xs ++ frames_to n ys
  unfolding frames_to
  frames_to-append n [] ys = refl
  frames_to-append n (remote node frame ∷ acts) ys = ground (arith, frames_to-append n acts ys)
  frames_to-append n (a ∷ acts) ys = frames_to-append n acts ys

  -- Each number is the one before plus 1, as a u64, and the last is `c'`.
  abbrev pub Continues : ℕ → List (InputFrame F) → ℕ → Type 0
  Continues c [] c' = c' ≡ c
  Continues c (f ∷ fs) c' = (f.seq ≡ (c + 1) % 2 ^ 64) × Continues f.seq fs c'

  pub Continues-append :
      (c m c' : ℕ) (xs ys : List (InputFrame F))
      → Continues c xs m
      → Continues m ys c'
      → Continues c (xs ++ ys) c'
  Continues-append c m c' [] ys h k = subst (λ t. Continues t ys c') h k
  Continues-append c m c' (f ∷ xs) ys h k = (h.0, Continues-append f.seq m c' xs ys h.1 k)

  abbrev pub Numbered : NodeId → ℕ → Out F → Type 0
  Numbered n c o = Continues c (frames_to n o.1) (counter o.0.seq n)

  quiet :
      (n : NodeId) (c : ℕ) (r : InputRouter F) (out : List (RouteAction F)) (a : RouteAction F)
      → frames_to n (a ∷ []) ≡ []
      → Numbered n c (r, out)
      → Numbered n c (r, out ++ a ∷ [])
  quiet n c r out a e h =
      rw (frames_to-append n out (a ∷ []), e) (Continues-append c _ _ (frames_to n out) [] h refl)

  -- What `emit` does at each side of its test.
  emit_here :
      (t : GlobalMonitorId) (e : InputEvent F) (o : Out F)
      → (t.node == o.0.this_node) ≡ true
      → emit t e o ≡ (o.0, o.1 ++ deliver t.monitor e ∷ [])
  unfolding emit
  emit_here t e o h = rw h

  abbrev next : Out F → NodeId → ℕ
  next o k = (counter o.0.seq k + 1) % 2 ^ 64

  abbrev sent_frame : GlobalMonitorId → InputEvent F → Out F → InputFrame F
  sent_frame t e o = record { seq = next o t.node; target = t.monitor; event = e }

  emit_away :
      (t : GlobalMonitorId) (e : InputEvent F) (o : Out F)
      → (t.node == o.0.this_node) ≡ false
      → emit t e o ≡ (
        record (o.0) { seq = insert t.node (next o t.node) o.0.seq },
        o.1 ++ remote t.node (sent_frame t e o) ∷ [],
      )
  unfolding emit next_seq
  emit_away t e o h = rw h

  sent-Numbered :
      (n : NodeId) (c : ℕ) (t : GlobalMonitorId) (e : InputEvent F) (o : Out F)
      → Numbered n c o
      → Numbered n c (
        record (o.0) { seq = insert t.node (next o t.node) o.0.seq },
        o.1 ++ remote t.node (sent_frame t e o) ∷ [],
      )
  unfolding frames_to
  sent-Numbered n c t e o h = elim (Bool-cases (t.node == n)) [
    | inl same ↦
        rw (frames_to-append n o.1 (remote t.node (sent_frame t e o) ∷ []), frames_to)
          (rw (same, counter-insert o.0.seq t.node n (next o t.node), same)
            (Continues-append c _ _ (frames_to n o.1) (sent_frame t e o ∷ []) h
              (ap (λ k. (counter o.0.seq k + 1) % 2 ^ 64) (node_eq_sound t.node n same), refl)))
    | inr other ↦
        rw (counter-insert o.0.seq t.node n (next o t.node), other)
          (quiet n c o.0 o.1 (remote t.node (sent_frame t e o)) (rw other) h)
  ]

  emit-Numbered :
      (n : NodeId) (c : ℕ) (t : GlobalMonitorId) (e : InputEvent F) (o : Out F)
      → Numbered n c o
      → Numbered n c (emit t e o)
  emit-Numbered n c t e o h = elim (Bool-cases (t.node == o.0.this_node)) [
    | inl here ↦
        rw (emit_here t e o here)
          (quiet n c o.0 o.1 (deliver t.monitor e) (unfold frames_to in refl) h)
    | inr away ↦ rw (emit_away t e o away) (sent-Numbered n c t e o h)
  ]

  pub Numbered-Keeps : (n : NodeId) (c : ℕ) → Keeps (Numbered n c)
  unfolding frames_to
  Numbered-Keeps n c = record {
    on_emit = emit-Numbered n c;
    on_held = λ h r out p. p;
    on_yield = λ k r out e p. quiet n c r out (yield k) refl p;
    on_handoff = λ k m entry via r out e p. quiet n c r out (handoff k m entry via) refl p;
  }
