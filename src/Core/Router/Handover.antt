-- ===== src/Core/Router/Handover.antt =====
-- What router.rs does when control changes hands: who is sent what, in which order.
use win_xtend.Prelude.{
  ◌≡◌, refl, ap, subst, ◌∙◌, sym, true, false, ◌==◌, inl, inr, ◌≢◌, if◌then◌else◌, List, [], ◌∷◌,
  ◌++◌, arith, Bool-cases,
}
use mathlib.Core.List.{append-nil, append_assoc}
use win_xtend.Proto.Ids.{NodeId, GlobalMonitorId, node_eq_sound}
use win_xtend.Proto.Edge.{Edge}
use win_xtend.Proto.Geom.{NormPos}
use win_xtend.Proto.Input.{InputEvent, release_control}
use win_xtend.Core.Held.{clear, release_events, nothing_held}
use win_xtend.Core.Transfer.{
  InputRouter, RouteAction, deliver, remote, handoff, yield, Out, emit, emit_all, let_go, next_seq,
  transfer, push_action,
}
use win_xtend.Core.Router.Keeps.{emit-this_node, let_go-this_node}

module _ {F : Type 0} where
  -- The action hands `event` to the monitor `t`: by injection if `t` is on this node, by a frame to
  -- its node otherwise.
  abbrev pub Carries : NodeId → GlobalMonitorId → InputEvent F → RouteAction F → Type 0
  Carries this t event (deliver target e) = (t.node ≡ this) × (target ≡ t.monitor) × (e ≡ event)
  Carries this t event (remote node frame) =
      (t.node ≢ this) × (node ≡ t.node) × (frame.target ≡ t.monitor) × (frame.event ≡ event)
  Carries this t event _ = ⊥

  -- The actions hand over the events, one each, in order.
  abbrev pub CarryAll :
      NodeId → GlobalMonitorId → List (InputEvent F) → List (RouteAction F) → Type 0
  CarryAll this t [] [] = Unit {0}
  CarryAll this t (e ∷ es) (a ∷ acts) = Carries this t e a × CarryAll this t es acts
  CarryAll this t _ _ = ⊥

  pub emit_lem :
      (t : GlobalMonitorId) (e : InputEvent F) (o : Out F)
      → (a : RouteAction F) × ((emit t e o).1 ≡ o.1 ++ a ∷ []) × Carries o.0.this_node t e a
  unfolding emit
  emit_lem t e o = elim (Bool-cases (t.node == o.0.this_node)) [
    | inl here ↦
        (deliver t.monitor e, rw here, (node_eq_sound t.node o.0.this_node here, refl, refl))
    | inr away ↦ (
      remote t.node (record { seq = (next_seq o.0 t.node).1; target = t.monitor; event = e }),
      rw away,
      ((λ same. absurd (ground arith)), refl, refl, refl),
    )
  ]

  emit_all_lem :
      (t : GlobalMonitorId) (es : List (InputEvent F)) (o : Out F)
      → (acts : List (RouteAction F)) × ((emit_all t es o).1 ≡ o.1 ++ acts)
        × CarryAll o.0.this_node t es acts
  unfolding emit_all
  emit_all_lem t [] o = ([], sym (append-nil o.1), tt)
  emit_all_lem t (e ∷ es) o =
      let (a, one, carries) = emit_lem t e o in
      let (acts, rest, all) = emit_all_lem t es (emit t e o) in
      (
        a ∷ acts,
        rest ∙ ap (λ x. x ++ acts) one ∙ append_assoc o.1 (a ∷ []) acts,
        (carries, subst (λ n. CarryAll n t es acts) (emit-this_node t e o) all),
      )

  -- The losing side is told to let go: this node by an injected event, a peer by `yield`.
  abbrev pub leave_action : NodeId → GlobalMonitorId → RouteAction F
  leave_action this from =
      if from.node == this then deliver from.monitor release_control else yield from.node

  -- A gaining peer is told to take over; this node needs no message.
  abbrev pub take_actions : NodeId → GlobalMonitorId → NormPos F → Edge → List (RouteAction F)
  take_actions this to entry via =
      if to.node == this then [] else handoff to.node to.monitor entry via ∷ []

  -- The releases, then the message that ends the ownership.
  abbrev pub Left : InputRouter F → GlobalMonitorId → Out F → Type 0
  Left r from o =
      (releases : List (RouteAction F)) × (o.1 ≡ releases ++ leave_action r.this_node from ∷ [])
      × CarryAll r.this_node from (release_events r.held) releases
      × (o.0.held ≡ nothing_held)
      × (o.0.this_node ≡ r.this_node)

  let_go_lem :
      (from : GlobalMonitorId) (r : InputRouter F)
      → (acts : List (RouteAction F)) × ((let_go from (r, [])).1 ≡ acts)
        × CarryAll r.this_node from (release_events r.held) acts
        × ((let_go from (r, [])).0.held ≡ nothing_held)
  unfolding let_go clear nothing_held
  let_go_lem from r =
      let (acts, e, all) = emit_all_lem from (release_events r.held) (r, []) in (acts, e, all, refl)

  pub emit-held :
      (t : GlobalMonitorId) (e : InputEvent F) (o : Out F) → (emit t e o).0.held ≡ o.0.held
  unfolding emit next_seq
  emit-held t e o = ground arith

  emit_here :
      (t : GlobalMonitorId) (e : InputEvent F) (o : Out F)
      → (t.node == o.0.this_node) ≡ true
      → emit t e o ≡ (o.0, o.1 ++ deliver t.monitor e ∷ [])
  unfolding emit
  emit_here t e o h = rw h

  -- `transfer` up to the handoff.
  left_lem :
      (from : GlobalMonitorId) (r : InputRouter F)
      → Left r from (
          if from.node == r.this_node
          then emit from release_control (let_go from (r, []))
          else push_action (yield from.node) (let_go from (r, [])))
  left_lem from r =
      let (acts, e, all, held) = let_go_lem from r in
      let this = let_go-this_node from (r, []) in
      elim (Bool-cases (from.node == r.this_node)) [
        | inl here ↦
            let there = ap (λ n. from.node == n) this ∙ here in
            rw (here, emit_here from release_control (let_go from (r, [])) there)
              (acts, ap (λ x. x ++ deliver from.monitor release_control ∷ []) e, all, held, this)
        | inr away ↦ rw away (acts, ap (λ x. x ++ yield from.node ∷ []) e, all, held, this)
      ]

  -- When control moves between two nodes, the actions come in this order: an up event for every
  -- button and key held and for every stranded modifier, all addressed to the monitor that loses
  -- control; then the message that ends its ownership; then, unless this node gains control, the
  -- handoff to the node that does. Afterwards nothing counts as held.
  pub transfer_order :
      (from to : GlobalMonitorId) (entry : NormPos F) (via : Edge) (r : InputRouter F)
      → (from.node == to.node) ≡ false
      → (releases : List (RouteAction F)) × ((transfer from to entry via (r, [])).1
          ≡ releases ++ (leave_action r.this_node from ∷ take_actions r.this_node to entry via))
        × CarryAll r.this_node from (release_events r.held) releases
        × ((transfer from to entry via (r, [])).0.held ≡ nothing_held)
        × ((transfer from to entry via (r, [])).0.this_node ≡ r.this_node)
  unfolding transfer
  transfer_order from to entry via r across =
      let (releases, e, all, held, this) = left_lem from r in
      elim (Bool-cases (to.node == r.this_node)) [
        | inl here ↦ rw (across, here) (releases, e, all, held, this)
        | inr away ↦
            rw (across, away)
              (
                releases,
                ap (λ x. x ++ handoff to.node to.monitor entry via ∷ []) e
                    ∙ append_assoc releases (leave_action r.this_node from ∷ []) _,
                all,
                held,
                this,
              )
      ]
