-- ===== src/Core/Router/Keeps.antt =====
-- The rule by which a property of the actions passes through every operation of router.rs.
use win_xtend.Core.Router.Steps.{
  Op, moves, routes, warps, jumps, releases, lays_out, locks, toggles, step,
}
use win_xtend.Prelude.{
  ◌≡◌, refl, ap, subst, ◌∙◌, false, ◌==◌, inl, inr, if◌then◌else◌, Option, none, some, ◌>>=◌, List,
  [], ◌∷◌, ◌++◌, arith, Bool-cases, Option-cases, bind_some_keeps, some_inj,
}
use win_xtend.Proto.Ids.{NodeId, MonitorId, GlobalMonitorId}
use win_xtend.Proto.Edge.{Edge}
use win_xtend.Proto.Float.{Floats}
use win_xtend.Proto.Geom.{Point, NormPos}
use win_xtend.Proto.Input.{InputEvent, pointer, release_control, move_to, move_by as by}
use win_xtend.Core.Layout.{GlobalLayout}
use win_xtend.Core.Cursor.{
  VirtualCursor, CursorMotion, Warp, ok, err, moved, transitioned, blocked, move_by, warp_to,
}
use win_xtend.Core.Held.{HeldInput, release_events}
use win_xtend.Core.Transfer.{
  InputRouter, RouteAction, Out, yield, handoff, emit, emit_all, next_seq, let_go, transfer,
  push_action, set_locked, toggle_lock,
}
use win_xtend.Core.Router.{
  motion, after_motion, after_warp, observe, is_placed, rescue, route, warp, warp_via, release_all,
  set_layout, rehome, or_default,
}

-- A property of the state and the actions that emitting keeps.
pub record Keeps {F : Type 0} (P : Out F → Type 0) : Type 0 where
  pub on_emit : (t : GlobalMonitorId) (e : InputEvent F) (o : Out F) → P o → P (emit t e o)
  pub on_held :
      (h : HeldInput) (r : InputRouter F) (out : List (RouteAction F))
      → P (r, out)
      → P (record r { held = h }, out)
  pub on_yield :
      (n : NodeId) (r : InputRouter F) (out : List (RouteAction F))
      → (n == r.this_node) ≡ false
      → P (r, out)
      → P (r, out ++ yield n ∷ [])
  pub on_handoff :
      (n : NodeId) (m : MonitorId) (entry : NormPos F) (via : Edge) (r : InputRouter F)
      → (out : List (RouteAction F)) → (n == r.this_node) ≡ false
      → P (r, out)
      → P (r, out ++ handoff n m entry via ∷ [])

module _ {F : Type 0} where
  -- Emitting and letting go never change which node the router runs on.
  pub emit-this_node :
      (t : GlobalMonitorId) (e : InputEvent F) (o : Out F)
      → (emit t e o).0.this_node ≡ o.0.this_node
  unfolding emit next_seq
  emit-this_node t e o = ground arith

  emit_all-this_node :
      (t : GlobalMonitorId) (es : List (InputEvent F)) (o : Out F)
      → (emit_all t es o).0.this_node ≡ o.0.this_node
  unfolding emit_all
  emit_all-this_node t [] o = refl
  emit_all-this_node t (e ∷ es) o = emit_all-this_node t es (emit t e o) ∙ emit-this_node t e o

  pub let_go-this_node :
      (from : GlobalMonitorId) (o : Out F) → (let_go from o).0.this_node ≡ o.0.this_node
  unfolding let_go
  let_go-this_node from o = emit_all-this_node from (release_events o.0.held) o

  -- The part of `transfer` between the releases and the handoff.
  abbrev pub leave : GlobalMonitorId → Out F → Out F
  leave from o =
      if from.node == o.0.this_node
      then emit from release_control (let_go from o)
      else push_action (yield from.node) (let_go from o)

  pub leave-this_node :
      (from : GlobalMonitorId) (o : Out F) → (leave from o).0.this_node ≡ o.0.this_node
  leave-this_node from o =
      ground (arith, let_go-this_node from o, emit-this_node from release_control (let_go from o))

module _ {F : Type 0} (P : Out F → Type 0) (keeps : Keeps P) where
  emit_all_keeps :
      (t : GlobalMonitorId) (es : List (InputEvent F)) (o : Out F) → P o → P (emit_all t es o)
  unfolding emit_all
  emit_all_keeps t [] o p = p
  emit_all_keeps t (e ∷ es) o p = emit_all_keeps t es (emit t e o) (keeps.on_emit t e o p)

  let_go_keeps : (from : GlobalMonitorId) (o : Out F) → P o → P (let_go from o)
  unfolding let_go
  let_go_keeps from o p = keeps.on_held _ _ _ (emit_all_keeps from (release_events o.0.held) o p)

  leave_keeps : (from : GlobalMonitorId) (o : Out F) → P o → P (leave from o)
  leave_keeps from o p = elim (Bool-cases (from.node == o.0.this_node)) [
    | inl here ↦
        rw here (keeps.on_emit from release_control (let_go from o) (let_go_keeps from o p))
    | inr away ↦ rw away (
        keeps.on_yield from.node _ _ (ap (λ n. from.node == n) (let_go-this_node from o) ∙ away)
          (let_go_keeps from o p))
  ]

  pub transfer_keeps :
      (from to : GlobalMonitorId) (entry : NormPos F) (via : Edge) (o : Out F)
      → P o
      → P (transfer from to entry via o)
  unfolding transfer
  transfer_keeps from to entry via o p = elim (Bool-cases (from.node == to.node)) [
    | inl same ↦ rw same p
    | inr across ↦ elim (Bool-cases (to.node == o.0.this_node)) [
      | inl here ↦ rw (across, here) (leave_keeps from o p)
      | inr away ↦
          rw (across, away)
            (keeps.on_handoff to.node to.monitor entry via _ _
              (ap (λ n. to.node == n) (leave-this_node from o) ∙ away) (leave_keeps from o p))
    ]
  ]

module _ {F : Type 0} ⦃fl : Floats F⦄ (P : Out F → Type 0) (keeps : Keeps P) (r : InputRouter F)
    (start : (c : VirtualCursor F) (l : GlobalLayout F) (h : HeldInput)
      → P (record r { cursor = c; layout = l; held = h }, [])) where
  after_motion_keeps :
      (c : VirtualCursor F) (before : Point F) (m : CursorMotion F)
      → P (after_motion (record r { cursor = c }) before m)
  unfolding after_motion
  after_motion_keeps c before (transitioned from to entry via) =
      keeps.on_emit to _ _ (transfer_keeps P keeps from to entry via _ (start c r.layout r.held))
  after_motion_keeps c before (moved monitor pos) = ground (
    arith,
    start c r.layout r.held,
    keeps.on_emit monitor (pointer (move_to pos)) _ (start c r.layout r.held),
  )
  after_motion_keeps c before (blocked monitor pos) = ground (
    arith,
    start c r.layout r.held,
    keeps.on_emit monitor (pointer (move_to pos)) _ (start c r.layout r.held),
  )

  motion_keeps : (dx dy : F) (o : Out F) → motion r dx dy ≡ some o → P o
  unfolding motion
  motion_keeps dx dy o =
      bind_some_keeps P (move_by r.layout r.cursor dx dy)
        (λ s. after_motion (record r { cursor = s.0 }) r.cursor.pos s.1)
        λ s _. after_motion_keeps s.0 r.cursor.pos s.1

  route_keeps : (event : InputEvent F) (o : Out F) → route r event ≡ some o → P o
  unfolding route
  route_keeps (pointer (by dx dy)) o e = motion_keeps dx dy o e
  route_keeps event o e =
      subst P (some_inj e)
        (keeps.on_emit r.cursor.monitor event _ (start r.cursor r.layout (observe event r.held)))

  after_warp_keeps :
      (l : GlobalLayout F) (monitor : GlobalMonitorId) (via : Edge)
      → (landed : Warp (VirtualCursor F × NormPos F))
      → let r' = record r { layout = l } in P (or_default r' (after_warp r' monitor via landed))
  unfolding after_warp
  after_warp_keeps l monitor via (err e) = start r.cursor l r.held
  after_warp_keeps l monitor via (ok (c, pos)) =
      keeps.on_emit monitor _ _
        (transfer_keeps P keeps r.cursor.monitor monitor pos via _ (start c l r.held))

  warp_via_keeps :
      (l : GlobalLayout F) (monitor : GlobalMonitorId) (entry : NormPos F) (via : Edge) (o : Out F)
      → let r' = record r { layout = l } in
        (warp_via r' monitor entry via >>= λ out. some (or_default r' out)) ≡ some o → P o
  unfolding warp_via
  warp_via_keeps l monitor entry via o e = elim (Option-cases (warp_to l r.cursor monitor entry)) [
    | inl h ↦ absurd (ground arith)
    | inr (landed, h) ↦ subst P (some_inj (rw h at e)) (after_warp_keeps l monitor via landed)
  ]

  rehome_keeps :
      (l : GlobalLayout F) (monitor : Option GlobalMonitorId) (o : Out F)
      → rehome (record r { layout = l }) monitor ≡ some o
      → P o
  unfolding rehome warp
  rehome_keeps l none o e = subst P (some_inj e) (start r.cursor l r.held)
  rehome_keeps l (some monitor) o e = warp_via_keeps l monitor _ _ o e

  set_layout_keeps : (l : GlobalLayout F) (o : Out F) → set_layout r l ≡ some o → P o
  unfolding set_layout
  set_layout_keeps l o e =
      let r' = record r { layout = l } in
      elim (Bool-cases (is_placed r')) [
        | inl placed ↦ subst P (some_inj (rw placed at e)) (start r.cursor l r.held)
        | inr lost ↦ rehome_keeps l (rescue r') o (rw lost at e)
      ]

  release_all_keeps : P (release_all r)
  unfolding release_all
  release_all_keeps = let_go_keeps P keeps r.cursor.monitor _ (start r.cursor r.layout r.held)

  -- A property of the actions that emitting keeps holds of the result of every call, if it holds of
  -- the router with no action yet, whatever its cursor, its layout and the keys held.
  pub step_keeps : (op : Op F) (o : Out F) → step r op ≡ some o → P o
  unfolding step set_locked toggle_lock warp
  step_keeps (moves dx dy) o e = motion_keeps dx dy o e
  step_keeps (routes event) o e = route_keeps event o e
  step_keeps (warps monitor entry via) o e = warp_via_keeps r.layout monitor entry via o e
  step_keeps (jumps monitor entry) o e = warp_via_keeps r.layout monitor entry _ o e
  step_keeps releases o e = subst P (some_inj e) release_all_keeps
  step_keeps (lays_out l) o e = set_layout_keeps l o e
  step_keeps (locks locked) o e = subst P (some_inj e) (start _ r.layout r.held)
  step_keeps toggles o e = subst P (some_inj e) (start _ r.layout r.held)
