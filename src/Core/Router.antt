-- ===== src/Core/Router.antt =====
-- crates/wx-core/src/router.rs: where each captured event has to go. An operation returns the new
-- router and the actions in order; `none` is a panic of `f64::clamp`.
pub mod Steps
pub mod Keeps
pub mod Sequence
pub mod Numbering
pub mod Handover
pub mod Addressed
pub mod Release
pub mod Warping
use win_xtend.Prelude.{
  Bool, true, false, not, ◌&&◌, if◌then◌else◌, Option, none, some, ◌>>=◌, List, [], ◌∷◌, ◌++◌,
  find_first,
}
use win_xtend.Proto.Ids.{GlobalMonitorId}
use win_xtend.Proto.Edge.{Edge}
use win_xtend.Proto.Float.{Floats, f_sub, f_lt, f_eq, f_one, f_half}
use win_xtend.Proto.Geom.{Point, NormPos, is_empty, sanitized}
use win_xtend.Proto.Input.{
  InputEvent, PointerEvent, pointer, key, release_control, move_to, move_by as by, button, scroll,
}
use win_xtend.Core.Layout.{GlobalLayout, rect, iter, monitors_of}
use win_xtend.Core.Cursor.{
  VirtualCursor, CursorMotion, moved, transitioned, blocked, Warp, ok, err, move_by, warp_to,
}
use win_xtend.Core.Held.{HeldInput, observe_key, observe_button, clear}
use win_xtend.Core.Transfer.{InputRouter, RouteAction, Out, emit, transfer, let_go}

module _ {F : Type 0} where
  abbrev pub observe : InputEvent F → HeldInput → HeldInput
  observe (pointer (button b pressed)) h = observe_button h b pressed
  observe (key ev) h = observe_key h ev
  observe release_control h = clear h
  observe _ h = h

module _ {F : Type 0} ⦃fl : Floats F⦄ where
  -- `before != after` on points.
  abbrev differs : Point F → Point F → Bool
  differs a b = not (f_eq a.x b.x && f_eq a.y b.y)

  -- The body of `motion` behind `move_by`.
  unfoldable pub after_motion : InputRouter F → Point F → CursorMotion F → Out F
  after_motion r before (transitioned from to entry via) =
      emit to (pointer (move_to entry)) (transfer from to entry via (r, []))
  after_motion r before (moved monitor pos) =
      if differs r.cursor.pos before then emit monitor (pointer (move_to pos)) (r, []) else (r, [])
  after_motion r before (blocked monitor pos) =
      if differs r.cursor.pos before then emit monitor (pointer (move_to pos)) (r, []) else (r, [])

  unfoldable pub motion : InputRouter F → F → F → Option (Out F)
  motion r dx dy = do
    moved_to ← move_by r.layout r.cursor dx dy
    some (after_motion (record r { cursor = moved_to.0 }) r.cursor.pos moved_to.1)

  unfoldable pub route : InputRouter F → InputEvent F → Option (Out F)
  route r (pointer (by dx dy)) = motion r dx dy
  route r event = some (emit r.cursor.monitor event (record r { held = observe event r.held }, []))

  -- The body of `warp_via` behind `warp_to`.
  unfoldable pub after_warp :
      InputRouter F → GlobalMonitorId → Edge → Warp (VirtualCursor F × NormPos F) → Warp (Out F)
  after_warp r monitor via (err e) = err e
  after_warp r monitor via (ok (c, pos)) = ok (
      emit monitor (pointer (move_to pos))
        (transfer r.cursor.monitor monitor pos via (record r { cursor = c }, [])))

  unfoldable pub warp_via :
      InputRouter F → GlobalMonitorId → NormPos F → Edge → Option (Warp (Out F))
  warp_via r monitor entry via = do
    landed ← warp_to r.layout r.cursor monitor entry
    some (after_warp r monitor via landed)

  abbrev closer : F × Edge → F × Edge → F × Edge
  closer best candidate = if f_lt candidate.0 best.0 then candidate else best

  unfoldable pub nearest_edge : NormPos F → Edge
  nearest_edge entry =
      let e = sanitized entry in
      (closer (closer (closer (e.x, Edge.left) (f_sub f_one e.x, Edge.right)) (e.y, Edge.top))
        (f_sub f_one e.y, Edge.bottom)).1

  unfoldable pub warp : InputRouter F → GlobalMonitorId → NormPos F → Option (Warp (Out F))
  unfolding warp_via
  warp r monitor entry = warp_via r monitor entry (nearest_edge entry)

  unfoldable pub release_all : InputRouter F → Out F
  release_all r = let_go r.cursor.monitor (r, [])

  -- `unwrap_or_default` on the result of a warp; the router is left as it was on an error.
  abbrev pub or_default : InputRouter F → Warp (Out F) → Out F
  or_default r (ok out) = out
  or_default r (err e) = (r, [])

  -- The monitor that a lost cursor is moved to.
  unfoldable pub rescue : InputRouter F → Option GlobalMonitorId
  rescue r =
      elim (find_first (λ p. not (is_empty p.global_bounds))
        (monitors_of r.layout r.this_node ++ iter r.layout)) [
          | none ↦ none
          | some p ↦ some p.monitor
        ]

  -- `layout.rect(cursor.monitor())` is there and not empty.
  unfoldable pub is_placed : InputRouter F → Bool
  is_placed r = elim (rect r.layout r.cursor.monitor) [ none ↦ false | some b ↦ not (is_empty b) ]

  unfoldable pub rehome : InputRouter F → Option GlobalMonitorId → Option (Out F)
  rehome r none = some (r, [])
  rehome r (some monitor) = do
    out ← warp r monitor (record { x = f_half; y = f_half })
    some (or_default r out)

  unfoldable pub set_layout : InputRouter F → GlobalLayout F → Option (Out F)
  unfolding is_placed rescue rehome
  set_layout r layout =
      let r' = record r { layout = layout } in
      if is_placed r' then some (r', []) else rehome r' (rescue r')
