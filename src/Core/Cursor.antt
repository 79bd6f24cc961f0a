-- ===== src/Core/Cursor.antt =====
-- crates/wx-core/src/cursor.rs: the authoritative cursor. A result `none` is a panic of
-- `f64::clamp`.
pub mod Inside
pub mod Report
use win_xtend.Prelude.{
  Bool, true, false, not, ◌&&◌, if◌then◌else◌, Option, none, some, ◌>>=◌, map_option, unwrap_or,
  find_first,
}
use win_xtend.Proto.Ids.{GlobalMonitorId}
use win_xtend.Proto.Edge.{Edge}
use win_xtend.Proto.Float.{
  Floats, f_add, f_sub, f_mul, f_lt, f_trunc, f_zero, f_one, f_half, is_finite,
}
use win_xtend.Proto.Geom.{
  Point, Rect, NormPos, is_empty, contains, clamp, normalize, denormalize, sanitized,
}
use win_xtend.Core.Layout.{Placement, GlobalLayout, placement, rect, iter}
use win_xtend.Core.Crossing.{Crossing, resolve_move}

pub data CursorMotion (F : Type 0) : Type 0 where
  moved : GlobalMonitorId → NormPos F → CursorMotion F
  transitioned : GlobalMonitorId → GlobalMonitorId → NormPos F → Edge → CursorMotion F
  blocked : GlobalMonitorId → NormPos F → CursorMotion F

pub data WarpError : Type 0 where
  unknown_monitor degenerate_monitor : GlobalMonitorId → WarpError

-- `Result<A, WarpError>`.
pub data Warp (A : Type 0) : Type 0 where
  ok : A → Warp A
  err : WarpError → Warp A

pub record VirtualCursor (F : Type 0) : Type 0 where
  pub monitor : GlobalMonitorId
  pub pos : Point F
  pub remainder : Point F
  pub last_norm : NormPos F
  pub locked : Bool

-- `CursorMotion::monitor`, `pos` and `is_transition`.
module _ {F : Type 0} where
  abbrev pub monitor_after : CursorMotion F → GlobalMonitorId
  monitor_after (moved monitor pos) = monitor
  monitor_after (blocked monitor pos) = monitor
  monitor_after (transitioned from to entry via) = to

  abbrev pub pos_after : CursorMotion F → NormPos F
  pos_after (moved monitor pos) = pos
  pos_after (blocked monitor pos) = pos
  pos_after (transitioned from to entry via) = entry

  abbrev pub is_transition : CursorMotion F → Bool
  is_transition (moved monitor pos) = false
  is_transition (blocked monitor pos) = false
  is_transition (transitioned from to entry via) = true

  unfoldable pub usable_rect : GlobalLayout F → GlobalMonitorId → Warp Rect
  usable_rect l monitor = elim (rect l monitor) [
    | none ↦ err (unknown_monitor monitor)
    | some r ↦ if is_empty r then err (degenerate_monitor monitor) else ok r
  ]

  unfoldable pub set_locked : VirtualCursor F → Bool → VirtualCursor F
  set_locked c locked = record c { locked = locked }

  unfoldable pub toggle_lock : VirtualCursor F → VirtualCursor F × Bool
  toggle_lock c = (record c { locked = not c.locked }, not c.locked)

module _ {F : Type 0} ⦃fl : Floats F⦄ where
  abbrev pub origin_point : Point F
  origin_point = record { x = f_zero; y = f_zero }

  -- The scale after `as f64`.
  unfoldable pub effective_scale : F → F
  effective_scale s = if is_finite s && f_lt f_zero s then s else f_one

  unfoldable pub sanitize_delta : F → F
  sanitize_delta d = if is_finite d then d else f_zero

  -- The position and `last_norm` after `renormalize`.
  unfoldable pub renormalize : VirtualCursor F → Rect → VirtualCursor F
  renormalize c r = record c { last_norm = sanitized (normalize r c.pos) }

  unfoldable pub at : GlobalLayout F → GlobalMonitorId → NormPos F → Option (Warp (VirtualCursor F))
  at l monitor entry = elim (usable_rect l monitor) [
    | err e ↦ some (err e)
    | ok r ↦ (do
      pos ← clamp r (denormalize r (sanitized entry))
      some (
          ok (record {
            monitor = monitor;
            pos = pos;
            remainder = origin_point;
            last_norm = sanitized (normalize r pos);
            locked = false;
          })))
  ]

  abbrev to_option : Warp (VirtualCursor F) → Option (VirtualCursor F)
  to_option (ok c) = some c
  to_option (err e) = none

  unfoldable pub anywhere : GlobalLayout F → Option (Option (VirtualCursor F))
  anywhere l = elim (find_first (λ p. not (is_empty p.global_bounds)) (iter l)) [
    | none ↦ some none
    | some p ↦ (do
      placed ← at l p.monitor (record { x = f_half; y = f_half })
      some (to_option placed))
  ]

  unfoldable pub norm_position : VirtualCursor F → GlobalLayout F → NormPos F
  norm_position c l = elim (rect l c.monitor) [
    | none ↦ c.last_norm
    | some r ↦ if is_empty r then c.last_norm else sanitized (normalize r c.pos)
  ]

  -- The closure `keep` of `accumulate`, and the last expression there.
  abbrev or_zero : F → F
  or_zero v = if is_finite v then v else f_zero

  unfoldable pub accumulate : VirtualCursor F → F → F → VirtualCursor F × Point F
  accumulate c sx sy =
      let wx = f_add c.remainder.x sx in
      let wy = f_add c.remainder.y sy in
      let tx = f_trunc wx in
      let ty = f_trunc wy in
      (
        record c { remainder = record { x = or_zero (f_sub wx tx); y = or_zero (f_sub wy ty) } },
        record { x = or_zero tx; y = or_zero ty },
      )

  -- The three ways in which `move_by` ends once it has a target, on the cursor that has taken
  -- its step: still on the monitor, clamped to it, or across a seam.
  abbrev pub stay : VirtualCursor F → Rect → Point F → VirtualCursor F × CursorMotion F
  stay c r pos =
      let c' = renormalize (record c { pos = pos }) r in (c', moved c.monitor c'.last_norm)

  abbrev pub stop : VirtualCursor F → Rect → Point F → VirtualCursor F × CursorMotion F
  stop c r pos =
      let c' = renormalize (record c { pos = pos }) r in (c', blocked c.monitor c'.last_norm)

  abbrev pub cross :
      GlobalLayout F → VirtualCursor F → Rect → Crossing F → VirtualCursor F × CursorMotion F
  cross l c r crossing =
      let to_rect = unwrap_or (rect l crossing.to) r in
      let c' =
        renormalize
          (record c { monitor = crossing.to; pos = crossing.entry; remainder = origin_point })
          to_rect in
      (c', transitioned c.monitor crossing.to c'.last_norm crossing.via)

  unfoldable pub block :
      VirtualCursor F → Rect → Point F → Option (VirtualCursor F × CursorMotion F)
  block c r target = do pos ← clamp r target; some (stop c r pos)

  -- The match on the result of `resolve_move`.
  unfoldable pub cross_or_block :
      GlobalLayout F
      → VirtualCursor F
      → Rect
      → Point F
      → Option (Crossing F)
      → Option (VirtualCursor F × CursorMotion F)
  cross_or_block l c r target none = block c r target
  cross_or_block l c r target (some crossing) = some (cross l c r crossing)

  -- Behind the test `rect.contains(target)`; the Boolean is the lock.
  unfoldable pub outside :
      GlobalLayout F
      → VirtualCursor F
      → Rect
      → Point F
      → Bool
      → Option (VirtualCursor F × CursorMotion F)
  outside l c r target true = block c r target
  outside l c r target false = do
    crossing ← resolve_move l c.monitor c.pos target
    cross_or_block l c r target crossing

  unfoldable pub settle :
      GlobalLayout F → VirtualCursor F → Rect → Point F → Option (VirtualCursor F × CursorMotion F)
  settle l c r target =
      if contains r target then some (stay c r target) else outside l c r target c.locked

  -- `move_by` on a monitor that is in the layout.
  unfoldable pub move_on :
      GlobalLayout F
      → VirtualCursor F
      → F
      → F
      → Placement F
      → Option (VirtualCursor F × CursorMotion F)
  move_on l c dx dy p =
      if is_empty p.global_bounds
      then some (c, blocked c.monitor c.last_norm)
      else let scale = effective_scale p.cursor_scale in
        let (c', step) =
          accumulate c (f_mul (sanitize_delta dx) scale) (f_mul (sanitize_delta dy) scale) in
        settle l c' p.global_bounds (record { x = f_add c.pos.x step.x; y = f_add c.pos.y step.y })

  unfoldable pub move_by :
      GlobalLayout F → VirtualCursor F → F → F → Option (VirtualCursor F × CursorMotion F)
  move_by l c dx dy = elim (placement l c.monitor) [
    | none ↦ some (c, blocked c.monitor c.last_norm)
    | some p ↦ move_on l c dx dy p
  ]

  unfoldable pub warp_to :
      GlobalLayout F
      → VirtualCursor F
      → GlobalMonitorId
      → NormPos F
      → Option (Warp (VirtualCursor F × NormPos F))
  warp_to l c monitor entry = elim (usable_rect l monitor) [
    | err e ↦ some (err e)
    | ok r ↦ (do
      pos ← clamp r (denormalize r (sanitized entry))
      let c' = renormalize (record c { monitor = monitor; pos = pos; remainder = origin_point }) r
      some (ok (c', c'.last_norm)))
  ]
