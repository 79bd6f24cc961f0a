-- ===== src/Core/Cursor/Inside.antt =====
-- cursor.rs: where a motion leaves the cursor, in a layout of sound rectangles.
use win_xtend.Prelude.{
  ◌≡◌, refl, ap, subst, ◌∙◌, sym, Bool, true, false, inl, inr, Option, none, some, map_option,
  arith, Bool-cases, some_inj,
}
use win_xtend.Prelude.Int.{pos}
use win_xtend.Proto.Ids.{GlobalMonitorId, gid_key}
use win_xtend.Proto.Float.{Floats, FloatLaws, f_add, f_mul, NotNan}
use win_xtend.Proto.Geom.{Point, Rect, is_empty, contains}
use win_xtend.Proto.Geom.Clamp.{clamp-contains}
use win_xtend.Core.Layout.{Placement, GlobalLayout, placement, rect}
use win_xtend.Core.Crossing.{Crossing}
use win_xtend.Core.Crossing.Landing.{IsFinite, contains-IsFinite}
use win_xtend.Core.Crossing.Total.{IsSoundLayout, Inside, Arrives, resolve_move_total}
use win_xtend.Core.Cursor.{
  VirtualCursor, CursorMotion, stay, stop, cross, block, cross_or_block, outside, settle, move_on,
  accumulate, move_by, renormalize, effective_scale, sanitize_delta,
}

module _ {F : Type 0} ⦃fl : Floats F⦄ (laws : FloatLaws fl) (l : GlobalLayout F)
    (s : IsSoundLayout l) where
  -- The cursor's position lies in the monitor that it is on.
  abbrev pub IsInside : VirtualCursor F → Type 0
  IsInside c = Inside l c.monitor c.pos

  -- The call returns, and leaves the cursor inside.
  abbrev pub Settles : Option (VirtualCursor F × CursorMotion F) → Type 0
  Settles m =
      (c : VirtualCursor F) × (motion : CursorMotion F) × (m ≡ some (c, motion)) × IsInside c

  block-Settles :
      (c : VirtualCursor F) (r : Rect) (target : Point F)
      → rect l c.monitor ≡ some r
      → is_empty r ≡ false
      → NotNan target.x
      → NotNan target.y
      → Settles (block c r target)
  unfolding block renormalize
  block-Settles c r target placed roomy hx hy =
      let (q, e, held) = clamp-contains laws r target (s.sound c.monitor r placed) roomy hx hy in
      (
        (stop c r q).0,
        (stop c r q).1,
        rw e,
        record { bounds = r; placed = placed; roomy = roomy; held = held },
      )

  cross-Settles :
      (c : VirtualCursor F) (r : Rect) (target : Point F) (x : Option (Crossing F))
      → rect l c.monitor ≡ some r
      → is_empty r ≡ false
      → NotNan target.x
      → NotNan target.y
      → Arrives l x
      → Settles (cross_or_block l c r target x)
  unfolding cross_or_block renormalize
  cross-Settles c r target none placed roomy hx hy a = block-Settles c r target placed roomy hx hy
  cross-Settles c r target (some x) placed roomy hx hy a =
      ((cross l c r x).0, (cross l c r x).1, refl, a)

  outside-Settles :
      (c : VirtualCursor F) (r : Rect) (target : Point F) (locked : Bool)
      → rect l c.monitor ≡ some r
      → is_empty r ≡ false
      → IsFinite c.pos
      → NotNan target.x
      → NotNan target.y
      → Settles (outside l c r target locked)
  unfolding outside
  outside-Settles c r target true placed roomy fin hx hy =
      block-Settles c r target placed roomy hx hy
  outside-Settles c r target false placed roomy fin hx hy =
      let (x, e, arrives) = resolve_move_total laws l s c.monitor c.pos target fin in
      rw e (cross-Settles c r target x placed roomy hx hy arrives)

  settle-Settles :
      (c : VirtualCursor F) (r : Rect) (target : Point F)
      → rect l c.monitor ≡ some r
      → is_empty r ≡ false
      → IsFinite c.pos
      → NotNan target.x
      → NotNan target.y
      → Settles (settle l c r target)
  unfolding settle renormalize
  settle-Settles c r target placed roomy fin hx hy = elim (Bool-cases (contains r target)) [
    | inl within ↦ rw within (
      (stay c r target).0,
      (stay c r target).1,
      refl,
      record { bounds = r; placed = placed; roomy = roomy; held = within },
    )
    | inr out ↦ rw out (outside-Settles c r target c.locked placed roomy fin hx hy)
  ]

  accumulate-IsFinite : (c : VirtualCursor F) (sx sy : F) → IsFinite (accumulate c sx sy).1
  unfolding accumulate
  accumulate-IsFinite c sx sy = (
    ground (arith, laws.finite_int (pos 0) (omega arith)),
    ground (arith, laws.finite_int (pos 0) (omega arith)),
  )

  move_on-Settles :
      (c : VirtualCursor F) (dx dy : F) (p : Placement F)
      → rect l c.monitor ≡ some p.global_bounds
      → IsInside c
      → Settles (move_on l c dx dy p)
  unfolding move_on accumulate
  move_on-Settles c dx dy p placed v =
      let same = some_inj (sym v.placed ∙ placed) in
      let roomy = subst (λ r. is_empty r ≡ false) same v.roomy in
      let here =
        contains-IsFinite laws v.bounds c.pos (s.sound c.monitor v.bounds v.placed) v.held in
      let scale = effective_scale p.cursor_scale in
      let sx = f_mul (sanitize_delta dx) scale in
      let sy = f_mul (sanitize_delta dy) scale in
      let (step_x, step_y) = accumulate-IsFinite c sx sy in
      let (c', step) = accumulate c sx sy in
      rw roomy (
        settle-Settles c' p.global_bounds
          (record { x = f_add c.pos.x step.x; y = f_add c.pos.y step.y }) placed roomy here
          (laws.add_not_nan c.pos.x step.x here.0 step_x)
          (laws.add_not_nan c.pos.y step.y here.1 step_y))

  rect-placement :
      (id : GlobalMonitorId) → rect l id ≡ map_option (λ q. q.global_bounds) (placement l id)
  unfolding rect placement
  rect-placement id = refl

  found-Settles :
      (c : VirtualCursor F) (dx dy : F) (found : Option (Placement F))
      → placement l c.monitor ≡ found
      → IsInside c
      → Settles (move_by l c dx dy)
  unfolding move_by
  found-Settles c dx dy none e v =
      let gone =
        sym v.placed ∙ rect-placement c.monitor ∙ ap (map_option (λ q. q.global_bounds)) e in
      absurd (cc gone)
  found-Settles c dx dy (some p) e v =
      let placed = rect-placement c.monitor ∙ ap (map_option (λ q. q.global_bounds)) e in
      rw (e, move_by) (move_on-Settles c dx dy p placed v)

  -- In a sound layout a motion never panics, whatever the deltas and the scale are, NaN and infinity
  -- included; and a cursor that was inside its monitor ends inside the monitor it is then on.
  pub move_by-IsInside :
      (c : VirtualCursor F) (dx dy : F) → IsInside c → Settles (move_by l c dx dy)
  move_by-IsInside c dx dy v = found-Settles c dx dy (placement l c.monitor) refl v
