-- ===== src/Core/Cursor/Report.antt =====
-- cursor.rs: the report that a motion returns, beside the cursor that it leaves.
use win_xtend.Prelude.{
  ◌≡◌, refl, subst, Bool, true, false, Option, none, some, ◌>>=◌, inl, inr, Bool-cases, unwrap_or,
  map_or, ◌∙◌, ap, map_option,
}
use win_xtend.Proto.Float.{Floats, f_add, f_mul}
use win_xtend.Proto.Geom.{Point, Rect, is_empty, contains, clamp, normalize, sanitized}
use win_xtend.Core.Layout.{Placement, GlobalLayout, placement, rect}
use win_xtend.Core.Crossing.{Crossing, resolve_move}
use win_xtend.Core.Cursor.{
  VirtualCursor, CursorMotion, monitor_after, pos_after, is_transition, stop, block, cross_or_block,
  outside, settle, accumulate, move_on, move_by, renormalize, norm_position, cross, effective_scale,
  sanitize_delta,
}

module _ {F : Type 0} where
  -- The motion names the monitor and the position at which the cursor then is, as that monitor's
  -- rectangle gives it, the lock is as it was, a locked cursor crosses no seam, and without a crossing the monitor is the same.
  pub record IsReport ⦃fl : Floats F⦄ (l : GlobalLayout F) (before after : VirtualCursor F)
      (motion : CursorMotion F) : Type 0 where
    pub monitor_agrees : monitor_after motion ≡ after.monitor
    pub pos_agrees : pos_after motion ≡ after.last_norm
    pub pos_true : pos_after motion ≡ norm_position after l
    pub lock_kept : after.locked ≡ before.locked
    pub locked_stays : before.locked ≡ true → is_transition motion ≡ false
    pub stays : is_transition motion ≡ false → after.monitor ≡ before.monitor

  -- A motion that returns reports truly.
  abbrev Reports :
      ⦃fl : Floats F⦄
      → GlobalLayout F
      → VirtualCursor F
      → Option (VirtualCursor F × CursorMotion F)
      → Type 0
  Reports l c none = Unit
  Reports l c (some (after, motion)) = IsReport l c after motion

module _ {F : Type 0} ⦃fl : Floats F⦄ (l : GlobalLayout F) where
  -- A cursor that was renormalised by the rectangle of its monitor, or that has none.
  norm_true :
      (c : VirtualCursor F) (r : Rect) (found : Option Rect)
      → rect l c.monitor ≡ found
      → c.last_norm ≡ sanitized (normalize (unwrap_or found r) c.pos)
      → c.last_norm ≡ norm_position c l
  unfolding norm_position
  norm_true c r none e same = rw (norm_position, e) refl
  norm_true c r (some b) e same = elim (Bool-cases (is_empty b)) [
    | inl empty ↦ rw (norm_position, e, empty) refl
    | inr full ↦ rw (norm_position, e, full) same
  ]

  -- A cursor that stays where it was, on no monitor of the layout or on an empty one.
  norm_still :
      (c : VirtualCursor F) (found : Option Rect)
      → rect l c.monitor ≡ found
      → map_or true is_empty found ≡ true
      → c.last_norm ≡ norm_position c l
  unfolding norm_position
  norm_still c none e gone = rw (norm_position, e) refl
  norm_still c (some b) e empty = rw (norm_position, e, empty) refl

  -- Renormalised on its monitor, whatever the report is.
  ended :
      (c : VirtualCursor F) (r : Rect) (q : Point F) (motion : CursorMotion F)
      → rect l c.monitor ≡ some r
      → let after = renormalize (record c { pos = q }) r in
        monitor_after motion ≡ c.monitor
        → pos_after motion ≡ after.last_norm
        → is_transition motion ≡ false
        → IsReport l c after motion
  unfolding renormalize
  ended c r q motion there m p t = record {
    monitor_agrees = m;
    pos_agrees = p;
    pos_true = p ∙ norm_true (renormalize (record c { pos = q }) r) r (some r) there refl;
    lock_kept = refl;
    locked_stays = λ _. t;
    stays = λ _. refl;
  }

  stop-Reports :
      (c : VirtualCursor F) (r : Rect) (m : Option (Point F))
      → rect l c.monitor ≡ some r
      → Reports l c (m >>= λ q. some (stop c r q))
  unfolding renormalize
  stop-Reports c r none there = tt
  stop-Reports c r (some q) there = ended c r q _ there refl refl refl

  block-Reports :
      (c : VirtualCursor F) (r : Rect) (target : Point F)
      → rect l c.monitor ≡ some r
      → Reports l c (block c r target)
  unfolding block
  block-Reports c r target there = stop-Reports c r (clamp r target) there

  cross-Reports :
      (c : VirtualCursor F) (r : Rect) (target : Point F) (m : Option (Option (Crossing F)))
      → rect l c.monitor ≡ some r
      → c.locked ≡ false
      → Reports l c (m >>= λ x. cross_or_block l c r target x)
  unfolding cross_or_block renormalize
  cross-Reports c r target none there free = tt
  cross-Reports c r target (some none) there free = block-Reports c r target there
  cross-Reports c r target (some (some x)) there free = record {
    monitor_agrees = refl;
    pos_agrees = refl;
    pos_true = norm_true (cross l c r x).0 r (rect l x.to) refl refl;
    lock_kept = refl;
    locked_stays = λ locked. absurd (cc (locked, free));
    stays = λ same. absurd (cc same);
  }

  outside-Reports :
      (c : VirtualCursor F) (r : Rect) (target : Point F) (locked : Bool)
      → rect l c.monitor ≡ some r
      → c.locked ≡ locked
      → Reports l c (outside l c r target locked)
  unfolding outside
  outside-Reports c r target true there e = block-Reports c r target there
  outside-Reports c r target false there e =
      cross-Reports c r target (resolve_move l c.monitor c.pos target) there e

  settle-Reports :
      (c : VirtualCursor F) (r : Rect) (target : Point F)
      → rect l c.monitor ≡ some r
      → Reports l c (settle l c r target)
  unfolding settle renormalize
  settle-Reports c r target there = elim (Bool-cases (contains r target)) [
    | inl within ↦ rw within (ended c r target _ there refl refl refl)
    | inr out ↦ rw out (outside-Reports c r target c.locked there refl)
  ]

  -- The remainder is no part of the report.
  accumulate-Reports :
      (c : VirtualCursor F) (sx sy : F) (m : Option (VirtualCursor F × CursorMotion F))
      → Reports l (accumulate c sx sy).0 m
      → Reports l c m
  unfolding accumulate
  accumulate-Reports c sx sy none h = tt
  accumulate-Reports c sx sy (some (after, motion)) h = record {
    monitor_agrees = h.monitor_agrees;
    pos_agrees = h.pos_agrees;
    pos_true = h.pos_true;
    lock_kept = h.lock_kept;
    locked_stays = h.locked_stays;
    stays = h.stays;
  }

  still-Reports :
      (c : VirtualCursor F)
      → c.last_norm ≡ norm_position c l
      → IsReport l c c (CursorMotion.blocked c.monitor c.last_norm)
  still-Reports c same = record {
    monitor_agrees = refl;
    pos_agrees = refl;
    pos_true = same;
    lock_kept = refl;
    locked_stays = λ _. refl;
    stays = λ _. refl;
  }

  move_on-Reports :
      (c : VirtualCursor F) (dx dy : F) (p : Placement F)
      → rect l c.monitor ≡ some p.global_bounds
      → Reports l c (move_on l c dx dy p)
  unfolding move_on accumulate
  move_on-Reports c dx dy p there =
      let scale = effective_scale p.cursor_scale in
      let sx = f_mul (sanitize_delta dx) scale in
      let sy = f_mul (sanitize_delta dy) scale in
      let (c', step) = accumulate c sx sy in
      let target : Point F = record { x = f_add c.pos.x step.x; y = f_add c.pos.y step.y } in
      elim (Bool-cases (is_empty p.global_bounds)) [
        | inl empty ↦ rw empty (still-Reports c (norm_still c (some p.global_bounds) there empty))
        | inr roomy ↦ rw roomy (
            accumulate-Reports c sx sy (settle l c' p.global_bounds target)
              (settle-Reports c' p.global_bounds target there))
      ]

  abbrev bounds_of : Option (Placement F) → Option Rect
  bounds_of found = map_option (λ (p : Placement F). p.global_bounds) found

  found-Reports :
      (c : VirtualCursor F) (dx dy : F) (found : Option (Placement F))
      → placement l c.monitor ≡ found
      → Reports l c (move_by l c dx dy)
  unfolding move_by rect placement
  found-Reports c dx dy none e =
      rw (e, move_by) (still-Reports c (norm_still c none (ap bounds_of e) refl))
  found-Reports c dx dy (some p) e = rw (e, move_by) (move_on-Reports c dx dy p (ap bounds_of e))

  -- For every layout, cursor and delta: when `move_by` returns, the motion names the monitor on which
  -- the cursor then is and its normalised position there, the one that `norm_position` computes from
  -- that monitor's rectangle; the lock is as it was, a locked cursor makes no transition, and a
  -- motion that is no transition leaves the cursor on its monitor.
  pub move_by-IsReport :
      (c : VirtualCursor F) (dx dy : F) {after : VirtualCursor F} {motion : CursorMotion F}
      → move_by l c dx dy ≡ some (after, motion)
      → IsReport l c after motion
  move_by-IsReport c dx dy e =
      subst (Reports l c) e (found-Reports c dx dy (placement l c.monitor) refl)
