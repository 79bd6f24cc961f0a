-- ===== src/Platform/X11/Inject/Pointer.antt =====
-- inject.rs: motion, buttons and the wheel. `v as i16` and `v as i32` of a number in range are a
-- parameter.
use win_xtend.Prelude.{
  ℕ, zero, suc, ◌+◌, Bool, true, false, not, ◌&&◌, ◌==◌, leb, if◌then◌else◌, Option, none, some,
  min,
}
use win_xtend.Prelude.Int.{ℤ, pos, negsuc}
use win_xtend.Prelude.Results.{err}
use win_xtend.Proto.Float.{
  Floats, of_int, of_nat, f_add, f_sub, f_div, f_trunc, is_finite, clamp_in,
}
use win_xtend.Proto.Geom.{Monitor, NormPos, Point}
use win_xtend.Proto.Input.{
  MouseButton, left, right, middle, back, forward, extra, ScrollUnit, lines, pixels, PointerEvent,
  move_to, move_by, button, scroll,
}
use win_xtend.Platform.Coords.{local_point}
use win_xtend.Platform.X11.Inject.{
  Sink, M, ◌>>◌, return, fail, update, reading, send, track, motion, button_request, held_button,
  unsupported, this_mouse_button, panicked,
}

unfoldable pub x11_button : MouseButton → Option ℕ
x11_button left = some 1
x11_button middle = some 2
x11_button right = some 3
x11_button back = some 8
x11_button forward = some 9
x11_button (extra n) = if leb (10 + n) 255 then some (10 + n) else none

abbrev pub max_scroll_clicks : ℕ
max_scroll_clicks = 64

-- `unsigned_abs`, and `>= 0`.
abbrev pub unsigned_abs : ℤ → ℕ
unsigned_abs (pos n) = n
unsigned_abs (negsuc n) = suc n

abbrev pub not_negative : ℤ → Bool
not_negative (pos n) = true
not_negative (negsuc n) = false

abbrev pub is_zero : ℤ → Bool
is_zero z = unsigned_abs z == 0

module _ {F : Type 0} ⦃fl : Floats F⦄ (as_int : F → ℤ) where
  unfoldable pub clamp_i16 : F → ℤ
  clamp_i16 v = as_int (clamp_in v (of_int (negsuc 32767)) (of_int (pos 32767)))

  unfoldable pub clamp_i32 : F → ℤ
  clamp_i32 v = as_int (clamp_in v (of_int (negsuc 2147483647)) (of_int (pos 2147483647)))

  abbrev banked : F → F → F
  banked so_far d = if is_finite d then f_add so_far d else so_far

  -- What is left of the motion, and the whole pixels.
  unfoldable pub take_motion : F × F → F → F → (F × F) × (ℤ × ℤ)
  unfolding clamp_i16
  take_motion acc dx dy =
      let x = banked acc.0 dx in
      let y = banked acc.1 dy in
      ((f_sub x (f_trunc x), f_sub y (f_trunc y)), (clamp_i16 (f_trunc x), clamp_i16 (f_trunc y)))

  unfoldable pub take_scroll : F × F → F → F → (F × F) × (ℤ × ℤ)
  unfolding clamp_i32
  take_scroll acc dx dy =
      let x = banked acc.0 dx in
      let y = banked acc.1 dy in
      ((f_sub x (f_trunc x), f_sub y (f_trunc y)), (clamp_i32 (f_trunc x), clamp_i32 (f_trunc y)))

  abbrev pub detents : ScrollUnit → F → F
  detents lines v = v
  detents pixels v = f_div v (of_nat 10)

  module _ (k : Sink) where
    abbrev pub move_to_point : Option (Point F) → M F (Unit {0})
    move_to_point none s = (s, err panicked)
    move_to_point (some p) s = send k (motion (clamp_i16 p.x) (clamp_i16 p.y) false) s

    unfoldable pub move_absolute : Monitor F → NormPos F → M F (Unit {0})
    unfolding clamp_i16 send
    move_absolute monitor p = move_to_point (local_point monitor p)

    unfoldable pub move_relative : F → F → M F (Unit {0})
    unfolding take_motion send
    move_relative dx dy = reading (λ i.
        let taken = take_motion i.relative dx dy in
        do
          update (λ j. record j { relative = taken.0 })
          if is_zero taken.1.0 && is_zero taken.1.1
              then return tt
              else send k (motion taken.1.0 taken.1.1 true))

    abbrev pub press_button : Option ℕ → Bool → M F (Unit {0})
    press_button none pressed = fail (unsupported this_mouse_button)
    press_button (some code) pressed = do
      send k (button_request code pressed)
      track (held_button code) (not pressed)

    unfoldable pub inject_button : MouseButton → Bool → M F (Unit {0})
    unfolding x11_button send track
    inject_button b pressed = press_button (x11_button b) pressed

    unfoldable pub clicks : ℕ → ℕ → M F (Unit {0})
    unfolding send
    clicks zero code = return tt
    clicks (suc more) code = do
      send k (button_request code true)
      send k (button_request code false)
      clicks more code

    unfoldable pub click_wheel : ℤ → ℕ → ℕ → M F (Unit {0})
    unfolding clicks
    click_wheel amount positive negative =
        clicks (min (unsigned_abs amount) max_scroll_clicks)
          (if not_negative amount then positive else negative)

    unfoldable pub inject_scroll : F → F → ScrollUnit → M F (Unit {0})
    unfolding take_scroll click_wheel
    inject_scroll dx dy unit = reading (λ i.
        let taken = take_scroll i.scroll (detents unit dx) (detents unit dy) in
        do
          update (λ j. record j { scroll = taken.0 })
          if is_zero taken.1.0 && is_zero taken.1.1
              then return tt
              else (do click_wheel taken.1.1 4 5; click_wheel taken.1.0 7 6))

    unfoldable pub inject_pointer : Monitor F → PointerEvent F → M F (Unit {0})
    unfolding move_absolute move_relative inject_button inject_scroll
    inject_pointer monitor (move_to p) = move_absolute monitor p
    inject_pointer monitor (move_by dx dy) = move_relative dx dy
    inject_pointer monitor (button b pressed) = inject_button b pressed
    inject_pointer monitor (scroll dx dy unit) = inject_scroll dx dy unit

  unfoldable pub warp_cursor : Sink → Monitor F → NormPos F → M F (Unit {0})
  unfolding move_absolute
  warp_cursor k monitor p = move_absolute k monitor p
