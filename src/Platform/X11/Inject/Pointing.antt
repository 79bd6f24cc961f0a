-- ===== src/Platform/X11/Inject/Pointing.antt =====
-- inject.rs: motion, buttons and the wheel, as steps of the injector.
use win_xtend.Prelude.{
  ℕ, zero, suc, ◌≡◌, refl, Bool, true, false, not, ◌&&◌, if◌then◌else◌, Option, none, some, List,
  ◌∷◌, min,
}
use win_xtend.Prelude.Int.{ℤ}
use win_xtend.Proto.Float.{Floats}
use win_xtend.Proto.Geom.{Monitor, NormPos, Point}
use win_xtend.Proto.Input.{MouseButton, ScrollUnit, PointerEvent, move_to, move_by, button, scroll}
use win_xtend.Platform.Coords.{local_point}
use win_xtend.Platform.X11.Inject.{
  Sink, send, track, tracked, Request, motion, button_request, held_button,
}
use win_xtend.Platform.X11.Inject.Pointer.{
  x11_button, max_scroll_clicks, unsigned_abs, not_negative, clamp_i16, take_motion, take_scroll,
  move_to_point, detents, is_zero, move_absolute, move_relative, press_button, inject_button,
  clicks, click_wheel, inject_scroll, inject_pointer, warp_cursor,
}
use win_xtend.Platform.X11.Inject.Tracked.{
  Covered, track_button, turn_wheel, move_pointer, is_wheel,
}
use win_xtend.Platform.X11.Inject.Monad.{
  Keeps, then_keeps, if_keeps, reading_keeps, return_keeps, fail_keeps, update_keeps, send_keeps,
  recorded_keeps,
}

module _ {F : Type 0} ⦃fl : Floats F⦄ (as_int : F → ℤ) (k : Sink) where
  motion_keeps : (x y : ℤ) (relative : Bool) → Keeps {F = F} (send k (motion x y relative))
  motion_keeps x y relative =
      send_keeps k (motion x y relative) (λ held pressed sent v. move_pointer v x y relative)

  move_to_point_keeps : (p : Option (Point F)) → Keeps (move_to_point as_int k p)
  move_to_point_keeps none = record { runs = λ s v. v }
  move_to_point_keeps (some p) = record {
    runs = (motion_keeps (clamp_i16 as_int p.x) (clamp_i16 as_int p.y) false).runs;
  }

  move_absolute_keeps :
      (monitor : Monitor F) (p : NormPos F) → Keeps (move_absolute as_int k monitor p)
  unfolding move_absolute
  move_absolute_keeps monitor p = move_to_point_keeps (local_point monitor p)

  move_relative_keeps : (dx dy : F) → Keeps (move_relative as_int k dx dy)
  unfolding move_relative
  move_relative_keeps dx dy = reading_keeps (λ i.
      let taken = take_motion as_int i.relative dx dy in
      then_keeps (update_keeps (λ j. record j { relative = taken.0 }) (λ j sent v. v)) (
        if_keeps (is_zero taken.1.0 && is_zero taken.1.1) _ _ return_keeps
          (motion_keeps taken.1.0 taken.1.1 true)))

  press_button_keeps :
      (code : Option ℕ) (pressed : Bool) → Keeps {F = F} (press_button as_int k code pressed)
  unfolding track
  press_button_keeps none pressed = fail_keeps
  press_button_keeps (some code) pressed =
      recorded_keeps k (button_request code pressed)
        (λ i. record i { held = tracked (held_button code) (not pressed) i.held })
        (λ i sent v. button_down v code pressed)
    where
      button_down :
          {held : _} {codes : List ℕ} {sent : List Request}
          → Covered held codes sent
          → (c : ℕ) (pressed : Bool)
          → Covered
              (tracked (held_button c) (not pressed) held)
              codes
              (button_request c pressed ∷ sent)
      button_down v c true = track_button v c false
      button_down v c false = track_button v c true

  inject_button_keeps :
      (b : MouseButton) (pressed : Bool) → Keeps {F = F} (inject_button as_int k b pressed)
  unfolding inject_button
  inject_button_keeps b pressed = press_button_keeps (x11_button b) pressed

  wheel_keeps :
      (code : ℕ) (press : Bool)
      → is_wheel code ≡ true
      → Keeps {F = F} (send k (button_request code press))
  wheel_keeps code press wheel =
      send_keeps k (button_request code press)
        (λ held pressed sent v. turn_wheel v code press wheel)

  clicks_keeps : (n code : ℕ) → is_wheel code ≡ true → Keeps {F = F} (clicks as_int k n code)
  unfolding clicks
  clicks_keeps zero code wheel = return_keeps
  clicks_keeps (suc more) code wheel =
      then_keeps (wheel_keeps code true wheel)
        (then_keeps (wheel_keeps code false wheel) (clicks_keeps more code wheel))

  click_wheel_keeps :
      (amount : ℤ) (positive negative : ℕ)
      → is_wheel positive ≡ true
      → is_wheel negative ≡ true
      → Keeps {F = F} (click_wheel as_int k amount positive negative)
  unfolding click_wheel
  click_wheel_keeps amount positive negative p n =
      clicks_keeps (min (unsigned_abs amount) max_scroll_clicks)
        (if not_negative amount then positive else negative) (either (not_negative amount))
    where
      either : (b : Bool) → is_wheel (if b then positive else negative) ≡ true
      either true = p
      either false = n

  inject_scroll_keeps : (dx dy : F) (unit : ScrollUnit) → Keeps (inject_scroll as_int k dx dy unit)
  unfolding inject_scroll
  inject_scroll_keeps dx dy unit = reading_keeps (λ i.
      let taken = take_scroll as_int i.scroll (detents as_int unit dx) (detents as_int unit dy) in
      then_keeps (update_keeps (λ j. record j { scroll = taken.0 }) (λ j sent v. v)) (
        if_keeps (is_zero taken.1.0 && is_zero taken.1.1) _ _ return_keeps (
          then_keeps (click_wheel_keeps taken.1.1 4 5 refl refl)
            (click_wheel_keeps taken.1.0 7 6 refl refl))))

  pub inject_pointer_keeps :
      (monitor : Monitor F) (p : PointerEvent F) → Keeps (inject_pointer as_int k monitor p)
  unfolding inject_pointer
  inject_pointer_keeps monitor (move_to p) = move_absolute_keeps monitor p
  inject_pointer_keeps monitor (move_by dx dy) = move_relative_keeps dx dy
  inject_pointer_keeps monitor (button b pressed) = inject_button_keeps b pressed
  inject_pointer_keeps monitor (scroll dx dy unit) = inject_scroll_keeps dx dy unit

  pub warp_cursor_keeps :
      (monitor : Monitor F) (p : NormPos F) → Keeps (warp_cursor as_int k monitor p)
  unfolding warp_cursor
  warp_cursor_keeps monitor p = move_absolute_keeps monitor p
