-- ===== src/Platform/X11/Inject/Histories.antt =====
-- inject.rs: release_all, inject, warp_cursor, and histories of them, as steps of the injector.
use win_xtend.Prelude.{ℕ, false, List, [], ◌∷◌}
use mathlib.Core.List.{reverse}
use win_xtend.Prelude.Int.{ℤ}
use win_xtend.Proto.Float.{Floats}
use win_xtend.Proto.Geom.{Monitor}
use win_xtend.Proto.Input.{InputEvent, pointer, key, release_control}
use win_xtend.Platform.X11.Inject.{Session, Sink, try_keymap, Held, key_request, without_code}
use win_xtend.Platform.X11.Inject.Release.{
  Call, injects, warps, releases, release_of, without_held, release_items, release_codes,
  modifier_release_order, is_idle, forget_motion, forget_all, release_all, inject, call,
  after_calls,
}
use win_xtend.Platform.X11.Inject.Tracked.{release_item, release_key}
use win_xtend.Platform.X11.Inject.Monad.{
  Tidy, Keeps, bind_keeps, then_keeps, if_keeps, reading_keeps, return_keeps, update_keeps,
  recorded_then_keeps,
}
use win_xtend.Platform.X11.Inject.Typing.{inject_key_keeps}
use win_xtend.Platform.X11.Inject.Pointing.{inject_pointer_keeps, warp_cursor_keeps}

module _ {F : Type 0} ⦃fl : Floats F⦄ where
  module _ (k : Sink) where
    pub release_items_keeps : (items : List Held) → Keeps {F = F} (release_items k items)
    unfolding release_items
    release_items_keeps [] = return_keeps
    release_items_keeps (item ∷ more) =
        recorded_then_keeps k (release_of item) (λ i. record i { held = without_held item i.held })
          (λ i sent v. release_item v item) (release_items_keeps more)

    pub release_codes_keeps : (codes : List ℕ) → Keeps {F = F} (release_codes k codes)
    unfolding release_codes
    release_codes_keeps [] = return_keeps
    release_codes_keeps (code ∷ more) =
        recorded_then_keeps k (key_request code false)
          (λ i. record i { pressed = without_code code i.pressed }) (λ i sent v. release_key v code)
          (release_codes_keeps more)

    modifier_release_order_keeps : Keeps {F = F} (modifier_release_order k)
    unfolding modifier_release_order try_keymap
    modifier_release_order_keeps = record { runs = λ s v. v }

    pub release_all_keeps : Keeps {F = F} (release_all k)
    unfolding release_all
    release_all_keeps = reading_keeps (λ i.
        if_keeps (is_idle i) _ _ (update_keeps forget_motion (λ j sent v. v)) (
          then_keeps (release_items_keeps (reverse i.held)) (
            bind_keeps modifier_release_order_keeps (λ codes.
              then_keeps (release_codes_keeps codes) (update_keeps forget_all (λ j sent v. v))))))

  module _ (k : Sink) (as_int : F → ℤ) where
    inject_keeps :
        (monitor : Monitor F) (event : InputEvent F) → Keeps (inject k as_int monitor event)
    unfolding inject
    inject_keeps monitor (pointer p) = inject_pointer_keeps as_int k monitor p
    inject_keeps monitor (key e) = inject_key_keeps k e
    inject_keeps monitor release_control = release_all_keeps k

    call_keeps : (c : Call F) → Keeps (call k as_int c)
    call_keeps (injects monitor event) = inject_keeps monitor event
    call_keeps (warps monitor p) = warp_cursor_keeps as_int k monitor p
    call_keeps releases = release_all_keeps k

    pub after_calls-Tidy :
        (s : Session F) (history : List (Call F)) → Tidy s → Tidy (after_calls k as_int s history)
    unfolding after_calls
    after_calls-Tidy s [] v = v
    after_calls-Tidy s (c ∷ more) v =
        after_calls-Tidy (call k as_int c s).0 more ((call_keeps c).runs s v)
