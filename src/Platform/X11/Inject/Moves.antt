-- ===== src/Platform/X11/Inject/Moves.antt =====
-- inject.rs: send_key, sync_chord, sync_level and forward_modifier, as steps of the injector.
use win_xtend.Prelude.{ℕ, Bool, false, not, ◌&&◌, if◌then◌else◌, Option, none, some, List, [], ◌∷◌}
use win_xtend.Proto.Modifiers
use win_xtend.Platform.X11.Keymap.{LevelMods}
use win_xtend.Platform.X11.Inject.{
  Injector, Session, Sink, pass, ◌>>◌, update, send, send_key, track, tracked, answered,
  PlatformError, held_key, key_request, key_down, without_code,
}
use win_xtend.Platform.X11.Inject.Modifiers.{
  ModifierStep, apply, apply_chord, sync_chord, apply_level, sync_level, forward_modifier,
  pressed_after, chord_plan, level_plan, resolve_keys,
}
use win_xtend.Platform.X11.Inject.Monad.{
  Tidy, Keeps, bind_keeps, then_keeps, if_keeps, reading_keeps, return_keeps, update_keeps,
  ask_keymap_keeps, recorded_keeps,
}
use win_xtend.Platform.X11.Inject.Tracked.{track_key, step_key, take_over, forward_key}

module _ {F : Type 0} (k : Sink) where
  pub send_key_keeps : (code : ℕ) (release : Bool) → Keeps {F = F} (send_key k code release)
  unfolding send_key track
  send_key_keeps code release =
      recorded_keeps k (key_request code (not release))
        (λ i. record i { held = tracked (held_key code) release i.held })
        (λ i sent v. track_key v code release)

  apply_keeps : (t : ModifierStep) → Keeps {F = F} (apply k t)
  unfolding apply
  apply_keeps t = if_keeps (not t.physical) _ _ return_keeps (
      recorded_keeps k (key_request t.keycode (not t.release))
        (λ i. record i { pressed = pressed_after t i.pressed }) (λ i sent v. step_key v t))

  apply_chord_keeps : (plan : List (ℕ × ModifierStep)) → Keeps {F = F} (apply_chord k plan)
  unfolding apply_chord
  apply_chord_keeps [] = return_keeps
  apply_chord_keeps ((bit, t) ∷ more) = then_keeps (apply_keeps t) (
      then_keeps
        (update_keeps
          (λ i. record i {
            chord =
                if t.release then Modifiers.without i.chord bit else Modifiers.union i.chord bit;
          })
          (λ i sent v. v))
        (apply_chord_keeps more))

  pub sync_chord_keeps : (required : ℕ) → Keeps {F = F} (sync_chord k required)
  unfolding sync_chord
  sync_chord_keeps required =
      let wanted =
        Modifiers.without (Modifiers.without required Modifiers.caps_lock) Modifiers.num_lock in
      reading_keeps (λ i. if_keeps _ _ _ return_keeps (
        bind_keeps (ask_keymap_keeps k)
          (λ keymap. apply_chord_keeps (chord_plan i wanted (resolve_keys keymap)))))

  apply_level_keeps :
      (t : Option ModifierStep) (f : Injector F → Injector F)
      → Keeps (update f)
      → Keeps {F = F} (apply_level k t f)
  apply_level_keeps none f free = return_keeps
  apply_level_keeps (some t) f free = then_keeps (apply_keeps t) free

  pub sync_level_keeps : (required : LevelMods) → Keeps {F = F} (sync_level k required)
  unfolding sync_level
  sync_level_keeps required = reading_keeps (λ i. if_keeps _ _ _ return_keeps (
      bind_keeps (ask_keymap_keeps k) (λ keymap.
        let plan = level_plan i required (resolve_keys keymap) in
        let set_shift : Injector F → Injector F =
          λ j. record j { level = record (j.level) { shift = required.shift } } in
        let set_level3 : Injector F → Injector F =
          λ j. record j { level = record (j.level) { level3 = required.level3 } } in
        then_keeps (apply_level_keeps plan.0 set_shift (update_keeps set_shift (λ j sent v. v)))
          (apply_level_keeps plan.1 set_level3 (update_keeps set_level3 (λ j sent v. v))))))

  -- A key that is down already becomes the sender's.
  hand_over_keeps :
      (code : ℕ)
      → Keeps {F = F} (
          update (λ j. record j { pressed = without_code code j.pressed })
          >> track (held_key code) false)
  unfolding track
  hand_over_keeps code = record { runs = λ s v. take_over v code }

  forwarded_keeps :
      (code : ℕ) (release : Bool)
      → Keeps {F = F} (
          send_key k code release
          >> update (λ j. record j { pressed = without_code code j.pressed }))
  unfolding send_key track send
  forwarded_keeps code release = record {
    runs = λ s. go s (k.send s.calls (key_request code (not release)));
  }
    where
      go :
          (s : Session F) (a : Option PlatformError)
          → Tidy s
          → Tidy
              (pass
                (λ done. update (λ j. record j { pressed = without_code code j.pressed }))
                (pass
                  (λ done. track (held_key code) release)
                  (answered k (key_request code (not release)) a s))).0
      go s none v = forward_key v code release
      go s (some e) v = v

  pub forward_modifier_keeps :
      (code : ℕ) (release : Bool) → Keeps {F = F} (forward_modifier k code release)
  unfolding forward_modifier
  forward_modifier_keeps code release = reading_keeps (λ i.
      if_keeps (not release && key_down i code) _ _ (hand_over_keeps code)
        (forwarded_keeps code release))
