-- ===== src/Platform/X11/Inject/Typing.antt =====
-- inject.rs: the keys and the text of inject_key, as steps of the injector.
use win_xtend.Prelude.{
  ℕ, ◌+◌, Bool, true, false, not, ◌&&◌, leb, if◌then◌else◌, Option, none, some, List, [], ◌∷◌,
}
use win_xtend.Prelude.Results.{Result, ok, err}
use win_xtend.Proto.Keyboard.{
  SpecialKey, KeyPayload, special, text, raw_key_code, KeyEvent, injection_modifiers, is_modifier,
}
use win_xtend.Platform.Accent.{decompose}
use win_xtend.Platform.Keys.{evdev_code, char_keysyms}
use win_xtend.Platform.X11.Keymap.{
  Keymap, LevelMods, no_level, Stroke, stroke_for_any, keycode_of, keysym_from_special,
}
use win_xtend.Platform.X11.Inject.{
  Sink, ◌>>=◌, return, fail, PlatformError, unsupported, missing_level_key,
}
use win_xtend.Platform.X11.Inject.Keys.{
  Resolved, or_false, is_release, at_levels, reachable, composed, by_accent, resolve, tap, type_all,
  type_one, inject_text, usual_keycode, keycode_in, special_keycode, plain_key, inject_payload,
  inject_key,
}
use win_xtend.Platform.X11.Inject.Monad.{
  Keeps, bind_keeps, then_keeps, if_keeps, return_keeps, fail_keeps, try_keymap_keeps,
  try_caps_locked_keeps, ask_keymap_keeps,
}
use win_xtend.Platform.X11.Inject.Moves.{
  send_key_keeps, sync_chord_keeps, sync_level_keeps, forward_modifier_keeps,
}

module _ {F : Type 0} (k : Sink) where
  at_levels_keeps :
      (keymap : Keymap) (keycode : ℕ) (mods : LevelMods)
      → Keeps {F = F} (at_levels k keymap keycode mods)
  at_levels_keeps keymap keycode mods = go keymap.level3
    where
      go :
          (third : Option ℕ)
          → Keeps {F = F} {A = Resolved} (elim third [
            | none ↦
                if mods.level3
                then fail (unsupported missing_level_key)
                else return (record { keycode = keycode; mods = mods })
            | some third ↦ return (record { keycode = keycode; mods = mods })
          ])
      go none = if_keeps mods.level3 _ _ fail_keeps return_keeps
      go (some t) = return_keeps

  reachable_keeps : (keymap : Keymap) (s : Stroke) → Keeps {F = F} (reachable k keymap s)
  unfolding reachable
  reachable_keeps keymap s =
      if_keeps (s.alphabetic && keymap.caps_is_lock) _ _
        (bind_keeps (try_caps_locked_keeps k) (λ locked.
          at_levels_keeps keymap s.keycode (record (s.mods) {
            shift = if or_false locked then not s.mods.shift else s.mods.shift;
          })))
        (at_levels_keeps keymap s.keycode s.mods)

  composed_keeps :
      (keymap : Keymap) (dead base : Option Stroke) → Keeps {F = F} (composed k keymap dead base)
  composed_keeps keymap (some dead) (some base) =
      bind_keeps (reachable_keeps keymap dead)
        (λ first. bind_keeps (reachable_keeps keymap base) (λ second. return_keeps))
  composed_keeps keymap none base = fail_keeps
  composed_keeps keymap (some dead) none = fail_keeps

  by_accent_keeps :
      (keymap : Keymap) (parts : Option (ℕ × ℕ)) → Keeps {F = F} (by_accent k keymap parts)
  by_accent_keeps keymap none = fail_keeps
  by_accent_keeps keymap (some (base, mark)) = composed_keeps keymap _ _

  resolve_keeps : (c : ℕ) → Keeps {F = F} (resolve k c)
  unfolding resolve
  resolve_keeps c =
      bind_keeps (ask_keymap_keeps k) (λ keymap. go keymap (stroke_for_any keymap (char_keysyms c)))
    where
      go :
          (keymap : Keymap) (direct : Option Stroke)
          → Keeps {F = F} (elim direct [
            | some s ↦ (do only ← reachable k keymap s; return (only ∷ []))
            | none ↦ by_accent k keymap (decompose c)
          ])
      go keymap (some s) = bind_keeps (reachable_keeps keymap s) (λ only. return_keeps)
      go keymap none = by_accent_keeps keymap (decompose c)

  tap_keeps : (strokes : List Resolved) → Keeps {F = F} (tap k strokes)
  unfolding tap
  tap_keeps [] = sync_level_keeps k no_level
  tap_keeps (s ∷ more) = then_keeps (sync_level_keeps k s.mods) (
      then_keeps (send_key_keeps k s.keycode false)
        (then_keeps (send_key_keeps k s.keycode true) (tap_keeps more)))

  type_all_keeps : (cs : List ℕ) → Keeps {F = F} (type_all k cs)
  unfolding type_all
  type_all_keeps [] = return_keeps
  type_all_keeps (c ∷ more) =
      bind_keeps (resolve_keeps c) (λ strokes. then_keeps (tap_keeps strokes) (type_all_keeps more))

  type_one_keeps :
      (strokes : List Resolved) (is_up : Bool) → Keeps {F = F} (type_one k strokes is_up)
  type_one_keeps (only ∷ []) is_up = then_keeps (sync_level_keeps k only.mods) (
      then_keeps (send_key_keeps k only.keycode is_up)
        (if_keeps is_up _ _ (sync_level_keeps k no_level) return_keeps))
  type_one_keeps [] is_up = if_keeps is_up _ _ return_keeps (tap_keeps [])
  type_one_keeps (a ∷ b ∷ more) is_up = if_keeps is_up _ _ return_keeps (tap_keeps (a ∷ b ∷ more))

  inject_text_keeps :
      (t : List ℕ) (event : KeyEvent) (is_up : Bool) → Keeps {F = F} (inject_text k t event is_up)
  unfolding inject_text
  inject_text_keeps [] event is_up = return_keeps
  inject_text_keeps (c ∷ []) event is_up = bind_keeps (resolve_keeps c) (λ strokes.
      then_keeps (sync_chord_keeps k (injection_modifiers event)) (type_one_keeps strokes is_up))
  inject_text_keeps (c ∷ d ∷ rest) event is_up =
      if_keeps is_up _ _ return_keeps (
        then_keeps (sync_chord_keeps k (injection_modifiers event)) (type_all_keeps (c ∷ d ∷ rest)))

  special_keycode_keeps : (key : SpecialKey) → Keeps {F = F} (special_keycode k key)
  unfolding special_keycode
  special_keycode_keeps key = bind_keeps (try_keymap_keeps k) answered_keeps
    where
      usual_keeps : Keeps {F = F} (usual_keycode k key)
      usual_keeps = if_keeps (leb (evdev_code key + 8) 255) _ _ return_keeps fail_keeps

      go :
          (found : Option ℕ)
          → Keeps {F = F}
              (elim found [ some keycode ↦ return keycode | none ↦ usual_keycode k key ])
      go (some keycode) = return_keeps
      go none = usual_keeps

      answered_keeps :
          (answer : Result PlatformError Keymap) → Keeps {F = F} (keycode_in k answer key)
      answered_keeps (ok keymap) = go (keycode_of keymap (keysym_from_special key))
      answered_keeps (err e) = usual_keeps

  plain_key_keeps :
      (keycode : ℕ) (event : KeyEvent) (is_up : Bool)
      → Keeps {F = F} (plain_key k keycode event is_up)
  plain_key_keeps keycode event is_up =
      then_keeps (sync_chord_keeps k (injection_modifiers event))
        (then_keeps (sync_level_keeps k no_level) (send_key_keeps k keycode is_up))

  inject_payload_keeps :
      (p : KeyPayload) (event : KeyEvent) (is_up : Bool)
      → Keeps {F = F} (inject_payload k p event is_up)
  inject_payload_keeps (special key) event is_up =
      bind_keeps (special_keycode_keeps key) (λ keycode.
        if_keeps (is_modifier key) _ _ (forward_modifier_keeps k keycode is_up)
          (plain_key_keeps keycode event is_up))
  inject_payload_keeps (text t) event is_up = inject_text_keeps t event is_up
  inject_payload_keeps (raw_key_code code) event is_up =
      if_keeps (leb code 255) _ _ (plain_key_keeps code event is_up) fail_keeps

  pub inject_key_keeps : (event : KeyEvent) → Keeps {F = F} (inject_key k event)
  unfolding inject_key
  inject_key_keeps event = inject_payload_keeps event.payload event (is_release event.action)
