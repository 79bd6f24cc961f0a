-- ===== src/Platform/X11/Inject/Keys.antt =====
-- inject.rs: keys, and text by where the layout of the receiving desktop has it.
use win_xtend.Prelude.{
  ℕ, ◌+◌, Bool, true, false, not, ◌&&◌, leb, if◌then◌else◌, Option, none, some, List, [], ◌∷◌,
}
use win_xtend.Prelude.Results.{Result, ok, err}
use win_xtend.Proto.Keyboard.{
  KeyEvent, KeyAction, release, KeyPayload, text, special, raw_key_code, SpecialKey, is_modifier,
  injection_modifiers,
}
use win_xtend.Platform.Keys.{char_keysyms, dead_keysym, evdev_code}
use win_xtend.Platform.Accent.{decompose}
use win_xtend.Platform.X11.Keymap.{
  Keymap, Stroke, LevelMods, no_level, stroke, stroke_for_any, keycode_of, keysym_from_special,
}
use win_xtend.Platform.X11.Inject.{
  Sink, M, ◌>>=◌, ◌>>◌, return, fail, send_key, try_keymap, try_caps_locked, ask_keymap,
  PlatformError, unsupported, this_key, unaddressable_keycode, unreachable_character,
  missing_level_key,
}
use win_xtend.Platform.X11.Inject.Modifiers.{sync_chord, sync_level, forward_modifier}

pub record Resolved : Type 0 where
  pub keycode : ℕ
  pub mods : LevelMods

-- `unwrap_or(false)` of an answer.
abbrev pub or_false : Result PlatformError Bool → Bool
or_false (ok b) = b
or_false (err e) = false

abbrev pub is_release : KeyAction → Bool
is_release release = true
is_release other = false

module _ {F : Type 0} (k : Sink) where
  abbrev pub at_levels : Keymap → ℕ → LevelMods → M F Resolved
  at_levels keymap keycode mods = elim keymap.level3 [
    | none ↦
        if mods.level3
        then fail (unsupported missing_level_key)
        else return (record { keycode = keycode; mods = mods })
    | some third ↦ return (record { keycode = keycode; mods = mods })
  ]

  unfoldable pub reachable : Keymap → Stroke → M F Resolved
  unfolding try_caps_locked
  reachable keymap s =
      if s.alphabetic && keymap.caps_is_lock
      then (do
        locked ← try_caps_locked k
        at_levels keymap s.keycode (record (s.mods) {
          shift = if or_false locked then not s.mods.shift else s.mods.shift;
        }))
      else at_levels keymap s.keycode s.mods

  -- The dead key and the base letter, if the layout has both.
  abbrev pub composed : Keymap → Option Stroke → Option Stroke → M F (List Resolved)
  composed keymap (some dead) (some base) = do
    first ← reachable keymap dead
    second ← reachable keymap base
    return (first ∷ second ∷ [])
  composed keymap dead base = fail (unsupported unreachable_character)

  abbrev pub by_accent : Keymap → Option (ℕ × ℕ) → M F (List Resolved)
  by_accent keymap none = fail (unsupported unreachable_character)
  by_accent keymap (some (base, mark)) =
      composed keymap (elim (dead_keysym mark) [ none ↦ none | some keysym ↦ stroke keymap keysym ])
        (stroke_for_any keymap (char_keysyms base))

  unfoldable pub resolve : ℕ → M F (List Resolved)
  unfolding ask_keymap reachable
  resolve c = do
    keymap ← ask_keymap k
    elim (stroke_for_any keymap (char_keysyms c)) [
      | some s ↦ (do only ← reachable keymap s; return (only ∷ []))
      | none ↦ by_accent keymap (decompose c)
    ]

  unfoldable pub tap : List Resolved → M F (Unit {0})
  unfolding sync_level send_key
  tap [] = sync_level k no_level
  tap (s ∷ more) = do
    sync_level k s.mods
    send_key k s.keycode false
    send_key k s.keycode true
    tap more

  unfoldable pub type_all : List ℕ → M F (Unit {0})
  unfolding resolve tap
  type_all [] = return tt
  type_all (c ∷ more) = do strokes ← resolve c; tap strokes; type_all more

  -- A character with one key is held and let go as the sender does it.
  abbrev pub type_one : List Resolved → Bool → M F (Unit {0})
  type_one (only ∷ []) is_up = do
    sync_level k only.mods
    send_key k only.keycode is_up
    if is_up then sync_level k no_level else return tt
  type_one strokes is_up = if is_up then return tt else tap strokes

  unfoldable pub inject_text : List ℕ → KeyEvent → Bool → M F (Unit {0})
  unfolding resolve tap type_all sync_chord sync_level send_key
  inject_text [] event is_up = return tt
  inject_text (c ∷ []) event is_up = do
    strokes ← resolve c
    sync_chord k (injection_modifiers event)
    type_one strokes is_up
  inject_text (c ∷ d ∷ rest) event is_up =
      if is_up
      then return tt
      else (do sync_chord k (injection_modifiers event); type_all (c ∷ d ∷ rest))

  -- The hardware position, which is a byte.
  abbrev pub usual_keycode : SpecialKey → M F ℕ
  usual_keycode key =
      if leb (evdev_code key + 8) 255
      then return (evdev_code key + 8)
      else fail (unsupported this_key)

  abbrev pub keycode_in : Result PlatformError Keymap → SpecialKey → M F ℕ
  keycode_in (ok keymap) key = elim (keycode_of keymap (keysym_from_special key)) [
    | some keycode ↦ return keycode
    | none ↦ usual_keycode key
  ]
  keycode_in (err e) key = usual_keycode key

  unfoldable pub special_keycode : SpecialKey → M F ℕ
  unfolding try_keymap
  special_keycode key = do answer ← try_keymap k; keycode_in answer key

  -- A key that is no modifier and types nothing.
  abbrev pub plain_key : ℕ → KeyEvent → Bool → M F (Unit {0})
  plain_key keycode event is_up = do
    sync_chord k (injection_modifiers event)
    sync_level k no_level
    send_key k keycode is_up

  abbrev pub inject_payload : KeyPayload → KeyEvent → Bool → M F (Unit {0})
  inject_payload (special key) event is_up = do
    keycode ← special_keycode key
    if is_modifier key then forward_modifier k keycode is_up else plain_key keycode event is_up
  inject_payload (text t) event is_up = inject_text t event is_up
  inject_payload (raw_key_code code) event is_up =
      if leb code 255 then plain_key code event is_up else fail (unsupported unaddressable_keycode)

  unfoldable pub inject_key : KeyEvent → M F (Unit {0})
  unfolding inject_text special_keycode forward_modifier
  inject_key event = inject_payload event.payload event (is_release event.action)
