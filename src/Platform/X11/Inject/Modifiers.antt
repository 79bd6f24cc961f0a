-- ===== src/Platform/X11/Inject/Modifiers.antt =====
-- inject.rs: the modifiers that a keystroke asks for, and those that a level of the keymap needs.
use win_xtend.Prelude.{
  ℕ, Bool, true, false, not, ◌&&◌, ◌||◌, ◌==◌, if◌then◌else◌, Option, none, some, unwrap_or,
  or_option, List, [], ◌∷◌, ◌++◌,
}
use win_xtend.Proto.Modifiers
use win_xtend.Platform.X11.Keymap.{Keymap, LevelMods, no_level, same_level, keycode_of}
use win_xtend.Platform.X11.Inject.{
  Injector, Sink, M, ◌>>=◌, ◌>>◌, return, update, reading, send, ask_keymap, key_request, has_code,
  without_code, sender_holds, key_down, send_key, track, held_key,
}

pub record ModifierStep : Type 0 where
  pub keycode : ℕ
  pub release : Bool
  pub physical : Bool

pub record ModifierKeys : Type 0 where
  pub ctrl : ℕ
  pub alt : ℕ
  pub super : ℕ
  pub shift : ℕ
  pub level3 : Option ℕ

-- The keysyms are XK_Control_L, XK_Alt_L, XK_Super_L and XK_Shift_L.
unfoldable pub resolve_keys : Keymap → ModifierKeys
resolve_keys keymap = record {
  ctrl = unwrap_or (keycode_of keymap 65507) 37;
  alt = unwrap_or (keycode_of keymap 65513) 64;
  super = unwrap_or (keycode_of keymap 65515) 133;
  shift = unwrap_or (or_option keymap.shift (keycode_of keymap 65505)) 50;
  level3 = keymap.level3;
}

abbrev pub level3_or_usual : ModifierKeys → ℕ
level3_or_usual keys = unwrap_or keys.level3 108

abbrev pub then_some : {A : Type 0} → Bool → A → Option A
then_some true a = some a
then_some false a = none

module _ {F : Type 0} where
  unfoldable pub step : Injector F → ℕ → Bool → Bool → Bool → Option ModifierStep
  step i code want have wanted_elsewhere =
      let down = key_down i code in
      if want
      then then_some (not have || not down)
          (record { keycode = code; release = false; physical = not down })
      else then_some have (record {
        keycode = code;
        release = true;
        physical = has_code i.pressed code && not wanted_elsewhere;
      })

  abbrev pub chord_step : Injector F → ℕ → ℕ → ℕ → Option ModifierStep
  chord_step i required bit code =
      let wanted_elsewhere =
        sender_holds i code
        || bit == Modifiers.shift && i.level.shift
        || bit == Modifiers.alt_gr && i.level.level3 in
      step i code (Modifiers.contains required bit) (Modifiers.contains i.chord bit)
        wanted_elsewhere

  abbrev pub planned : Injector F → ℕ → List (ℕ × ℕ) → List (ℕ × ModifierStep)
  planned i required [] = []
  planned i required ((bit, code) ∷ more) = elim (chord_step i required bit code) [
    | none ↦ planned i required more
    | some s ↦ (bit, s) ∷ planned i required more
  ]

  unfoldable pub chord_plan : Injector F → ℕ → ModifierKeys → List (ℕ × ModifierStep)
  unfolding step
  chord_plan i required keys = planned i required (
      (Modifiers.ctrl, keys.ctrl)
      ∷ (Modifiers.alt, keys.alt)
      ∷ (Modifiers.super, keys.super)
      ∷ (Modifiers.shift, keys.shift)
      ∷ (Modifiers.alt_gr, level3_or_usual keys)
      ∷ [])

  unfoldable pub level_plan :
      Injector F → LevelMods → ModifierKeys → Option ModifierStep × Option ModifierStep
  unfolding step
  level_plan i required keys =
      let third = level3_or_usual keys in
      (
        step i keys.shift required.shift i.level.shift
            (sender_holds i keys.shift || Modifiers.contains i.chord Modifiers.shift),
        step i third required.level3 i.level.level3
            (sender_holds i third || Modifiers.contains i.chord Modifiers.alt_gr),
      )

-- The codes that are pressed after the step.
unfoldable pub pressed_after : ModifierStep → List ℕ → List ℕ
pressed_after s pressed =
    if s.release
    then without_code s.keycode pressed
    else if has_code pressed s.keycode
    then pressed
    else pressed ++ s.keycode ∷ []

module _ {F : Type 0} (k : Sink) where
  unfoldable pub apply : ModifierStep → M F (Unit {0})
  unfolding send pressed_after
  apply s = if not s.physical then return tt else (do
    send k (key_request s.keycode (not s.release))
    update (λ i. record i { pressed = pressed_after s i.pressed }))

  unfoldable pub apply_chord : List (ℕ × ModifierStep) → M F (Unit {0})
  unfolding apply
  apply_chord [] = return tt
  apply_chord ((bit, s) ∷ more) = do
    apply s
    update (λ i. record i {
      chord = if s.release then Modifiers.without i.chord bit else Modifiers.union i.chord bit;
    })
    apply_chord more

  unfoldable pub sync_chord : ℕ → M F (Unit {0})
  unfolding apply_chord ask_keymap chord_plan
  sync_chord required =
      let wanted =
        Modifiers.without (Modifiers.without required Modifiers.caps_lock) Modifiers.num_lock in
      reading (λ i.
        if Modifiers.is_empty wanted && Modifiers.is_empty i.chord
        then return tt
        else (do keymap ← ask_keymap k; apply_chord (chord_plan i wanted (resolve_keys keymap))))

  abbrev pub apply_level : Option ModifierStep → (Injector F → Injector F) → M F (Unit {0})
  apply_level none record_it = return tt
  apply_level (some s) record_it = do apply s; update record_it

  unfoldable pub sync_level : LevelMods → M F (Unit {0})
  unfolding apply ask_keymap level_plan
  sync_level required = reading (λ i.
      if same_level required no_level && same_level i.level no_level then return tt else (do
        keymap ← ask_keymap k
        let plan = level_plan i required (resolve_keys keymap)
        apply_level plan.0 (λ j. record j { level = record (j.level) { shift = required.shift } })
        apply_level plan.1
            (λ j. record j { level = record (j.level) { level3 = required.level3 } })))

  -- A bare modifier key of the sender, which is the sender's from here on.
  unfoldable pub forward_modifier : ℕ → Bool → M F (Unit {0})
  unfolding send_key track
  forward_modifier code release = reading (λ i.
      if not release && key_down i code
      then (do
        update (λ j. record j { pressed = without_code code j.pressed })
        track (held_key code) false)
      else (do
        send_key k code release
        update (λ j. record j { pressed = without_code code j.pressed })))
