-- ===== src/Core/Held.antt =====
-- crates/wx-core/src/router.rs: the keys and buttons held down by whoever owns the cursor, and the
-- events that let go of them.
use mathlib.Core.List.{reverse}
use win_xtend.Prelude.{
  Bool, true, false, not, if◌then◌else◌, none, some, unwrap_or, List, [], ◌∷◌, ◌++◌, map, any_of,
  keep,
}
use win_xtend.Proto.Modifiers
use win_xtend.Proto.Modifiers.{Modifiers}
use win_xtend.Proto.Keyboard.{
  SpecialKey, press, release, repeat, KeyPayload, special, KeyEvent, KeyPayload-discrete,
  modifier_bit, special_event,
}
use win_xtend.Proto.Input.{MouseButton, MouseButton-discrete, InputEvent, pointer, key, button}

-- `==` on payloads and on buttons.
abbrev pub same_key : KeyPayload → KeyPayload → Bool
same_key a b = elim (KeyPayload-discrete a b) [ yes e ↦ true | no d ↦ false ]

abbrev pub same_button : MouseButton → MouseButton → Bool
same_button a b = elim (MouseButton-discrete a b) [ yes e ↦ true | no d ↦ false ]

pub record HeldInput : Type 0 where
  pub keys : List KeyPayload
  pub buttons : List MouseButton
  pub mods : Modifiers

unfoldable pub nothing_held : HeldInput
nothing_held = record { keys = []; buttons = []; mods = Modifiers.none }

-- `Special(k)` with a modifier bit takes the bit out of the snapshot.
abbrev pub released_mods : KeyPayload → Modifiers → Modifiers
released_mods (special k) mods = elim (modifier_bit k) [
  | none ↦ mods
  | some bit ↦ Modifiers.without mods bit
]
released_mods _ mods = mods

-- The snapshot of an event without the lock keys.
unfoldable pub snapshot : KeyEvent → Modifiers
snapshot ev =
    Modifiers.without (Modifiers.without ev.modifiers Modifiers.caps_lock) Modifiers.num_lock

abbrev pub press_key : List KeyPayload → KeyPayload → List KeyPayload
press_key keys payload = if any_of (same_key payload) keys then keys else keys ++ payload ∷ []

abbrev pub release_key : List KeyPayload → KeyPayload → List KeyPayload
release_key keys payload = keep (λ k. not (same_key k payload)) keys

unfoldable pub observe_key : HeldInput → KeyEvent → HeldInput
unfolding snapshot
observe_key h ev = elim ev.action [
  | press ↦ record h { keys = press_key h.keys ev.payload; mods = snapshot ev }
  | repeat ↦ record h { keys = press_key h.keys ev.payload; mods = snapshot ev }
  | release ↦ record h {
    keys = release_key h.keys ev.payload;
    mods = released_mods ev.payload (snapshot ev);
  }
]

unfoldable pub observe_button : HeldInput → MouseButton → Bool → HeldInput
observe_button h b pressed =
    if pressed
    then (if any_of (same_button b) h.buttons
        then h
        else record h { buttons = h.buttons ++ b ∷ [] })
    else record h { buttons = keep (λ o. not (same_button o b)) h.buttons }

unfoldable pub clear : HeldInput → HeldInput
clear h = record { keys = []; buttons = []; mods = Modifiers.none }

abbrev pub covered_bits : KeyPayload → Modifiers
covered_bits (special SpecialKey.alt_right) = Modifiers.union Modifiers.alt Modifiers.alt_gr
covered_bits (special k) = unwrap_or (modifier_bit k) Modifiers.none
covered_bits _ = Modifiers.none

abbrev pub modifier_keys : List (Modifiers × SpecialKey)
modifier_keys =
    (Modifiers.shift, SpecialKey.shift_left)
    ∷ (Modifiers.ctrl, SpecialKey.ctrl_left)
    ∷ (Modifiers.alt, SpecialKey.alt_left)
    ∷ (Modifiers.alt_gr, SpecialKey.alt_right)
    ∷ (Modifiers.super, SpecialKey.super_left)
    ∷ []

-- The fold over the held keys.
unfoldable pub covered : Modifiers → List KeyPayload → Modifiers
covered acc [] = acc
covered acc (k ∷ ks) = covered (Modifiers.union acc (covered_bits k)) ks

-- The keys of `table` whose bit is set in the snapshot but comes from no held key.
unfoldable pub stranded_keys : Modifiers → List (Modifiers × SpecialKey) → List SpecialKey
stranded_keys stranded [] = []
stranded_keys stranded ((bit, k) ∷ table) =
    if Modifiers.contains stranded bit
    then k ∷ stranded_keys stranded table
    else stranded_keys stranded table

module _ {F : Type 0} where
  abbrev pub button_up : MouseButton → InputEvent F
  button_up b = pointer (button b false)

  abbrev pub key_up : KeyPayload → InputEvent F
  key_up payload = key (record { payload = payload; action = release; modifiers = Modifiers.none })

  unfoldable pub release_events : HeldInput → List (InputEvent F)
  unfolding stranded_keys covered
  release_events h =
      let stranded = Modifiers.without h.mods (covered Modifiers.none h.keys) in
      map button_up (reverse h.buttons)
      ++ (map key_up (reverse h.keys)
          ++ map (λ k. key (special_event k release Modifiers.none))
              (stranded_keys stranded modifier_keys))
