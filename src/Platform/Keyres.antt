-- ===== src/Platform/Keyres.antt =====
-- crates/wx-platform/src/keyres.rs: raw keys of a capture backend made into key events. The
-- characters of a text are its code points.
pub mod Recorded
pub mod Steady
pub mod Clears
pub mod Strand
use mathlib.Core.List.{reverse}
use win_xtend.Prelude.{
  ℕ, ◌+◌, ◌-◌, ◌≡◌, Bool, true, false, not, ◌&&◌, ◌||◌, ◌==◌, leb, if◌then◌else◌, Option, none,
  some, unwrap_or, map_or, is_some, map_option, List, [], ◌∷◌, ◌++◌, map, keep, length,
}
use win_xtend.Prelude.Maps.{lookup, insert}
use win_xtend.Proto.Ids.{node_key}
use win_xtend.Proto.Modifiers
use win_xtend.Proto.Modifiers.{Modifiers}
use win_xtend.Proto.Keyboard.{
  KeyAction, press, release, repeat, SpecialKey, KeyPayload, text, special, raw_key_code, KeyEvent,
}
use win_xtend.Platform.Accent.{classify, spacing, compose}

pub record RawKey : Type 0 where
  pub code : ℕ
  pub action : KeyAction
  pub modifiers : Modifiers
  pub special : Option SpecialKey
  pub text : Option (List ℕ)
  pub dead : Option ℕ

pub record KeyResolver : Type 0 where
  pub pending_dead : Option ℕ
  pub down : List (ℕ × Option KeyPayload)

unfoldable pub new : KeyResolver
new = record { pending_dead = none; down = [] }

unfoldable pub has_pending_composition : KeyResolver → Bool
has_pending_composition r = is_some r.pending_dead

unfoldable pub held_count : KeyResolver → ℕ
held_count r = length (keep (λ e. is_some e.1) r.down)

abbrev pub holds_composition : SpecialKey → Bool
holds_composition SpecialKey.shift_left = true
holds_composition SpecialKey.shift_right = true
holds_composition SpecialKey.alt_right = true
holds_composition other = false

abbrev is_escape : SpecialKey → Bool
is_escape SpecialKey.escape = true
is_escape other = false

abbrev is_repeat : KeyAction → Bool
is_repeat repeat = true
is_repeat other = false

abbrev pub text_event : List ℕ → KeyAction → Modifiers → KeyEvent
text_event t action modifiers = record { payload = text t; action = action; modifiers = modifiers }

-- The text of an accent on its own.
abbrev pub accent_text : ℕ → List ℕ
accent_text accent = map_or (accent ∷ []) (λ a. spacing a ∷ []) (classify accent)

unfoldable pub flush_accent : ℕ → List KeyEvent
flush_accent accent =
    text_event (accent_text accent) press Modifiers.none
    ∷ text_event (accent_text accent) release Modifiers.none
    ∷ []

abbrev pub is_control : ℕ → Bool
is_control c = leb c 31 || (leb 127 c && leb c 159)

unfoldable pub recover_control_char : ℕ → Modifiers → Option KeyPayload
recover_control_char c modifiers =
    let ctrl_like =
      Modifiers.contains modifiers Modifiers.ctrl || Modifiers.contains modifiers Modifiers.super in
    if ctrl_like && (leb 1 c && leb c 26)
    then some (text ((97 + (c - 1)) ∷ []))
    else if c == 13 || c == 10
    then some (special SpecialKey.enter)
    else if c == 9
    then some (special SpecialKey.tab)
    else if c == 8
    then some (special SpecialKey.backspace)
    else if c == 27
    then some (special SpecialKey.escape)
    else if c == 127
    then some (special SpecialKey.delete)
    else none

-- The text without its control characters, if anything is left.
abbrev scrubbed : List ℕ → Option KeyPayload
scrubbed t = elim (keep (λ c. not (is_control c)) t) [ [] ↦ none | c ∷ cs ↦ some (text (c ∷ cs)) ]

abbrev text_payload : List ℕ → Modifiers → Option KeyPayload
text_payload [] modifiers = none
text_payload (c ∷ []) modifiers =
    if is_control c then recover_control_char c modifiers else scrubbed (c ∷ [])
text_payload (c ∷ d ∷ rest) modifiers = scrubbed (c ∷ d ∷ rest)

unfoldable pub payload_for : RawKey → Option KeyPayload
payload_for raw = elim raw.special [
  | some key ↦ some (special key)
  | none ↦ map_or none (λ t. text_payload t raw.modifiers) raw.text
]

-- The slot of the first key of that code, taken out.
unfoldable pub drop_first : ℕ → List (ℕ × Option KeyPayload) → List (ℕ × Option KeyPayload)
drop_first code [] = []
drop_first code ((c, p) ∷ down) =
    let rest = drop_first code down in if c == code then down else (c, p) ∷ rest

unfoldable pub resolve_release : KeyResolver → RawKey → KeyResolver × List KeyEvent
resolve_release r raw = elim (lookup raw.code r.down) [
  | some none ↦ (record r { down = drop_first raw.code r.down }, [])
  | some (some payload) ↦ (
    record r { down = drop_first raw.code r.down },
    record { payload = payload; action = release; modifiers = raw.modifiers } ∷ [],
  )
  | none ↦ (
    r,
    record {
      payload = unwrap_or (payload_for raw) (raw_key_code raw.code);
      action = release;
      modifiers = raw.modifiers;
    }
        ∷ [],
  )
]

abbrev pub flushed : Option ℕ → List KeyEvent
flushed none = []
flushed (some accent) = flush_accent accent

-- A text takes the pending accent; anything else leaves it.
unfoldable pub composed : Option ℕ → KeyPayload → Option ℕ × KeyPayload
composed (some accent) (text t) = (none, text (compose accent t))
composed pending payload = (pending, payload)

abbrev pub is_composing : KeyPayload → Bool
is_composing (text t) = true
is_composing (special k) = holds_composition k
is_composing (raw_key_code code) = false

unfoldable pub press_dead : KeyResolver → RawKey → ℕ → KeyResolver × List KeyEvent
press_dead r raw accent = if is_repeat raw.action then (r, []) else (
  record { pending_dead = some accent; down = insert raw.code none r.down },
  flushed r.pending_dead,
)

-- What the key comes to with that accent pending.
unfoldable pub press_with : Option ℕ → KeyResolver → RawKey → KeyResolver × List KeyEvent
press_with pending r raw =
    let resolved = unwrap_or (payload_for raw) (raw_key_code raw.code) in
    let kept = if is_composing resolved then pending else none in
    let out = composed kept resolved in
    (
      record { pending_dead = out.0; down = insert raw.code (some out.1) r.down },
      (if is_composing resolved then [] else flushed pending)
          ++ record { payload = out.1; action = raw.action; modifiers = raw.modifiers } ∷ [],
    )

unfoldable pub resolve_press : KeyResolver → RawKey → KeyResolver × List KeyEvent
resolve_press r raw = elim raw.dead [
  | some accent ↦ press_dead r raw accent
  | none ↦ press_with (if map_or false is_escape raw.special then none else r.pending_dead) r raw
]

unfoldable pub resolve : KeyResolver → RawKey → KeyResolver × List KeyEvent
resolve r raw = elim raw.action [
  | release ↦ resolve_release r raw
  | press ↦ resolve_press r raw
  | repeat ↦ resolve_press r raw
]

-- The releases of what is recorded, in the order of the list.
unfoldable pub releases : List (ℕ × Option KeyPayload) → List KeyEvent
releases [] = []
releases ((code, none) ∷ down) = releases down
releases ((code, some payload) ∷ down) =
    record { payload = payload; action = release; modifiers = Modifiers.none } ∷ releases down

unfoldable pub release_held : KeyResolver → KeyResolver × List KeyEvent
release_held r = (record { pending_dead = none; down = [] }, releases (reverse r.down))

unfoldable pub reset : KeyResolver → KeyResolver
reset r = record { pending_dead = none; down = [] }
