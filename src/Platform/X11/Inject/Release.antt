-- ===== src/Platform/X11/Inject/Release.antt =====
-- inject.rs: everything is let go of; one event; a history of events.
use win_xtend.Prelude.{
  ℕ, Bool, true, false, not, ◌&&◌, if◌then◌else◌, some, List, [], ◌∷◌, ◌++◌, keep,
}
use mathlib.Core.List.{reverse}
use win_xtend.Prelude.Int.{ℤ}
use win_xtend.Prelude.Results.{Result, ok, err}
use win_xtend.Proto.Modifiers
use win_xtend.Proto.Float.{Floats, f_zero}
use win_xtend.Proto.Geom.{Monitor, NormPos}
use win_xtend.Proto.Input.{InputEvent, pointer, key, release_control}
use win_xtend.Platform.X11.Keymap.{Keymap, no_level, same_level}
use win_xtend.Platform.X11.Inject.{
  Injector, Session, Sink, M, ◌>>=◌, ◌>>◌, return, update, reading, send, try_keymap, Held,
  held_key, held_button, same_held, Request, key_request, button_request, has_code, without_code,
  PlatformError,
}
use win_xtend.Platform.X11.Inject.Modifiers.{ModifierKeys, resolve_keys, level3_or_usual}
use win_xtend.Platform.X11.Inject.Keys.{inject_key}
use win_xtend.Platform.X11.Inject.Pointer.{inject_pointer, warp_cursor}

abbrev pub release_of : Held → Request
release_of (held_key code) = key_request code false
release_of (held_button code) = button_request code false

abbrev pub without_held : Held → List Held → List Held
without_held item items = keep (λ h. not (same_held h item)) items

abbrev pub fallback_keys : ModifierKeys
fallback_keys = record { ctrl = 37; alt = 64; super = 133; shift = 50; level3 = some 108 }

abbrev pub keys_of : Result PlatformError Keymap → ModifierKeys
keys_of (ok keymap) = resolve_keys keymap
keys_of (err e) = fallback_keys

-- The codes that are pressed among those given, each once, behind those chosen so far.
abbrev pub chosen_codes : List ℕ → List ℕ → List ℕ → List ℕ
chosen_codes pressed [] codes = codes
chosen_codes pressed (code ∷ more) codes =
    chosen_codes pressed more
      (if has_code pressed code && not (has_code codes code) then codes ++ code ∷ [] else codes)

unfoldable pub release_order : ModifierKeys → List ℕ → List ℕ
release_order keys pressed = chosen_codes pressed pressed (
    chosen_codes pressed
      (level3_or_usual keys ∷ keys.shift ∷ keys.super ∷ keys.alt ∷ keys.ctrl ∷ []) [])

-- What the agent asks of the injector.
pub data Call (F : Type 0) : Type 0 where
  injects : Monitor F → InputEvent F → Call F
  warps : Monitor F → NormPos F → Call F
  releases : Call F

module _ {F : Type 0} ⦃fl : Floats F⦄ where
  abbrev pub nothing_banked : F × F
  nothing_banked = (f_zero, f_zero)

  unfoldable pub new_injector : Injector F
  new_injector = record {
    held = [];
    chord = Modifiers.none;
    level = no_level;
    pressed = [];
    relative = nothing_banked;
    scroll = nothing_banked;
  }

  unfoldable pub new_session : Session F
  unfolding new_injector
  new_session = record { injector = new_injector; sent = []; calls = 0 }

  abbrev pub is_idle : Injector F → Bool
  is_idle i =
      (elim i.held [ [] ↦ true | _ ↦ false ])
      && (elim i.pressed [ [] ↦ true | _ ↦ false ])
      && Modifiers.is_empty i.chord
      && same_level i.level no_level

  abbrev pub forget_motion : Injector F → Injector F
  forget_motion i = record i { relative = nothing_banked; scroll = nothing_banked }

  abbrev pub forget_all : Injector F → Injector F
  forget_all i = record i {
    chord = Modifiers.none;
    level = no_level;
    relative = nothing_banked;
    scroll = nothing_banked;
  }

  module _ (k : Sink) where
    unfoldable pub release_items : List Held → M F (Unit {0})
    unfolding send
    release_items [] = return tt
    release_items (item ∷ more) = do
      send k (release_of item)
      update (λ i. record i { held = without_held item i.held })
      release_items more

    unfoldable pub release_codes : List ℕ → M F (Unit {0})
    unfolding send
    release_codes [] = return tt
    release_codes (code ∷ more) = do
      send k (key_request code false)
      update (λ i. record i { pressed = without_code code i.pressed })
      release_codes more

    unfoldable pub modifier_release_order : M F (List ℕ)
    unfolding try_keymap release_order
    modifier_release_order = do
      answer ← try_keymap k
      reading (λ i. return (release_order (keys_of answer) i.pressed))

    unfoldable pub release_all : M F (Unit {0})
    unfolding release_items release_codes modifier_release_order
    release_all = reading (λ i. if is_idle i then update forget_motion else (do
      release_items (reverse i.held)
      codes ← modifier_release_order
      release_codes codes
      update forget_all))

    unfoldable pub inject : (F → ℤ) → Monitor F → InputEvent F → M F (Unit {0})
    unfolding inject_pointer inject_key release_all
    inject as_int monitor (pointer p) = inject_pointer as_int k monitor p
    inject as_int monitor (key e) = inject_key k e
    inject as_int monitor release_control = release_all

  module _ (k : Sink) (as_int : F → ℤ) where
    abbrev pub call : Call F → M F (Unit {0})
    call (injects monitor event) = inject k as_int monitor event
    call (warps monitor p) = warp_cursor as_int k monitor p
    call releases = release_all k

    -- A history of calls, in which any may fail.
    unfoldable pub after_calls : Session F → List (Call F) → Session F
    unfolding inject warp_cursor release_all
    after_calls s [] = s
    after_calls s (c ∷ more) = after_calls (call c s).0 more
