-- ===== src/Platform/Keyres/Strand.antt =====
-- keyres.rs: a letter that took a pending accent, held until it repeats.
use win_xtend.Prelude.{
  ℕ, ◌≡◌, ◌≢◌, refl, sym, ap, ◌∙◌, Bool, true, false, ◌==◌, Option, none, some, List, [], ◌∷◌,
  arith, ==-self,
}
use win_xtend.Prelude.Maps.{lookup, insert}
use win_xtend.Proto.Ids.{node_key}
use win_xtend.Proto.Modifiers.{Modifiers}
use win_xtend.Proto.Keyboard.{
  KeyAction, press, release, repeat, KeyPayload, text, KeyEvent, KeyPayload-discrete,
}
use win_xtend.Core.Held.{HeldInput, nothing_held, same_key, press_key, release_key, observe_key}
use win_xtend.Core.Router.Release.{same_key_self}
use win_xtend.Platform.Accent.{compose}
use win_xtend.Platform.Keyres.{
  RawKey, KeyResolver, new, resolve, resolve_press, press_dead, press_with, payload_for, is_control,
  composed, scrubbed, drop_first, release_held, releases, text_event,
}
use win_xtend.Platform.Keyres.Recorded.{receive}
use win_xtend.Platform.Keyres.Clears.{pump}
use win_xtend.Platform.Keyres.Steady.{release_event, resolve_release_kept}

-- The raw keys of the backends: a dead key, and a key that types one character.
abbrev pub accent_key : ℕ → ℕ → Modifiers → KeyAction → RawKey
accent_key code accent modifiers action = record {
  code = code;
  action = action;
  modifiers = modifiers;
  special = none;
  text = none;
  dead = some accent;
}

abbrev pub letter_key : ℕ → ℕ → Modifiers → KeyAction → RawKey
letter_key code c modifiers action = record {
  code = code;
  action = action;
  modifiers = modifiers;
  special = none;
  text = some (c ∷ []);
  dead = none;
}

-- What the letter comes to.
abbrev typed : Option ℕ → ℕ → List ℕ
typed none c = c ∷ []
typed (some accent) c = compose accent (c ∷ [])

scrubbed_plain : (c : ℕ) → is_control c ≡ false → scrubbed (c ∷ []) ≡ some (text (c ∷ []))
scrubbed_plain c plain = rw (plain, scrubbed) refl

payload_for-letter :
    (code c : ℕ) (modifiers : Modifiers) (a : KeyAction)
    → is_control c ≡ false
    → payload_for (letter_key code c modifiers a) ≡ some (text (c ∷ []))
unfolding payload_for
payload_for-letter code c modifiers a plain = rw plain (scrubbed_plain c plain)

press_with-letter :
    (pending p : Option ℕ) (down : List (ℕ × Option KeyPayload)) (code c : ℕ)
    (modifiers : Modifiers) (a : KeyAction)
    → is_control c ≡ false
    → press_with pending (record { pending_dead = p; down = down }) (letter_key code c modifiers a)
      ≡ (
        record { pending_dead = none; down = insert code (some (text (typed pending c))) down },
        text_event (typed pending c) a modifiers ∷ [],
      )
unfolding press_with composed
press_with-letter none p down code c modifiers a plain =
    rw (payload_for-letter code c modifiers a plain) refl
press_with-letter (some accent) p down code c modifiers a plain =
    rw (payload_for-letter code c modifiers a plain) refl

same_key_ne : (a b : KeyPayload) → a ≢ b → same_key a b ≡ false
same_key_ne a b d = go (KeyPayload-discrete a b)
  where
    go : (e : Dec (a ≡ b)) → (elim e as (λ _. Bool) [ yes e ↦ true | no n ↦ false ]) ≡ false
    go (yes e) = absurd (d e)
    go (no n) = refl

module _ (dead_code code accent c : ℕ) (modifiers : Modifiers) where
  abbrev pub accented : KeyPayload
  accented = text (compose accent (c ∷ []))

  -- The slots of the two keys.
  slots : KeyPayload → List (ℕ × Option KeyPayload)
  slots p = (dead_code, none) ∷ (code, some p) ∷ []

  after_accent : KeyResolver
  after_accent = record { pending_dead = some accent; down = (dead_code, none) ∷ [] }

  after_letter : KeyPayload → KeyResolver
  after_letter p = record { pending_dead = none; down = slots p }

  resolve-accent : resolve new (accent_key dead_code accent modifiers press) ≡ (after_accent, [])
  unfolding resolve resolve_press press_dead new after_accent
  resolve-accent = refl

  resolve-press :
      (dead_code == code) ≡ false
      → is_control c ≡ false
      → resolve after_accent (letter_key code c modifiers press) ≡ (
        after_letter accented,
        record { payload = accented; action = press; modifiers = modifiers } ∷ [],
      )
  unfolding resolve resolve_press after_accent after_letter slots
  resolve-press other plain =
      press_with-letter (some accent) (some accent) ((dead_code, none) ∷ []) code c modifiers press
        plain
      ∙ rw other refl

  resolve-repeat :
      (p : KeyPayload)
      → (dead_code == code) ≡ false
      → is_control c ≡ false
      → resolve (after_letter p) (letter_key code c modifiers repeat) ≡ (
        after_letter (text (c ∷ [])),
        record { payload = text (c ∷ []); action = repeat; modifiers = modifiers } ∷ [],
      )
  unfolding resolve resolve_press after_letter slots
  resolve-repeat p other plain =
      press_with-letter none none (slots p) code c modifiers repeat plain
      ∙ rw (other, ==-self code) refl

  lookup-slots :
      (p : KeyPayload) → (dead_code == code) ≡ false → lookup code (slots p) ≡ some (some p)
  unfolding slots
  lookup-slots p other = rw (other, ==-self code) refl

  drop_first-slots :
      (p : KeyPayload)
      → (dead_code == code) ≡ false
      → drop_first code (slots p) ≡ (dead_code, none) ∷ []
  unfolding slots drop_first
  drop_first-slots p other = rw (other, ==-self code) refl

  resolve-release :
      (p : KeyPayload)
      → (dead_code == code) ≡ false
      → resolve (after_letter p) (letter_key code c modifiers release) ≡ (
        record { pending_dead = none; down = (dead_code, none) ∷ [] },
        record { payload = p; action = release; modifiers = modifiers } ∷ [],
      )
  unfolding resolve after_letter release_event
  resolve-release p other =
      resolve_release_kept (after_letter p) (letter_key code c modifiers release) p
        (lookup-slots p other)
      ∙ ap
          (λ d. (
            record { pending_dead = none; down = d },
            record { payload = p; action = release; modifiers = modifiers } ∷ [],
          ))
          (drop_first-slots p other)

  -- The keys of the receiver.
  keys_left :
      accented ≢ text (c ∷ [])
      → release_key (press_key (press_key [] accented) (text (c ∷ []))) (text (c ∷ []))
        ≡ accented ∷ []
  keys_left d =
      rw
        (
          same_key_ne (text (c ∷ [])) accented (λ e. d (sym e)),
          same_key_ne accented (text (c ∷ [])) d,
          same_key_self (text (c ∷ [])),
        )
        refl

  pump_on :
      (r r' : KeyResolver) (h : HeldInput) (raw : RawKey) (raws : List RawKey) (evs : List KeyEvent)
      → resolve r raw ≡ (r', evs)
      → pump r h (raw ∷ raws) ≡ pump r' (receive h evs) raws
  unfolding pump
  pump_on r r' h raw raws evs e =
      ap (λ (t : KeyResolver × List KeyEvent). pump t.0 (receive h t.1) raws) e

  event : KeyPayload → KeyAction → KeyEvent
  event p action = record { payload = p; action = action; modifiers = modifiers }

  stranded : HeldInput
  stranded =
      receive
        (receive (receive nothing_held (event accented press ∷ []))
          (event (text (c ∷ [])) repeat ∷ []))
        (event (text (c ∷ [])) release ∷ [])

  pump_lem :
      (dead_code == code) ≡ false
      → is_control c ≡ false
      → pump new nothing_held (
          accent_key dead_code accent modifiers press
          ∷ letter_key code c modifiers press
          ∷ letter_key code c modifiers repeat
          ∷ letter_key code c modifiers release
          ∷ [])
        ≡ (record { pending_dead = none; down = (dead_code, none) ∷ [] }, stranded)
  unfolding stranded event receive
  pump_lem other plain =
      pump_on new after_accent nothing_held _ _ [] resolve-accent
      ∙ pump_on after_accent (after_letter accented) nothing_held _ _ _ (resolve-press other plain)
      ∙ pump_on (after_letter accented) (after_letter (text (c ∷ []))) _ _ _ _
          (resolve-repeat accented other plain)
      ∙ pump_on (after_letter (text (c ∷ []))) _ _ _ _ _ (resolve-release (text (c ∷ [])) other)
      ∙ unfold pump in refl

  -- A dead key, then a letter that the accent changes, held until it repeats, then let go: the
  -- receiver is left with the accented letter down, and the releases of release_held do not let go
  -- of it. This is so for any two keys and modifiers.
  pub release_held_strands :
      dead_code ≢ code
      → is_control c ≡ false
      → compose accent (c ∷ []) ≢ c ∷ []
      → let raws =
          accent_key dead_code accent modifiers press
          ∷ letter_key code c modifiers press
          ∷ letter_key code c modifiers repeat
          ∷ letter_key code c modifiers release
          ∷ [] in
        let out = pump new nothing_held raws in
        (receive out.1 (release_held out.0).1).keys ≡ text (compose accent (c ∷ [])) ∷ []
  unfolding receive release_held releases stranded event observe_key nothing_held
  release_held_strands apart plain changes =
      ap (λ (t : KeyResolver × HeldInput). (receive t.1 (release_held t.0).1).keys)
        (pump_lem (ground arith) plain)
      ∙ left (λ e. changes (ap letters e))
    where
      letters : KeyPayload → List ℕ
      letters (text t) = t
      letters other = []

      left :
          text (compose accent (c ∷ [])) ≢ text (c ∷ [])
          → (receive stranded
              (release_held (record { pending_dead = none; down = (dead_code, none) ∷ [] })).1).keys
            ≡ text (compose accent (c ∷ [])) ∷ []
      left d = keys_left d
