-- ===== src/Platform/Keyres/Steady.antt =====
-- keyres.rs: what each step does to what is recorded and held, and what a history of steps comes to.
use win_xtend.Prelude.{
  ℕ, ◌≡◌, ◌≢◌, inl, inr, refl, sym, ap, ◌∙◌, subst, Bool, true, false, if◌then◌else◌, Option, none,
  some, map_or, unwrap_or, List, [], ◌∷◌, ◌++◌, arith, Bool-cases, Option-cases, ==-self,
}
use win_xtend.Prelude.Maps.{lookup, insert, lookup-insert}
use win_xtend.Prelude.Keeps.{All-keep, All-map}
use win_xtend.Proto.Ids.{node_key}
use win_xtend.Proto.Keyboard.{KeyAction, press, release, repeat, KeyPayload, raw_key_code, KeyEvent}
use win_xtend.Core.Held.{HeldInput, observe_key}
use win_xtend.Platform.Keyres.{
  RawKey, KeyResolver, resolve, resolve_release, resolve_press, press_dead, press_with, drop_first,
  flushed, is_repeat, is_composing, payload_for, is_escape,
}
use win_xtend.Platform.Keyres.Recorded.{
  receive, Covered, Consistent, Fits, recorded-insert, recorded-insert_self, recorded-drop_first,
  recorded-drop_dead, observe_key-press, Covered-press_key, receive-append, flushed-Covered,
}

-- What is recorded for a key that is pressed fits: this is what `Consistent` says.
Consistent-Fits :
    (r : KeyResolver) (raw : RawKey) (slot : Option KeyPayload)
    → raw.action ≢ release
    → (resolve r raw).0.down ≡ insert raw.code slot r.down
    → Consistent r raw
    → Fits raw.code slot r.down
unfolding Consistent
Consistent-Fits r raw slot d e (inl released) = absurd (d released)
Consistent-Fits r raw slot d e (inr (inl fresh)) = inl fresh
Consistent-Fits r raw slot d e (inr (inr same)) = inr (
    sym same
    ∙ ap (lookup raw.code) e
    ∙ lookup-insert raw.code raw.code slot r.down
    ∙ rw (==-self raw.code) refl)

-- The state and the events that a raw key comes to.
abbrev pub After : HeldInput → KeyResolver × List KeyEvent → Type 0
After h t = Covered (receive h t.1).keys t.0.down

unfoldable pub release_event : RawKey → KeyPayload → KeyEvent
release_event raw payload = record {
  payload = payload;
  action = release;
  modifiers = raw.modifiers;
}

resolve_release_unknown :
    (r : KeyResolver) (raw : RawKey)
    → lookup raw.code r.down ≡ none
    → resolve_release r raw
      ≡ (r, release_event raw (unwrap_or (payload_for raw) (raw_key_code raw.code)) ∷ [])
unfolding resolve_release release_event
resolve_release_unknown r raw e = rw (e, resolve_release) refl

resolve_release_dead :
    (r : KeyResolver) (raw : RawKey)
    → lookup raw.code r.down ≡ some none
    → resolve_release r raw ≡ (record r { down = drop_first raw.code r.down }, [])
unfolding resolve_release
resolve_release_dead r raw e = rw (e, resolve_release) refl

pub resolve_release_kept :
    (r : KeyResolver) (raw : RawKey) (p : KeyPayload)
    → lookup raw.code r.down ≡ some (some p)
    → resolve_release r raw
      ≡ (record r { down = drop_first raw.code r.down }, release_event raw p ∷ [])
unfolding resolve_release release_event
resolve_release_kept r raw p e = rw (e, resolve_release) refl

release-Covered :
    (r : KeyResolver) (raw : RawKey) (h : HeldInput)
    → Covered h.keys r.down
    → After h (resolve_release r raw)
unfolding receive release_event observe_key
release-Covered r raw h all = elim (Option-cases (lookup raw.code r.down)) [
  | inl unknown ↦
      subst (After h) (sym (resolve_release_unknown r raw unknown))
        (All-keep _ _ _ h.keys (λ x d e. e) all)
  | inr found ↦ elim (Option-cases found.0) [
    | inl dead ↦
        let e = found.1 ∙ ap some dead in
        subst (After h) (sym (resolve_release_dead r raw e))
          (All-map _ _ h.keys (λ k. recorded-drop_dead k raw.code r.down e) all)
    | inr kept ↦
        let e = found.1 ∙ ap some kept.1 in
        subst (After h) (sym (resolve_release_kept r raw kept.0 e)) (
          All-keep _ _ _ h.keys
            (λ k d. recorded-drop_first k kept.0 raw.code r.down e (ground arith)) all)
  ]
]

press_dead-Covered :
    (r : KeyResolver) (raw : RawKey) (accent : ℕ) (h : HeldInput)
    → (is_repeat raw.action ≡ false → Fits raw.code none r.down)
    → Covered h.keys r.down
    → Covered (receive h (press_dead r raw accent).1).keys (press_dead r raw accent).0.down
unfolding press_dead receive
press_dead-Covered r raw accent h fits all = elim (Bool-cases (is_repeat raw.action)) [
  | inl again ↦ rw again all
  | inr first ↦ rw first (
      All-map _ _ (receive h (flushed r.pending_dead)).keys
        (λ k. recorded-insert k raw.code none r.down (fits first))
        (flushed-Covered h r.pending_dead r.down all))
]

maybe_flushed :
    (h : HeldInput) (b : Bool) (pending : Option ℕ) (down : List (ℕ × Option KeyPayload))
    → Covered h.keys down
    → Covered (receive h (if b then [] else flushed pending)).keys down
unfolding receive
maybe_flushed h true pending down all = all
maybe_flushed h false pending down all = flushed-Covered h pending down all

-- One more key goes down, with its payload in its slot.
pressed-Covered :
    (h : HeldInput) (ev : KeyEvent) (evs : List KeyEvent) (code : ℕ)
    (down : List (ℕ × Option KeyPayload))
    → ev.action ≢ release
    → Fits code (some ev.payload) down
    → Covered (receive h evs).keys down
    → Covered (receive h (evs ++ ev ∷ [])).keys (insert code (some ev.payload) down)
unfolding receive
pressed-Covered h ev evs code down d fits all =
    subst (λ (t : HeldInput). Covered t.keys (insert code (some ev.payload) down))
      (sym (receive-append h evs (ev ∷ [])))
      (subst (λ keys. Covered keys (insert code (some ev.payload) down))
        (sym (observe_key-press (receive h evs) ev ev.action refl d))
        (Covered-press_key (receive h evs).keys ev.payload (insert code (some ev.payload) down)
          (recorded-insert_self ev.payload code down)
          (All-map _ _ (receive h evs).keys
            (λ k. recorded-insert k code (some ev.payload) down fits) all)))

press_with-Covered :
    (pending : Option ℕ) (r : KeyResolver) (raw : RawKey) (h : HeldInput)
    → raw.action ≢ release
    → ((slot : Option KeyPayload)
        → (press_with pending r raw).0.down ≡ insert raw.code slot r.down
        → Fits raw.code slot r.down)
    → Covered h.keys r.down
    → Covered (receive h (press_with pending r raw).1).keys (press_with pending r raw).0.down
unfolding press_with
press_with-Covered pending r raw h d fits all =
    pressed-Covered h _ _ raw.code r.down d (fits _ refl) (
      maybe_flushed h (is_composing (unwrap_or (payload_for raw) (raw_key_code raw.code))) pending
        r.down all)

abbrev escaped : KeyResolver → RawKey → Option ℕ
escaped r raw = if map_or false is_escape raw.special then none else r.pending_dead

resolve_press_dead :
    (r : KeyResolver) (raw : RawKey) (accent : ℕ)
    → raw.dead ≡ some accent
    → resolve_press r raw ≡ press_dead r raw accent
unfolding resolve_press
resolve_press_dead r raw accent e = rw e refl

resolve_press_plain :
    (r : KeyResolver) (raw : RawKey)
    → raw.dead ≡ none
    → resolve_press r raw ≡ press_with (escaped r raw) r raw
unfolding resolve_press
resolve_press_plain r raw e = rw e refl

press_dead-down :
    (r : KeyResolver) (raw : RawKey) (accent : ℕ)
    → is_repeat raw.action ≡ false
    → (press_dead r raw accent).0.down ≡ insert raw.code none r.down
unfolding press_dead
press_dead-down r raw accent e = rw e refl

resolve_press-Covered :
    (r : KeyResolver) (raw : RawKey) (h : HeldInput)
    → raw.action ≢ release
    → ((slot : Option KeyPayload)
        → (resolve_press r raw).0.down ≡ insert raw.code slot r.down
        → Fits raw.code slot r.down)
    → Covered h.keys r.down
    → After h (resolve_press r raw)
resolve_press-Covered r raw h d fits all = elim (Option-cases raw.dead) [
  | inl plain ↦
      let e = resolve_press_plain r raw plain in
      subst (After h) (sym e) (
        press_with-Covered (escaped r raw) r raw h d
          (λ slot k. fits slot (ap (λ (t : KeyResolver × List KeyEvent). t.0.down) e ∙ k)) all)
  | inr accent ↦
      let e = resolve_press_dead r raw accent.0 accent.1 in
      subst (After h) (sym e) (
        press_dead-Covered r raw accent.0 h
          (λ first. fits none (
            ap (λ (t : KeyResolver × List KeyEvent). t.0.down) e
            ∙ press_dead-down r raw accent.0 first))
          all)
]

resolve_of :
    (r : KeyResolver) (raw : RawKey) (a : KeyAction)
    → raw.action ≡ a
    → resolve r raw ≡ (elim a as (λ _. KeyResolver × List KeyEvent) [
      | release ↦ resolve_release r raw
      | press ↦ resolve_press r raw
      | repeat ↦ resolve_press r raw
    ])
unfolding resolve
resolve_of r raw a e =
    ap
      (λ a. elim a as (λ _. KeyResolver × List KeyEvent) [
        | release ↦ resolve_release r raw
        | press ↦ resolve_press r raw
        | repeat ↦ resolve_press r raw
      ])
      e

-- What the receiver holds stays recorded.
pub resolve-Covered :
    (r : KeyResolver) (raw : RawKey) (h : HeldInput)
    → Consistent r raw
    → Covered h.keys r.down
    → After h (resolve r raw)
resolve-Covered r raw h consistent all = go raw.action refl
  where
    pressing : raw.action ≢ release → resolve r raw ≡ resolve_press r raw → After h (resolve r raw)
    pressing d e = subst (After h) (sym e) (
        resolve_press-Covered r raw h d
          (λ slot k.
            Consistent-Fits r raw slot d (ap (λ (t : KeyResolver × List KeyEvent). t.0.down) e ∙ k)
              consistent)
          all)

    go : (a : KeyAction) → raw.action ≡ a → After h (resolve r raw)
    go release e = subst (After h) (sym (resolve_of r raw release e)) (release-Covered r raw h all)
    go press e = pressing (λ k. absurd (ground arith)) (resolve_of r raw press e)
    go repeat e = pressing (λ k. absurd (ground arith)) (resolve_of r raw repeat e)
