-- ===== src/Platform/X11/Inject/Clears.antt =====
-- inject.rs, release_all: what it leaves down when its requests reach the server.
use win_xtend.Prelude.{
  ℕ, ◌+◌, ◌≡◌, refl, sym, ap, subst, Bool, true, false, ◌==◌, Bool-cases, inl, inr, none, List, [],
  ◌∷◌, any_of, arith,
}
use mathlib.Core.List.{reverse}
use win_xtend.Prelude.Keeps.{any_of-reverse}
use win_xtend.Prelude.Int.{ℤ}
use win_xtend.Prelude.Results.{Result, ok}
use win_xtend.Proto.Float.{Floats}
use win_xtend.Platform.X11.Inject.{
  Injector, Session, Sink, pass, update, send, try_keymap, Held, held_key, held_button, Request,
  key_request, Stop, holds, has_code, without_code, same_held,
}
use win_xtend.Platform.X11.Inject.Release.{
  Call, release_of, without_held, release_order, release_items, release_codes,
  modifier_release_order, is_idle, forget_motion, forget_all, keys_of, release_all, after_calls,
  new_session,
}
use win_xtend.Platform.X11.Inject.Tracked.{
  key_is_down, button_is_down, is_wheel, held_eq, nothing_sent,
}
use win_xtend.Proto.Ids.{node_key}
use win_xtend.Platform.X11.Inject.Monad.{Tidy}
use win_xtend.Platform.X11.Inject.Histories.{release_all_keeps, after_calls-Tidy}
use win_xtend.Platform.X11.Inject.Leftover.{
  without_all, without_codes, holds-without_all, has_code-without_codes, release_order_cover,
}

module _ {A : Type 0} where
  none_there :
      (test : A → Bool) (xs : List A)
      → (elim xs [ [] ↦ true | _ ↦ false ]) ≡ true
      → any_of test xs ≡ false
  none_there test [] h = refl
  none_there test (x ∷ xs) h = absurd (ground (arith, h))

module _ {F : Type 0} where
  -- No error, and nothing that is down but the wheel.
  abbrev pub LetGo : Session F × Result Stop (Unit {0}) → Type 0
  LetGo p =
      (p.1 ≡ ok tt)
      × ((code : ℕ) → key_is_down code p.0.sent ≡ false)
      × ((code : ℕ) → is_wheel code ≡ false → button_is_down code p.0.sent ≡ false)

module _ {F : Type 0} ⦃fl : Floats F⦄ (k : Sink)
    (quiet : (n : ℕ) (r : Request) → k.send n r ≡ none) where
  -- The sessions that differ in what was sent and how often the server was called.
  abbrev After : {A : Type 0} → Session F × Result Stop A → A → Injector F → Type 0
  After p a i =
      (sent : List Request) × (calls : ℕ) × (p
        ≡ (record { injector = i; sent = sent; calls = calls }, ok a))

  release_items_quiet :
      (items : List Held) (s : Session F)
      → After
          (release_items k items s)
          tt
          (record (s.injector) { held = without_all items s.injector.held })
  unfolding release_items send
  release_items_quiet [] s = (s.sent, s.calls, refl)
  release_items_quiet (item ∷ more) s =
      let (sent, calls, e) = release_items_quiet more (record s {
        injector = record (s.injector) { held = without_held item s.injector.held };
        sent = release_of item ∷ s.sent;
        calls = s.calls + 1;
      }) in
      (sent, calls, rw (quiet s.calls (release_of item)) e)

  release_codes_quiet :
      (codes : List ℕ) (s : Session F)
      → After
          (release_codes k codes s)
          tt
          (record (s.injector) { pressed = without_codes codes s.injector.pressed })
  unfolding release_codes send
  release_codes_quiet [] s = (s.sent, s.calls, refl)
  release_codes_quiet (code ∷ more) s =
      let (sent, calls, e) = release_codes_quiet more (record s {
        injector = record (s.injector) { pressed = without_code code s.injector.pressed };
        sent = key_request code false ∷ s.sent;
        calls = s.calls + 1;
      }) in
      (sent, calls, rw (quiet s.calls (key_request code false)) e)

  from_empty :
      (s t : Session F)
      → Tidy s
      → release_all k s ≡ (t, ok tt)
      → ((x : Held) → holds t.injector.held x ≡ false)
      → ((x : ℕ) → has_code t.injector.pressed x ≡ false)
      → LetGo (release_all k s)
  from_empty s t v e no_held no_pressed =
      let w : Tidy t = subst (λ p. Tidy p.0) e ((release_all_keeps k).runs s v) in
      subst LetGo (sym e) (
        refl,
        λ code. ground (arith, w.keys code, no_held (held_key code), no_pressed code),
        λ code n. ground (arith, w.buttons code n, no_held (held_button code)),
      )

  busy_LetGo :
      (s : Session F)
      → Tidy s
      → is_idle s.injector ≡ false
      → After
          (release_items k (reverse s.injector.held) s)
          tt
          (record (s.injector) { held = without_all (reverse s.injector.held) s.injector.held })
      → LetGo (release_all k s)
  unfolding release_all modifier_release_order try_keymap
  busy_LetGo s v busy (sent, calls, e) =
      from_empty s
        (record {
          injector = forget_all (record left { pressed = without_codes codes left.pressed });
          sent = later.0;
          calls = later.1;
        })
        v (rw (release_all, busy, e) (ap (pass (λ done. update forget_all)) later.2))
        (λ x. ground (
          arith,
          holds-without_all (reverse held) held x,
          any_of-reverse (λ h. same_held h x) held,
        ))
        (λ x. ground (
          arith,
          has_code-without_codes codes left.pressed x,
          release_order_cover (keys_of (k.keymap calls)) left.pressed x,
        ))
    where
      held : List Held
      held = s.injector.held

      left : Injector F
      left = record (s.injector) { held = without_all (reverse held) held }

      codes : List ℕ
      codes = release_order (keys_of (k.keymap calls)) left.pressed

      later :
          After
            (release_codes k codes (record { injector = left; sent = sent; calls = calls + 1 }))
            tt
            (record left { pressed = without_codes codes left.pressed })
      later = release_codes_quiet codes (record { injector = left; sent = sent; calls = calls + 1 })

  release_all-LetGo : (s : Session F) → Tidy s → LetGo (release_all k s)
  unfolding release_all
  release_all-LetGo s v = elim (Bool-cases (is_idle s.injector)) [
    | inl idle ↦
        from_empty s (record s { injector = forget_motion s.injector }) v
          (rw (release_all, idle) refl)
          (λ x. none_there (λ h. same_held h x) s.injector.held (ground (arith, idle)))
          (λ x. none_there (λ c. c == x) s.injector.pressed (ground (arith, idle)))
    | inr busy ↦ busy_LetGo s v busy (release_items_quiet (reverse s.injector.held) s)
  ]

-- After any history of calls, during which the server may have refused any request and answered any
-- question, a release of everything whose own requests all reach the server succeeds, and no key and
-- no button is down afterwards, but for the wheel's buttons, 4 to 7.
pub release_all-lets_go :
    {F : Type 0} ⦃fl : Floats F⦄ (before after : Sink) (as_int : F → ℤ) (history : List (Call F))
    → ((n : ℕ) (r : Request) → after.send n r ≡ none)
    → LetGo (release_all after (after_calls before as_int new_session history))
unfolding new_session
release_all-lets_go before after as_int history quiet =
    release_all-LetGo after quiet (after_calls before as_int new_session history)
      (after_calls-Tidy before as_int new_session history nothing_sent)
