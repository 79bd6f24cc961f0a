-- ===== src/Core/Router/Release.antt =====
-- router.rs: the release events, seen by the machine that receives them.
use mathlib.Core.List.{reverse}
use win_xtend.Prelude.{
  ◌≡◌, refl, ap, ◌∙◌, Bool, true, false, not, List, [], ◌∷◌, ◌++◌, map, keep, any_of, All, arith,
}
use win_xtend.Prelude.Keeps.{keep_twice, keep_none, any_of-reverse}
use win_xtend.Proto.Modifiers
use win_xtend.Proto.Modifiers.{Modifiers}
use win_xtend.Proto.Keyboard.{
  SpecialKey, KeyPayload, special, KeyPayload-discrete, release, special_event,
}
use win_xtend.Proto.Input.{MouseButton, MouseButton-discrete, InputEvent, key}
use win_xtend.Core.Held.{
  HeldInput, same_key, same_button, release_key, observe_key, observe_button, button_up, key_up,
  stranded_keys, covered, modifier_keys, release_events,
}
use win_xtend.Core.Router.{observe}

module _ {A : Type 0} (same : A → A → Bool) where
  -- Taking out each of a list of elements.
  abbrev strip : List A → List A → List A
  strip [] xs = xs
  strip (y ∷ ys) xs = strip ys (keep (λ x. not (same x y)) xs)

  keep_every : (xs : List A) → xs ≡ keep (λ x. not (any_of (same x) [])) xs
  keep_every [] = refl
  keep_every (x ∷ xs) = ap (λ t. x ∷ t) (keep_every xs)

  strip-keep : (ys xs : List A) → strip ys xs ≡ keep (λ x. not (any_of (same x) ys)) xs
  strip-keep [] xs = keep_every xs
  strip-keep (y ∷ ys) xs =
      strip-keep ys (keep (λ x. not (same x y)) xs)
      ∙ keep_twice (λ x. same x y) (λ x. any_of (same x) ys) xs

  grown :
      (y : A) (ys xs : List A)
      → All (λ x. any_of (same x) ys ≡ true) xs
      → All (λ x. any_of (same x) (y ∷ ys) ≡ true) xs
  grown y ys [] h = tt
  grown y ys (x ∷ xs) h = (ground (arith, h.0), grown y ys xs h.1)

  own : ((x : A) → same x x ≡ true) → (xs : List A) → All (λ x. any_of (same x) xs ≡ true) xs
  own self [] = tt
  own self (x ∷ xs) = (ground (arith, self x), grown x xs xs (own self xs))

  turned :
      (ys xs : List A)
      → All (λ x. any_of (same x) ys ≡ true) xs
      → All (λ x. any_of (same x) (reverse ys) ≡ true) xs
  turned ys [] h = tt
  turned ys (x ∷ xs) h = (any_of-reverse (same x) ys ∙ h.0, turned ys xs h.1)

  strip-reverse : ((x : A) → same x x ≡ true) → (xs : List A) → strip (reverse xs) xs ≡ []
  strip-reverse self xs =
      strip-keep (reverse xs) xs
      ∙ keep_none (λ x. any_of (same x) (reverse xs)) xs (turned xs xs (own self xs))

pub same_key_self : (k : KeyPayload) → same_key k k ≡ true
same_key_self k =
    elim (KeyPayload-discrete k k) as (λ d. elim d [ yes e ↦ true | no n ↦ false ] ≡ true) [
      | yes e ↦ refl
      | no n ↦ absurd (n refl)
    ]

same_button_self : (b : MouseButton) → same_button b b ≡ true
same_button_self b =
    elim (MouseButton-discrete b b) as (λ d. elim d [ yes e ↦ true | no n ↦ false ] ≡ true) [
      | yes e ↦ refl
      | no n ↦ absurd (n refl)
    ]

module _ {F : Type 0} where
  -- What a machine counts as held after a row of events.
  abbrev pub observe_events : HeldInput → List (InputEvent F) → HeldInput
  observe_events h [] = h
  observe_events h (e ∷ es) = observe_events (observe e h) es

  events_append :
      (h : HeldInput) (xs ys : List (InputEvent F))
      → observe_events h (xs ++ ys) ≡ observe_events (observe_events h xs) ys
  events_append h [] ys = refl
  events_append h (e ∷ xs) ys = events_append (observe e h) xs ys

-- The type of coordinates plays no part.
module _ (F : Type 0) where
  -- The keys and the buttons after the releases of some buttons.
  buttons_up :
      (h : HeldInput) (bs : List MouseButton)
      → ((observe_events h (map (button_up {F = F}) bs)).buttons ≡ strip same_button bs h.buttons)
        × ((observe_events h (map (button_up {F = F}) bs)).keys ≡ h.keys)
  unfolding observe_button
  buttons_up h [] = (refl, refl)
  buttons_up h (b ∷ bs) = buttons_up (observe_button h b false) bs

  keys_up :
      (h : HeldInput) (ks : List KeyPayload)
      → ((observe_events h (map (key_up {F = F}) ks)).keys ≡ strip same_key ks h.keys)
        × ((observe_events h (map (key_up {F = F}) ks)).buttons ≡ h.buttons)
  unfolding observe_key
  keys_up h [] = (refl, refl)
  keys_up h (k ∷ ks) = keys_up (observe (key_up {F = F} k) h) ks

  abbrev special_up : SpecialKey → InputEvent F
  special_up k = key (special_event k release Modifiers.none)

  -- With no key held a release of a special key holds none.
  specials_up :
      (h : HeldInput) (ks : List SpecialKey)
      → h.keys ≡ []
      → ((observe_events h (map special_up ks)).keys ≡ [])
        × ((observe_events h (map special_up ks)).buttons ≡ h.buttons)
  unfolding observe_key
  specials_up h [] e = (e, refl)
  specials_up h (k ∷ ks) e =
      specials_up (observe (special_up k) h) ks (ap (λ t. release_key t (special k)) e)

  -- A machine that holds some keys and buttons and then sees the release events of them holds no
  -- key and no button.
  pub release_events_lem :
      (h : HeldInput)
      → ((observe_events h (release_events {F = F} h)).keys ≡ [])
        × ((observe_events h (release_events {F = F} h)).buttons ≡ [])
  unfolding release_events
  release_events_lem h =
      let stranded = Modifiers.without h.mods (covered Modifiers.none h.keys) in
      let h1 = observe_events h (map (button_up {F = F}) (reverse h.buttons)) in
      let h2 = observe_events h1 (map (key_up {F = F}) (reverse h.keys)) in
      let (b1, k1) = buttons_up h (reverse h.buttons) in
      let (k2, b2) = keys_up h1 (reverse h.keys) in
      let no_keys : h2.keys ≡ [] =
        k2
        ∙ ap (strip same_key (reverse h.keys)) k1
        ∙ strip-reverse same_key same_key_self h.keys in
      let (k3, b3) = specials_up h2 (stranded_keys stranded modifier_keys) no_keys in
      let whole =
        events_append h (map (button_up {F = F}) (reverse h.buttons)) _
        ∙ events_append h1 (map (key_up {F = F}) (reverse h.keys)) _ in
      (
        ap (λ t. t.keys) whole ∙ k3,
        ap (λ t. t.buttons) whole
            ∙ b3
            ∙ b2
            ∙ b1
            ∙ strip-reverse same_button same_button_self h.buttons,
      )
