-- ===== src/Platform/X11/Inject/Tracked.antt =====
-- inject.rs: the keys and buttons that are down, and the lists that the injector keeps of them.
use win_xtend.Prelude.{
  ℕ, ◌≡◌, refl, sym, ap, Bool, true, false, not, ◌&&◌, ◌||◌, ◌==◌, leb, if◌then◌else◌, List, [],
  ◌∷◌, ◌++◌, keep, any_of, arith, ==-self, ==_iff, Bool-cases, inl, inr, subst,
}
use win_xtend.Prelude.Int.{ℤ}
use win_xtend.Prelude.Maps.{Eq, beq_trans, beq_trans_right}
use win_xtend.Prelude.Keeps.{any_of-append}
use win_xtend.Proto.Ids.{node_key}
use win_xtend.Platform.X11.Inject.{
  Request, motion, button_request, key_request, Held, held_key, held_button, same_held, holds,
  has_code, without_code, tracked,
}
use win_xtend.Platform.X11.Inject.Modifiers.{ModifierStep, pressed_after}
use win_xtend.Platform.X11.Inject.Release.{without_held, release_of}

-- Whether the last request about it pressed it; the newest request is first.
abbrev pub key_is_down : ℕ → List Request → Bool
key_is_down code [] = false
key_is_down code (key_request c press ∷ older) =
    let before = key_is_down code older in if c == code then press else before
key_is_down code (motion x y relative ∷ older) = key_is_down code older
key_is_down code (button_request b press ∷ older) = key_is_down code older

abbrev pub button_is_down : ℕ → List Request → Bool
button_is_down code [] = false
button_is_down code (button_request c press ∷ older) =
    let before = button_is_down code older in if c == code then press else before
button_is_down code (motion x y relative ∷ older) = button_is_down code older
button_is_down code (key_request c press ∷ older) = button_is_down code older

-- The buttons that are the wheel.
abbrev pub is_wheel : ℕ → Bool
is_wheel code = leb 4 code && leb code 7

pub same_held_sound : (a b : Held) → same_held a b ≡ true → a ≡ b
same_held_sound (held_key a) (held_key b) h = ap held_key ((==_iff a b).0 h)
same_held_sound (held_button a) (held_button b) h = ap held_button ((==_iff a b).0 h)
same_held_sound (held_key a) (held_button b) h = absurd (ground (arith, h))
same_held_sound (held_button a) (held_key b) h = absurd (ground (arith, h))

pub same_held_refl : (a : Held) → same_held a a ≡ true
same_held_refl (held_key a) = ==-self a
same_held_refl (held_button a) = ==-self a

instance abbrev pub held_eq : Eq Held
held_eq = record { beq = same_held; beq_sound = same_held_sound; beq_refl = same_held_refl }

module _ {K : Type 0} ⦃e : Eq K⦄ where
  pub any_of-keep_others :
      (x y : K) (xs : List K)
      → any_of (λ h. e.beq h y) (keep (λ h. not (e.beq h x)) xs)
        ≡ (if e.beq x y then false else any_of (λ h. e.beq h y) xs)
  any_of-keep_others x y [] = ground arith
  any_of-keep_others x y (h ∷ xs) = elim (Bool-cases (e.beq h x)) [
    | inl same ↦ rw (same, any_of-keep_others x y xs, beq_trans h x y same) (ground arith)
    | inr other ↦ elim (Bool-cases (e.beq x y)) [
      | inl hit ↦
          rw (other, any_of-keep_others x y xs, hit)
            (rw (sym (beq_trans_right x y h hit), other) refl)
      | inr miss ↦ rw (other, any_of-keep_others x y xs, miss) refl
    ]
  ]

  any_of-set :
      (x y : K) (xs : List K)
      → any_of (λ h. e.beq h y) (if any_of (λ h. e.beq h x) xs then xs else xs ++ x ∷ [])
        ≡ (if e.beq x y then true else any_of (λ h. e.beq h y) xs)
  any_of-set x y xs = elim (Bool-cases (any_of (λ h. e.beq h x) xs)) [
    | inl there ↦ elim (Bool-cases (e.beq x y)) [
      | inl hit ↦
          rw (there, hit)
            (subst (λ t. any_of (λ h. e.beq h t) xs ≡ true) (e.beq_sound x y hit) there)
      | inr miss ↦ rw (there, miss) refl
    ]
    | inr new ↦ rw (new, any_of-append (λ h. e.beq h y) xs (x ∷ [])) (ground arith)
  ]

pub holds-tracked :
    (item other : Held) (release : Bool) (items : List Held)
    → holds (tracked item release items) other
      ≡ (if same_held item other then not release else holds items other)
unfolding tracked
holds-tracked item other true items = any_of-keep_others item other items
holds-tracked item other false items = any_of-set item other items

pub has_code-without_code :
    (x y : ℕ) (codes : List ℕ)
    → has_code (without_code x codes) y ≡ (if x == y then false else has_code codes y)
has_code-without_code x y codes = any_of-keep_others x y codes

pub has_code-pressed_after :
    (s : ModifierStep) (y : ℕ) (codes : List ℕ)
    → has_code (pressed_after s codes) y
      ≡ (if s.keycode == y then not s.release else has_code codes y)
unfolding pressed_after
has_code-pressed_after s y codes = elim (Bool-cases s.release) [
  | inl up ↦ rw up (any_of-keep_others s.keycode y codes)
  | inr down ↦ rw down (any_of-set s.keycode y codes)
]

-- What is down is on a list, but for the wheel.
pub record Covered (held : List Held) (pressed : List ℕ) (sent : List Request) : Type 0 where
  pub keys :
      (code : ℕ)
      → key_is_down code sent ≡ true
      → (holds held (held_key code) || has_code pressed code) ≡ true
  pub buttons :
      (code : ℕ)
      → is_wheel code ≡ false
      → button_is_down code sent ≡ true
      → holds held (held_button code) ≡ true

pub nothing_sent : Covered [] [] []
nothing_sent = record {
  keys = λ code h. absurd (ground (arith, h));
  buttons = λ code n h. absurd (ground (arith, h));
}

module _ {held : List Held} {pressed : List ℕ} {sent : List Request}
    (v : Covered held pressed sent) where
  pub track_key :
      (c : ℕ) (release : Bool)
      → Covered (tracked (held_key c) release held) pressed (key_request c (not release) ∷ sent)
  track_key c release = record {
    keys = λ y. ground (arith, holds-tracked (held_key c) (held_key y) release held, v.keys y);
    buttons =
        λ y. ground (arith, holds-tracked (held_key c) (held_button y) release held, v.buttons y);
  }

  pub step_key :
      (s : ModifierStep)
      → Covered held (pressed_after s pressed) (key_request s.keycode (not s.release) ∷ sent)
  step_key s = record {
    keys = λ y. ground (arith, has_code-pressed_after s y pressed, v.keys y);
    buttons = v.buttons;
  }

  pub take_over : (c : ℕ) → Covered (tracked (held_key c) false held) (without_code c pressed) sent
  take_over c = record {
    keys = λ y. ground (
      arith,
      holds-tracked (held_key c) (held_key y) false held,
      has_code-without_code c y pressed,
      v.keys y,
    );
    buttons =
        λ y. ground (arith, holds-tracked (held_key c) (held_button y) false held, v.buttons y);
  }

  pub forward_key :
      (c : ℕ) (release : Bool)
      → Covered
          (tracked (held_key c) release held)
          (without_code c pressed)
          (key_request c (not release) ∷ sent)
  forward_key c release = record {
    keys = λ y. ground (
      arith,
      holds-tracked (held_key c) (held_key y) release held,
      has_code-without_code c y pressed,
      v.keys y,
    );
    buttons =
        λ y. ground (arith, holds-tracked (held_key c) (held_button y) release held, v.buttons y);
  }

  pub track_button :
      (c : ℕ) (release : Bool)
      → Covered
          (tracked (held_button c) release held)
          pressed
          (button_request c (not release) ∷ sent)
  track_button c release = record {
    keys = λ y. ground (arith, holds-tracked (held_button c) (held_key y) release held, v.keys y);
    buttons = λ y.
        ground (arith, holds-tracked (held_button c) (held_button y) release held, v.buttons y);
  }

  pub turn_wheel :
      (c : ℕ) (press : Bool)
      → is_wheel c ≡ true
      → Covered held pressed (button_request c press ∷ sent)
  turn_wheel c press wheel = record {
    keys = v.keys;
    buttons = λ y. ground (arith, ==_iff c y, v.buttons y, wheel);
  }

  pub move_pointer : (x y : ℤ) (relative : Bool) → Covered held pressed (motion x y relative ∷ sent)
  move_pointer x y relative = record { keys = v.keys; buttons = v.buttons }

  pub release_key : (c : ℕ) → Covered held (without_code c pressed) (key_request c false ∷ sent)
  release_key c = record {
    keys = λ y. ground (arith, has_code-without_code c y pressed, v.keys y);
    buttons = v.buttons;
  }

  pub release_item :
      (item : Held) → Covered (without_held item held) pressed (release_of item ∷ sent)
  unfolding tracked
  release_item (held_key c) = track_key c true
  release_item (held_button c) = track_button c true
