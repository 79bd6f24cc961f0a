-- ===== src/Prelude/Keeps.antt =====
-- What `keep` and `any_of` make of one another, and of a predicate at every element.
use mathlib.Core.Path.{◌≡◌, refl, ap, ◌∙◌}
use mathlib.Core.Bool.{Bool, true, not, ◌||◌}
use mathlib.Core.List.{List, [], ◌∷◌, ◌++◌, reverse, reverse-cons}
use native.Mathlib.Omega.{arith}
use win_xtend.Prelude.Tests.{Bool-cases}
use mathlib.Core.Logic.{inl, inr}
use win_xtend.Prelude.Lists.{keep, any_of, All}

module _ {A : Type 0} where
  pub keep_twice :
      (p q : A → Bool) (xs : List A)
      → keep (λ x. not (q x)) (keep (λ x. not (p x)) xs) ≡ keep (λ x. not (p x || q x)) xs
  keep_twice p q [] = refl
  keep_twice p q (x ∷ xs) = ground (arith, keep_twice p q xs)

  pub keep_none :
      (p : A → Bool) (xs : List A) → All (λ x. p x ≡ true) xs → keep (λ x. not (p x)) xs ≡ []
  keep_none p [] h = refl
  keep_none p (x ∷ xs) h = ground (arith, keep_none p xs h.1, h.0)

  pub any_of-append :
      (p : A → Bool) (xs ys : List A) → any_of p (xs ++ ys) ≡ (any_of p xs || any_of p ys)
  any_of-append p [] ys = refl
  any_of-append p (x ∷ xs) ys = ground (arith, any_of-append p xs ys)

  pub any_of-reverse : (p : A → Bool) (xs : List A) → any_of p (reverse xs) ≡ any_of p xs
  any_of-reverse p [] = refl
  any_of-reverse p (x ∷ xs) =
      ap (any_of p) (reverse-cons x xs)
      ∙ ground (arith, any_of-append p (reverse xs) (x ∷ []), any_of-reverse p xs)

  pub All-keep :
      (P Q : A → Type 0) (q : A → Bool) (xs : List A)
      → ((x : A) → q x ≡ true → P x → Q x)
      → All P xs
      → All Q (keep q xs)
  All-keep P Q q [] f all = tt
  All-keep P Q q (x ∷ xs) f all = elim (Bool-cases (q x)) [
    | inl kept ↦ rw kept (f x kept all.0, All-keep P Q q xs f all.1)
    | inr dropped ↦ rw dropped (All-keep P Q q xs f all.1)
  ]

  pub All-snoc : (P : A → Type 0) (xs : List A) (x : A) → All P xs → P x → All P (xs ++ x ∷ [])
  All-snoc P [] x all p = (p, tt)
  All-snoc P (y ∷ xs) x all p = (all.0, All-snoc P xs x all.1 p)

  pub All-map : (P Q : A → Type 0) (xs : List A) → ((x : A) → P x → Q x) → All P xs → All Q xs
  All-map P Q [] f all = tt
  All-map P Q (x ∷ xs) f all = (f x all.0, All-map P Q xs f all.1)
