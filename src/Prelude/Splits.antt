-- ===== src/Prelude/Splits.antt =====
-- Splitting a list at a place, and two equal concatenations at the same place.
use Prim.Native.Nat.{ℕ, zero, suc, ◌+◌, ◌≤◌}
use mathlib.Core.Path.{◌≡◌, refl, sym, ap, ◌∙◌}
use mathlib.Core.List.{List, [], ◌∷◌, ◌++◌}
use native.Mathlib.Omega.{arith}
use win_xtend.Prelude.Lists.{length, take, drop}

-- Splitting two equal concatenations at the same place.
module _ {ℓ} {A : Type ℓ} where
  pub cons_head : {x y : A} {xs ys : List A} → x ∷ xs ≡ y ∷ ys → x ≡ y
  cons_head h = cc

  pub cons_tail : {x y : A} {xs ys : List A} → x ∷ xs ≡ y ∷ ys → xs ≡ ys
  cons_tail h = cc

  pub take-of_append_eq :
      (front back xs ys : List A)
      → xs ++ ys ≡ front ++ back
      → length front ≤ length xs
      → take (length front) xs ≡ front
  take-of_append_eq [] back xs ys e h = refl
  take-of_append_eq (a ∷ front) back [] ys e h = absurd (omega arith)
  take-of_append_eq (a ∷ front) back (x ∷ xs) ys e h =
      cc (cons_head e, take-of_append_eq front back xs ys (cons_tail e) (omega arith))

  pub drop-of_append_eq :
      (front back xs ys : List A)
      → xs ++ ys ≡ front ++ back
      → length front ≤ length xs
      → drop (length front) xs ++ ys ≡ back
  drop-of_append_eq [] back xs ys e h = e
  drop-of_append_eq (a ∷ front) back [] ys e h = absurd (omega arith)
  drop-of_append_eq (a ∷ front) back (x ∷ xs) ys e h =
      drop-of_append_eq front back xs ys (cons_tail e) (omega arith)

  pub drop-append : (n : ℕ) (xs ys : List A) → n ≤ length xs → drop n (xs ++ ys) ≡ drop n xs ++ ys
  drop-append zero xs ys h = refl
  drop-append (suc n) [] ys h = absurd (omega arith)
  drop-append (suc n) (x ∷ xs) ys h = drop-append n xs ys (omega arith)

  pub drop_all : (n : ℕ) (xs : List A) → length xs ≤ n → drop n xs ≡ []
  drop_all zero [] h = refl
  drop_all zero (x ∷ xs) h = absurd (omega arith)
  drop_all (suc n) [] h = refl
  drop_all (suc n) (x ∷ xs) h = drop_all n xs (omega arith)

  pub drop_nil : (n : ℕ) → drop {A = A} n [] ≡ []
  drop_nil zero = refl
  drop_nil (suc n) = refl

  pub drop-drop : (n m : ℕ) (xs : List A) → drop (n + m) xs ≡ drop m (drop n xs)
  drop-drop zero m xs = ap (λ k. drop k xs) (omega arith)
  drop-drop (suc n) m [] = drop_nil (suc n + m) ∙ sym (drop_nil m)
  drop-drop (suc n) m (x ∷ xs) = ap (λ k. drop k (x ∷ xs)) (suc_add n m) ∙ drop-drop n m xs
    where
      suc_add : (n m : ℕ) → suc n + m ≡ suc (n + m)
      suc_add n m = omega arith

  pub append-eq-nil_left : (xs ys : List A) → xs ++ ys ≡ [] → xs ≡ []
  append-eq-nil_left [] ys e = refl
  append-eq-nil_left (x ∷ xs) ys e = cc
