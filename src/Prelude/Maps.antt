-- ===== src/Prelude/Maps.antt =====
-- A `HashMap` as an association list: each key once, in the order of first insertion. The source
-- never depends on the iteration order of a map.
use win_xtend.Prelude.Tests.{if◌then◌else◌}
use mathlib.Core.Path.{◌≡◌, refl, ap}
use mathlib.Core.Bool.{Bool, true}
use mathlib.Core.Option.{Option, none, some}
use mathlib.Core.List.{List, [], ◌∷◌}
use native.Mathlib.Omega.{arith}

-- `PartialEq` with `Eq`.
pub record Eq (K : Type 0) : Type 0 where
  pub beq : K → K → Bool
  pub beq_sound : (a b : K) → beq a b ≡ true → a ≡ b
  pub beq_refl : (a : K) → beq a a ≡ true

module _ {K V : Type 0} ⦃e : Eq K⦄ where
  abbrev pub lookup : K → List (K × V) → Option V
  lookup k [] = none
  lookup k ((j, v) ∷ m) = if e.beq j k then some v else lookup k m

  abbrev pub insert : K → V → List (K × V) → List (K × V)
  insert k v [] = (k, v) ∷ []
  insert k v ((j, w) ∷ m) = if e.beq j k then (j, v) ∷ m else (j, w) ∷ insert k v m

  abbrev pub remove : K → List (K × V) → List (K × V)
  remove k [] = []
  remove k ((j, w) ∷ m) = let rest = remove k m in if e.beq j k then rest else (j, w) ∷ rest

module _ {K : Type 0} ⦃e : Eq K⦄ where
  pub beq_sym : (a b : K) → e.beq a b ≡ true → e.beq b a ≡ true
  beq_sym a b h = rw (e.beq_sound a b h) (e.beq_refl b)

  pub beq_trans : (a b c : K) → e.beq a b ≡ true → e.beq a c ≡ e.beq b c
  beq_trans a b c h = ap (λ t. e.beq t c) (e.beq_sound a b h)

  pub beq_trans_right : (a b c : K) → e.beq a b ≡ true → e.beq c a ≡ e.beq c b
  beq_trans_right a b c h = ap (λ t. e.beq c t) (e.beq_sound a b h)

module _ {K V : Type 0} ⦃e : Eq K⦄ where
  pub lookup-insert :
      (k j : K) (v : V) (m : List (K × V))
      → lookup j (insert k v m) ≡ (if e.beq k j then some v else lookup j m)
  lookup-insert k j v [] = refl
  lookup-insert k j v ((i, w) ∷ m) =
      ground (arith, lookup-insert k j v m, beq_trans i k j, beq_trans_right k j i)

  pub lookup-remove :
      (k j : K) (m : List (K × V))
      → lookup j (remove k m) ≡ (if e.beq k j then none else lookup j m)
  lookup-remove k j [] = ground arith
  lookup-remove k j ((i, w) ∷ m) =
      ground (arith, lookup-remove k j m, beq_trans i k j, beq_trans_right k j i)
