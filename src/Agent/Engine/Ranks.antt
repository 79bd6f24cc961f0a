-- ===== src/Agent/Engine/Ranks.antt =====
-- The order of engine.rs `layout_key`: its two sides, and what ranks alike is the same.
use Prim.Native.Nat.{ℕ, compare, Ordering, lt, eq, gt}
use win_xtend.Prelude.{List, [], ◌∷◌, ◌≡◌, arith, refl, ap, ap₂, ◌∙◌}
use win_xtend.Prelude.Int.{ℤ, pos, negsuc}
use win_xtend.Agent.Engine.{Entry, then_compare, compare_ℤ, compare_entry, compare_key}

abbrev pub flip : Ordering → Ordering
flip lt = gt
flip eq = eq
flip gt = lt

pub compare-flip : (a b : ℕ) → compare b a ≡ flip (compare a b)
compare-flip a b = ground arith

pub compare-eq : (a b : ℕ) → compare a b ≡ eq → a ≡ b
compare-eq a b e = ground arith

pub then_compare-flip : (x y : Ordering) → then_compare (flip x) (flip y) ≡ flip (then_compare x y)
then_compare-flip lt y = refl
then_compare-flip eq y = refl
then_compare-flip gt y = refl

pub then_compare-eq : (x y : Ordering) → then_compare x y ≡ eq → (x ≡ eq) × (y ≡ eq)
then_compare-eq lt y e = ground arith
then_compare-eq eq y e = (refl, e)
then_compare-eq gt y e = ground arith

compare_ℤ-flip : (a b : ℤ) → compare_ℤ b a ≡ flip (compare_ℤ a b)
compare_ℤ-flip a b = compare-flip _ _

compare_ℤ-eq : (a b : ℤ) → compare_ℤ a b ≡ eq → a ≡ b
compare_ℤ-eq (pos m) (pos n) e = ap pos (ground arith)
compare_ℤ-eq (pos m) (negsuc n) e = ground arith
compare_ℤ-eq (negsuc m) (pos n) e = ground arith
compare_ℤ-eq (negsuc m) (negsuc n) e = ap negsuc (ground arith)

compare_entry-flip : (a b : Entry) → compare_entry b a ≡ flip (compare_entry a b)
unfolding compare_entry
compare_entry-flip (m, r) (n, s) =
    ap₂ then_compare (compare-flip m.node n.node) (
      ap₂ then_compare (compare-flip m.monitor n.monitor) (
        ap₂ then_compare (compare_ℤ-flip r.x s.x) (
          ap₂ then_compare (compare_ℤ-flip r.y s.y)
            (ap₂ then_compare (compare-flip r.w s.w) (compare-flip r.h s.h) ∙ then_compare-flip _ _)
          ∙ then_compare-flip _ _)
        ∙ then_compare-flip _ _)
      ∙ then_compare-flip _ _)
    ∙ then_compare-flip _ _

compare_entry-eq : (a b : Entry) → compare_entry a b ≡ eq → a ≡ b
unfolding compare_entry
compare_entry-eq (m, r) (n, s) e =
    let (a, e₁) = then_compare-eq (compare m.node n.node) _ e in
    let (b, e₂) = then_compare-eq (compare m.monitor n.monitor) _ e₁ in
    let (c, e₃) = then_compare-eq (compare_ℤ r.x s.x) _ e₂ in
    let (d, e₄) = then_compare-eq (compare_ℤ r.y s.y) _ e₃ in
    let (f, g) = then_compare-eq (compare r.w s.w) _ e₄ in
    λ i. (
      record { node = compare-eq _ _ a i; monitor = compare-eq _ _ b i },
      record {
        x = compare_ℤ-eq r.x s.x c i;
        y = compare_ℤ-eq r.y s.y d i;
        w = compare-eq r.w s.w f i;
        h = compare-eq r.h s.h g i;
      },
    )

pub compare_key-flip : (xs ys : List Entry) → compare_key ys xs ≡ flip (compare_key xs ys)
unfolding compare_key
compare_key-flip [] [] = refl
compare_key-flip [] (b ∷ ys) = refl
compare_key-flip (a ∷ xs) [] = refl
compare_key-flip (a ∷ xs) (b ∷ ys) =
    ap₂ then_compare (compare_entry-flip a b) (compare_key-flip xs ys) ∙ then_compare-flip _ _

pub compare_key-eq : (xs ys : List Entry) → compare_key xs ys ≡ eq → xs ≡ ys
unfolding compare_key
compare_key-eq [] [] e = refl
compare_key-eq [] (b ∷ ys) e = ground arith
compare_key-eq (a ∷ xs) [] e = ground arith
compare_key-eq (a ∷ xs) (b ∷ ys) e =
    let (first, later) = then_compare-eq (compare_entry a b) (compare_key xs ys) e in
    ap₂ ◌∷◌ (compare_entry-eq a b first) (compare_key-eq xs ys later)
