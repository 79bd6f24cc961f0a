-- ===== src/Core/Neighbours/Faults.antt =====
-- layout.rs, validate: what it warns of, and when it warns of nothing.
use win_xtend.Prelude.{
  ◌≡◌, ◌↔◌, refl, sym, ◌∙◌, ap, Bool, true, false, ltb, if◌then◌else◌, some, List, [], ◌∷◌, ◌++◌,
  length, any_of, All, >>=-eq-some, arith, some_inj, Bool-cases, inl, inr, subst,
}
use win_xtend.Prelude.Keeps.{any_of-append}
use win_xtend.Prelude.Int.{ℤ, ◌≤ℤ◌, ◌<ℤ◌, ltb_ℤ}
use win_xtend.Proto.Float.{Floats}
use win_xtend.Proto.Geom.{Rect, IsSound, right, bottom, is_empty}
use win_xtend.Proto.Geom.Clamp.{x-lt-right, y-lt-bottom}
use win_xtend.Core.Layout.{Placement, GlobalLayout, iter}
use win_xtend.Core.Crossing.{
  LayoutProblem, overlap, unreachable, degenerate, rects_overlap, all_edges,
}
use win_xtend.Core.Neighbours.{
  degenerates, overlaps_with, overlaps, some_returns, unreachables, validate,
}

-- The rectangle has the point with these coordinates.
abbrev pub Has : Rect → ℤ → ℤ → Type 0
Has r x y = (r.x ≤ℤ x) × (x <ℤ right r) × (r.y ≤ℤ y) × (y <ℤ bottom r)

-- A warning of an empty monitor or of two that overlap.
abbrev pub is_fault : LayoutProblem → Bool
is_fault (overlap a b) = true
is_fault (degenerate m) = true
is_fault (unreachable m) = false

-- Two intervals that overlap have the larger start in common.
between :
    (a b ra rb : ℤ)
    → a <ℤ ra
    → b <ℤ rb
    → ltb_ℤ a rb ≡ true
    → ltb_ℤ b ra ≡ true
    → (x : ℤ) × (a ≤ℤ x) × (x <ℤ ra) × (b ≤ℤ x) × (x <ℤ rb)
between a b ra rb h k l m = elim (Bool-cases (ltb_ℤ a b)) [
  | inl less ↦ (b, ground (arith, less), ground (arith, m), omega arith, k)
  | inr more ↦ (a, omega arith, h, ground (arith, more), ground (arith, l))
]

full_of : (a b : Rect) → rects_overlap a b ≡ true → (is_empty a ≡ false) × (is_empty b ≡ false)
unfolding rects_overlap
full_of a b h = (ground (arith, h), ground (arith, h))

tests_of :
    (a b : Rect)
    → rects_overlap a b ≡ true
    → (ltb_ℤ a.x (right b) ≡ true)
      × (ltb_ℤ b.x (right a) ≡ true)
      × (ltb_ℤ a.y (bottom b) ≡ true)
      × (ltb_ℤ b.y (bottom a) ≡ true)
unfolding rects_overlap
tests_of a b h = (ground (arith, h), ground (arith, h), ground (arith, h), ground (arith, h))

shared :
    (a b : Rect)
    → IsSound a
    → IsSound b
    → rects_overlap a b ≡ true
    → (x : ℤ) × (y : ℤ) × (Has a x y × Has b x y)
shared a b sa sb h =
    let (ea, eb) = full_of a b h in
    let (l, m, n, o) = tests_of a b h in
    let (x, ax, xa, bx, xb) =
      between a.x b.x (right a) (right b) (x-lt-right a sa ea) (x-lt-right b sb eb) l m in
    let (y, ay, ya, by, yb) =
      between a.y b.y (bottom a) (bottom b) (y-lt-bottom a sa ea) (y-lt-bottom b sb eb) n o in
    (x, y, ((ax, xa, ay, ya), (bx, xb, by, yb)))

sharing :
    (a b : Rect) (x y : ℤ)
    → is_empty a ≡ false
    → is_empty b ≡ false
    → Has a x y
    → Has b x y
    → rects_overlap a b ≡ true
unfolding rects_overlap
sharing a b x y ea eb (ax, xa, ay, ya) (bx, xb, by, yb) =
    ground (arith, ea, eb, ax, xa, ay, ya, bx, xb, by, yb)

module _ {F : Type 0} where
  abbrev pub Filled : Placement F → Type 0
  Filled p = is_empty p.global_bounds ≡ false

  -- No point is in two of them.
  abbrev pub Apart : List (Placement F) → Type 0
  Apart [] = Unit {0}
  Apart (a ∷ rest) =
      All (λ b. (x y : ℤ) → Has a.global_bounds x y → Has b.global_bounds x y → ⊥) rest × Apart rest

  degenerates-Filled :
      (ps : List (Placement F)) → (any_of is_fault (degenerates ps) ≡ false) ↔ All Filled ps
  unfolding degenerates
  degenerates-Filled [] = (λ h. tt, λ h. refl)
  degenerates-Filled (p ∷ ps) = elim (Bool-cases (is_empty p.global_bounds)) [
    | inl empty ↦ rw empty (λ h. absurd (ground (arith, h)), λ h. absurd (ground (arith, h.0)))
    | inr full ↦
        rw full (λ h. (refl, (degenerates-Filled ps).0 h), λ h. (degenerates-Filled ps).1 h.1)
  ]

  overlaps_with-Apart :
      (a : Placement F) (bs : List (Placement F))
      → IsSound a.global_bounds
      → All (λ p. IsSound p.global_bounds) bs
      → Filled a
      → All Filled bs
      → (any_of is_fault (overlaps_with a bs) ≡ false)
        ↔ All (λ b. (x y : ℤ) → Has a.global_bounds x y → Has b.global_bounds x y → ⊥) bs
  unfolding overlaps_with
  overlaps_with-Apart a [] s ss f fs = (λ h. tt, λ h. refl)
  overlaps_with-Apart a (b ∷ bs) s ss f fs =
      elim (Bool-cases (rects_overlap a.global_bounds b.global_bounds)) [
        | inl hit ↦ rw hit (
          λ h. absurd (ground (arith, h)),
          λ h.
              let (x, y, (p, q)) = shared a.global_bounds b.global_bounds s ss.0 hit in
              absurd (h.0 x y p q),
        )
        | inr miss ↦ rw miss (
          λ h. (
            λ x y p q.
                absurd
                  (ground (arith, miss, sharing a.global_bounds b.global_bounds x y f fs.0 p q)),
            (overlaps_with-Apart a bs s ss.1 f fs.1).0 h,
          ),
          λ h. (overlaps_with-Apart a bs s ss.1 f fs.1).1 h.1,
        )
      ]

  overlaps-Apart :
      (ps : List (Placement F))
      → All (λ p. IsSound p.global_bounds) ps
      → All Filled ps
      → (any_of is_fault (overlaps ps) ≡ false) ↔ Apart ps
  unfolding overlaps
  overlaps-Apart [] s f = (λ h. tt, λ h. refl)
  overlaps-Apart (a ∷ ps) s f =
      let here = overlaps_with-Apart a ps s.0 s.1 f.0 f.1 in
      let later = overlaps-Apart ps s.1 f.1 in
      rw (any_of-append is_fault (overlaps_with a ps) (overlaps ps)) (
        λ h. (here.0 (ground (arith, h)), later.0 (ground (arith, h))),
        λ h. ground (arith, here.1 h.0, later.1 h.1),
      )

module _ {F : Type 0} ⦃fl : Floats F⦄ where
  unreachables_faultless :
      (l : GlobalLayout F) (ps : List (Placement F)) (xs : List LayoutProblem)
      → unreachables l ps ≡ some xs
      → any_of is_fault xs ≡ false
  unfolding unreachables
  unreachables_faultless l [] xs h = ap (any_of is_fault) (sym (some_inj h))
  unreachables_faultless l (pl ∷ ps) xs h = elim (Bool-cases (is_empty pl.global_bounds)) [
    | inl empty ↦ unreachables_faultless l ps xs (rw empty at h)
    | inr full ↦
        let (reachable, _, k) = >>=-eq-some (some_returns l pl all_edges) _ (rw full at h) in
        let (others, e, m) = >>=-eq-some (unreachables l ps) _ k in
        ap (any_of is_fault) (sym (some_inj m))
        ∙ one_more reachable others (unreachables_faultless l ps others e)
  ]
    where
      one_more :
          (b : Bool) (others : List LayoutProblem)
          → any_of is_fault others ≡ false
          → any_of is_fault (if b then others else unreachable pl.monitor ∷ others) ≡ false
      one_more true others h = h
      one_more false others h = h

  -- For a layout of sound rectangles, validate warns of no empty monitor and of no overlap exactly
  -- when no monitor is empty and no point with integer coordinates is in two of them.
  pub validate-Apart :
      (l : GlobalLayout F) (problems : List LayoutProblem)
      → All (λ p. IsSound p.global_bounds) (iter l)
      → validate l ≡ some problems
      → (any_of is_fault problems ≡ false) ↔ (All Filled (iter l) × Apart (iter l))
  unfolding validate
  validate-Apart l problems s h =
      let (isolated, e, m) =
        >>=-eq-some (if ltb 1 (length (iter l)) then unreachables l (iter l) else some []) _ h in
      subst (λ ps. (any_of is_fault ps ≡ false) ↔ (All Filled (iter l) × Apart (iter l)))
        (some_inj m)
        (rw
          (
            any_of-append is_fault (degenerates (iter l)) (overlaps (iter l) ++ isolated),
            any_of-append is_fault (overlaps (iter l)) isolated,
            isolated_faultless (ltb 1 (length (iter l))) isolated e,
          )
          (
            λ k.
                let full = (degenerates-Filled (iter l)).0 (ground (arith, k)) in
                (full, (overlaps-Apart (iter l) s full).0 (ground (arith, k))),
            λ k.
                ground (
                  arith,
                  (degenerates-Filled (iter l)).1 k.0,
                  (overlaps-Apart (iter l) s k.0).1 k.1,
                ),
          ))
    where
      isolated_faultless :
          (b : Bool) (xs : List LayoutProblem)
          → (if b then unreachables l (iter l) else some []) ≡ some xs
          → any_of is_fault xs ≡ false
      isolated_faultless true xs e = unreachables_faultless l (iter l) xs e
      isolated_faultless false xs e = ap (any_of is_fault) (sym (some_inj e))
