-- ===== src/Agent/State/Reclaim/Nearest.antt =====
-- state.rs, nearest: the candidate of least distance, and of those with the lowest monitor number.
use win_xtend.Prelude.{
  ◌≡◌, refl, sym, ap, if◌then◌else◌, subst, Bool, true, false, ◌||◌, leb, Option, none, some, List,
  [], ◌∷◌, arith, All, Bool-cases, ◌⊎◌, inl, inr,
}
use win_xtend.Proto.Ids.{GlobalMonitorId}
use win_xtend.Proto.Float.{Floats}
use win_xtend.Proto.Geom.{Rect}
use win_xtend.Agent.State.Reclaim.{Candidate, first, distance_between, closer, min_by}

abbrev pub Among : Candidate → List Candidate → Type 0
Among c [] = ⊥
Among c (d ∷ ds) = (c ≡ d) ⊎ Among c ds

Among-skip : (m b c : Candidate) (ds : List Candidate) → Among m (b ∷ ds) → Among m (b ∷ c ∷ ds)
Among-skip m b c ds (inl e) = inl e
Among-skip m b c ds (inr h) = inr (inr h)

module _ {F : Type 0} ⦃fl : Floats F⦄ (total_less : F → F → Bool) where
  -- `d` is not nearer than `c`, and where it is just as near, its monitor has no lower number.
  abbrev pub NoWorse : Rect → Candidate → Candidate → Type 0
  NoWorse reference c d =
      let dc = distance_between reference c.1 in
      let dd = distance_between reference d.1 in
      (total_less dd dc ≡ false) × ((total_less dc dd || leb c.0.monitor d.0.monitor) ≡ true)

  -- The monitor is of a candidate that no other one beats; without a reference, of the first.
  abbrev pub Best : Option Rect → List Candidate → GlobalMonitorId → Type 0
  Best none cs id = first cs ≡ some id
  Best (some reference) cs id =
      (c : Candidate) × (c.0 ≡ id) × Among c cs × All (NoWorse reference c) cs

  -- What `f64::total_cmp` promises of Less: it is asymmetric, and nothing stands between two values
  -- without being above the lower or below the upper.
  pub record IsTotalCmp : Type 0 where
    pub asymmetric : (a b : F) → total_less a b ≡ true → total_less b a ≡ false
    pub splits : (a b c : F) → total_less a c ≡ true → (total_less a b || total_less b c) ≡ true

module _ {F : Type 0} ⦃fl : Floats F⦄ (total_less : F → F → Bool)
    (cmp : IsTotalCmp total_less) where
  irreflexive : (a : F) → total_less a a ≡ false
  irreflexive a = elim (Bool-cases (total_less a a)) [
    | inl less ↦ cmp.asymmetric a a less
    | inr same ↦ same
  ]

  NoWorse-refl : (r : Rect) (c : Candidate) → NoWorse total_less r c c
  NoWorse-refl r c = (irreflexive (distance_between r c.1), ground arith)

  closer-NoWorse :
      (r : Rect) (c d : Candidate) → closer total_less r c d ≡ true → NoWorse total_less r c d
  unfolding closer
  closer-NoWorse r c d h = ground (
    arith,
    h,
    cmp.asymmetric (distance_between r c.1) (distance_between r d.1),
    cmp.asymmetric (distance_between r d.1) (distance_between r c.1),
  )

  farther-NoWorse :
      (r : Rect) (c d : Candidate) → closer total_less r c d ≡ false → NoWorse total_less r d c
  unfolding closer
  farther-NoWorse r c d h = ground (arith, h)

  NoWorse-trans :
      (r : Rect) (a b c : Candidate)
      → NoWorse total_less r a b
      → NoWorse total_less r b c
      → NoWorse total_less r a c
  NoWorse-trans r a b c h k =
      let da = distance_between r a.1 in
      let db = distance_between r b.1 in
      let dc = distance_between r c.1 in
      ground (arith, h, k, cmp.splits dc db da, cmp.splits da dc db, cmp.splits db da dc)

  -- The start or a candidate of the list, which none of these beats.
  abbrev Unbeaten : Rect → Candidate → List Candidate → Candidate → Type 0
  Unbeaten r best cs m =
      Among m (best ∷ cs) × NoWorse total_less r m best × All (NoWorse total_less r m) cs

  min_by-step :
      (r : Rect) (best c : Candidate) (cs : List Candidate) (nearer : Bool)
      → closer total_less r c best ≡ nearer
      → min_by total_less r (if nearer then c else best) cs ≡ min_by total_less r best (c ∷ cs)
  unfolding min_by
  min_by-step r best c cs nearer e =
      ap (λ b. min_by total_less r (if b then c else best) cs) (sym e)

  pub min_by-NoWorse :
      (r : Rect) (best : Candidate) (cs : List Candidate)
      → Unbeaten r best cs (min_by total_less r best cs)
  unfolding min_by
  min_by-NoWorse r best [] = (inl refl, NoWorse-refl r best, tt)
  min_by-NoWorse r best (c ∷ cs) = elim (Bool-cases (closer total_less r c best)) [
    | inl nearer ↦
        let (among, start, all) = min_by-NoWorse r c cs in
        let m = min_by total_less r c cs in
        subst (Unbeaten r best (c ∷ cs)) (min_by-step r best c cs true nearer)
          (inr among, NoWorse-trans r m c best start (closer-NoWorse r c best nearer), (start, all))
    | inr farther ↦
        let (among, start, all) = min_by-NoWorse r best cs in
        let m = min_by total_less r best cs in
        subst (Unbeaten r best (c ∷ cs)) (min_by-step r best c cs false farther) (
          Among-skip m best c cs among,
          start,
          (NoWorse-trans r m best c start (farther-NoWorse r c best farther), all),
        )
  ]
