-- ===== src/Platform/Coords/Distinct.antt =====
-- coords.rs: the probe of deduplicate_ids finds a free id.
use mathlib.Core.List.{append-nil, append_assoc}
use win_xtend.Prelude.{
  ℕ, zero, suc, ◌+◌, ◌%◌, ◌^◌, ◌≤◌, ◌<◌, ◌≡◌, ◌≢◌, refl, sym, ap, ◌∙◌, subst, Bool, true, false,
  not, ◌||◌, ◌==◌, List, [], ◌∷◌, ◌++◌, keep, length, All, arith, Bool-cases, inl, inr,
  length-append, ◌↔◌, ==_iff,
}
use win_xtend.Platform.Coords.{taken, probe, deduplicate_from, deduplicate_ids}

-- So many ids from `id` on, one after the other, are all taken.
AllTaken : ℕ → ℕ → List ℕ → Type 0
AllTaken zero id ids = Unit
AllTaken (suc n) id ids = (taken id ids ≡ true) × AllTaken n ((id + 1) % 2 ^ 32) ids

abbrev others : ℕ → List ℕ → List ℕ
others id ids = keep (λ x. not (x == id)) ids

length-others : (id : ℕ) (ids : List ℕ) → length (others id ids) ≤ length ids
length-others id [] = omega arith
length-others id (x ∷ ids) = ground (arith, length-others id ids)

shorter : (id : ℕ) (ids : List ℕ) → taken id ids ≡ true → length (others id ids) < length ids
shorter id [] t = absurd (ground arith)
shorter id (x ∷ ids) t = elim (Bool-cases (x == id)) [
  | inl same ↦ rw same (omega (arith, length-others id ids))
  | inr other ↦ rw other (omega (arith, shorter id ids (ground arith)))
]

taken-others :
    (c id : ℕ) (ids : List ℕ) → c ≢ id → taken c ids ≡ true → taken c (others id ids) ≡ true
taken-others c id [] d t = absurd (ground arith)
taken-others c id (x ∷ ids) d t = ground (arith, taken-others c id ids d)

-- The ids after the first are taken by others.
AllTaken-others :
    (n k c id : ℕ) (ids : List ℕ)
    → 1 ≤ k
    → k + n ≤ 2 ^ 32
    → id < 2 ^ 32
    → c ≡ (id + k) % 2 ^ 32
    → AllTaken n c ids
    → AllTaken n c (others id ids)
unfolding AllTaken
AllTaken-others zero k c id ids low high bound e all = tt
AllTaken-others (suc n) k c id ids low high bound e all = (
  taken-others c id ids (λ same. omega arith) all.0,
  AllTaken-others n (k + 1) ((c + 1) % 2 ^ 32) id ids (omega arith) (omega arith) bound
      (omega arith) all.1,
)

-- There are at least as many ids as distinct values taken.
AllTaken-length :
    (n id : ℕ) (ids : List ℕ) → n ≤ 2 ^ 32 → id < 2 ^ 32 → AllTaken n id ids → n ≤ length ids
unfolding AllTaken
AllTaken-length zero id ids h bound all = omega arith
AllTaken-length (suc n) id ids h bound all = omega (
  arith,
  shorter id ids all.0,
  AllTaken-length n ((id + 1) % 2 ^ 32) (others id ids) (omega arith) (omega arith)
      (AllTaken-others n 1 ((id + 1) % 2 ^ 32) id ids (omega arith) (omega arith) bound refl all.1),
)

probe_on :
    (n id : ℕ) (before : List ℕ)
    → taken id before ≡ true
    → probe (suc n) before id ≡ probe n before ((id + 1) % 2 ^ 32)
unfolding probe
probe_on n id before t = rw t refl

probe_stays : (n id : ℕ) (before : List ℕ) → taken id before ≡ false → probe n before id ≡ id
unfolding probe
probe_stays zero id before t = refl
probe_stays (suc n) id before t = rw t refl

probe-AllTaken :
    (n id : ℕ) (before : List ℕ) → taken (probe n before id) before ≡ true → AllTaken n id before
unfolding AllTaken probe
probe-AllTaken zero id before t = tt
probe-AllTaken (suc n) id before t = elim (Bool-cases (taken id before)) [
  | inl full ↦ (
    full,
    probe-AllTaken n ((id + 1) % 2 ^ 32) before
        (subst (λ p. taken p before ≡ true) (probe_on n id before full) t),
  )
  | inr free ↦
      absurd
        (clash free (subst (λ p. taken p before ≡ true) (probe_stays (suc n) id before free) t))
]
  where
    clash : {b : Bool} → b ≡ false → b ≢ true
    clash e f = absurd (ground arith)

probe_free :
    (n id : ℕ) (before : List ℕ)
    → length before < n
    → n ≤ 2 ^ 32
    → id < 2 ^ 32
    → taken (probe n before id) before ≡ false
probe_free n id before short h bound = elim (Bool-cases (taken (probe n before id) before)) [
  | inr free ↦ free
  | inl full ↦
      absurd (omega (arith, AllTaken-length n id before h bound (probe-AllTaken n id before full)))
]

-- No id stands twice in the list.
abbrev pub Distinct : List ℕ → Type 0
Distinct [] = Unit
Distinct (id ∷ ids) = (taken id ids ≡ false) × Distinct ids

taken-append : (c : ℕ) (xs ys : List ℕ) → taken c (xs ++ ys) ≡ (taken c xs || taken c ys)
taken-append c [] ys = refl
taken-append c (x ∷ xs) ys = ground (arith, taken-append c xs ys)

Distinct-append :
    (ids : List ℕ) (id : ℕ) → Distinct ids → taken id ids ≡ false → Distinct (ids ++ id ∷ [])
Distinct-append [] id d t = (refl, tt)
Distinct-append (x ∷ ids) id d t = (
  ground (arith, taken-append x ids (id ∷ []), d.0, t),
  Distinct-append ids id d.1 (ground arith),
)

deduplicate_from-Distinct :
    (n : ℕ) (before ids : List ℕ)
    → Distinct before
    → All (λ id. id < 2 ^ 32) ids
    → length before + length ids ≤ n
    → n ≤ 2 ^ 32
    → Distinct (deduplicate_from n before ids)
unfolding deduplicate_from
deduplicate_from-Distinct n before [] d bounded room h = d
deduplicate_from-Distinct n before (id ∷ ids) d bounded room h =
    deduplicate_from-Distinct n (before ++ probe n before id ∷ []) ids
      (Distinct-append before (probe n before id) d
        (probe_free n id before (omega arith) h bounded.0))
      bounded.1 (omega (arith, length-append before (probe n before id ∷ []))) h

Distinct-later : (xs ys : List ℕ) (y : ℕ) → Distinct (xs ++ y ∷ ys) → taken y xs ≡ false
Distinct-later [] ys y d = refl
Distinct-later (x ∷ xs) ys y d =
    ground (arith, taken-append x xs (y ∷ ys), d.0, Distinct-later xs ys y d.1)

from_idle :
    (n : ℕ) (before ids : List ℕ)
    → Distinct (before ++ ids)
    → deduplicate_from n before ids ≡ before ++ ids
unfolding deduplicate_from
from_idle n before [] d = sym (append-nil before)
from_idle n before (id ∷ ids) d =
    ap (λ p. deduplicate_from n (before ++ p ∷ []) ids)
      (probe_stays n id before (Distinct-later before ids id d))
    ∙ from_idle n (before ++ id ∷ []) ids
        (subst Distinct (sym (append_assoc before (id ∷ []) ids)) d)
    ∙ append_assoc before (id ∷ []) ids

-- Each id that comes out is the one that went in, unless that one has already come out before.
abbrev pub Kept : List ℕ → List ℕ → List ℕ → Type 0
Kept before [] outs = outs ≡ []
Kept before (id ∷ ids) [] = ⊥
Kept before (id ∷ ids) (out ∷ outs) =
    ((taken id before || out == id) ≡ true) × Kept (before ++ out ∷ []) ids outs

deduplicate_from-Kept :
    (n : ℕ) (before ids : List ℕ)
    → (outs : List ℕ) × (deduplicate_from n before ids ≡ before ++ outs) × Kept before ids outs
unfolding deduplicate_from
deduplicate_from-Kept n before [] = ([], sym (append-nil before), refl)
deduplicate_from-Kept n before (id ∷ ids) =
    let out = probe n before id in
    let (outs, e, kept) = deduplicate_from-Kept n (before ++ out ∷ []) ids in
    (out ∷ outs, e ∙ append_assoc before (out ∷ []) outs, (same (taken id before) refl, kept))
  where
    same : (b : Bool) → taken id before ≡ b → (b || probe n before id == id) ≡ true
    same true t = refl
    same false t = (==_iff (probe n before id) id).1 (probe_stays n id before t)

-- Whatever 32-bit ids the backend hashed, up to 2 ^ 32 of them, the ones that come out are distinct:
-- the bound on the probe is always enough. Each comes out as it went in, unless it equals one that
-- came out before it; and ids are left alone as a whole exactly when they were distinct.
pub deduplicate_ids-Distinct :
    (ids : List ℕ)
    → All (λ id. id < 2 ^ 32) ids
    → length ids ≤ 2 ^ 32
    → Distinct (deduplicate_ids ids)
      × Kept [] ids (deduplicate_ids ids)
      × (Distinct ids ↔ (deduplicate_ids ids ≡ ids))
unfolding deduplicate_ids
deduplicate_ids-Distinct ids bounded h =
    let d = deduplicate_from-Distinct (length ids) [] ids tt bounded (omega arith) h in
    let (outs, e, kept) = deduplicate_from-Kept (length ids) [] ids in
    (
      d,
      subst (Kept [] ids) (sym e) kept,
      (from_idle (length ids) [] ids, λ same. subst Distinct same d),
    )
