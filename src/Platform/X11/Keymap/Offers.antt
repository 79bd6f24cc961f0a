-- ===== src/Platform/X11/Keymap/Offers.antt =====
-- keymap.rs, Keymap::from_raw: what one offer, and the levels of one row, do to the strokes known.
use win_xtend.Prelude.{
  ℕ, ◌≤◌, ◌≡◌, refl, sym, ◌∙◌, ap, ◌⊎◌, inl, inr, Bool, false, ◌==◌, ltb, leb, if◌then◌else◌,
  Option, none, some, List, [], ◌∷◌, arith, leb→le, ==_iff, some_inj, subst, ==-self, Bool-cases,
  Option-cases,
}
use win_xtend.Prelude.Maps.{lookup, lookup-insert}
use win_xtend.Proto.Ids.{node_key}
use win_xtend.Platform.X11.Keymap.{LevelMods, Stroke, cost, Levels, offer_stroke, offer_levels}

-- A stroke that costs no more than `n` is known for the keysym.
abbrev pub Within : List (ℕ × Stroke) → ℕ → ℕ → Type 0
Within strokes keysym n = (s : Stroke) × (lookup keysym strokes ≡ some s) × (cost s.mods ≤ n)

abbrev better : Option Stroke → Stroke → Stroke
better none c = c
better (some s) c = if leb (cost s.mods) (cost c.mods) then s else c

better-le : (o : Option Stroke) (c : Stroke) → cost (better o c).mods ≤ cost c.mods
better-le none c = omega arith
better-le (some s) c = elim (Bool-cases (leb (cost s.mods) (cost c.mods))) [
  | inl less ↦ rw less (leb→le _ _ less)
  | inr more ↦ rw more (omega arith)
]

better_cases : (o : Option Stroke) (c : Stroke) → (o ≡ some (better o c)) ⊎ (better o c ≡ c)
better_cases none c = inr refl
better_cases (some s) c = elim (Bool-cases (leb (cost s.mods) (cost c.mods))) [
  | inl less ↦ inl (rw less refl)
  | inr more ↦ inr (rw more refl)
]

lookup-offer_stroke_self :
    (strokes : List (ℕ × Stroke)) (k : ℕ) (c : Stroke)
    → lookup k (offer_stroke strokes k c) ≡ some (better (lookup k strokes) c)
lookup-offer_stroke_self strokes k c = elim (Option-cases (lookup k strokes)) [
  | inl new ↦ rw (offer_stroke, new) (lookup-insert k k c strokes ∙ rw (==-self k) refl)
  | inr (s, old) ↦ elim (Bool-cases (leb (cost s.mods) (cost c.mods))) [
    | inl less ↦ rw (offer_stroke, old, less) old
    | inr more ↦ rw (offer_stroke, old, more) (lookup-insert k k c strokes ∙ rw (==-self k) refl)
  ]
]

lookup-offer_stroke_ne :
    (strokes : List (ℕ × Stroke)) (k j : ℕ) (c : Stroke)
    → (k == j) ≡ false
    → lookup j (offer_stroke strokes k c) ≡ lookup j strokes
lookup-offer_stroke_ne strokes k j c ne = elim (Option-cases (lookup k strokes)) [
  | inl new ↦ rw (offer_stroke, new) (lookup-insert k j c strokes ∙ rw ne refl)
  | inr (s, old) ↦ elim (Bool-cases (leb (cost s.mods) (cost c.mods))) [
    | inl less ↦ rw (offer_stroke, old, less) refl
    | inr more ↦ rw (offer_stroke, old, more) (lookup-insert k j c strokes ∙ rw ne refl)
  ]
]

offer_stroke_self :
    (strokes : List (ℕ × Stroke)) (k : ℕ) (c : Stroke)
    → Within (offer_stroke strokes k c) k (cost c.mods)
offer_stroke_self strokes k c = (
  better (lookup k strokes) c,
  lookup-offer_stroke_self strokes k c,
  better-le (lookup k strokes) c,
)

offer_stroke_keeps :
    (strokes : List (ℕ × Stroke)) (k : ℕ) (c : Stroke) (j n : ℕ)
    → Within strokes j n
    → Within (offer_stroke strokes k c) j n
offer_stroke_keeps strokes k c j n (s, e, h) = elim (Bool-cases (k == j)) [
  | inl hit ↦
      let same = (==_iff k j).0 hit in
      subst (λ t. Within (offer_stroke strokes k c) t n) same
        (
          better (some s) c,
          lookup-offer_stroke_self strokes k c
              ∙ ap (λ o. some (better o c)) (ap (λ t. lookup t strokes) same ∙ e),
          ground (arith, h),
        )
  | inr miss ↦ (s, lookup-offer_stroke_ne strokes k j c miss ∙ e, h)
]

offer_stroke_sound :
    (strokes : List (ℕ × Stroke)) (k : ℕ) (c : Stroke) (j : ℕ) (s : Stroke)
    → lookup j (offer_stroke strokes k c) ≡ some s
    → (lookup j strokes ≡ some s) ⊎ ((k ≡ j) × (s ≡ c))
offer_stroke_sound strokes k c j s h = elim (Bool-cases (k == j)) [
  | inl hit ↦
      let same = (==_iff k j).0 hit in
      let e = some_inj (
        sym (lookup-offer_stroke_self strokes k c)
        ∙ ap (λ t. lookup t (offer_stroke strokes k c)) same
        ∙ h) in
      elim (better_cases (lookup k strokes) c) [
        | inl old ↦ inl (ap (λ t. lookup t strokes) (sym same) ∙ old ∙ ap some e)
        | inr new ↦ inr (same, sym e ∙ new)
      ]
  | inr miss ↦ inl (sym (lookup-offer_stroke_ne strokes k j c miss) ∙ h)
]

-- The keysym stands at the level of the row that the stroke holds.
abbrev pub Stands : ℕ → LevelMods → Levels → Type 0
Stands keysym mods [] = ⊥
Stands keysym mods ((k, m) ∷ levels) = ((k ≡ some keysym) × (m ≡ mods)) ⊎ Stands keysym mods levels

module _ (keycode : ℕ) (alphabetic : Bool) where
  pub offer_levels_keeps :
      (levels : Levels) (strokes : List (ℕ × Stroke)) (j n : ℕ)
      → Within strokes j n
      → Within (offer_levels keycode alphabetic levels strokes) j n
  unfolding offer_levels
  offer_levels_keeps [] strokes j n w = w
  offer_levels_keeps ((none, mods) ∷ levels) strokes j n w = offer_levels_keeps levels strokes j n w
  offer_levels_keeps ((some k, mods) ∷ levels) strokes j n w =
      offer_levels_keeps levels _ j n (offer_stroke_keeps strokes k _ j n w)

  pub offer_levels_complete :
      (levels : Levels) (strokes : List (ℕ × Stroke)) (j : ℕ) (mods : LevelMods)
      → Stands j mods levels
      → Within (offer_levels keycode alphabetic levels strokes) j (cost mods)
  unfolding offer_levels
  offer_levels_complete [] strokes j mods h = absurd h
  offer_levels_complete ((none, m) ∷ levels) strokes j mods (inl (e, f)) =
      absurd (ground (arith, e))
  offer_levels_complete ((none, m) ∷ levels) strokes j mods (inr h) =
      offer_levels_complete levels strokes j mods h
  offer_levels_complete ((some k, m) ∷ levels) strokes j mods (inl (e, f)) =
      offer_levels_keeps levels _ j (cost mods) (
        subst
          (λ t.
            Within
              (offer_stroke strokes k
                (record { keycode = keycode; mods = m; alphabetic = alphabetic }))
              t (cost mods))
          (some_inj e)
          (subst
            (λ t.
              Within
                (offer_stroke strokes k
                  (record { keycode = keycode; mods = m; alphabetic = alphabetic }))
                k (cost t))
            f (offer_stroke_self strokes k _)))
  offer_levels_complete ((some k, m) ∷ levels) strokes j mods (inr h) =
      offer_levels_complete levels _ j mods h

  pub offer_levels_sound :
      (levels : Levels) (strokes : List (ℕ × Stroke)) (j : ℕ) (s : Stroke)
      → lookup j (offer_levels keycode alphabetic levels strokes) ≡ some s
      → (lookup j strokes ≡ some s)
        ⊎ ((s.keycode ≡ keycode) × (s.alphabetic ≡ alphabetic) × Stands j s.mods levels)
  unfolding offer_levels
  offer_levels_sound [] strokes j s h = inl h
  offer_levels_sound ((none, m) ∷ levels) strokes j s h =
      elim (offer_levels_sound levels strokes j s h) [
        | inl old ↦ inl old
        | inr (a, b, c) ↦ inr (a, b, inr c)
      ]
  offer_levels_sound ((some k, m) ∷ levels) strokes j s h =
      elim (offer_levels_sound levels
        (offer_stroke strokes k (record { keycode = keycode; mods = m; alphabetic = alphabetic })) j
        s h) [
          | inl old ↦ (elim (offer_stroke_sound strokes k _ j s old) [
            | inl before ↦ inl before
            | inr (e, f) ↦ inr (
              ap (λ (t : Stroke). t.keycode) f,
              ap (λ (t : Stroke). t.alphabetic) f,
              inl (ap some e, sym (ap (λ (t : Stroke). t.mods) f)),
            )
          ])
          | inr (a, b, c) ↦ inr (a, b, inr c)
        ]

pub addressable : {k : ℕ} → k ≤ 255 → ltb 255 k ≡ false
addressable h = ground arith
