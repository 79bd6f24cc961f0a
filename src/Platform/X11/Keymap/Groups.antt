-- ===== src/Platform/X11/Keymap/Groups.antt =====
-- keymap.rs, group_one_levels: which columns of a row it reads, and what they type.
use win_xtend.Prelude.{
  ℕ, ◌≡◌, refl, sym, subst, ◌∙◌, ap, ◌⊎◌, inl, inr, Bool, true, false, if◌then◌else◌, Option, none,
  some, is_some, List, arith, Option-cases, some_inj,
}
use win_xtend.Platform.X11.Keymap.{LevelMods, at_level, cased_pair, pair_up, group_one_levels}
use win_xtend.Platform.X11.Keymap.Offers.{Stands}

module _ (lower upper : ℕ → List ℕ) where
  -- What two columns of a row type, unshifted and shifted. Where the second is empty, the first types
  -- both cases of its keysym if that has two, and itself unshifted if it has not.
  abbrev pub Typed : Option ℕ → Option ℕ → Bool → ℕ → Type 0
  Typed low high false keysym =
      ((low ≡ some keysym) × ((is_some high ≡ true) ⊎ (cased_pair lower upper keysym ≡ none)))
      ⊎ ((k u : ℕ) × (low ≡ some k) × (high ≡ none) × (cased_pair lower upper k ≡ some (keysym, u)))
  Typed low high true keysym =
      (high ≡ some keysym)
      ⊎ ((k l : ℕ) × (low ≡ some k) × (high ≡ none) × (cased_pair lower upper k ≡ some (l, keysym)))

  -- The keysym in the first group of a row: columns 0 and 1, and with the third-level modifier held
  -- columns 4 and 5. Columns 2 and 3 are the second group.
  abbrev pub InGroupOne : List ℕ → ℕ → LevelMods → Type 0
  InGroupOne row keysym mods =
      Typed (at_level row (if mods.level3 then 4 else 0))
        (at_level row (if mods.level3 then 5 else 1)) mods.shift keysym

  unshifted :
      (low high : Option ℕ) (keysym : ℕ)
      → Typed low high false keysym
      → (pair_up lower upper low high).0 ≡ some keysym
  unshifted none high keysym (inl (e, f)) = absurd (ground (arith, e))
  unshifted none high keysym (inr (k, u, e, f, c)) = absurd (ground (arith, e))
  unshifted (some j) (some i) keysym (inl (e, f)) = e
  unshifted (some j) (some i) keysym (inr (k, u, e, f, c)) = absurd (ground (arith, f))
  unshifted (some j) none keysym (inl (e, inl f)) = absurd (ground (arith, f))
  unshifted (some j) none keysym (inl (e, inr c)) =
      rw (ap (cased_pair lower upper) (some_inj e) ∙ c, pair_up) e
  unshifted (some j) none keysym (inr (k, u, e, f, c)) =
      rw (ap (cased_pair lower upper) (some_inj e) ∙ c, pair_up) refl

  shifted :
      (low high : Option ℕ) (keysym : ℕ)
      → Typed low high true keysym
      → (pair_up lower upper low high).1 ≡ some keysym
  shifted none high keysym (inl e) = e
  shifted none high keysym (inr (k, l, e, f, c)) = absurd (ground (arith, e))
  shifted (some j) (some i) keysym (inl e) = e
  shifted (some j) (some i) keysym (inr (k, l, e, f, c)) = absurd (ground (arith, f))
  shifted (some j) none keysym (inl e) = absurd (ground (arith, e))
  shifted (some j) none keysym (inr (k, l, e, f, c)) =
      rw (ap (cased_pair lower upper) (some_inj e) ∙ c, pair_up) refl

  unshifted_back :
      (low high : Option ℕ) (keysym : ℕ)
      → (pair_up lower upper low high).0 ≡ some keysym
      → Typed low high false keysym
  unshifted_back none high keysym e = absurd (ground (arith, e))
  unshifted_back (some j) (some i) keysym e = inl (e, inl refl)
  unshifted_back (some j) none keysym e = elim (Option-cases (cased_pair lower upper j)) [
    | inl c ↦
        let same = some_inj (rw (c, pair_up) at e) in
        inl (ap some same, inr (ap (cased_pair lower upper) (sym same) ∙ c))
    | inr ((l, u), c) ↦
        let same = some_inj (rw (c, pair_up) at e) in
        inr (j, u, refl, refl, c ∙ ap (λ x. some (x, u)) same)
  ]

  shifted_back :
      (low high : Option ℕ) (keysym : ℕ)
      → (pair_up lower upper low high).1 ≡ some keysym
      → Typed low high true keysym
  shifted_back none high keysym e = inl e
  shifted_back (some j) (some i) keysym e = inl e
  shifted_back (some j) none keysym e = elim (Option-cases (cased_pair lower upper j)) [
    | inl c ↦ absurd (ground (arith, rw (c, pair_up) at e))
    | inr ((l, u), c) ↦
        let same = some_inj (rw (c, pair_up) at e) in
        inr (j, l, refl, refl, c ∙ ap (λ x. some (l, x)) same)
  ]

  pub group_one-Stands :
      (row : List ℕ) (keysym : ℕ) (shift level3 : Bool)
      → let mods : LevelMods = record { shift = shift; level3 = level3 } in
        InGroupOne row keysym mods → Stands keysym mods (group_one_levels lower upper row)
  unfolding group_one_levels
  group_one-Stands row keysym false false h =
      inl (unshifted (at_level row 0) (at_level row 1) keysym h, refl)
  group_one-Stands row keysym true false h =
      inr (inl (shifted (at_level row 0) (at_level row 1) keysym h, refl))
  group_one-Stands row keysym false true h =
      inr (inr (inl (unshifted (at_level row 4) (at_level row 5) keysym h, refl)))
  group_one-Stands row keysym true true h =
      inr (inr (inr (inl (shifted (at_level row 4) (at_level row 5) keysym h, refl))))

  pub Stands-InGroupOne :
      (row : List ℕ) (keysym : ℕ) (mods : LevelMods)
      → Stands keysym mods (group_one_levels lower upper row)
      → InGroupOne row keysym mods
  unfolding group_one_levels
  Stands-InGroupOne row keysym mods (inl (e, m)) =
      subst (InGroupOne row keysym) m (unshifted_back (at_level row 0) (at_level row 1) keysym e)
  Stands-InGroupOne row keysym mods (inr (inl (e, m))) =
      subst (InGroupOne row keysym) m (shifted_back (at_level row 0) (at_level row 1) keysym e)
  Stands-InGroupOne row keysym mods (inr (inr (inl (e, m)))) =
      subst (InGroupOne row keysym) m (unshifted_back (at_level row 4) (at_level row 5) keysym e)
  Stands-InGroupOne row keysym mods (inr (inr (inr (inl (e, m))))) =
      subst (InGroupOne row keysym) m (shifted_back (at_level row 4) (at_level row 5) keysym e)
  Stands-InGroupOne row keysym mods (inr (inr (inr (inr h)))) = absurd h
