-- ===== src/Platform/X11/Keymap/Cheapest.antt =====
-- keymap.rs, Keymap::from_raw: the rows of the server's keymap, and where a keysym stands in them.
use win_xtend.Prelude.{
  ℕ, ◌+◌, ◌≤◌, ◌≡◌, refl, sym, ◌∙◌, ap, ◌⊎◌, inl, inr, Bool, true, false, ◌==◌, ltb, if◌then◌else◌,
  some, List, [], ◌∷◌, length, arith, Bool-cases,
}
use win_xtend.Prelude.Maps.{lookup}
use win_xtend.Proto.Ids.{node_key}
use win_xtend.Platform.X11.Keymap.{
  Stroke, cost, RawKeymap, chunks, offer_levels, offer_rows, group_one_levels, is_alphabetic,
  from_raw, stroke,
}
use win_xtend.Platform.X11.Keymap.Groups.{InGroupOne, group_one-Stands, Stands-InGroupOne}
use win_xtend.Platform.X11.Keymap.Offers.{
  Within, offer_levels_keeps, offer_levels_complete, offer_levels_sound, addressable,
}

module _ (lower upper : ℕ → List ℕ) where
  -- The keysym stands in the first group of a key that a keycode from `keycode` on, up to 255,
  -- addresses.
  abbrev pub Listed : ℕ → List (List ℕ) → ℕ → Stroke → Type 0
  Listed keycode [] keysym s = ⊥
  Listed keycode (row ∷ rows) keysym s =
      (keycode ≤ 255)
      × (((s.keycode ≡ keycode)
            × (s.alphabetic ≡ is_alphabetic lower upper row)
            × InGroupOne lower upper row keysym s.mods)
          ⊎ Listed (keycode + 1) rows keysym s)

  offer_rows_keeps :
      (keycode : ℕ) (rows : List (List ℕ)) (strokes : List (ℕ × Stroke)) (j n : ℕ)
      → Within strokes j n
      → Within (offer_rows lower upper keycode rows strokes) j n
  unfolding offer_rows
  offer_rows_keeps keycode [] strokes j n w = w
  offer_rows_keeps keycode (row ∷ rows) strokes j n w =
      let later = offer_rows_keeps (keycode + 1) rows _ j n (
        offer_levels_keeps keycode (is_alphabetic lower upper row)
          (group_one_levels lower upper row) strokes j n w) in
      elim (Bool-cases (ltb 255 keycode)) [ inl past ↦ rw past w | inr fine ↦ rw fine later ]

  offer_rows_complete :
      (keycode : ℕ) (rows : List (List ℕ)) (strokes : List (ℕ × Stroke)) (j : ℕ) (s : Stroke)
      → Listed keycode rows j s
      → Within (offer_rows lower upper keycode rows strokes) j (cost s.mods)
  unfolding offer_rows
  offer_rows_complete keycode [] strokes j s h = absurd h
  offer_rows_complete keycode (row ∷ rows) strokes j s (fine, inl (a, b, stands)) =
      rw (addressable fine) (
        offer_rows_keeps (keycode + 1) rows _ j (cost s.mods) (
          offer_levels_complete keycode (is_alphabetic lower upper row)
            (group_one_levels lower upper row) strokes j s.mods
            (group_one-Stands lower upper row j s.mods.shift s.mods.level3 stands)))
  offer_rows_complete keycode (row ∷ rows) strokes j s (fine, inr h) =
      rw (addressable fine) (offer_rows_complete (keycode + 1) rows _ j s h)

  offer_rows_sound :
      (keycode : ℕ) (rows : List (List ℕ)) (strokes : List (ℕ × Stroke)) (j : ℕ) (s : Stroke)
      → lookup j (offer_rows lower upper keycode rows strokes) ≡ some s
      → (lookup j strokes ≡ some s) ⊎ Listed keycode rows j s
  unfolding offer_rows
  offer_rows_sound keycode [] strokes j s h = inl h
  offer_rows_sound keycode (row ∷ rows) strokes j s h =
      pick (ltb 255 keycode) refl
        (offer_rows_sound (keycode + 1) rows
          (offer_levels keycode (is_alphabetic lower upper row) (group_one_levels lower upper row)
            strokes)
          j s)
        h
    where
      next : List (ℕ × Stroke)
      next =
          offer_levels keycode (is_alphabetic lower upper row) (group_one_levels lower upper row)
            strokes

      pick :
          (b : Bool)
          → ltb 255 keycode ≡ b
          → (lookup j (offer_rows lower upper (keycode + 1) rows next) ≡ some s
              → (lookup j next ≡ some s) ⊎ Listed (keycode + 1) rows j s)
          → lookup j (if b then strokes else offer_rows lower upper (keycode + 1) rows next)
            ≡ some s
          → (lookup j strokes ≡ some s) ⊎ Listed keycode (row ∷ rows) j s
      pick true past rec e = inl e
      pick false fine rec e = elim (rec e) [
        | inl here ↦
            (elim (offer_levels_sound keycode (is_alphabetic lower upper row)
              (group_one_levels lower upper row) strokes j s here) [
                | inl old ↦ inl old
                | inr (a, b, stands) ↦ inr (
                  ground (arith, fine),
                  inl (a, b, Stands-InGroupOne lower upper row j s.mods stands),
                )
              ])
        | inr there ↦ inr (ground (arith, fine), inr there)
      ]

  no_rows :
      (m per : ℕ) (xs : List ℕ)
      → (length xs == 0) ≡ true
      → offer_rows lower upper m (chunks per xs) [] ≡ []
  unfolding offer_rows
  no_rows m per [] h = refl
  no_rows m per (x ∷ xs) h = absurd (ground (arith, h))

  -- The strokes of a keymap, also of one with no keysyms.
  from_raw_strokes :
      (raw : RawKeymap)
      → (raw.keysyms_per_keycode == 0) ≡ false
      → (from_raw lower upper raw).strokes
        ≡ offer_rows lower upper raw.min_keycode (chunks raw.keysyms_per_keycode raw.keysyms) []
  unfolding from_raw
  from_raw_strokes raw h = elim (Bool-cases (length raw.keysyms == 0)) [
    | inl none_listed ↦
        rw (from_raw, h, none_listed)
          (sym (no_rows raw.min_keycode raw.keysyms_per_keycode raw.keysyms none_listed))
    | inr some_listed ↦ rw (from_raw, h, some_listed) refl
  ]

  -- A keysym that the server lists in the first group of some key that a keycode can address is
  -- found, and at a key and level of that group where the server lists it, of which no listed one
  -- needs fewer modifiers held. The first group is columns 0 and 1 of a row, and columns 4 and 5
  -- with the third-level modifier held; where the second of the two is empty, the first lists both
  -- cases of its keysym if that has two. Of a keysym that stands only in the second group nothing
  -- is said.
  pub stroke-cheapest :
      (raw : RawKeymap) (keysym : ℕ) (other : Stroke)
      → (raw.keysyms_per_keycode == 0) ≡ false
      → let rows = chunks raw.keysyms_per_keycode raw.keysyms in
        Listed raw.min_keycode rows keysym other
        → (s : Stroke) × (stroke (from_raw lower upper raw) keysym ≡ some s)
          × Listed raw.min_keycode rows keysym s
          × (cost s.mods ≤ cost other.mods)
  stroke-cheapest raw keysym other h listed =
      let rows = chunks raw.keysyms_per_keycode raw.keysyms in
      let (s, e, n) = offer_rows_complete raw.min_keycode rows [] keysym other listed in
      (
        s,
        ap (λ t. lookup keysym t) (from_raw_strokes raw h) ∙ e,
        from_start (offer_rows_sound raw.min_keycode rows [] keysym s e),
        n,
      )
    where
      from_start : {P : Type 0} {x : Stroke} → (lookup keysym [] ≡ some x) ⊎ P → P
      from_start (inl e) = absurd (ground (arith, e))
      from_start (inr p) = p
