-- ===== src/Core/Crossing/Landing.antt =====
-- layout.rs: where a path leaves a rectangle and where the cursor lands, without NaN.
use win_xtend.Prelude.{
  ◌≡◌, true, false, ◌&&◌, inl, inr, Option, none, some, map_or, map_option, arith, Bool-cases,
}
use win_xtend.Prelude.Int.{pos}
use win_xtend.Proto.Edge.{Edge}
use win_xtend.Proto.Float.{
  Floats, FloatLaws, of_int, f_sub, f_lt, f_le, f_eq, f_zero, f_one, is_finite, NotNan,
}
use win_xtend.Proto.Geom.{Point, Rect, IsSound, is_empty, contains, right, bottom}
use win_xtend.Proto.Geom.Clamp.{clamp-contains, right-bounds, bottom-bounds, sound_x, sound_y}
use win_xtend.Core.Crossing.{
  landing, entry_point, exit_edge, first_crossed, along, across_x, across_y,
}

module _ {F : Type 0} ⦃fl : Floats F⦄ where
  -- Both coordinates are finite.
  abbrev pub IsFinite : Point F → Type 0
  IsFinite p = (is_finite p.x ≡ true) × (is_finite p.y ≡ true)

  abbrev pub NoNan : Point F → Type 0
  NoNan p = NotNan p.x × NotNan p.y

module _ {F : Type 0} ⦃fl : Floats F⦄ (laws : FloatLaws fl) where
  landing-NoNan :
      (r : Rect) (exit : Point F) (via : Edge) → IsSound r → NoNan exit → NoNan (landing r exit via)
  unfolding landing
  landing-NoNan r exit Edge.left s n = (
    laws.add_not_nan _ _ (laws.finite_int r.x (sound_x r s))
        (laws.finite_int (pos 1) (omega arith)),
    n.1,
  )
  landing-NoNan r exit Edge.right s n = (
    laws.sub_not_nan _ _ (laws.finite_int _ (right-bounds r (sound_x r s)).0)
        (laws.finite_int (pos 1) (omega arith)),
    n.1,
  )
  landing-NoNan r exit Edge.top s n = (
    n.0,
    laws.add_not_nan _ _ (laws.finite_int r.y (sound_y r s))
        (laws.finite_int (pos 1) (omega arith)),
  )
  landing-NoNan r exit Edge.bottom s n = (
    n.0,
    laws.sub_not_nan _ _ (laws.finite_int _ (bottom-bounds r (sound_y r s)).0)
        (laws.finite_int (pos 1) (omega arith)),
  )

  pub entry_point-contains :
      (r : Rect) (exit : Point F) (via : Edge)
      → IsSound r
      → is_empty r ≡ false
      → NoNan exit
      → (q : Point F) × (entry_point r exit via ≡ some q) × (contains r q ≡ true)
  unfolding entry_point
  entry_point-contains r exit via s e n =
      let ok = landing-NoNan r exit via s n in
      clamp-contains laws r (landing r exit via) s e ok.0 ok.1

  -- A point of a sound rectangle is finite.
  pub contains-IsFinite : (r : Rect) (p : Point F) → IsSound r → contains r p ≡ true → IsFinite p
  unfolding contains
  contains-IsFinite r p s h = (
    laws.finite_between (of_int r.x) p.x (of_int (right r)) (laws.finite_int r.x (sound_x r s))
        (laws.finite_int _ (right-bounds r (sound_x r s)).0) (ground arith)
        (laws.lt_le _ _ (ground arith)),
    laws.finite_between (of_int r.y) p.y (of_int (bottom r)) (laws.finite_int r.y (sound_y r s))
        (laws.finite_int _ (bottom-bounds r (sound_y r s)).0) (ground arith)
        (laws.lt_le _ _ (ground arith)),
  )

  -- A parameter on the path lies between 0 and 1.
  abbrev OnPath : Option (F × Edge) → Type 0
  OnPath none = Unit {0}
  OnPath (some (t, edge)) = (f_le f_zero t ≡ true) × (f_le t f_one ≡ true)

  first_crossed-OnPath :
      (best : Option (F × Edge)) (t : F) (edge : Edge)
      → OnPath best
      → OnPath (first_crossed best t edge)
  first_crossed-OnPath best t edge h = elim (Bool-cases (f_le f_zero t && f_le t f_one)) [
    | inl inside ↦ elim (Bool-cases (map_or true (λ b. f_lt t b.0) best)) [
      | inl first ↦ rw (first_crossed, inside, first) (ground arith, ground arith)
      | inr later ↦ rw (first_crossed, inside, later) h
    ]
    | inr outside ↦ rw (first_crossed, outside) h
  ]

  across_x-OnPath : (r : Rect) (from : Point F) (dx : F) → OnPath (across_x r from dx)
  unfolding across_x
  across_x-OnPath r from dx = elim (Bool-cases (f_lt f_zero dx)) [
    | inl forward ↦ rw forward (first_crossed-OnPath none _ Edge.right tt)
    | inr not_forward ↦ elim (Bool-cases (f_lt dx f_zero)) [
      | inl back ↦ rw (not_forward, back) (first_crossed-OnPath none _ Edge.left tt)
      | inr still ↦ rw (not_forward, still) tt
    ]
  ]

  across_y-OnPath :
      (r : Rect) (from : Point F) (dy : F) (best : Option (F × Edge))
      → OnPath best
      → OnPath (across_y r from dy best)
  unfolding across_y
  across_y-OnPath r from dy best h = elim (Bool-cases (f_lt f_zero dy)) [
    | inl forward ↦ rw forward (first_crossed-OnPath best _ Edge.bottom h)
    | inr not_forward ↦ elim (Bool-cases (f_lt dy f_zero)) [
      | inl back ↦ rw (not_forward, back) (first_crossed-OnPath best _ Edge.top h)
      | inr still ↦ rw (not_forward, still) h
    ]
  ]

  -- Where the path leaves a rectangle has no NaN.
  abbrev pub CleanExit : Option (Edge × Point F) → Type 0
  CleanExit none = Unit {0}
  CleanExit (some (edge, exit)) = NoNan exit

  along-CleanExit :
      (from : Point F) (dx dy : F) (best : Option (F × Edge))
      → IsFinite from
      → is_finite dx ≡ true
      → is_finite dy ≡ true
      → OnPath best
      → CleanExit (map_option (along from dx dy) best)
  along-CleanExit from dx dy none f hx hy h = tt
  along-CleanExit from dx dy (some (t, edge)) f hx hy h = (
    laws.add_not_nan _ _ f.0 (laws.finite_fraction dx t hx h.0 h.1),
    laws.add_not_nan _ _ f.1 (laws.finite_fraction dy t hy h.0 h.1),
  )

  pub exit_edge-CleanExit :
      (r : Rect) (from to : Point F) → IsFinite from → CleanExit (exit_edge r from to)
  unfolding exit_edge
  exit_edge-CleanExit r from to f =
      let dx = f_sub to.x from.x in
      let dy = f_sub to.y from.y in
      elim (Bool-cases (is_finite dx && is_finite dy)) [
        | inr wild ↦ rw wild tt
        | inl calm ↦ elim (Bool-cases (f_eq dx f_zero && f_eq dy f_zero)) [
          | inl still ↦ rw (calm, still) tt
          | inr moving ↦
              rw (calm, moving)
                (along-CleanExit from dx dy (across_y r from dy (across_x r from dx)) f
                  (ground arith) (ground arith)
                  (across_y-OnPath r from dy (across_x r from dx) (across_x-OnPath r from dx)))
        ]
      ]
