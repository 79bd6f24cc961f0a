-- ===== src/Core/Crossing/Choice.antt =====
-- layout.rs: which monitor a crossing reaches.
use win_xtend.Prelude.{
  ◌≡◌, refl, ◌∙◌, Bool, true, false, ◌||◌, inl, inr, if◌then◌else◌, Option, none, some, is_some,
  map_or, List, [], ◌∷◌, arith, Bool-cases, All, any_of,
}
use win_xtend.Prelude.Int.{pos, leb_ℤ}
use win_xtend.Proto.Ids.{GlobalMonitorId, gid_eq, gid_key}
use win_xtend.Proto.Edge.{Edge}
use win_xtend.Proto.Float.{Floats, f_lt, f_eq, f_zero, f_add, of_int}
use win_xtend.Proto.Geom.{Point, Rect, is_empty}
use win_xtend.Core.Layout.{Placement}
use win_xtend.Core.Crossing.{
  Candidate, axis_gap, edge_gap, perpendicular_offset, better, consider, scan,
}

-- A property of the candidate found, if one was found.
abbrev pub Found {ℓ} : {F : Type 0} → (Candidate F → Type ℓ) → Option (Candidate F) → Type ℓ
Found P none = Unit
Found P (some c) = P c

-- The placement may be crossed to: another monitor, not empty, beyond the edge.
unfoldable pub is_eligible : {F : Type 0} → GlobalMonitorId → Rect → Edge → Placement F → Bool
is_eligible from from_rect edge pl =
    if gid_eq pl.monitor from || is_empty pl.global_bounds
    then false
    else leb_ℤ (pos 0) (edge_gap from_rect pl.global_bounds edge)

module _ {F : Type 0} ⦃fl : Floats F⦄ where
  better_keeps :
      (P : Candidate F → Type 0) (best : Option (Candidate F)) (c : Candidate F)
      → Found P best
      → P c
      → Found P (better best c)
  unfolding better
  better_keeps P best c f p = elim (Bool-cases (map_or true (λ b. f_lt c.score b.score) best)) [
    | inl wins ↦ rw wins p
    | inr loses ↦ rw loses f
  ]

  better-is_some : (best : Option (Candidate F)) (c : Candidate F) → is_some (better best c) ≡ true
  unfolding better
  better-is_some none c = refl
  better-is_some (some b) c = ground arith

module _ {F : Type 0} ⦃fl : Floats F⦄ (from : GlobalMonitorId) (from_rect : Rect) (exit : Point F)
    (edge : Edge) where
  -- The candidates that a placement offers: for its gap, and for its gap and offset.
  abbrev pub gap_of : Placement F → F
  gap_of pl = of_int (edge_gap from_rect pl.global_bounds edge)

  abbrev pub offset_of : Placement F → F
  offset_of pl = perpendicular_offset pl.global_bounds exit edge

  abbrev pub straight : Placement F → Candidate F
  straight pl = record { score = gap_of pl; monitor = pl.monitor; bounds = pl.global_bounds }

  abbrev pub oblique : Placement F → Candidate F
  oblique pl = record {
    score = f_add (gap_of pl) (offset_of pl);
    monitor = pl.monitor;
    bounds = pl.global_bounds;
  }

  pub consider_skip :
      (pl : Placement F) (best : Option (Candidate F) × Option (Candidate F))
      → is_eligible from from_rect edge pl ≡ false
      → consider from from_rect exit edge pl best ≡ best
  unfolding consider is_eligible axis_gap
  consider_skip pl best h = ground arith

  pub consider_take :
      (pl : Placement F) (best : Option (Candidate F) × Option (Candidate F))
      → is_eligible from from_rect edge pl ≡ true
      → consider from from_rect exit edge pl best ≡ (
        (if f_eq (offset_of pl) f_zero then better best.0 (straight pl) else best.0),
        better best.1 (oblique pl),
      )
  unfolding consider is_eligible axis_gap
  consider_take pl best h = ground arith

  -- A property that every eligible placement's candidates have passes through the scan.
  pub scan_keeps :
      (P : Candidate F → Type 0) (pls : List (Placement F))
      → All (λ pl. is_eligible from from_rect edge pl ≡ true → P (straight pl) × P (oblique pl)) pls
      → (best : Option (Candidate F) × Option (Candidate F)) → Found P best.0
      → Found P best.1
      → Found P (scan from from_rect exit edge pls best).0
        × Found P (scan from from_rect exit edge pls best).1
  unfolding scan
  scan_keeps P [] all best f g = (f, g)
  scan_keeps P (pl ∷ pls) all best f g = elim (Bool-cases (is_eligible from from_rect edge pl)) [
    | inl fits ↦
        rw (consider_take pl best fits, Found)
          (scan_keeps P pls all.1 _
            (elim (Bool-cases (f_eq (offset_of pl) f_zero)) [
              | inl level ↦ rw level (better_keeps P best.0 (straight pl) f (all.0 fits).0)
              | inr aside ↦ rw aside f
            ])
            (better_keeps P best.1 (oblique pl) g (all.0 fits).1))
    | inr not_it ↦ rw (consider_skip pl best not_it, Found) (scan_keeps P pls all.1 best f g)
  ]

  -- The scan finds a candidate exactly when it had one or some placement is eligible.
  pub is_some-scan :
      (pls : List (Placement F)) (best : Option (Candidate F) × Option (Candidate F))
      → is_some (scan from from_rect exit edge pls best).1
        ≡ (is_some best.1 || any_of (is_eligible from from_rect edge) pls)
  unfolding scan
  is_some-scan [] best = ground arith
  is_some-scan (pl ∷ pls) best = elim (Bool-cases (is_eligible from from_rect edge pl)) [
    | inl fits ↦
        rw (consider_take pl best fits, is_some)
          (is_some-scan pls _ ∙ ground (arith, better-is_some best.1 (oblique pl), fits))
    | inr not_it ↦
        rw (consider_skip pl best not_it, is_some) (is_some-scan pls best ∙ ground (arith, not_it))
  ]
