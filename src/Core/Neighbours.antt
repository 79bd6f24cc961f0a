-- ===== src/Core/Neighbours.antt =====
-- crates/wx-core/src/layout.rs: which edges of a monitor lead somewhere, and the problems that the
-- layout editor warns about. A result `none` is a panic of `f64::clamp`.
pub mod Faults
use win_xtend.Prelude.{
  Bool, true, false, if◌then◌else◌, Option, none, some, ◌>>=◌, is_some, List, [], ◌∷◌, ◌++◌, length,
  ltb,
}
use win_xtend.Proto.Ids.{GlobalMonitorId, gid_eq}
use win_xtend.Proto.Edge.{Edge, opposite}
use win_xtend.Proto.Float.{Floats, of_int, of_nat, f_add, f_div}
use win_xtend.Proto.Geom.{Point, Rect, right, bottom, is_empty}
use win_xtend.Core.Layout.{Placement, GlobalLayout, rect, iter}
use win_xtend.Core.Crossing.{
  LayoutProblem, overlap, unreachable, degenerate, all_edges, rects_overlap, resolve_crossing,
}

module _ {F : Type 0} where
  degenerates : List (Placement F) → List LayoutProblem
  degenerates [] = []
  degenerates (p ∷ ps) =
      if is_empty p.global_bounds then degenerate p.monitor ∷ degenerates ps else degenerates ps

  overlaps_with : Placement F → List (Placement F) → List LayoutProblem
  overlaps_with a [] = []
  overlaps_with a (b ∷ bs) =
      if rects_overlap a.global_bounds b.global_bounds
      then overlap a.monitor b.monitor ∷ overlaps_with a bs
      else overlaps_with a bs

  overlaps : List (Placement F) → List LayoutProblem
  unfolding overlaps_with
  overlaps [] = []
  overlaps (a ∷ rest) = overlaps_with a rest ++ overlaps rest

module _ {F : Type 0} ⦃fl : Floats F⦄ where
  unfoldable pub edge_midpoint : Rect → Edge → Point F
  edge_midpoint r edge =
      let cx = f_add (of_int r.x) (f_div (of_nat r.w) (of_nat 2)) in
      let cy = f_add (of_int r.y) (f_div (of_nat r.h) (of_nat 2)) in
      elim edge [
        | Edge.left ↦ record { x = of_int r.x; y = cy }
        | Edge.right ↦ record { x = of_int (right r); y = cy }
        | Edge.top ↦ record { x = cx; y = of_int r.y }
        | Edge.bottom ↦ record { x = cx; y = of_int (bottom r) }
      ]

  unfoldable pub has_neighbour : GlobalLayout F → GlobalMonitorId → Edge → Option Bool
  has_neighbour l monitor edge = elim (rect l monitor) [
    | none ↦ some false
    | some r ↦ (do
      crossing ← resolve_crossing l monitor (edge_midpoint r edge) edge
      some (is_some crossing))
  ]

  neighbour_edges : GlobalLayout F → GlobalMonitorId → List Edge → Option (List Edge)
  neighbour_edges l monitor [] = some []
  neighbour_edges l monitor (edge ∷ edges) = do
    there ← has_neighbour l monitor edge
    rest ← neighbour_edges l monitor edges
    some (if there then edge ∷ rest else rest)

  unfoldable pub exit_edges : GlobalLayout F → GlobalMonitorId → Option (List Edge)
  unfolding neighbour_edges
  exit_edges l monitor = neighbour_edges l monitor all_edges

  -- The trip over `edge` and back again.
  returns : GlobalLayout F → Placement F → Edge → Option Bool
  returns l pl edge = do
    let exit = edge_midpoint pl.global_bounds edge
    there ← resolve_crossing l pl.monitor exit edge
    elim there [
      | none ↦ some false
      | some c ↦ (do
        back ← resolve_crossing l c.to exit (opposite edge)
        some (elim back [ none ↦ false | some b ↦ gid_eq b.to pl.monitor ]))
    ]

  -- `any` stops at the first edge that returns.
  some_returns : GlobalLayout F → Placement F → List Edge → Option Bool
  unfolding returns
  some_returns l pl [] = some false
  some_returns l pl (edge ∷ edges) =
      let later = some_returns l pl edges in
      (do found ← returns l pl edge; if found then some true else later)

  unreachables : GlobalLayout F → List (Placement F) → Option (List LayoutProblem)
  unfolding some_returns
  unreachables l [] = some []
  unreachables l (pl ∷ pls) =
      let rest = unreachables l pls in
      if is_empty pl.global_bounds then rest else (do
        reachable ← some_returns l pl all_edges
        others ← rest
        some (if reachable then others else unreachable pl.monitor ∷ others))

  unfoldable pub validate : GlobalLayout F → Option (List LayoutProblem)
  unfolding degenerates overlaps unreachables
  validate l =
      let all = iter l in
      (do
        isolated ← if ltb 1 (length all) then unreachables l all else some []
        some (degenerates all ++ (overlaps all ++ isolated)))
