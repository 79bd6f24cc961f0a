-- ===== src/Core/Crossing.antt =====
-- crates/wx-core/src/layout.rs: where the cursor goes when it leaves a monitor. A result `none` on
-- the outside of an `Option` is a panic of `f64::clamp`. A gap between two edges is a difference of
-- two `i32`, which wraps in a release build.
pub mod Choice
pub mod Winner
pub mod Landing
pub mod Total
use win_xtend.Prelude.{
  Bool, true, false, ◌&&◌, ◌||◌, if◌then◌else◌, Option, none, some, ◌>>=◌, is_some, map_or,
  or_option, map_option, List, [], ◌∷◌, ◌++◌, length, leb,
}
use win_xtend.Prelude.Int.{ℤ, pos, ◌-ℤ◌, ltb_ℤ, leb_ℤ, wrap_i32}
use win_xtend.Proto.Ids.{GlobalMonitorId, gid_eq}
use win_xtend.Proto.Edge.{Edge, opposite}
use win_xtend.Proto.Float.{
  Floats, of_int, of_nat, f_add, f_sub, f_mul, f_div, f_lt, f_le, f_eq, f_zero, f_one, is_finite,
}
use win_xtend.Proto.Geom.{Point, Rect, right, bottom, is_empty, contains, clamp}
use win_xtend.Core.Layout.{Placement, GlobalLayout, rect, iter}

pub record Crossing (F : Type 0) : Type 0 where
  pub to : GlobalMonitorId
  pub entry : Point F
  pub via : Edge

pub data LayoutProblem : Type 0 where
  overlap : GlobalMonitorId → GlobalMonitorId → LayoutProblem
  unreachable degenerate : GlobalMonitorId → LayoutProblem

-- The `i32` difference of two edges.
unfoldable pub edge_gap : Rect → Rect → Edge → ℤ
edge_gap from candidate Edge.right = wrap_i32 (candidate.x -ℤ right from)
edge_gap from candidate Edge.left = wrap_i32 (from.x -ℤ right candidate)
edge_gap from candidate Edge.bottom = wrap_i32 (candidate.y -ℤ bottom from)
edge_gap from candidate Edge.top = wrap_i32 (from.y -ℤ bottom candidate)

abbrev pub all_edges : List Edge
all_edges = Edge.left ∷ Edge.right ∷ Edge.top ∷ Edge.bottom ∷ []

unfoldable pub rects_overlap : Rect → Rect → Bool
rects_overlap a b =
    if is_empty a || is_empty b
    then false
    else (ltb_ℤ a.x (right b)
        && (ltb_ℤ b.x (right a) && (ltb_ℤ a.y (bottom b) && ltb_ℤ b.y (bottom a))))

-- A monitor beyond the edge, with its gap or score.
pub record Candidate (F : Type 0) : Type 0 where
  pub score : F
  pub monitor : GlobalMonitorId
  pub bounds : Rect

module _ {F : Type 0} ⦃fl : Floats F⦄ where
  unfoldable pub axis_gap : Rect → Rect → Edge → Option F
  axis_gap from candidate edge =
      let gap = edge_gap from candidate edge in
      if leb_ℤ (pos 0) gap then some (of_int gap) else none

  -- How far `v` lies outside the span from `lo` to `hi`.
  abbrev span_offset : F → ℤ → ℤ → F
  span_offset v lo hi =
      if f_lt v (of_int lo)
      then f_sub (of_int lo) v
      else if f_le (of_int hi) v
      then f_sub v (f_sub (of_int hi) f_one)
      else f_zero

  unfoldable pub perpendicular_offset : Rect → Point F → Edge → F
  perpendicular_offset r exit Edge.left = span_offset exit.y r.y (bottom r)
  perpendicular_offset r exit Edge.right = span_offset exit.y r.y (bottom r)
  perpendicular_offset r exit Edge.top = span_offset exit.x r.x (right r)
  perpendicular_offset r exit Edge.bottom = span_offset exit.x r.x (right r)

  -- ENTRY_INSET is 1.0.
  landing : Rect → Point F → Edge → Point F
  landing r exit Edge.left = record { x = f_add (of_int r.x) f_one; y = exit.y }
  landing r exit Edge.right = record { x = f_sub (of_int (right r)) f_one; y = exit.y }
  landing r exit Edge.top = record { x = exit.x; y = f_add (of_int r.y) f_one }
  landing r exit Edge.bottom = record { x = exit.x; y = f_sub (of_int (bottom r)) f_one }

  unfoldable pub entry_point : Rect → Point F → Edge → Option (Point F)
  unfolding landing
  entry_point r exit via = clamp r (landing r exit via)

  -- A strictly better candidate replaces the best one so far, so the first of equals stays.
  unfoldable pub better : Option (Candidate F) → Candidate F → Option (Candidate F)
  better best c = if map_or true (λ b. f_lt c.score b.score) best then some c else best

  -- One round of the loop, and the loop, over `covering` and `nearest`.
  unfoldable pub consider :
      GlobalMonitorId
      → Rect
      → Point F
      → Edge
      → Placement F
      → Option (Candidate F) × Option (Candidate F)
      → Option (Candidate F) × Option (Candidate F)
  consider from from_rect exit edge pl (covering, nearest) =
      if gid_eq pl.monitor from || is_empty pl.global_bounds
      then (covering, nearest)
      else elim (axis_gap from_rect pl.global_bounds edge) [
        | none ↦ (covering, nearest)
        | some gap ↦
            let r = pl.global_bounds in
            let offset = perpendicular_offset r exit edge in
            (
              (if f_eq offset f_zero
                  then better covering (record { score = gap; monitor = pl.monitor; bounds = r })
                  else covering),
              better nearest
                  (record { score = f_add gap offset; monitor = pl.monitor; bounds = r }),
            )
      ]

  unfoldable pub scan :
      GlobalMonitorId
      → Rect
      → Point F
      → Edge
      → List (Placement F)
      → Option (Candidate F) × Option (Candidate F)
      → Option (Candidate F) × Option (Candidate F)
  scan from from_rect exit edge [] best = best
  scan from from_rect exit edge (pl ∷ pls) best =
      scan from from_rect exit edge pls (consider from from_rect exit edge pl best)

  -- `covering.or(nearest)`.
  unfoldable pub winner :
      GlobalLayout F → GlobalMonitorId → Rect → Point F → Edge → Option (Candidate F)
  winner l from from_rect exit edge =
      let (covering, nearest) = scan from from_rect exit edge (iter l) (none, none) in
      or_option covering nearest

  -- The crossing to the chosen candidate.
  unfoldable pub land : Point F → Edge → Option (Candidate F) → Option (Option (Crossing F))
  land exit edge none = some none
  land exit edge (some c) = do
    entry ← entry_point c.bounds exit (opposite edge)
    some (some (record { to = c.monitor; entry = entry; via = opposite edge }))

  unfoldable pub resolve_crossing :
      GlobalLayout F → GlobalMonitorId → Point F → Edge → Option (Option (Crossing F))
  unfolding land
  resolve_crossing l from exit edge = elim (rect l from) [
    | none ↦ some none
    | some from_rect ↦ land exit edge (winner l from from_rect exit edge)
  ]

  -- The closure `consider` of `exit_edge`: the edge that is crossed first along the path.
  abbrev first_crossed : Option (F × Edge) → F → Edge → Option (F × Edge)
  first_crossed best t edge =
      if f_le f_zero t && f_le t f_one
      then if map_or true (λ b. f_lt t b.0) best then some (t, edge) else best
      else best

  abbrev along : Point F → F → F → F × Edge → Edge × Point F
  along from dx dy (t, edge) =
      (edge, record { x = f_add from.x (f_mul dx t); y = f_add from.y (f_mul dy t) })

  -- The tests on `dx` and on `dy`.
  across_x : Rect → Point F → F → Option (F × Edge)
  across_x r from dx =
      if f_lt f_zero dx
      then first_crossed none (f_div (f_sub (of_int (right r)) from.x) dx) Edge.right
      else if f_lt dx f_zero
      then first_crossed none (f_div (f_sub (of_int r.x) from.x) dx) Edge.left
      else none

  across_y : Rect → Point F → F → Option (F × Edge) → Option (F × Edge)
  across_y r from dy best =
      if f_lt f_zero dy
      then first_crossed best (f_div (f_sub (of_int (bottom r)) from.y) dy) Edge.bottom
      else if f_lt dy f_zero
      then first_crossed best (f_div (f_sub (of_int r.y) from.y) dy) Edge.top
      else best

  unfoldable pub exit_edge : Rect → Point F → Point F → Option (Edge × Point F)
  unfolding across_x across_y
  exit_edge r from to =
      let dx = f_sub to.x from.x in
      let dy = f_sub to.y from.y in
      if is_finite dx && is_finite dy
      then (if f_eq dx f_zero && f_eq dy f_zero
          then none
          else map_option (along from dx dy) (across_y r from dy (across_x r from dx)))
      else none

  -- The crossing through the exit found.
  unfoldable pub leave_by :
      GlobalLayout F → GlobalMonitorId → Option (Edge × Point F) → Option (Option (Crossing F))
  leave_by l from none = some none
  leave_by l from (some (edge, exit)) = resolve_crossing l from exit edge

  unfoldable pub resolve_move :
      GlobalLayout F → GlobalMonitorId → Point F → Point F → Option (Option (Crossing F))
  unfolding leave_by
  resolve_move l from origin target = elim (rect l from) [
    | none ↦ some none
    | some from_rect ↦
        if contains from_rect target
        then some none
        else leave_by l from (exit_edge from_rect origin target)
  ]
