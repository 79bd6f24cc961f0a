-- ===== src/Platform/Coords/Union.antt =====
-- coords.rs and autolayout.rs: the two routines that box rectangles.
use win_xtend.Prelude.{
  ◌≡◌, refl, ap, ◌∙◌, if◌then◌else◌, Option, none, some, unwrap_or, List, [], ◌∷◌,
}
use win_xtend.Prelude.Int.{pos}
use win_xtend.Proto.Geom.{Rect, is_empty}
use win_xtend.Agent.AutoLayout.{boxed_option, union_from, union_of, union_of_or_origin}
use win_xtend.Platform.Coords.{Extent, widened, extent, bounding, union_bounds}

extent_lem : (acc : Option Extent) (rs : List Rect) → extent acc rs ≡ union_from acc rs
unfolding extent union_from
extent_lem acc [] = refl
extent_lem none (r ∷ rs) = extent_lem (if is_empty r then none else widened none r) rs
extent_lem (some a) (r ∷ rs) = extent_lem (if is_empty r then some a else widened (some a) r) rs

-- The backends and the automatic layout box rectangles alike.
pub union_bounds_lem : (rs : List Rect) → union_bounds rs ≡ union_of_or_origin rs
unfolding union_bounds union_of_or_origin union_of
union_bounds_lem rs = ap bounding (extent_lem none rs) ∙ same (union_from none rs)
  where
    same :
        (o : Option Extent)
        → bounding o ≡ unwrap_or (boxed_option o) (record { x = pos 0; y = pos 0; w = 0; h = 0 })
    same none = refl
    same (some s) = refl
