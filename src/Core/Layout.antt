-- ===== src/Core/Layout.antt =====
-- crates/wx-core/src/layout.rs: every monitor of the mesh in one coordinate space. The crossings
-- of that file are in Core/Crossing.
pub mod Index
pub mod History
pub mod RoundTrip
pub mod Wire
use win_xtend.Prelude.{
  ℕ, suc, ◌+◌, ◌<◌, Bool, true, false, not, ◌&&◌, ◌||◌, ◌==◌, if◌then◌else◌, Option, none, some,
  ◌>>=◌, is_some, map_or, or_option, map_option, List, [], ◌∷◌, ◌++◌, map, length, keep, find_first,
  leb,
}
use win_xtend.Prelude.Int.{ℤ, pos, ◌+ℤ◌, ◌-ℤ◌, ltb_ℤ, leb_ℤ, min_ℤ, max_ℤ, to_u32, wrap_i32}
use win_xtend.Prelude.Maps.{lookup, insert as map_insert, remove as map_remove}
use win_xtend.Proto.Ids.{GlobalMonitorId, NodeId, gid_eq, gid_key}
use win_xtend.Proto.Edge.{Edge, opposite}
use win_xtend.Proto.Float.{
  Floats, of_int, of_nat, f_add, f_sub, f_mul, f_div, f_lt, f_le, f_eq, f_zero, f_one, is_finite,
}
use win_xtend.Proto.Geom.{Point, Rect, right, bottom, is_empty, contains, clamp}

-- crates/wx-proto/src/control.rs. The scale is an `f32`, widened where it is used.
pub record Placement (F : Type 0) : Type 0 where
  pub monitor : GlobalMonitorId
  pub global_bounds : Rect
  pub cursor_scale : F

pub record WireLayout (F : Type 0) : Type 0 where
  pub placements : List (Placement F)
  pub revision : ℕ

pub record GlobalLayout (F : Type 0) : Type 0 where
  pub placements : List (GlobalMonitorId × Placement F)
  pub order : List GlobalMonitorId
  pub revision : ℕ

-- `(max - min) as u32` on `i32`, which wraps in a release build.
box_rect : ℤ × ℤ × ℤ × ℤ → Rect
box_rect (min_x, min_y, max_x, max_y) = record {
  x = min_x;
  y = min_y;
  w = to_u32 (wrap_i32 (max_x -ℤ min_x));
  h = to_u32 (wrap_i32 (max_y -ℤ min_y));
}

module _ {F : Type 0} where
  unfoldable pub empty_layout : ℕ → GlobalLayout F
  empty_layout revision = record { placements = []; order = []; revision = revision }

  unfoldable pub placement : GlobalLayout F → GlobalMonitorId → Option (Placement F)
  placement l id = lookup id l.placements

  unfoldable pub rect : GlobalLayout F → GlobalMonitorId → Option Rect
  rect l id = map_option (λ p. p.global_bounds) (lookup id l.placements)

  unfoldable pub insert : GlobalLayout F → Placement F → GlobalLayout F
  insert l p =
      let placements = map_insert p.monitor p l.placements in
      if is_some (lookup p.monitor l.placements)
      then record l { placements = placements }
      else record l { placements = placements; order = l.order ++ p.monitor ∷ [] }

  unfoldable pub remove : GlobalLayout F → GlobalMonitorId → GlobalLayout F
  remove l id = record l {
    placements = map_remove id l.placements;
    order = keep (λ m. not (gid_eq m id)) l.order;
  }

  insert_all : GlobalLayout F → List (Placement F) → GlobalLayout F
  insert_all l [] = l
  insert_all l (p ∷ ps) = insert_all (insert l p) ps

  unfoldable pub from_layout : WireLayout F → GlobalLayout F
  unfolding insert_all empty_layout
  from_layout w = insert_all (empty_layout w.revision) w.placements

  -- `order.iter().filter_map(|id| placements.get(id))`.
  unfoldable pub placed :
      List (GlobalMonitorId × Placement F) → List GlobalMonitorId → List (Placement F)
  placed m [] = []
  placed m (id ∷ ids) = elim (lookup id m) [ some p ↦ p ∷ placed m ids | none ↦ placed m ids ]

  unfoldable pub iter : GlobalLayout F → List (Placement F)
  unfolding placed
  iter l = placed l.placements l.order

  unfoldable pub to_layout : GlobalLayout F → WireLayout F
  unfolding iter
  to_layout l = record { placements = iter l; revision = l.revision }

  unfoldable pub monitors_of : GlobalLayout F → NodeId → List (Placement F)
  unfolding iter
  monitors_of l node = keep (λ p. p.monitor.node == node) (iter l)

  grow : ℤ × ℤ × ℤ × ℤ → List (Placement F) → ℤ × ℤ × ℤ × ℤ
  grow box [] = box
  grow (min_x, min_y, max_x, max_y) (p ∷ ps) =
      let r = p.global_bounds in
      grow (min_ℤ min_x r.x, min_ℤ min_y r.y, max_ℤ max_x (right r), max_ℤ max_y (bottom r)) ps

  bounds_of : List (Placement F) → Option Rect
  unfolding grow box_rect
  bounds_of [] = none
  bounds_of (p ∷ ps) =
      let r = p.global_bounds in some (box_rect (grow (r.x, r.y, right r, bottom r) ps))

  unfoldable pub bounds : GlobalLayout F → Option Rect
  unfolding bounds_of iter
  bounds l = bounds_of (iter l)
