-- ===== src/Agent/AutoLayout.antt =====
-- crates/wx-agent/src/autolayout.rs: where the monitors of a node are placed when nobody has placed
-- them. The sums are taken in `i64`, where they do not overflow.
pub mod Forget
use win_xtend.Prelude.{
  ℕ, ◌+◌, ◌*◌, ◌/◌, ◌%◌, ◌^◌, Bool, true, false, not, ◌&&◌, ◌==◌, if◌then◌else◌, Option, none, some,
  unwrap_or, List, [], ◌∷◌, map, length, keep, any_of, all_of,
}
use win_xtend.Prelude.Int.{ℤ, pos, ◌+ℤ◌, ◌-ℤ◌, ltb_ℤ, min_ℤ, max_ℤ, eqb_ℤ, pos_part}
use win_xtend.Proto.Ids.{NodeId, GlobalMonitorId, gid_eq}
use win_xtend.Proto.Float.{Floats, f_one}
use win_xtend.Proto.Geom.{Rect, Monitor, is_empty, saturate}
use win_xtend.Core.Layout.{Placement, GlobalLayout, empty_layout, insert, remove, iter, monitors_of}

abbrev clamp_u32 : ℤ → ℕ
clamp_u32 v = pos_part (min_ℤ v (pos 4294967295))

-- The four sides of a rectangle, and of the smallest one around two.
abbrev Sides : Type 0
Sides = ℤ × ℤ × ℤ × ℤ

abbrev sides : Rect → Sides
sides r = (r.x, r.y, r.x +ℤ pos r.w, r.y +ℤ pos r.h)

abbrev around : Sides → Option Sides → Sides
around s none = s
around (left, top, right, bottom) (some (l, t, r, b)) =
    (min_ℤ l left, min_ℤ t top, max_ℤ r right, max_ℤ b bottom)

abbrev boxed : Sides → Rect
boxed (left, top, right, bottom) = record {
  x = saturate left;
  y = saturate top;
  w = clamp_u32 (right -ℤ left);
  h = clamp_u32 (bottom -ℤ top);
}

unfoldable pub union_from : Option Sides → List Rect → Option Sides
union_from acc [] = acc
union_from acc (r ∷ rs) = union_from (if is_empty r then acc else some (around (sides r) acc)) rs

abbrev pub boxed_option : Option Sides → Option Rect
boxed_option none = none
boxed_option (some s) = some (boxed s)

unfoldable pub union_of : List Rect → Option Rect
unfolding union_from
union_of rs = boxed_option (union_from none rs)

unfoldable pub union_of_or_origin : List Rect → Rect
unfolding union_of
union_of_or_origin rs = unwrap_or (union_of rs) (record { x = pos 0; y = pos 0; w = 0; h = 0 })

-- Right of the mesh, centred on its middle; the origin when there is no mesh.
abbrev pub anchor : Rect → Option Rect → ℤ × ℤ
anchor block none = (pos 0, pos 0)
anchor block (some r) = (r.x +ℤ pos r.w, r.y +ℤ pos (r.h / 2) -ℤ pos (block.h / 2))

-- `x.monitor == y.monitor && x.global_bounds == y.global_bounds`.
abbrev same_rect : Rect → Rect → Bool
same_rect a b = eqb_ℤ a.x b.x && (eqb_ℤ a.y b.y && (a.w == b.w && a.h == b.h))

module _ {F : Type 0} where
  -- `layout.remove(id)` for each.
  unfoldable pub remove_all : GlobalLayout F → List GlobalMonitorId → GlobalLayout F
  remove_all l [] = l
  remove_all l (id ∷ ids) = remove_all (remove l id) ids

  insert_each : GlobalLayout F → List (Placement F) → GlobalLayout F
  insert_each l [] = l
  insert_each l (p ∷ ps) = insert_each (insert l p) ps

  -- `set_revision(revision() + 1)` on a u64.
  abbrev pub next_revision : GlobalLayout F → GlobalLayout F
  next_revision l = record l { revision = (l.revision + 1) % 2 ^ 64 }

  abbrev pub doomed : GlobalLayout F → NodeId → List GlobalMonitorId
  doomed l node = map (λ p. p.monitor) (monitors_of l node)

  -- The rectangles of the other nodes.
  abbrev pub other_rects : NodeId → List (Placement F) → List Rect
  other_rects node ps =
      map (λ p. p.global_bounds)
        (keep (λ p. not (p.monitor.node == node) && not (is_empty p.global_bounds)) ps)

  abbrev pub forget_ids : GlobalLayout F → List GlobalMonitorId → GlobalLayout F × Bool
  forget_ids l [] = (l, false)
  forget_ids l (id ∷ ids) = (next_revision (remove_all l (id ∷ ids)), true)

  unfoldable pub forget_node : GlobalLayout F → NodeId → GlobalLayout F × Bool
  forget_node l node = forget_ids l (doomed l node)

module _ {F : Type 0} ⦃fl : Floats F⦄ where
  unfoldable pub same_placements : List (Placement F) → List (Placement F) → Bool
  same_placements a b =
      length a == length b
      && all_of
          (λ x.
            any_of
              (λ y.
                gid_eq x.monitor y.monitor
                && (same_rect x.global_bounds y.global_bounds
                    && fl.same_bits x.cursor_scale y.cursor_scale))
              b)
          a

  -- A monitor moved by `dx` and `dy`.
  abbrev moved : NodeId → ℤ → ℤ → Monitor F → Placement F
  moved node dx dy m = record {
    monitor = record { node = node; monitor = m.id };
    global_bounds = record {
      x = saturate (m.local_bounds.x +ℤ dx);
      y = saturate (m.local_bounds.y +ℤ dy);
      w = m.local_bounds.w;
      h = m.local_bounds.h;
    };
    cursor_scale = f_one;
  }

  abbrev place_usable : NodeId → Option Rect → List (Monitor F) → List (Placement F)
  place_usable node others usable =
      let block = union_of_or_origin (map (λ m. m.local_bounds) usable) in
      let (anchor_x, anchor_y) = anchor block others in
      map (moved node (anchor_x -ℤ block.x) (anchor_y -ℤ block.y)) usable

  unfoldable pub place_node : GlobalLayout F → NodeId → List (Monitor F) → List (Placement F)
  place_node l node monitors =
      place_usable node (union_of (other_rects node (iter l)))
        (keep (λ m. not (is_empty m.local_bounds)) monitors)

  unfoldable pub apply : GlobalLayout F → NodeId → List (Monitor F) → GlobalLayout F × Bool
  unfolding insert_each
  apply l node monitors =
      let wanted = place_node l node monitors in
      if same_placements (monitors_of l node) wanted
      then (l, false)
      else (next_revision (insert_each (remove_all l (doomed l node)) wanted), true)

  unfoldable pub bootstrap : NodeId → List (Monitor F) → GlobalLayout F
  bootstrap node monitors = (apply (empty_layout 0) node monitors).0
