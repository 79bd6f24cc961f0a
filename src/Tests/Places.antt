-- ===== src/Tests/Places.antt =====
-- Two machines side by side: the monitor of machine 1, and right of it the monitor of machine 2.
use win_xtend.Prelude.{◌≡◌, refl, false, some, [], ◌∷◌, arith}
use win_xtend.Prelude.Int.{pos, ◌+ℤ◌}
use win_xtend.Proto.Ids.{GlobalMonitorId, gid_eq, gid_key}
use win_xtend.Proto.Geom.{Point, Rect, IsSound, contains, right, bottom}
use win_xtend.Core.Layout.{Placement, GlobalLayout, WireLayout, empty_layout, insert, rect}
use win_xtend.Core.Layout.Index.{IsIndexed, insert-IsIndexed, empty_layout-IsIndexed}
use win_xtend.Core.Crossing.Total.{IsSoundLayout, Inside}
use win_xtend.Core.Cursor.{VirtualCursor}
use win_xtend.Tests.Fixed.{Milli, fin, fixed}

abbrev pub here : GlobalMonitorId
here = record { node = 1; monitor = 1 }

abbrev pub there : GlobalMonitorId
there = record { node = 2; monitor = 1 }

abbrev pub here_rect : Rect
here_rect = record { x = pos 0; y = pos 0; w = 100; h = 100 }

abbrev pub there_rect : Rect
there_rect = record { x = pos 100; y = pos 0; w = 200; h = 100 }

abbrev pub here_placement : Placement Milli
here_placement = record { monitor = here; global_bounds = here_rect; cursor_scale = fin (pos 1000) }

abbrev pub there_placement : Placement Milli
there_placement = record {
  monitor = there;
  global_bounds = there_rect;
  cursor_scale = fin (pos 1000);
}

abbrev pub alone : GlobalLayout Milli
alone = insert (empty_layout 1) here_placement

abbrev pub desk : GlobalLayout Milli
desk = insert alone there_placement

abbrev pub desk_wire : WireLayout Milli
desk_wire = record { placements = here_placement ∷ there_placement ∷ []; revision = 1 }

pub alone-IsIndexed : IsIndexed alone
alone-IsIndexed = insert-IsIndexed (empty_layout 1) here_placement (empty_layout-IsIndexed 1)

pub desk-IsIndexed : IsIndexed desk
desk-IsIndexed = insert-IsIndexed alone there_placement alone-IsIndexed

pub here-IsSound : IsSound here_rect
unfolding ◌+ℤ◌
here-IsSound = record {
  x_min = ground arith;
  y_min = ground arith;
  x_max = ground arith;
  y_max = ground arith;
}

pub there-IsSound : IsSound there_rect
unfolding ◌+ℤ◌
there-IsSound = record {
  x_min = ground arith;
  y_min = ground arith;
  x_max = ground arith;
  y_max = ground arith;
}

desk-rect : (id : GlobalMonitorId) (r : Rect) → rect desk id ≡ some r → IsSound r
unfolding insert empty_layout rect
desk-rect id r h = ground (arith, here-IsSound, there-IsSound)

pub desk-IsSoundLayout : IsSoundLayout desk
desk-IsSoundLayout = record { indexed = desk-IsIndexed; sound = desk-rect }

-- Near the right edge of the first monitor.
abbrev pub near_edge : Point Milli
near_edge = record { x = fin (pos 95000); y = fin (pos 50000) }

abbrev pub at_edge : VirtualCursor Milli
at_edge = record {
  monitor = here;
  pos = near_edge;
  remainder = record { x = fin (pos 0); y = fin (pos 0) };
  last_norm = record { x = fin (pos 950); y = fin (pos 500) };
  locked = false;
}

pub at_edge-Inside : Inside desk here near_edge
unfolding insert empty_layout rect contains right bottom gid_eq ◌+ℤ◌
at_edge-Inside = record { bounds = here_rect; placed = refl; roomy = refl; held = refl }
