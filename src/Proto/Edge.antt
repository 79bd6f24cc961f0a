-- ===== src/Proto/Edge.antt =====
-- crates/wx-proto/src/geom.rs: the side of a rectangle that a crossing uses.

pub data Edge : Type 0 where
  left right top bottom : Edge

abbrev pub opposite : Edge → Edge
opposite Edge.left = Edge.right
opposite Edge.right = Edge.left
opposite Edge.top = Edge.bottom
opposite Edge.bottom = Edge.top
