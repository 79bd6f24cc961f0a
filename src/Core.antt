-- ===== src/Core.antt =====
-- crates/wx-core: the layout of the mesh, the cursor, and the routing of input.
pub mod Layout
pub mod Crossing
pub mod Neighbours
pub mod Cursor
pub mod Held
pub mod Transfer
pub mod Router
