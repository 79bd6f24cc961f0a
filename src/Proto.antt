-- ===== src/Proto.antt =====
-- crates/wx-proto: what crosses the wire.
pub mod Caps
pub mod Codec
pub mod Ids
pub mod Float
pub mod Geom
pub mod Edge
pub mod Keyboard
pub mod Modifiers
pub mod Input
