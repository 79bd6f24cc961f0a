-- ===== src/Platform.antt =====
-- crates/wx-platform: what the backends of the operating systems share.
pub mod Accent
pub mod Keyres
pub mod Coords
pub mod Keys
pub mod X11
