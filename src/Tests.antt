-- ===== src/Tests.antt =====
-- Concrete inputs for the theorems, on numbers that compute.
pub mod Fixed
pub mod Places
pub mod Routing
pub mod Wire
pub mod Sharing
pub mod Net
pub mod State
pub mod Video
pub mod X11
