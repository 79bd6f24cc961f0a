-- ===== src/Net.antt =====
-- crates/wx-net: what two machines say to each other before either takes orders from the other.
pub mod Control
pub mod Trust
pub mod Identity
pub mod Handshake
pub mod Pairing
