-- ===== src/Proto/Ids.antt =====
-- crates/wx-proto/src/ids.rs: who owns a monitor. A node id is 32 bytes; it is modelled by the
-- number that they spell, most significant first, which keeps equality and the (lexicographic)
-- order. A monitor id is a u32.
use win_xtend.Prelude.Maps.{Eq}
use win_xtend.Prelude.{ℕ, ◌≡◌, Bool, true, ◌&&◌, ◌==◌, arith}

abbrev pub NodeId : Type 0
NodeId = ℕ

abbrev pub MonitorId : Type 0
MonitorId = ℕ

pub record GlobalMonitorId : Type 0 where
  pub node : NodeId
  pub monitor : MonitorId

-- The derived `==`.
unfoldable pub gid_eq : GlobalMonitorId → GlobalMonitorId → Bool
gid_eq a b = a.node == b.node && a.monitor == b.monitor

pub gid_eq_sound : (a b : GlobalMonitorId) → gid_eq a b ≡ true → a ≡ b
unfolding gid_eq
gid_eq_sound a b h = ground arith

pub gid_eq_refl : (a : GlobalMonitorId) → gid_eq a a ≡ true
unfolding gid_eq
gid_eq_refl a = ground arith

instance abbrev pub gid_key : Eq GlobalMonitorId
gid_key = record { beq = gid_eq; beq_sound = gid_eq_sound; beq_refl = gid_eq_refl }

pub node_eq_sound : (a b : NodeId) → (a == b) ≡ true → a ≡ b
node_eq_sound a b h = ground arith

pub node_eq_refl : (a : NodeId) → (a == a) ≡ true
node_eq_refl a = ground arith

instance abbrev pub node_key : Eq NodeId
node_key = record { beq = ◌==◌; beq_sound = node_eq_sound; beq_refl = node_eq_refl }

pub gid_eq_sym : (a b : GlobalMonitorId) → gid_eq a b ≡ gid_eq b a
unfolding gid_eq
gid_eq_sym a b = ground arith
