-- ===== src/Proto/Caps.antt =====
-- crates/wx-proto/src/caps.rs: capability bits, and the wire version that two builds settle on.
use Prim.Native.Nat.{bit_and, bit_or}
use win_xtend.Prelude.{ℕ, ◌≤◌, min, ◌≡◌, Bool, ◌==◌, ltb, if◌then◌else◌, arith}

-- A set of flags, 32 bits.
abbrev pub Capabilities : Type 0
Capabilities = ℕ

abbrev pub clipboard_text : Capabilities
clipboard_text = 8

abbrev pub clipboard_image : Capabilities
clipboard_image = 16

unfoldable pub contains : Capabilities → Capabilities → Bool
contains self other = bit_and self other == other

unfoldable pub union : Capabilities → Capabilities → Capabilities
union self other = bit_or self other

unfoldable pub intersect : Capabilities → Capabilities → Capabilities
intersect self other = bit_and self other

abbrev pub protocol_version : ℕ
protocol_version = 1

abbrev pub min_compatible_version : ℕ
min_compatible_version = 1

pub data Platform : Type 0 where
  windows mac_os linux other : Platform

pub data DisplayServer : Type 0 where
  windows_session quartz x11 wayland headless : DisplayServer

pub data VersionCheck : Type 0 where
  compatible : ℕ → VersionCheck
  peer_too_old : ℕ → ℕ → VersionCheck

unfoldable pub negotiate : ℕ → ℕ → ℕ → VersionCheck
negotiate peer_version ours floor =
    if ltb peer_version floor
    then peer_too_old peer_version floor
    else compatible (min peer_version ours)

unfoldable pub check_version : ℕ → VersionCheck
unfolding negotiate
check_version peer_version = negotiate peer_version protocol_version min_compatible_version

-- Two builds, each with its own newest version and its own floor: when both find the other
-- compatible they settle on the same version, the newest that both know, and neither floor is
-- above it.
pub negotiate-agree :
    (ours our_floor theirs their_floor : ℕ) (v w : ℕ)
    → our_floor ≤ ours
    → their_floor ≤ theirs
    → negotiate theirs ours our_floor ≡ compatible v
    → negotiate ours theirs their_floor ≡ compatible w
    → (v ≡ w) × (v ≤ ours) × (v ≤ theirs) × (our_floor ≤ v) × (their_floor ≤ v)
unfolding negotiate
negotiate-agree ours our_floor theirs their_floor v w hf kf h k = ground arith
