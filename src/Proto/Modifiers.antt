-- ===== src/Proto/Modifiers.antt =====
-- crates/wx-proto/src/keyboard.rs: the modifier snapshot, a byte of flags. It is used qualified.
use Prim.Native.Nat.{ℕ, ◌-◌, bit_and, bit_or}
use win_xtend.Prelude.{Bool, ◌==◌}

abbrev pub Modifiers : Type 0
Modifiers = ℕ

abbrev pub none : Modifiers
none = 0

abbrev pub shift : Modifiers
shift = 1

abbrev pub ctrl : Modifiers
ctrl = 2

abbrev pub alt : Modifiers
alt = 4

abbrev pub super : Modifiers
super = 8

abbrev pub alt_gr : Modifiers
alt_gr = 16

abbrev pub caps_lock : Modifiers
caps_lock = 32

abbrev pub num_lock : Modifiers
num_lock = 64

unfoldable pub contains : Modifiers → Modifiers → Bool
contains self other = bit_and self other == other

unfoldable pub union : Modifiers → Modifiers → Modifiers
union self other = bit_or self other

-- `self & !other` on a byte.
unfoldable pub without : Modifiers → Modifiers → Modifiers
without self other = bit_and self (255 - other)

unfoldable pub is_empty : Modifiers → Bool
is_empty self = self == 0
