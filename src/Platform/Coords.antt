-- ===== src/Platform/Coords.antt =====
-- crates/wx-platform/src/coords.rs: positions and monitor ids as the backends need them. An id is a
-- u32, and so is the hash of a name.
pub mod Distinct
pub mod Union
use win_xtend.Prelude.{
  ℕ, zero, suc, ◌+◌, ◌*◌, ◌%◌, ◌^◌, bit_xor, Bool, true, false, ◌==◌, leb, if◌then◌else◌, Option,
  none, some, ◌>>=◌, List, [], ◌∷◌, ◌++◌, any_of, length, get_or,
}
use win_xtend.Prelude.Int.{ℤ, pos, ◌+ℤ◌, ◌-ℤ◌, min_ℤ, max_ℤ, pos_part}
use win_xtend.Proto.Float.{Floats}
use win_xtend.Proto.Geom.{
  Point, Rect, NormPos, Monitor, is_empty, saturate, clamp, denormalize, sanitized,
}

-- left, top, right, bottom, as `i64`.
abbrev pub Extent : Type 0
Extent = ℤ × ℤ × ℤ × ℤ

abbrev pub widened : Option Extent → Rect → Option Extent
widened none r = some (r.x, r.y, r.x +ℤ pos r.w, r.y +ℤ pos r.h)
widened (some (al, at_top, ar, ab)) r =
    some (min_ℤ al r.x, min_ℤ at_top r.y, max_ℤ ar (r.x +ℤ pos r.w), max_ℤ ab (r.y +ℤ pos r.h))

unfoldable pub extent : Option Extent → List Rect → Option Extent
extent acc [] = acc
extent acc (r ∷ rs) = extent (if is_empty r then acc else widened acc r) rs

-- `clamp(0, u32::MAX)`
abbrev clamp_u32 : ℤ → ℕ
clamp_u32 v = pos_part (min_ℤ v (pos 4294967295))

abbrev pub bounding : Option Extent → Rect
bounding none = record { x = pos 0; y = pos 0; w = 0; h = 0 }
bounding (some (l, t, r, b)) = record {
  x = saturate l;
  y = saturate t;
  w = clamp_u32 (r -ℤ l);
  h = clamp_u32 (b -ℤ t);
}

unfoldable pub union_bounds : List Rect → Rect
union_bounds rects = bounding (extent none rects)

module _ {F : Type 0} ⦃fl : Floats F⦄ where
  -- `none` is the panic of `f64::clamp`.
  unfoldable pub local_point : Monitor F → NormPos F → Option (Point F)
  local_point monitor p =
      clamp monitor.local_bounds (denormalize monitor.local_bounds (sanitized p))

unfoldable pub hash_from : ℕ → List ℕ → ℕ
hash_from hash [] = hash
hash_from hash (byte ∷ bytes) = hash_from (bit_xor hash byte * 16777619 % 2 ^ 32) bytes

-- FNV-1a over the bytes of the name.
unfoldable pub stable_monitor_id : List ℕ → ℕ
stable_monitor_id os_name = hash_from 2166136261 os_name

abbrev pub taken : ℕ → List ℕ → Bool
taken id ids = any_of (λ other. other == id) ids

-- The inner loop: at most so many steps to an id that is not among `before`.
unfoldable pub probe : ℕ → List ℕ → ℕ → ℕ
probe zero before id = id
probe (suc n) before id =
    let next = probe n before ((id + 1) % 2 ^ 32) in if taken id before then next else id

-- The outer loop: `before` holds the ids that are settled.
unfoldable pub deduplicate_from : ℕ → List ℕ → List ℕ → List ℕ
deduplicate_from n before [] = before
deduplicate_from n before (id ∷ ids) = deduplicate_from n (before ++ probe n before id ∷ []) ids

unfoldable pub deduplicate_ids : List ℕ → List ℕ
deduplicate_ids ids = deduplicate_from (length ids) [] ids
