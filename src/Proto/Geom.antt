-- ===== src/Proto/Geom.antt =====
-- crates/wx-proto/src/geom.rs: points, rectangles, positions as fractions. An `i32` is an integer,
-- a `u32` a natural number; `f64` is a type `F` with an instance of `Floats`.
pub mod Clamp
use win_xtend.Prelude.{
  ℕ, ◌*◌, ◌==◌, ◌≤◌, ◌<◌, ◌≡◌, Bool, true, false, Option, none, some, ◌>>=◌, ◌&&◌, ◌||◌,
  if◌then◌else◌, List, arith,
}
use win_xtend.Prelude.Int.{ℤ, pos, ◌+ℤ◌, ltb_ℤ, ◌≤ℤ◌}
use win_xtend.Proto.Float.{
  Floats, of_int, of_nat, f_add, f_sub, f_mul, f_div, f_lt, f_le, f_zero, f_one, f_half, f_nudge,
  f_clamp, clamp_in, is_finite, i32_max, i32_min, IsI32,
}
use win_xtend.Proto.Ids.{MonitorId}

pub record Point (F : Type 0) : Type 0 where
  pub x : F
  pub y : F

unfoldable pub saturate : ℤ → ℤ
saturate v = if ltb_ℤ i32_max v then i32_max else if ltb_ℤ v i32_min then i32_min else v

pub record Rect : Type 0 where
  pub x : ℤ
  pub y : ℤ
  pub w : ℕ
  pub h : ℕ

-- The sums are taken in `i64`, where they do not overflow.
unfoldable pub right : Rect → ℤ
unfolding saturate
right r = saturate (r.x +ℤ pos r.w)

unfoldable pub bottom : Rect → ℤ
unfolding saturate
bottom r = saturate (r.y +ℤ pos r.h)

abbrev pub is_empty : Rect → Bool
is_empty r = r.w == 0 || r.h == 0

pub record NormPos (F : Type 0) : Type 0 where
  pub x : F
  pub y : F

module _ {F : Type 0} ⦃fl : Floats F⦄ where
  unfoldable pub contains : Rect → Point F → Bool
  contains r p =
      f_le (of_int r.x) p.x
      && (f_lt p.x (of_int (right r)) && (f_le (of_int r.y) p.y && f_lt p.y (of_int (bottom r))))

  -- `none` is the panic of `f64::clamp`.
  unfoldable pub clamp : Rect → Point F → Option (Point F)
  clamp r p = if is_empty r then some (record { x = of_int r.x; y = of_int r.y }) else (do
    x ← f_clamp p.x (of_int r.x) (f_sub (of_int (right r)) f_nudge)
    y ← f_clamp p.y (of_int r.y) (f_sub (of_int (bottom r)) f_nudge)
    some (record { x = x; y = y }))

  unfoldable pub normalize : Rect → Point F → NormPos F
  normalize r p = if is_empty r then record { x = f_zero; y = f_zero } else record {
    x = f_div (f_sub p.x (of_int r.x)) (of_nat r.w);
    y = f_div (f_sub p.y (of_int r.y)) (of_nat r.h);
  }

  unfoldable pub denormalize : Rect → NormPos F → Point F
  denormalize r n = record {
    x = f_add (of_int r.x) (f_mul n.x (of_nat r.w));
    y = f_add (of_int r.y) (f_mul n.y (of_nat r.h));
  }

  -- The closure `fix`; the bounds 0.0 and 1.0 are in order.
  fix : F → F
  fix v = if is_finite v then clamp_in v f_zero f_one else f_half

  unfoldable pub sanitized : NormPos F → NormPos F
  unfolding fix
  sanitized n = record { x = fix n.x; y = fix n.y }

pub record Monitor (F : Type 0) : Type 0 where
  pub id : MonitorId
  pub name : List ℕ
  pub local_bounds : Rect
  pub scale : F
  pub primary : Bool

-- A rectangle that a u32 and i32 record can hold, whose far edges do not saturate.
pub record IsSound (r : Rect) : Type 0 where
  pub x_min : i32_min ≤ℤ r.x
  pub y_min : i32_min ≤ℤ r.y
  pub x_max : r.x +ℤ pos r.w ≤ℤ i32_max
  pub y_max : r.y +ℤ pos r.h ≤ℤ i32_max
