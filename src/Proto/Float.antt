-- ===== src/Proto/Float.antt =====
-- Rust's `f64`. The numbers and their operations are a parameter of every definition that computes
-- with coordinates: an `instance` argument of this record. `FloatLaws` holds the facts of IEEE 754
-- arithmetic on which the theorems about positions rest.
use win_xtend.Prelude.{ℕ, ◌≡◌, Option, none, some, Bool, true, false, if◌then◌else◌}
use win_xtend.Prelude.Int.{ℤ, pos, negsuc, leb_ℤ, ltb_ℤ, ◌<ℤ◌, ◌≤ℤ◌}

pub record Floats (F : Type 0) : Type 0 where
  -- `v as f64` of a 32-bit integer.
  pub from_int : ℤ → F
  pub plus : F → F → F
  pub minus : F → F → F
  pub times : F → F → F
  pub over : F → F → F
  pub round_to_zero : F → F
  pub less : F → F → Bool
  pub less_or_equal : F → F → Bool
  pub finite : F → Bool
  -- Equality of the bit patterns (`to_bits`).
  pub same_bits : F → F → Bool
  -- The literals 0.5 and 1e-3.
  pub one_half : F
  pub one_thousandth : F

module _ {F : Type 0} ⦃fl : Floats F⦄ where
  abbrev pub of_int : ℤ → F
  of_int = fl.from_int

  abbrev pub of_nat : ℕ → F
  of_nat n = fl.from_int (pos n)

  abbrev pub f_add : F → F → F
  f_add = fl.plus

  abbrev pub f_sub : F → F → F
  f_sub = fl.minus

  abbrev pub f_mul : F → F → F
  f_mul = fl.times

  abbrev pub f_div : F → F → F
  f_div = fl.over

  abbrev pub f_trunc : F → F
  f_trunc = fl.round_to_zero

  abbrev pub f_lt : F → F → Bool
  f_lt = fl.less

  abbrev pub f_le : F → F → Bool
  f_le = fl.less_or_equal

  -- `a == b` on floats.
  abbrev pub f_eq : F → F → Bool
  f_eq a b = if fl.less_or_equal a b then fl.less_or_equal b a else false

  abbrev pub is_finite : F → Bool
  is_finite = fl.finite

  abbrev pub f_zero : F
  f_zero = fl.from_int (pos 0)

  abbrev pub f_one : F
  f_one = fl.from_int (pos 1)

  -- 0.5 and 1e-3.
  abbrev pub f_half : F
  f_half = fl.one_half

  abbrev pub f_nudge : F
  f_nudge = fl.one_thousandth

  -- `f64::clamp` behind its assertion.
  abbrev pub clamp_in : F → F → F → F
  clamp_in v lo hi = let x = if f_lt v lo then lo else v in if f_lt hi x then hi else x

  -- `f64::clamp` panics when the bounds are not in order.
  abbrev pub f_clamp : F → F → F → Option F
  f_clamp v lo hi = if f_le lo hi then some (clamp_in v lo hi) else none

  abbrev pub NotNan : F → Type 0
  NotNan v = f_le v v ≡ true

abbrev pub i32_max : ℤ
i32_max = pos 2147483647

abbrev pub i32_min : ℤ
i32_min = negsuc 2147483647

abbrev pub IsI32 : ℤ → Type 0
IsI32 v = (i32_min ≤ℤ v) × (v ≤ℤ i32_max)

-- What the positions rely on: comparisons of IEEE doubles, the exact conversion of 32-bit
-- integers, and that no operation on finite numbers below yields NaN.
pub record FloatLaws {F : Type 0} (fl : Floats F) : Type 0 where
  pub le_int :
      (a b : ℤ) → IsI32 a → IsI32 b → fl.less_or_equal (fl.from_int a) (fl.from_int b) ≡ leb_ℤ a b
  pub lt_int : (a b : ℤ) → IsI32 a → IsI32 b → fl.less (fl.from_int a) (fl.from_int b) ≡ ltb_ℤ a b
  pub finite_int : (a : ℤ) → IsI32 a → fl.finite (fl.from_int a) ≡ true
  pub lt_le : (a b : F) → fl.less a b ≡ true → fl.less_or_equal a b ≡ true
  pub lt_not_le : (a b : F) → fl.less a b ≡ true → fl.less_or_equal b a ≡ false
  pub le_lt_trans :
      (a b c : F) → fl.less_or_equal a b ≡ true → fl.less b c ≡ true → fl.less a c ≡ true
  -- Two numbers that are no NaN are comparable.
  pub le_of_not_lt :
      (a b : F)
      → fl.less_or_equal a a ≡ true
      → fl.less_or_equal b b ≡ true
      → fl.less a b ≡ false
      → fl.less_or_equal b a ≡ true
  pub not_nan_left : (a b : F) → fl.less_or_equal a b ≡ true → fl.less_or_equal a a ≡ true
  pub not_nan_right : (a b : F) → fl.less_or_equal a b ≡ true → fl.less_or_equal b b ≡ true
  pub finite_not_nan : (a : F) → fl.finite a ≡ true → fl.less_or_equal a a ≡ true
  pub finite_between :
      (a v b : F)
      → fl.finite a ≡ true
      → fl.finite b ≡ true
      → fl.less_or_equal a v ≡ true
      → fl.less_or_equal v b ≡ true
      → fl.finite v ≡ true
  pub add_not_nan :
      (a b : F)
      → fl.finite a ≡ true
      → fl.finite b ≡ true
      → fl.less_or_equal (fl.plus a b) (fl.plus a b) ≡ true
  pub sub_not_nan :
      (a b : F)
      → fl.finite a ≡ true
      → fl.finite b ≡ true
      → fl.less_or_equal (fl.minus a b) (fl.minus a b) ≡ true
  -- A finite number times a fraction is finite.
  pub finite_fraction :
      (d t : F)
      → fl.finite d ≡ true
      → fl.less_or_equal (fl.from_int (pos 0)) t ≡ true
      → fl.less_or_equal t (fl.from_int (pos 1)) ≡ true
      → fl.finite (fl.times d t) ≡ true
  -- 1e-3 below an edge is still right of every smaller integer.
  pub nudge_inside :
      (a b : ℤ)
      → IsI32 a
      → IsI32 b
      → a <ℤ b
      → fl.less_or_equal (fl.from_int a) (fl.minus (fl.from_int b) fl.one_thousandth) ≡ true
  pub nudge_below :
      (b : ℤ)
      → IsI32 b
      → fl.less (fl.minus (fl.from_int b) fl.one_thousandth) (fl.from_int b) ≡ true
