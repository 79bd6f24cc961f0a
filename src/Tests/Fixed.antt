-- ===== src/Tests/Fixed.antt =====
-- Fixed-point numbers in thousandths, with a NaN: an instance of the float interface on which the
-- model runs, and which meets `FloatLaws`.
use win_xtend.Prelude.{ℕ, ◌+◌, ◌*◌, ◌/◌, ◌≡◌, refl, Bool, true, false, arith, ltb, if◌then◌else◌}
use win_xtend.Prelude.Int.{ℤ, pos, negsuc, pos_part, neg_part, sub_ℕ, leb_ℤ, ltb_ℤ, eqb_ℤ, ◌<ℤ◌}
use win_xtend.Proto.Float.{Floats, FloatLaws}

pub data Milli : Type 0 where
  nan : Milli
  fin : ℤ → Milli

-- Division that rounds towards zero.
abbrev pub quot : ℤ → ℕ → ℤ
quot (pos n) d = pos (n / d)
quot (negsuc n) d = sub_ℕ 0 ((n + 1) / d)

abbrev neg : ℤ → ℤ
neg z = sub_ℕ (neg_part z) (pos_part z)

abbrev pub quot_ℤ : ℤ → ℤ → Milli
quot_ℤ a (pos n) = if ltb 0 n then fin (quot a n) else nan
quot_ℤ a (negsuc n) = fin (neg (quot a (n + 1)))

abbrev pub add : Milli → Milli → Milli
add (fin a) (fin b) = fin (sub_ℕ (pos_part a + pos_part b) (neg_part a + neg_part b))
add _ _ = nan

abbrev pub sub : Milli → Milli → Milli
sub (fin a) (fin b) = fin (sub_ℕ (pos_part a + neg_part b) (neg_part a + pos_part b))
sub _ _ = nan

abbrev times : ℤ → ℤ → ℤ
times a b =
    sub_ℕ (pos_part a * pos_part b + neg_part a * neg_part b)
      (pos_part a * neg_part b + neg_part a * pos_part b)

abbrev pub mul : Milli → Milli → Milli
mul (fin a) (fin b) = fin (quot (times a b) 1000)
mul _ _ = nan

abbrev pub div : Milli → Milli → Milli
div (fin a) (fin b) = quot_ℤ (times a (pos 1000)) b
div _ _ = nan

abbrev pub trunc : Milli → Milli
trunc nan = nan
trunc (fin a) = fin (times (quot a 1000) (pos 1000))

abbrev pub lt : Milli → Milli → Bool
lt (fin a) (fin b) = ltb_ℤ a b
lt _ _ = false

abbrev pub le : Milli → Milli → Bool
le (fin a) (fin b) = leb_ℤ a b
le _ _ = false

abbrev pub is_fin : Milli → Bool
is_fin nan = false
is_fin (fin a) = true

abbrev pub same : Milli → Milli → Bool
same nan nan = true
same (fin a) (fin b) = eqb_ℤ a b
same _ _ = false

instance abbrev pub fixed : Floats Milli
fixed = record {
  from_int = λ a. fin (times a (pos 1000));
  plus = add;
  minus = sub;
  times = mul;
  over = div;
  round_to_zero = trunc;
  less = lt;
  less_or_equal = le;
  finite = is_fin;
  same_bits = same;
  one_half = fin (pos 500);
  one_thousandth = fin (pos 1);
}

le_int_lem : (a b : ℤ) → leb_ℤ (times a (pos 1000)) (times b (pos 1000)) ≡ leb_ℤ a b
le_int_lem a b = ground arith

lt_int_lem : (a b : ℤ) → ltb_ℤ (times a (pos 1000)) (times b (pos 1000)) ≡ ltb_ℤ a b
lt_int_lem a b = ground arith

lt_le_lem : (a b : Milli) → lt a b ≡ true → le a b ≡ true
lt_le_lem a b h = ground arith

lt_not_le_lem : (a b : Milli) → lt a b ≡ true → le b a ≡ false
lt_not_le_lem a b h = ground arith

le_lt_trans_lem : (a b c : Milli) → le a b ≡ true → lt b c ≡ true → lt a c ≡ true
le_lt_trans_lem a b c h k = ground arith

le_of_not_lt_lem : (a b : Milli) → le a a ≡ true → le b b ≡ true → lt a b ≡ false → le b a ≡ true
le_of_not_lt_lem a b h k l = ground arith

le_self : (a : ℤ) → leb_ℤ a a ≡ true
le_self a = ground arith

not_nan_left_lem : (a b : Milli) → le a b ≡ true → le a a ≡ true
not_nan_left_lem a b h = ground arith

not_nan_right_lem : (a b : Milli) → le a b ≡ true → le b b ≡ true
not_nan_right_lem a b h = ground arith

finite_between_lem : (a v b : Milli) → le a v ≡ true → is_fin v ≡ true
finite_between_lem a v b h = ground arith

finite_not_nan_lem : (a : Milli) → is_fin a ≡ true → le a a ≡ true
finite_not_nan_lem a h = ground arith

add_not_nan_lem : (a b : Milli) → is_fin a ≡ true → is_fin b ≡ true → le (add a b) (add a b) ≡ true
add_not_nan_lem a b h k = ground arith

sub_not_nan_lem : (a b : Milli) → is_fin a ≡ true → is_fin b ≡ true → le (sub a b) (sub a b) ≡ true
sub_not_nan_lem a b h k = ground arith

finite_fraction_lem :
    (d t : Milli) → is_fin d ≡ true → le (fin (pos 0)) t ≡ true → is_fin (mul d t) ≡ true
finite_fraction_lem d t h k = ground arith

nudge_inside_lem :
    (a b : ℤ)
    → a <ℤ b
    → le (fin (times a (pos 1000))) (sub (fin (times b (pos 1000))) (fin (pos 1))) ≡ true
nudge_inside_lem a b h = ground arith

nudge_below_lem :
    (b : ℤ) → lt (sub (fin (times b (pos 1000))) (fin (pos 1))) (fin (times b (pos 1000))) ≡ true
nudge_below_lem b = ground arith

pub fixed_laws : FloatLaws fixed
fixed_laws = record {
  le_int = λ a b _ _. le_int_lem a b;
  lt_int = λ a b _ _. lt_int_lem a b;
  finite_int = λ a _. refl;
  lt_le = lt_le_lem;
  lt_not_le = lt_not_le_lem;
  le_lt_trans = le_lt_trans_lem;
  le_of_not_lt = le_of_not_lt_lem;
  not_nan_left = not_nan_left_lem;
  not_nan_right = not_nan_right_lem;
  finite_not_nan = finite_not_nan_lem;
  finite_between = λ a v b _ _ h _. finite_between_lem a v b h;
  add_not_nan = add_not_nan_lem;
  sub_not_nan = sub_not_nan_lem;
  finite_fraction = λ d t h k _. finite_fraction_lem d t h k;
  nudge_inside = λ a b _ _. nudge_inside_lem a b;
  nudge_below = λ b _. nudge_below_lem b;
}
