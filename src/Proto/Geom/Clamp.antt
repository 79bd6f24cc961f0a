-- ===== src/Proto/Geom/Clamp.antt =====
-- Rectangles of geom.rs: what saturation keeps, and where `clamp` puts a point.
use win_xtend.Prelude.{◌≡◌, true, false, none, some, arith}
use win_xtend.Prelude.Int.{ℤ, pos, ◌+ℤ◌, ◌≤ℤ◌, ◌<ℤ◌, +ℤ_parts}
use win_xtend.Proto.Float.{
  Floats, FloatLaws, of_int, f_sub, f_lt, f_le, f_nudge, f_clamp, clamp_in, NotNan, IsI32, i32_max,
}
use win_xtend.Proto.Geom.{Rect, Point, IsSound, right, bottom, is_empty, contains, clamp}

-- An edge is in range whatever the rectangle holds, and never lies before the origin.
pub right-bounds : (r : Rect) → IsI32 r.x → IsI32 (right r) × (r.x ≤ℤ right r)
unfolding right
right-bounds r h = ground (arith, +ℤ_parts r.x (pos r.w))

pub bottom-bounds : (r : Rect) → IsI32 r.y → IsI32 (bottom r) × (r.y ≤ℤ bottom r)
unfolding bottom
bottom-bounds r h = ground (arith, +ℤ_parts r.y (pos r.h))

pub right-exact : (r : Rect) → IsSound r → right r ≡ r.x +ℤ pos r.w
unfolding right
right-exact r s = ground (arith, +ℤ_parts r.x (pos r.w))

pub bottom-exact : (r : Rect) → IsSound r → bottom r ≡ r.y +ℤ pos r.h
unfolding bottom
bottom-exact r s = ground (arith, +ℤ_parts r.y (pos r.h))

-- A sound rectangle that is not empty has room between its edges.
pub x-lt-right : (r : Rect) → IsSound r → is_empty r ≡ false → r.x <ℤ right r
x-lt-right r s e = ground (arith, right-exact r s, +ℤ_parts r.x (pos r.w))

pub y-lt-bottom : (r : Rect) → IsSound r → is_empty r ≡ false → r.y <ℤ bottom r
y-lt-bottom r s e = ground (arith, bottom-exact r s, +ℤ_parts r.y (pos r.h))

pub sound_x : (r : Rect) → IsSound r → IsI32 r.x
sound_x r s = omega (arith, s.x_min, s.x_max, +ℤ_parts r.x (pos r.w))

pub sound_y : (r : Rect) → IsSound r → IsI32 r.y
sound_y r s = omega (arith, s.y_min, s.y_max, +ℤ_parts r.y (pos r.h))

-- One coordinate at a time.
module _ {F : Type 0} ⦃fl : Floats F⦄ (laws : FloatLaws fl) where
  clamp_in-between :
      (v lo hi : F)
      → NotNan v
      → f_le lo hi ≡ true
      → (f_le lo (clamp_in v lo hi) ≡ true) × (f_le (clamp_in v lo hi) hi ≡ true)
  clamp_in-between v lo hi hv h = ground (
    arith,
    laws.not_nan_left lo hi h,
    laws.not_nan_right lo hi h,
    laws.le_of_not_lt v lo,
    laws.le_of_not_lt hi v,
  )

  clamp_axis :
      (v : F) (a b : ℤ)
      → NotNan v
      → IsI32 a
      → IsI32 b
      → a <ℤ b
      → (q : F) × (f_clamp v (of_int a) (f_sub (of_int b) f_nudge) ≡ some q)
        × (f_le (of_int a) q ≡ true)
        × (f_lt q (of_int b) ≡ true)
  clamp_axis v a b hv ha hb lt =
      let ordered = laws.nudge_inside a b ha hb lt in
      let (low, high) = clamp_in-between v (of_int a) (f_sub (of_int b) f_nudge) hv ordered in
      (
        clamp_in v (of_int a) (f_sub (of_int b) f_nudge),
        rw ordered,
        low,
        laws.le_lt_trans _ _ _ high (laws.nudge_below b hb),
      )

  -- Clamping to a sound rectangle that is not empty does not panic, and it gives a point that the
  -- rectangle contains, for every point without a NaN coordinate.
  pub clamp-contains :
      (r : Rect) (p : Point F)
      → IsSound r
      → is_empty r ≡ false
      → NotNan p.x
      → NotNan p.y
      → (q : Point F) × (clamp r p ≡ some q) × (contains r q ≡ true)
  unfolding clamp contains
  clamp-contains r p s e hx hy =
      let (x, ex, x_low, x_high) =
        clamp_axis p.x r.x (right r) hx (sound_x r s) (right-bounds r (sound_x r s)).0
          (x-lt-right r s e) in
      let (y, ey, y_low, y_high) =
        clamp_axis p.y r.y (bottom r) hy (sound_y r s) (bottom-bounds r (sound_y r s)).0
          (y-lt-bottom r s e) in
      (record { x = x; y = y }, rw (e, ex, ey), rw (x_low, x_high, y_low, y_high))

  -- A rectangle at the far end of the coordinate range is not empty, yet its right edge saturates
  -- onto its left one: clamping any point to it panics.
  pub clamp_panics :
      (r : Rect) (p : Point F) → r.x ≡ i32_max → is_empty r ≡ false → clamp r p ≡ none
  unfolding clamp right
  clamp_panics r p far e = ground (
    arith,
    +ℤ_parts r.x (pos r.w),
    laws.lt_not_le _ _ (laws.nudge_below r.x (rw far (omega arith))),
  )
