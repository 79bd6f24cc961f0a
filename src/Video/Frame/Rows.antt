-- ===== src/Video/Frame/Rows.antt =====
-- capture.rs: the rows of a frame that `RawFrame::new` made.
use win_xtend.Prelude.{
  ℕ, zero, suc, ◌+◌, ◌-◌, ◌*◌, ◌%◌, ◌≤◌, ◌<◌, ◌≡◌, refl, inl, inr, arith, Bool-cases, some, List,
  [], ◌∷◌, length, length-append, take, drop, length-take, length-drop, ◌∙◌, leb, true, false,
  concat, ap, drop-drop, take-append-drop, ◌++◌, sym,
}
use native.Mathlib.Nat.{mul-suc}
use win_xtend.Prelude.Results.{ok}
use win_xtend.Video.Frame.{
  RawFrame, new_frame, bytes_needed, row_bytes, max_frame_pixels, usize_count, slice, row,
  rows_from, rows, is_packed, packed_len, to_packed_bytes,
}

-- What `RawFrame::new` checks.
pub record IsFrame (f : RawFrame) : Type 0 where
  pub wide : 0 < f.width
  pub high : 0 < f.height
  pub bounded : f.width * f.height ≤ max_frame_pixels
  pub strided : row_bytes f.width ≤ f.stride
  pub fits : f.stride * (f.height - 1) + row_bytes f.width < usize_count
  pub filled : f.stride * (f.height - 1) + row_bytes f.width ≤ length f.pixels

pub new_frame-IsFrame :
    (width height stride : ℕ) (pixels : List ℕ) (timestamp : ℕ) (f : RawFrame)
    → new_frame width height stride pixels timestamp ≡ ok f
    → IsFrame f
unfolding new_frame bytes_needed
new_frame-IsFrame width height stride pixels timestamp f h = ground arith

-- The bytes of one row lie in the buffer.
row_end :
    (f : RawFrame) (y : ℕ)
    → IsFrame f
    → y < f.height
    → f.stride * y + row_bytes f.width ≤ f.stride * (f.height - 1) + row_bytes f.width
row_end f y v h = grind arith

slice_lem :
    (bytes : List ℕ) (start count : ℕ)
    → start + count ≤ length bytes
    → (out : List ℕ) × (slice bytes start count ≡ some out) × (length out ≡ count)
unfolding slice
slice_lem bytes start count h = (
  take count (drop start bytes),
  ground arith,
  omega (arith, length-take count (drop start bytes), length-drop start bytes),
)

row_lem :
    (f : RawFrame) (y : ℕ)
    → IsFrame f
    → y < f.height
    → (out : List ℕ) × (row f y ≡ some (some out)) × (length out ≡ row_bytes f.width)
unfolding row
row_lem f y v h =
    let inside = row_end f y v h in
    let (out, e, n) =
      slice_lem f.pixels (f.stride * y % usize_count) (row_bytes f.width) (omega (arith, inside)) in
    (out, ground (arith, e), n)

rows_from_lem :
    (f : RawFrame) (count y : ℕ)
    → IsFrame f
    → y + count ≤ f.height
    → (all : List (List ℕ)) × (rows_from f count y ≡ some all)
      × (length (concat all) ≡ count * row_bytes f.width)
unfolding rows_from
rows_from_lem f zero y v h = ([], refl, omega arith)
rows_from_lem f (suc count) y v h =
    let (out, e, n) = row_lem f y v (omega arith) in
    let (all, e', n') = rows_from_lem f count (y + 1) v (omega arith) in
    (out ∷ all, rw (e, e') refl, length-append out (concat all) ∙ grind (arith, n, n'))

-- The picture in a buffer: of every `stride` bytes the first `width`, `height` times.
abbrev pub crop : ℕ → ℕ → ℕ → List ℕ → List ℕ
crop zero width stride bytes = []
crop (suc height) width stride bytes =
    take width bytes ++ crop height width stride (drop stride bytes)

-- A buffer without padding is its own picture.
crop_all :
    (height width : ℕ) (bytes : List ℕ)
    → length bytes ≡ width * height
    → crop height width width bytes ≡ bytes
crop_all zero width [] h = refl
crop_all zero width (b ∷ bytes) h = absurd (omega arith)
crop_all (suc height) width bytes h =
    ap (λ t. take width bytes ++ t)
      (crop_all height width (drop width bytes)
        (length-drop width bytes ∙ omega (arith, mul-suc width height)))
    ∙ take-append-drop width bytes

row_bytes_at :
    (f : RawFrame) (y : ℕ)
    → IsFrame f
    → y < f.height
    → row f y ≡ some (some (take (row_bytes f.width) (drop (f.stride * y) f.pixels)))
unfolding row slice
row_bytes_at f y v h =
    let inside = row_end f y v h in
    let start : f.stride * y % usize_count ≡ f.stride * y = omega (arith, inside, v.fits) in
    let low : leb f.height y ≡ false = ground (arith, h) in
    let fits : leb (f.stride * y + row_bytes f.width) (length f.pixels) ≡ true =
      ground (arith, inside, v.filled) in
    rw (row, low, start, fits) refl

rows_from-crop :
    (f : RawFrame) (count y : ℕ)
    → IsFrame f
    → y + count ≤ f.height
    → (all : List (List ℕ)) × (rows_from f count y ≡ some all)
      × (concat all ≡ crop count (row_bytes f.width) f.stride (drop (f.stride * y) f.pixels))
unfolding rows_from
rows_from-crop f zero y v h = ([], refl, refl)
rows_from-crop f (suc count) y v h =
    let bytes = take (row_bytes f.width) (drop (f.stride * y) f.pixels) in
    let (all, e', n') = rows_from-crop f count (y + 1) v (omega arith) in
    (
      bytes ∷ all,
      rw (row_bytes_at f y v (omega arith), e') refl,
      ap (λ t. bytes ++ t)
          (n'
            ∙ ap (crop count (row_bytes f.width) f.stride) (
                ap (λ k. drop k f.pixels) (omega (arith, mul-suc f.stride y))
                ∙ drop-drop (f.stride * y) f.stride f.pixels)),
    )

packed_parts :
    (f : RawFrame)
    → is_packed f ≡ true
    → (f.stride ≡ row_bytes f.width) × (length f.pixels ≡ row_bytes f.width * f.height)
unfolding is_packed packed_len
packed_parts f e = (ground (arith, e), ground (arith, e))

abbrev pub picture : RawFrame → List ℕ
picture f = crop f.height (row_bytes f.width) f.stride f.pixels

pub to_packed_bytes-picture : (f : RawFrame) → IsFrame f → to_packed_bytes f ≡ some (picture f)
unfolding to_packed_bytes rows
to_packed_bytes-picture f v = elim (Bool-cases (is_packed f)) [
  | inl e ↦
      let (tight, whole) = packed_parts f e in
      rw e (
        ap some (
          sym (
            ap (λ k. crop f.height (row_bytes f.width) k f.pixels) tight
            ∙ crop_all f.height (row_bytes f.width) f.pixels whole)))
  | inr e ↦
      let (all, e', n) = rows_from-crop f f.height 0 v (omega arith) in
      let start : f.stride * 0 ≡ 0 = omega arith in
      rw (e, e')
        (ap some (n ∙ ap (λ k. crop f.height (row_bytes f.width) f.stride (drop k f.pixels)) start))
]

-- Packing a frame does not panic, and gives as many bytes as the picture has.
pub to_packed_bytes_lem :
    (f : RawFrame)
    → IsFrame f
    → (bytes : List ℕ) × (to_packed_bytes f ≡ some bytes) × (length bytes ≡ packed_len f)
unfolding to_packed_bytes rows
to_packed_bytes_lem f v = elim (Bool-cases (is_packed f)) [
  | inl e ↦ (f.pixels, rw e refl, unfold is_packed packed_len in ground (arith, e))
  | inr e ↦
      let (all, e', n) = rows_from_lem f f.height 0 v (omega arith) in
      (concat all, rw (e, e') refl, unfold packed_len in (n ∙ grind arith))
]
