-- ===== src/Video/Frame.antt =====
-- crates/wx-video/src/capture.rs: RawFrame, a captured picture. Pixels are bytes as numbers; a `usize`
-- has 64 bits; a time is a number of nanoseconds.
pub mod Rows
use win_xtend.Prelude.{
  ℕ, zero, suc, ◌+◌, ◌-◌, ◌*◌, ◌%◌, ◌^◌, ◌≤◌, ◌<◌, ◌≡◌, Bool, true, false, ◌&&◌, ◌==◌, ltb, leb,
  if◌then◌else◌, Option, none, some, ◌>>=◌, List, [], ◌∷◌, ◌++◌, length, take, drop, concat, min,
  max,
}
use win_xtend.Prelude.Results.{Result, ok, err}
use win_xtend.Proto.Ids.{MonitorId}
use win_xtend.Proto.Geom.{Rect, is_empty}

abbrev pub bytes_per_pixel : ℕ
bytes_per_pixel = 4

abbrev pub max_frame_pixels : ℕ
max_frame_pixels = 8192 * 8192

abbrev pub max_fps : ℕ
max_fps = 240

abbrev pub usize_count : ℕ
usize_count = 2 ^ 64

pub data FrameError : Type 0 where
  empty : ℕ → ℕ → FrameError
  stride_too_small : ℕ → ℕ → ℕ → FrameError
  buffer_too_small : ℕ → ℕ → ℕ → ℕ → ℕ → FrameError
  too_large : ℕ → ℕ → ℕ → FrameError

pub record RawFrame : Type 0 where
  pub width : ℕ
  pub height : ℕ
  pub stride : ℕ
  pub pixels : List ℕ
  pub timestamp : ℕ

abbrev pub row_bytes : ℕ → ℕ
row_bytes width = width * bytes_per_pixel

-- `checked_mul` and then `checked_add`: `none` when the sum does not fit.
unfoldable pub bytes_needed : ℕ → ℕ → ℕ → Option ℕ
bytes_needed stride height row =
    let n = stride * (height - 1) in
    if leb usize_count n then none else if leb usize_count (n + row) then none else some (n + row)

unfoldable pub new_frame : ℕ → ℕ → ℕ → List ℕ → ℕ → Result FrameError RawFrame
new_frame width height stride pixels timestamp =
    if width == 0
    then err (empty width height)
    else if height == 0
    then err (empty width height)
    else if ltb max_frame_pixels (width * height)
    then err (too_large width height max_frame_pixels)
    else if ltb stride (row_bytes width)
    then err (stride_too_small stride width (row_bytes width))
    else (elim (bytes_needed stride height (row_bytes width)) [
      | none ↦ err (too_large width height max_frame_pixels)
      | some needed ↦
          if ltb (length pixels) needed
          then err (buffer_too_small (length pixels) needed width height stride)
          else ok (record {
            width = width;
            height = height;
            stride = stride;
            pixels = pixels;
            timestamp = timestamp;
          })
    ])

unfoldable pub packed : ℕ → ℕ → List ℕ → ℕ → Result FrameError RawFrame
unfolding new_frame
packed width height pixels timestamp = new_frame width height (row_bytes width) pixels timestamp

-- `&bytes[start..start + count]`, which panics past the end.
unfoldable pub slice : List ℕ → ℕ → ℕ → Option (List ℕ)
slice bytes start count =
    if leb (start + count) (length bytes) then some (take count (drop start bytes)) else none

unfoldable pub row : RawFrame → ℕ → Option (Option (List ℕ))
unfolding slice
row f y = if leb f.height y then some none else (do
  bytes ← slice f.pixels (f.stride * y % usize_count) (row_bytes f.width)
  some (some bytes))

-- `(0..height).map(|y| self.row(y).expect("y < height"))`, with `count` rows to come from `y` on.
unfoldable pub rows_from : RawFrame → ℕ → ℕ → Option (List (List ℕ))
unfolding row
rows_from f zero y = some []
rows_from f (suc count) y = do
  at_y ← row f y
  bytes ← at_y
  rest ← rows_from f count (y + 1)
  some (bytes ∷ rest)

unfoldable pub rows : RawFrame → Option (List (List ℕ))
unfolding rows_from
rows f = rows_from f f.height 0

unfoldable pub packed_len : RawFrame → ℕ
packed_len f = f.width * bytes_per_pixel * f.height

unfoldable pub is_packed : RawFrame → Bool
unfolding packed_len
is_packed f = f.stride == row_bytes f.width && length f.pixels == packed_len f

unfoldable pub to_packed_bytes : RawFrame → Option (List ℕ)
unfolding is_packed rows
to_packed_bytes f = if is_packed f then some f.pixels else (do all ← rows f; some (concat all))

unfoldable pub into_packed_bytes : RawFrame → Option (List ℕ)
unfolding is_packed to_packed_bytes
into_packed_bytes f = if is_packed f then some f.pixels else to_packed_bytes f

pub record CaptureTarget : Type 0 where
  pub monitor : MonitorId
  pub bounds : Rect

pub record CaptureConfig : Type 0 where
  pub target : CaptureTarget
  pub max_fps : ℕ

-- `Ord::clamp` to 1..=240.
unfoldable pub clamp_fps : ℕ → ℕ
clamp_fps fps = max 1 (min fps max_fps)

unfoldable pub new_config : MonitorId → Rect → ℕ → CaptureConfig
unfolding clamp_fps
new_config monitor bounds fps = record {
  target = record { monitor = monitor; bounds = bounds };
  max_fps = clamp_fps fps;
}

pub data CaptureError : Type 0 where
  unsupported permission_denied : List ℕ → CaptureError
  target_lost : CaptureError
  empty_target : Rect → CaptureError
  frame_error : FrameError → CaptureError
  os : List ℕ → List ℕ → CaptureError

-- `open` behind the backend of the platform, which is a parameter.
unfoldable pub open_capture :
    {S : Type 0} → (CaptureConfig → Result CaptureError S) → CaptureConfig → Result CaptureError S
open_capture platform_open config =
    if is_empty config.target.bounds
    then err (empty_target config.target.bounds)
    else platform_open config
