-- ===== src/Video/Packet/Header.antt =====
-- encode.rs: the header as bytes and back.
use win_xtend.Prelude.{
  ℕ, ◌*◌, ◌^◌, ◌≤◌, ◌<◌, ◌≡◌, refl, ◌∙◌, Bool, true, false, not, ◌==◌, ltb, arith, Option, none,
  some, List, [], ◌++◌, length, take, get_or, bit_and, if◌then◌else◌,
}
use win_xtend.Prelude.Results.{Result, ok, err, ok_or, ◌>>=◌}
use native.Mathlib.Nat.{mul_comm}
use win_xtend.Video.Frame.{max_frame_pixels}
use win_xtend.Video.Packet.{
  PayloadFormat, format_to_u8, format_from_u8, unknown_format, raw_bgra, zstd_bgra, PacketHeader,
  write_to, parse, checked_header, micros, le_bytes, from_le_bytes, DecodeError, header_len, magic,
  truncated, bad_magic, field_at, same_bytes,
}

u32_bytes : (v : ℕ) → v < 2 ^ 32 → from_le_bytes (le_bytes 4 v) ≡ v
u32_bytes v h = omega arith

u64_bytes : (v : ℕ) → v < 2 ^ 64 → from_le_bytes (le_bytes 8 v) ≡ v
u64_bytes v h = omega arith

micros-lt : (t : ℕ) → micros t < 2 ^ 64
unfolding micros
micros-lt t = omega arith

flag : (b : Bool) → not (bit_and (if b then 1 else 0) 1 == 0) ≡ b
flag true = refl
flag false = refl

long : (h : PacketHeader) (rest : List ℕ) → ltb (length (write_to h [] ++ rest)) header_len ≡ false
unfolding write_to
long h rest = ground arith

-- What `parse` reads from a header that was written, by its format byte.
read_format :
    (format : PayloadFormat) (keyframe : Bool) (width height time : ℕ)
    → width < 2 ^ 32
    → height < 2 ^ 32
    → time < 2 ^ 64
    → (do
      f ←
          ok_or {E = DecodeError}
            (unknown_format (format_to_u8 format))
            (format_from_u8 (format_to_u8 format))
      checked_header f
          (not (bit_and (if keyframe then 1 else 0) 1 == 0))
          (from_le_bytes (le_bytes 4 width))
          (from_le_bytes (le_bytes 4 height))
          (from_le_bytes (le_bytes 8 time)))
      ≡ checked_header format keyframe width height time
read_format raw_bgra keyframe width height time w h t =
    rw (flag keyframe, u32_bytes width w, u32_bytes height h, u64_bytes time t) refl
read_format zstd_bgra keyframe width height time w h t =
    rw (flag keyframe, u32_bytes width w, u32_bytes height h, u64_bytes time t) refl

pub parse-write_to_fields :
    (h : PacketHeader) (rest : List ℕ)
    → h.width < 2 ^ 32
    → h.height < 2 ^ 32
    → parse (write_to h [] ++ rest)
      ≡ checked_header h.format h.keyframe h.width h.height (micros h.timestamp)
unfolding write_to parse
parse-write_to_fields h rest wide high = rw (long h rest) (
    read_format h.format h.keyframe h.width h.height (micros h.timestamp) wide high
      (micros-lt h.timestamp))

-- What is checked of a header's geometry.
pub record IsHeader (h : PacketHeader) : Type 0 where
  pub wide : 0 < h.width
  pub high : 0 < h.height
  pub bounded : h.width * h.height ≤ max_frame_pixels

pub narrow : (a b : ℕ) → 0 < b → a * b ≤ max_frame_pixels → a < 2 ^ 32
narrow a b p h = grind arith

pub checked_header_lem :
    (h : PacketHeader) (time : ℕ)
    → IsHeader h
    → checked_header h.format h.keyframe h.width h.height time
      ≡ ok (record h { timestamp = time * 1000 })
unfolding checked_header
checked_header_lem h time v = ground arith

-- A header that describes a frame is read back from its bytes, whatever follows them: the same but
-- for the time, which is cut to whole microseconds and held to 2^64 - 1 of them.
pub parse-write_to :
    (h : PacketHeader) (rest : List ℕ)
    → IsHeader h
    → parse (write_to h [] ++ rest) ≡ ok (record h { timestamp = micros h.timestamp * 1000 })
parse-write_to h rest v =
    parse-write_to_fields h rest (narrow h.width h.height v.high v.bounded)
      (narrow h.height h.width v.wide (omega (arith, mul_comm h.width h.height, v.bounded)))
    ∙ checked_header_lem h (micros h.timestamp) v

checked_header-IsHeader :
    (format : PayloadFormat) (keyframe : Bool) (width height time : ℕ) (h : PacketHeader)
    → checked_header format keyframe width height time ≡ ok h
    → IsHeader h
unfolding checked_header
checked_header-IsHeader format keyframe width height time h e = ground arith

-- A result that passed both guards and found a format came from the last step.
past_guards :
    {A : Type 0} (short bad : Bool) (found : Option PayloadFormat) (x y w : DecodeError)
    (step : PayloadFormat → Result DecodeError A) (a : A)
    → (if short then err x else if bad then err y else (ok_or w found >>= step)) ≡ ok a
    → (f : PayloadFormat) × (step f ≡ ok a)
past_guards true bad found x y w step a e = absurd (ground (arith, e))
past_guards false true found x y w step a e = absurd (ground (arith, e))
past_guards false false none x y w step a e = absurd (ground (arith, e))
past_guards false false (some f) x y w step a e = (f, e)

-- Whatever `parse` accepts describes a frame.
pub parse-IsHeader : (bytes : List ℕ) (h : PacketHeader) → parse bytes ≡ ok h → IsHeader h
unfolding parse
parse-IsHeader bytes h e =
    checked_header-IsHeader _ (not (bit_and (get_or bytes 5 0) 1 == 0)) (field_at bytes 8 4)
      (field_at bytes 12 4) (field_at bytes 16 8) h
      (past_guards (ltb (length bytes) header_len) (not (same_bytes (take 4 bytes) magic))
        (format_from_u8 (get_or bytes 4 0)) (truncated (length bytes) header_len) bad_magic
        (unknown_format (get_or bytes 4 0))
        (λ x.
          checked_header x (not (bit_and (get_or bytes 5 0) 1 == 0)) (field_at bytes 8 4)
            (field_at bytes 12 4) (field_at bytes 16 8))
        h e).1
