-- ===== src/Video/Packet.antt =====
-- crates/wx-video/src/encode.rs: packets of the passthrough stream. The functions of zstd are a
-- parameter, with the build's switch for it; what they say of a failure is text.
pub mod Header
pub mod Bounds
pub mod Passthrough
use win_xtend.Prelude.{
  ℕ, zero, suc, ◌+◌, ◌*◌, ◌/◌, ◌%◌, ◌^◌, ◌-◌, ◌≡◌, Bool, true, false, not, ◌==◌, ltb, if◌then◌else◌,
  Option, none, some, List, [], ◌∷◌, ◌++◌, length, take, drop, get_or, min, bit_and,
}
use win_xtend.Prelude.Results.{Result, ok, err, map_err, ok_or, ◌>>=◌}
use win_xtend.Prelude.Int.{ℤ, pos}
use win_xtend.Net.Control.{Text, VideoCodec}
use win_xtend.Agent.Clipboard.{Compression, uncompressed, zstd}
use win_xtend.Video.Frame.{
  FrameError, empty, too_large, RawFrame, max_frame_pixels, bytes_per_pixel, packed,
  to_packed_bytes,
}

-- `*b"WXV1"`
abbrev pub magic : List ℕ
magic = 87 ∷ 88 ∷ 86 ∷ 49 ∷ []

abbrev pub header_len : ℕ
header_len = 24

pub data PayloadFormat : Type 0 where
  raw_bgra zstd_bgra : PayloadFormat

abbrev pub format_to_u8 : PayloadFormat → ℕ
format_to_u8 raw_bgra = 0
format_to_u8 zstd_bgra = 1

abbrev pub format_from_u8 : ℕ → Option PayloadFormat
format_from_u8 v = if v == 0 then some raw_bgra else if v == 1 then some zstd_bgra else none

unfoldable pub format_compression : PayloadFormat → Compression
format_compression raw_bgra = uncompressed
format_compression zstd_bgra = zstd

abbrev pub for_compression : Compression → PayloadFormat
for_compression uncompressed = raw_bgra
for_compression zstd = zstd_bgra

pub record PacketHeader : Type 0 where
  pub format : PayloadFormat
  pub keyframe : Bool
  pub width : ℕ
  pub height : ℕ
  pub timestamp : ℕ

-- `to_le_bytes` of a number of `count` bytes, and `from_le_bytes`.
abbrev pub le_bytes : ℕ → ℕ → List ℕ
le_bytes zero v = []
le_bytes (suc count) v = (v % 256) ∷ le_bytes count (v / 256)

abbrev pub from_le_bytes : List ℕ → ℕ
from_le_bytes [] = 0
from_le_bytes (b ∷ bytes) = b + 256 * from_le_bytes bytes

abbrev pub field_at : List ℕ → ℕ → ℕ → ℕ
field_at bytes start count = from_le_bytes (take count (drop start bytes))

-- `as_micros`, held to what a `u64` has.
unfoldable pub micros : ℕ → ℕ
micros timestamp = min (timestamp / 1000) (2 ^ 64 - 1)

unfoldable pub write_to : PacketHeader → List ℕ → List ℕ
unfolding micros
write_to h out =
    out
    ++ (magic
        ++ (format_to_u8 h.format
            ∷ (if h.keyframe then 1 else 0)
            ∷ (le_bytes 2 0
                ++ (le_bytes 4 h.width
                    ++ (le_bytes 4 h.height ++ le_bytes 8 (micros h.timestamp))))))

pub data DecodeError : Type 0 where
  truncated : ℕ → ℕ → DecodeError
  bad_magic : DecodeError
  unknown_format : ℕ → DecodeError
  payload_size : ℕ → ℕ → DecodeError
  geometry : FrameError → DecodeError
  compression_unavailable : Compression → DecodeError
  decompress : Text → DecodeError

abbrev pub same_bytes : List ℕ → List ℕ → Bool
same_bytes [] [] = true
same_bytes (a ∷ xs) (b ∷ ys) = let rest = same_bytes xs ys in if a == b then rest else false
same_bytes xs ys = false

-- The header of the fields that were read, if it describes a frame.
unfoldable pub checked_header : PayloadFormat → Bool → ℕ → ℕ → ℕ → Result DecodeError PacketHeader
checked_header format keyframe width height time =
    if width == 0
    then err (geometry (empty width height))
    else if height == 0
    then err (geometry (empty width height))
    else if ltb max_frame_pixels (width * height)
    then err (geometry (too_large width height max_frame_pixels))
    else ok (record {
      format = format;
      keyframe = keyframe;
      width = width;
      height = height;
      timestamp = time * 1000;
    })

-- The bytes that are indexed are there once the length has been checked.
unfoldable pub parse : List ℕ → Result DecodeError PacketHeader
unfolding checked_header
parse bytes =
    if ltb (length bytes) header_len
    then err (truncated (length bytes) header_len)
    else if not (same_bytes (take 4 bytes) magic)
    then err bad_magic
    else (do
      format ← ok_or (unknown_format (get_or bytes 4 0)) (format_from_u8 (get_or bytes 4 0))
      checked_header format (not (bit_and (get_or bytes 5 0) 1 == 0)) (field_at bytes 8 4)
          (field_at bytes 12 4) (field_at bytes 16 8))

abbrev pub header_packed_len : PacketHeader → ℕ
header_packed_len h = h.width * bytes_per_pixel * h.height

pub record EncodedPacket : Type 0 where
  pub width : ℕ
  pub height : ℕ
  pub timestamp : ℕ
  pub keyframe : Bool
  pub bytes : List ℕ

pub data EncodeError : Type 0 where
  frame_geometry : FrameError → EncodeError
  unavailable : Compression → EncodeError
  no_implementation : VideoCodec → EncodeError
  backend : Text → EncodeError

-- `zstd::bulk` and the feature that compiles it in. `decompress` has its ceiling.
pub record Zstd : Type 0 where
  pub available : Bool
  pub bulk_compress : List ℕ → ℤ → Result Text (List ℕ)
  pub bulk_decompress : List ℕ → ℕ → Result Text (List ℕ)

pub record PassthroughEncoder : Type 0 where
  pub compression : Compression
  pub level : ℤ

abbrev pub header_of : PassthroughEncoder → RawFrame → PacketHeader
header_of e f = record {
  format = for_compression e.compression;
  keyframe = true;
  width = f.width;
  height = f.height;
  timestamp = f.timestamp;
}

abbrev pub sized : ℕ → List ℕ → Result DecodeError (List ℕ)
sized expected out =
    if length out == expected then ok out else err (payload_size (length out) expected)

module _ (z : Zstd) where
  unfoldable pub compress_zstd : List ℕ → ℤ → Result EncodeError (List ℕ)
  compress_zstd bytes level =
      if z.available then map_err backend (z.bulk_compress bytes level) else err (unavailable zstd)

  unfoldable pub decompress_zstd : List ℕ → ℕ → Result DecodeError (List ℕ)
  decompress_zstd bytes capacity =
      if z.available
      then map_err decompress (z.bulk_decompress bytes capacity)
      else err (compression_unavailable zstd)

  unfoldable pub new_encoder : Compression → Result EncodeError PassthroughEncoder
  new_encoder uncompressed = ok (record { compression = uncompressed; level = pos 1 })
  new_encoder zstd =
      if z.available
      then ok (record { compression = zstd; level = pos 1 })
      else err (unavailable zstd)

  abbrev pub payload_of : PassthroughEncoder → List ℕ → Result EncodeError (List ℕ)
  payload_of e bytes = elim e.compression [
    | uncompressed ↦ ok bytes
    | zstd ↦ compress_zstd bytes e.level
  ]

  -- `none` is a panic in `to_packed_bytes`.
  unfoldable pub encode :
      PassthroughEncoder → RawFrame → Option (Result EncodeError (Option EncodedPacket))
  unfolding compress_zstd write_to
  encode e f = elim (to_packed_bytes f) [
    | none ↦ none
    | some bytes ↦ some (do
      payload ← payload_of e bytes
      ok (
          some (record {
            width = f.width;
            height = f.height;
            timestamp = f.timestamp;
            keyframe = true;
            bytes = write_to (header_of e f) [] ++ payload;
          })))
  ]

  abbrev pub pixels_of : PayloadFormat → List ℕ → ℕ → Result DecodeError (List ℕ)
  pixels_of raw_bgra payload expected = sized expected payload
  pixels_of zstd_bgra payload expected = do
    out ← decompress_zstd payload expected
    sized expected out

  unfoldable pub decode_packet : List ℕ → Result DecodeError RawFrame
  unfolding parse decompress_zstd
  decode_packet packet = do
    header ← parse packet
    pixels ← pixels_of header.format (drop header_len packet) (header_packed_len header)
    map_err geometry (packed header.width header.height pixels header.timestamp)
