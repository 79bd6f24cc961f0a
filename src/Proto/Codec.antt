-- ===== src/Proto/Codec.antt =====
-- crates/wx-proto/src/codec.rs: length-prefixed frames on a byte stream. Bytes are numbers; the
-- serialiser (postcard) is a parameter, a function that may fail.
pub mod Pending
pub mod Stream
use win_xtend.Prelude.{
  ℕ, zero, suc, ◌+◌, ◌-◌, ◌*◌, ◌/◌, ◌%◌, ◌^◌, Option, none, some, List, [], ◌∷◌, ◌++◌, Bool, ltb,
  leb, ◌==◌, if◌then◌else◌, length, take, drop,
}

abbrev pub max_frame_len : ℕ
max_frame_len = 32 * 1024 * 1024

abbrev pub len_prefix : ℕ
len_prefix = 4

pub data CodecError : Type 0 where
  serialize deserialize : CodecError
  frame_too_large : ℕ → ℕ → CodecError

-- `Result<A, CodecError>`.
pub data Result {ℓ} (A : Type ℓ) : Type ℓ where
  ok : A → Result A
  err : CodecError → Result A

-- `u32::to_le_bytes` and `u32::from_le_bytes` on the first four bytes of a slice. The last clause
-- is never reached: the caller has at least four bytes.
unfoldable pub to_le_bytes : ℕ → List ℕ
to_le_bytes n = n % 256 ∷ n / 256 % 256 ∷ n / 65536 % 256 ∷ n / 16777216 % 256 ∷ []

unfoldable pub from_le_bytes : List ℕ → ℕ
from_le_bytes (a ∷ b ∷ c ∷ d ∷ rest) = a + b * 256 + c * 65536 + d * 16777216
from_le_bytes _ = 0

module _ {ℓ} {T : Type ℓ} (to_allocvec : T → Option (List ℕ)) where
  unfoldable pub encode_frame : T → Result (List ℕ)
  encode_frame msg = elim (to_allocvec msg) [
    | none ↦ err serialize
    | some payload ↦
        if ltb max_frame_len (length payload)
        then err (frame_too_large (length payload) max_frame_len)
        else ok (to_le_bytes (length payload % 2 ^ 32) ++ payload)
  ]

module _ {ℓ} {T : Type ℓ} (from_bytes : List ℕ → Option T) where
  unfoldable pub decode : List ℕ → Result T
  decode bytes = elim (from_bytes bytes) [ none ↦ err deserialize | some msg ↦ ok msg ]

pub record FrameReader : Type 0 where
  pub buf : List ℕ
  pub consumed : ℕ

unfoldable pub new : FrameReader
new = record { buf = []; consumed = 0 }

abbrev pub threshold : ℕ
threshold = 8 * 1024

unfoldable pub compact_if_worthwhile : FrameReader → FrameReader
compact_if_worthwhile r =
    if r.consumed == 0
    then r
    else if leb (length r.buf) r.consumed
    then record { buf = []; consumed = 0 }
    else if leb threshold r.consumed
    then record { buf = drop r.consumed r.buf; consumed = 0 }
    else r

unfoldable pub push : FrameReader → List ℕ → FrameReader
push r bytes = let c = compact_if_worthwhile r in record c { buf = c.buf ++ bytes }

-- The tests of `next_frame` on the unread bytes `available`.
abbrev advance : FrameReader → List ℕ → ℕ → FrameReader × Result (Option (List ℕ))
advance r available len =
    if ltb max_frame_len len
    then (r, err (frame_too_large len max_frame_len))
    else if ltb (length available) (len_prefix + len)
    then (r, ok none)
    else (
      record r { consumed = r.consumed + (len_prefix + len) },
      ok (some (take len (drop len_prefix available))),
    )

unfoldable pub next_frame : FrameReader → FrameReader × Result (Option (List ℕ))
next_frame r =
    let available = drop r.consumed r.buf in
    if ltb (length available) len_prefix
    then (r, ok none)
    else advance r available (from_le_bytes available)

module _ {ℓ} {T : Type ℓ} (from_bytes : List ℕ → Option T) where
  -- `decode(&bytes).map(Some)`, and the `?` on the frame's error.
  decoded : Result (Option (List ℕ)) → Result (Option T)
  unfolding decode
  decoded (err e) = err e
  decoded (ok none) = ok none
  decoded (ok (some bytes)) = elim (decode from_bytes bytes) [
    | ok msg ↦ ok (some msg)
    | err e ↦ err e
  ]

  unfoldable pub next_message : FrameReader → FrameReader × Result (Option T)
  unfolding decoded
  next_message r = let (r', frame) = next_frame r in (r', decoded frame)

unfoldable pub pending_len : FrameReader → ℕ
pending_len r = length r.buf - r.consumed

-- How a receive loop ended: waiting for bytes, on a terminal error, or with its fuel used up.
pub data Ended : Type 0 where
  waiting : Ended
  failed : CodecError → Ended
  out_of_fuel : Ended

module _ {ℓ} {T : Type ℓ} (from_bytes : List ℕ → Option T) where
  -- crates/wx-net/src/transport.rs: the inner loop of `read_control` and `read_reliable_input`,
  -- which hands on every complete message. The task that takes them stays alive.
  unfoldable pub drain : ℕ → FrameReader → FrameReader × List T × Ended
  drain zero r = (r, [], out_of_fuel)
  drain (suc fuel) r =
      let more = drain fuel (next_message from_bytes r).0 in
      elim (next_message from_bytes r).1 [
        | err e ↦ ((next_message from_bytes r).0, [], failed e)
        | ok none ↦ ((next_message from_bytes r).0, [], waiting)
        | ok (some msg) ↦ (more.0, msg ∷ more.1, more.2)
      ]

  -- The outer loop of the same tasks, over the chunks that the reads return until the stream ends.
  unfoldable pub read_control : List (List ℕ) → FrameReader → FrameReader × List T × Ended
  read_control [] r = (r, [], waiting)
  read_control (chunk ∷ chunks) r =
      let full = push r chunk in
      let step = drain (suc (pending_len full)) full in
      let more = read_control chunks step.0 in
      elim step.2 [
        | waiting ↦ (more.0, step.1 ++ more.1, more.2)
        | failed e ↦ step
        | out_of_fuel ↦ step
      ]
