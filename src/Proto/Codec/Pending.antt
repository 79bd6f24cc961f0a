-- ===== src/Proto/Codec/Pending.antt =====
-- The frame reader of codec.rs, seen as the bytes that it has not handed out yet: compaction and
-- the read offset are invisible there.
use win_xtend.Prelude.{
  ℕ, ◌+◌, ◌^◌, ◌≤◌, ◌<◌, ◌≡◌, refl, sym, ap, ◌∙◌, none, some, List, [], ◌∷◌, ◌++◌, length, take,
  drop, arith, length-drop, length-append, length-take, take-append-drop, ap₂, drop-append,
  drop_all, drop-drop, take-of_append_eq, drop-of_append_eq, All,
}
use mathlib.Core.List.{append_assoc}
use win_xtend.Proto.Codec.{
  FrameReader, ok, max_frame_len, to_le_bytes, from_le_bytes, new, compact_if_worthwhile, push,
  next_frame, pending_len,
}

unfoldable pub pending : FrameReader → List ℕ
pending r = drop r.consumed r.buf

-- The read offset lies in the buffer, so the slice `buf[consumed..]` does not panic.
pub record IsValid (r : FrameReader) : Type 0 where
  pub in_buffer : r.consumed ≤ length r.buf

pub new-IsValid : IsValid new
unfolding new
new-IsValid = omega arith

pub pending-new : pending new ≡ []
unfolding pending new
pending-new = refl

compact-IsValid : (r : FrameReader) → IsValid r → IsValid (compact_if_worthwhile r)
unfolding compact_if_worthwhile
compact-IsValid r v = ground arith

pending-compact : (r : FrameReader) → IsValid r → pending (compact_if_worthwhile r) ≡ pending r
unfolding pending compact_if_worthwhile
pending-compact r v = ground (arith, drop_all r.consumed r.buf)

pub pending-push :
    (r : FrameReader) (bytes : List ℕ)
    → IsValid r
    → (pending (push r bytes) ≡ pending r ++ bytes) × IsValid (push r bytes)
unfolding pending push
pending-push r bytes v =
    let c = compact_if_worthwhile r in
    let cv = compact-IsValid r v in
    (
      drop-append c.consumed c.buf bytes cv.in_buffer
          ∙ ap (λ t. t ++ bytes) (unfold pending in pending-compact r v),
      omega (arith, cv.in_buffer, length-append {0} c.buf bytes),
    )

pub length-pending : (r : FrameReader) → IsValid r → length (pending r) ≡ pending_len r
unfolding pending pending_len
length-pending r v = omega (arith, length-drop r.consumed r.buf)

-- A frame on the wire.
abbrev pub frame : List ℕ → List ℕ
frame payload = to_le_bytes (length payload) ++ payload

pub le_bytes_inverse :
    (n : ℕ) (rest : List ℕ) → n < 2 ^ 32 → from_le_bytes (to_le_bytes n ++ rest) ≡ n
unfolding to_le_bytes from_le_bytes
le_bytes_inverse n rest h = omega arith

length-to_le_bytes : (n : ℕ) → length (to_le_bytes n) ≡ 4
unfolding to_le_bytes
length-to_le_bytes n = refl

pub length-frame : (payload : List ℕ) → length (frame payload) ≡ 4 + length payload
length-frame payload =
    length-append (to_le_bytes (length payload)) payload
    ∙ ap (λ n. n + length payload) (length-to_le_bytes (length payload))

from_le_bytes-take : (xs : List ℕ) → 4 ≤ length xs → from_le_bytes xs ≡ from_le_bytes (take 4 xs)
unfolding from_le_bytes
from_le_bytes-take [] h = absurd (omega arith)
from_le_bytes-take (a ∷ []) h = absurd (omega arith)
from_le_bytes-take (a ∷ b ∷ []) h = absurd (omega arith)
from_le_bytes-take (a ∷ b ∷ c ∷ []) h = absurd (omega arith)
from_le_bytes-take (a ∷ b ∷ c ∷ d ∷ xs) h = refl

pub next_frame_empty : (r : FrameReader) → pending r ≡ [] → next_frame r ≡ (r, ok none)
unfolding next_frame pending
next_frame_empty r e = rw e

-- What `next_frame` does when the pending bytes begin a stream whose first frame holds `payload`.
module _ (r : FrameReader) (payload rest future : List ℕ) (v : IsValid r)
    (fits : length payload ≤ max_frame_len)
    (starts : pending r ++ future ≡ frame payload ++ rest) where
  bytes : pending r ++ future ≡ to_le_bytes (length payload) ++ (payload ++ rest)
  bytes = starts ∙ append_assoc (to_le_bytes (length payload)) payload rest

  header_fits : 4 ≤ length (pending r) → length (to_le_bytes (length payload)) ≤ length (pending r)
  header_fits h = omega (arith, length-to_le_bytes (length payload))

  header : 4 ≤ length (pending r) → from_le_bytes (pending r) ≡ length payload
  unfolding to_le_bytes
  header h =
      from_le_bytes-take (pending r) h
      ∙ ap from_le_bytes (take-of_append_eq _ _ _ _ bytes (header_fits h))
      ∙ le_bytes_inverse (length payload) [] (omega arith)

  body : 4 ≤ length (pending r) → drop 4 (pending r) ++ future ≡ payload ++ rest
  unfolding to_le_bytes
  body h = drop-of_append_eq (to_le_bytes (length payload)) _ _ _ bytes (header_fits h)

  pub next_frame_waits : length (pending r) < 4 + length payload → next_frame r ≡ (r, ok none)
  unfolding next_frame pending
  next_frame_waits h = ground (arith, header)

  whole : 4 + length payload ≤ length (pending r) → length payload ≤ length (drop 4 (pending r))
  whole h = omega (arith, length-drop 4 (pending r))

  taken :
      4 + length payload ≤ length (pending r) → take (length payload) (drop 4 (pending r)) ≡ payload
  taken h = take-of_append_eq _ _ _ _ (body (omega arith)) (whole h)

  after :
      4 + length payload ≤ length (pending r)
      → drop (4 + length payload) (pending r) ++ future ≡ rest
  after h =
      ap (λ t. t ++ future) (drop-drop 4 (length payload) (pending r))
      ∙ drop-of_append_eq _ _ _ _ (body (omega arith)) (whole h)

  pub next_frame_takes :
      4 + length payload ≤ length (pending r)
      → let r' = record r { consumed = r.consumed + (4 + length payload) } in
        (next_frame r ≡ (r', ok (some payload))) × (pending r' ++ future ≡ rest) × IsValid r'
  unfolding next_frame pending
  next_frame_takes h = (
    ground (arith, header, taken h),
    ap (λ t. t ++ future) (drop-drop r.consumed (4 + length payload) r.buf) ∙ after h,
    omega (arith, length-drop r.consumed r.buf, v.in_buffer),
  )

abbrev pub IsByte : ℕ → Type 0
IsByte b = b < 256

-- What a frame handed out tells about the reader before and after.
module _ (r r' : FrameReader) (f : List ℕ) (h : next_frame r ≡ (r', ok (some f))) where
  abbrev announced : ℕ
  announced = from_le_bytes (pending r)

  frame_facts :
      (4 + announced ≤ length (pending r))
      × (announced ≤ max_frame_len)
      × (r'.buf ≡ r.buf)
      × (r'.consumed ≡ r.consumed + (4 + announced))
      × (f ≡ take announced (drop 4 (pending r)))
  unfolding next_frame pending
  frame_facts = ground arith

to_le_bytes-from :
    (xs : List ℕ) → 4 ≤ length xs → All IsByte xs → to_le_bytes (from_le_bytes xs) ≡ take 4 xs
unfolding to_le_bytes from_le_bytes
to_le_bytes-from [] h b = absurd (omega arith)
to_le_bytes-from (x ∷ []) h b = absurd (omega arith)
to_le_bytes-from (x ∷ y ∷ []) h b = absurd (omega arith)
to_le_bytes-from (x ∷ y ∷ z ∷ []) h b = absurd (omega arith)
to_le_bytes-from (x ∷ y ∷ z ∷ w ∷ xs) h b = ground arith

pending_after :
    (r r' : FrameReader) (n : ℕ)
    → r'.buf ≡ r.buf
    → r'.consumed ≡ r.consumed + (4 + n)
    → pending r' ≡ drop n (drop 4 (pending r))
unfolding pending
pending_after r r' n b c =
    ap₂ (λ k t. drop k t) c b
    ∙ drop-drop r.consumed (4 + n) r.buf
    ∙ drop-drop 4 n (drop r.consumed r.buf)

valid_after :
    (r r' : FrameReader) (n : ℕ)
    → IsValid r
    → r'.buf ≡ r.buf
    → r'.consumed ≡ r.consumed + (4 + n)
    → 4 + n ≤ length (pending r)
    → r'.consumed ≤ length r'.buf
unfolding pending
valid_after r r' n v b c h = omega (arith, ap length b, length-drop r.consumed r.buf, v.in_buffer)

-- Whatever bytes a peer sends: when the reader hands out a payload, the bytes pending before are
-- that payload behind its length in four bytes, followed by exactly the bytes pending afterwards;
-- the payload is within the limit, and the read offset stays inside the buffer.
pub next_frame-conserves :
    (r r' : FrameReader) (f : List ℕ)
    → IsValid r
    → All IsByte (pending r)
    → next_frame r ≡ (r', ok (some f))
    → (pending r ≡ frame f ++ pending r') × (length f ≤ max_frame_len) × IsValid r'
next_frame-conserves r r' f v b h = (parts ∙ framed, omega (arith, size, facts.1), valid)
  where
    n : ℕ
    n = announced r r' f h

    body : List ℕ
    body = drop 4 (pending r)

    facts :
        (4 + n ≤ length (pending r))
        × (n ≤ max_frame_len)
        × (r'.buf ≡ r.buf)
        × (r'.consumed ≡ r.consumed + (4 + n))
        × (f ≡ take n body)
    facts = frame_facts r r' f h

    size : length f ≡ n
    size = omega (arith, ap length facts.4, length-take n body, length-drop 4 (pending r), facts.0)

    left : pending r' ≡ drop n body
    left = pending_after r r' n facts.2 facts.3

    parts : pending r ≡ to_le_bytes n ++ (take n body ++ drop n body)
    parts =
        sym (take-append-drop 4 (pending r))
        ∙ ap₂ (λ a c. a ++ c) (sym (to_le_bytes-from (pending r) (omega (arith, facts.0)) b))
            (sym (take-append-drop n body))

    framed : to_le_bytes n ++ (take n body ++ drop n body) ≡ frame f ++ pending r'
    framed = rw (size, left, ← facts.4) (sym (append_assoc (to_le_bytes n) f (drop n body)))

    valid : IsValid r'
    valid = record { in_buffer = valid_after r r' n v facts.2 facts.3 facts.0 }
