-- ===== src/Tests/Wire.antt =====
-- The theorems on the codec and the sequence gate at concrete inputs.
use win_xtend.Prelude.{ℕ, ◌<◌, ◌≡◌, refl, ◌⊎◌, ◌↔◌, true, Option, some, List, [], ◌∷◌, All, sym}
use win_xtend.Proto.Codec.{waiting, encode_frame, to_le_bytes, new, read_control}
use win_xtend.Proto.Codec.Stream.{read_control_roundtrip}
use win_xtend.Proto.Input.{
  InputFrame, pointer, move_to, accept, new as new_gate, reliability, reliable,
}
use win_xtend.Proto.Input.Gate.{gate_after, accept-history}
use win_xtend.Tests.Fixed.{Milli, fin}
use win_xtend.Prelude.Int.{pos}

-- A serialiser that writes the bytes as they are.
abbrev to_bytes : List ℕ → Option (List ℕ)
to_bytes m = some m

abbrev of_bytes : List ℕ → Option (List ℕ)
of_bytes p = some p

of_bytes-to_bytes : (m p : List ℕ) → to_bytes m ≡ some p → of_bytes p ≡ some m
of_bytes-to_bytes m p h = sym h

-- Two messages, and their bytes cut inside a length and inside a payload.
abbrev messages : List (List ℕ)
messages = (7 ∷ 8 ∷ []) ∷ [] ∷ []

abbrev chunks : List (List ℕ)
chunks = (2 ∷ 0 ∷ []) ∷ (0 ∷ 0 ∷ 7 ∷ []) ∷ (8 ∷ 0 ∷ 0 ∷ 0 ∷ 0 ∷ []) ∷ []

read_control_roundtrip_example :
    ((read_control of_bytes chunks new).1 ≡ messages)
    × ((read_control of_bytes chunks new).2 ≡ waiting)
unfolding encode_frame to_le_bytes
read_control_roundtrip_example =
    read_control_roundtrip to_bytes of_bytes of_bytes-to_bytes messages
      (2 ∷ 0 ∷ 0 ∷ 0 ∷ 7 ∷ 8 ∷ 0 ∷ 0 ∷ 0 ∷ 0 ∷ []) chunks
      (
        2 ∷ 0 ∷ 0 ∷ 0 ∷ 7 ∷ 8 ∷ [],
        0 ∷ 0 ∷ 0 ∷ 0 ∷ [],
        refl,
        refl,
        (0 ∷ 0 ∷ 0 ∷ 0 ∷ [], [], refl, refl, refl),
      )
      refl

abbrev moves : ℕ → InputFrame Milli
moves n = record {
  seq = n;
  target = 1;
  event = pointer (move_to (record { x = fin (pos 0); y = fin (pos 0) }));
}

accept-history_example :
    ((accept (gate_after new_gate (moves 4 ∷ moves 2 ∷ [])) (moves 3)).1 ≡ true)
    ↔ ((reliability (moves 3).event ≡ reliable) ⊎ All (λ e. e.seq < 3) (moves 4 ∷ moves 2 ∷ []))
accept-history_example = accept-history (moves 4 ∷ moves 2 ∷ []) (moves 3)
