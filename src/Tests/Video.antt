-- ===== src/Tests/Video.antt =====
-- The theorems on frames, packets and the two threads of a stream at concrete inputs.
use win_xtend.Prelude.{
  ◌<◌, ℕ, ◌+◌, ◌*◌, ◌≤◌, ◌≡◌, refl, sym, ap, true, some, List, [], ◌∷◌, length, arith,
}
use win_xtend.Prelude.Results.{Result, ok, err, ok_inj}
use win_xtend.Net.Control.{Text}
use win_xtend.Agent.Clipboard.{zstd}
use win_xtend.Video.Frame.{RawFrame, bytes_needed, new_frame, packed, is_packed, packed_len}
use win_xtend.Video.Frame.Rows.{IsFrame}
use win_xtend.Video.Packet.{Zstd, PassthroughEncoder, encode, decode_packet}
use win_xtend.Video.Packet.Passthrough.{Inflates, Reads, encode-Reads}
use win_xtend.Video.Packet.Bounds.{decode_packet-IsFrame}
use win_xtend.Video.Pipeline.{
  Move, captures, offers, counts_drop, takes, encodes, stops, new_pacer, spawn, run,
}
use win_xtend.Video.Pipeline.Pacing.{after_times, fired, fired-rate}
use win_xtend.Video.Pipeline.Counting.{uncounted, run-counts}
use win_xtend.Prelude.Int.{pos}

-- A compressor that puts a mark before what it was given.
abbrev unmarked : List ℕ → Result Text (List ℕ)
unmarked [] = err []
unmarked (b ∷ bytes) = ok bytes

abbrev marking : Zstd
marking = record {
  available = true;
  bulk_compress = λ bytes level. ok (40 ∷ bytes);
  bulk_decompress = λ bytes capacity. unmarked bytes;
}

marking-Inflates : Inflates marking
marking-Inflates bytes packed_bytes level h = ap unmarked (sym (ok_inj h))

abbrev compressing : PassthroughEncoder
compressing = record { compression = zstd; level = pos 1 }

-- Two rows of one pixel, with a byte of padding between them, at 1.5 microseconds.
abbrev tall : RawFrame
tall = record {
  width = 1;
  height = 2;
  stride = 5;
  pixels = 1 ∷ 2 ∷ 3 ∷ 255 ∷ 0 ∷ 4 ∷ 5 ∷ 6 ∷ 255 ∷ [];
  timestamp = 1500;
}

encode-Reads_example : Reads marking compressing tall (encode marking compressing tall)
unfolding new_frame bytes_needed
encode-Reads_example =
    encode-Reads marking compressing 1 2 5 (1 ∷ 2 ∷ 3 ∷ 255 ∷ 0 ∷ 4 ∷ 5 ∷ 6 ∷ 255 ∷ []) 1500 tall
      marking-Inflates refl

-- One pixel on the wire.
abbrev pixel_packet : List ℕ
pixel_packet =
    87 ∷ 88 ∷ 86 ∷ 49 ∷ 0 ∷ 1 ∷ 0 ∷ 0 ∷ 1 ∷ 0 ∷ 0 ∷ 0 ∷ 1 ∷ 0 ∷ 0 ∷ 0 ∷ 2 ∷ 0 ∷ 0 ∷ 0 ∷ 0 ∷ 0 ∷ 0
    ∷ 0 ∷ 9 ∷ 8 ∷ 7 ∷ 255 ∷ []

abbrev one_pixel : RawFrame
one_pixel = record {
  width = 1;
  height = 1;
  stride = 4;
  pixels = 9 ∷ 8 ∷ 7 ∷ 255 ∷ [];
  timestamp = 2000;
}

decode_packet-IsFrame_example :
    IsFrame one_pixel
    × ((is_packed one_pixel ≡ true) × (length (one_pixel.pixels) ≡ packed_len one_pixel))
unfolding decode_packet packed bytes_needed
decode_packet-IsFrame_example = decode_packet-IsFrame marking pixel_packet one_pixel refl

-- 30 frames a second, asked at uneven times within a fifth of a second.
abbrev asked : List ℕ
asked = 10000000 ∷ 33333333 ∷ 50000000 ∷ 150000000 ∷ 140000000 ∷ 190000000 ∷ []

fired-rate_example :
    let p = new_pacer 30 in
    let frames = length (fired p (0 ∷ asked)) in
    let later = length (fired (after_times p (20000000 ∷ 0 ∷ [])) (0 ∷ asked)) in
    (later * p.interval + 0 < 200000000 + 2 * p.interval)
    × (1 ≤ frames)
    × (frames * p.interval + 0 ≤ 200000000 + p.interval)
    × (4166666 ≤ p.interval)
fired-rate_example =
    fired-rate 30 (20000000 ∷ 0 ∷ []) 0 200000000 asked (omega arith)
      (omega arith, (omega arith, (omega arith, (omega arith, (omega arith, (omega arith, tt))))))

-- Two frames before the encoder takes one, which fails.
abbrev moves : List Move
moves =
    captures 0 (ok (some one_pixel))
    ∷ offers
    ∷ captures 40000000 (ok (some one_pixel))
    ∷ offers
    ∷ counts_drop
    ∷ takes
    ∷ encodes (ok (some 28))
    ∷ stops
    ∷ []

run-counts_example :
    let v = run (spawn 30) moves in
    (v.counters.encoded + v.counters.encode_errors + v.counters.dropped ≤ v.counters.captured)
    × (v.counters.dropped + uncounted v.capture_thread ≡ v.slot.dropped)
run-counts_example = run-counts 30 moves
