-- ===== src/Video/Pipeline/Counting.antt =====
-- pipeline.rs: the counters of the two threads.
use win_xtend.Prelude.{
  ℕ, ◌+◌, ◌≤◌, ◌≡◌, refl, Bool, true, false, not, ◌==◌, if◌then◌else◌, Option, none, some, List, [],
  ◌∷◌, arith, Option-cases, Bool-cases, inl, inr,
}
use win_xtend.Prelude.Results.{Result, ok, err}
use win_xtend.Video.Frame.{RawFrame, CaptureError}
use win_xtend.Video.Packet.{EncodeError}
use win_xtend.Video.Pipeline.{
  publish, take_blocking, close, CapturePhase, pacing, closing, displacing, offering, EncodePhase,
  taking, encoding, VideoPipeline, FramePacer, spawn, after_capture, capture_round, after_encode,
  after_take, Move, captures, offers, counts_drop, closes, takes, encodes, stops, shuts,
  capture_step, encode_step, step, run, tick, until_next,
}

-- Frames in the hands of a thread, and drops that are not counted yet.
abbrev offered : CapturePhase → ℕ
offered (offering frame) = 1
offered other = 0

abbrev pub uncounted : CapturePhase → ℕ
uncounted displacing = 1
uncounted other = 0

abbrev in_encoder : EncodePhase → ℕ
in_encoder (encoding frame) = 1
in_encoder other = 0

abbrev held_frames : Option RawFrame → ℕ
held_frames none = 0
held_frames (some frame) = 1

-- Every frame that was captured is at one place, and every drop is counted once.
pub record IsCounted (v : VideoPipeline) : Type 0 where
  pub drops : v.counters.dropped + uncounted v.capture_thread ≡ v.slot.dropped
  pub captures_all : v.slot.published + offered v.capture_thread ≤ v.counters.captured
  pub shares :
      v.counters.encoded
        + v.counters.encode_errors
        + in_encoder v.encode_thread
        + v.slot.dropped
        + held_frames v.slot.pending
      ≤ v.slot.published

module _ (v : VideoPipeline) (c : IsCounted v) where
  after_capture-IsCounted :
      (p : FramePacer) (outcome : Result CaptureError (Option RawFrame))
      → v.capture_thread ≡ pacing
      → IsCounted (after_capture (record v { pacer = p }) outcome)
  unfolding after_capture
  after_capture-IsCounted p (ok (some frame)) e = ground (arith, e)
  after_capture-IsCounted p (ok none) e = ground (arith, e)
  after_capture-IsCounted p (err x) e = ground (arith, e)

  round-IsCounted :
      (p : FramePacer) (outcome : Result CaptureError (Option RawFrame))
      (stopped early fires : Bool)
      → v.capture_thread ≡ pacing
      → IsCounted (
          if stopped
          then record v { capture_thread = closing }
          else if early
          then v
          else if fires
          then after_capture (record v { pacer = p }) outcome
          else record v { pacer = p })
  round-IsCounted p outcome true early fires e = ground (arith, e)
  round-IsCounted p outcome false true fires e = c
  round-IsCounted p outcome false false true e = after_capture-IsCounted p outcome e
  round-IsCounted p outcome false false false e = ground (arith, e)

  offers-IsCounted :
      (frame : RawFrame)
      → v.capture_thread ≡ offering frame
      → IsCounted (capture_step (offering frame) v offers)
  unfolding publish
  offers-IsCounted frame e = elim (Bool-cases v.slot.closed) [
    | inl shut ↦ ground (arith, e, shut)
    | inr opened ↦ elim (Option-cases v.slot.pending) [
      | inl empty ↦ ground (arith, e, opened, empty)
      | inr (old, full) ↦ ground (arith, e, opened, full)
    ]
  ]

  takes-IsCounted : v.encode_thread ≡ taking → IsCounted (encode_step taking v takes)
  unfolding take_blocking after_take
  takes-IsCounted e = elim (Option-cases v.slot.pending) [
    | inl empty ↦ ground (arith, e, empty)
    | inr (frame, full) ↦ ground (arith, e, full)
  ]

  encodes-IsCounted :
      (frame : RawFrame) (outcome : Result EncodeError (Option ℕ))
      → v.encode_thread ≡ encoding frame
      → IsCounted (encode_step (encoding frame) v (encodes outcome))
  unfolding after_encode
  encodes-IsCounted frame (ok (some n)) e = ground (arith, e)
  encodes-IsCounted frame (ok none) e = ground (arith, e)
  encodes-IsCounted frame (err x) e = ground (arith, e)

  capture_step-IsCounted :
      (phase : CapturePhase) (move : Move)
      → v.capture_thread ≡ phase
      → IsCounted (capture_step phase v move)
  unfolding capture_round close
  capture_step-IsCounted pacing (captures now outcome) e =
      round-IsCounted (tick v.pacer now).0 outcome v.stop (not (until_next v.pacer now == 0))
        (tick v.pacer now).1 e
  capture_step-IsCounted (offering frame) offers e = offers-IsCounted frame e
  capture_step-IsCounted displacing counts_drop e = ground (arith, e)
  capture_step-IsCounted closing closes e = ground (arith, e)
  capture_step-IsCounted phase move e = c

  encode_step-IsCounted :
      (phase : EncodePhase) (move : Move)
      → v.encode_thread ≡ phase
      → IsCounted (encode_step phase v move)
  encode_step-IsCounted taking takes e = takes-IsCounted e
  encode_step-IsCounted (encoding frame) (encodes outcome) e = encodes-IsCounted frame outcome e
  encode_step-IsCounted phase move e = c

  step-IsCounted : (move : Move) → IsCounted (step v move)
  unfolding step
  step-IsCounted stops = ground arith
  step-IsCounted shuts = unfold close in ground arith
  step-IsCounted (captures now outcome) =
      capture_step-IsCounted v.capture_thread (captures now outcome) refl
  step-IsCounted offers = capture_step-IsCounted v.capture_thread offers refl
  step-IsCounted counts_drop = capture_step-IsCounted v.capture_thread counts_drop refl
  step-IsCounted closes = capture_step-IsCounted v.capture_thread closes refl
  step-IsCounted takes = encode_step-IsCounted v.encode_thread takes refl
  step-IsCounted (encodes outcome) = encode_step-IsCounted v.encode_thread (encodes outcome) refl

run-IsCounted : (v : VideoPipeline) (moves : List Move) → IsCounted v → IsCounted (run v moves)
unfolding run
run-IsCounted v [] c = c
run-IsCounted v (move ∷ moves) c = run-IsCounted (step v move) moves (step-IsCounted v c move)

spawn-IsCounted : (fps : ℕ) → IsCounted (spawn fps)
unfolding spawn
spawn-IsCounted fps = omega arith

-- Under any interleaving of the capture thread, the encode thread and a shutdown, whatever the
-- capture and the encoder give, a new pipeline never counts more frames as encoded, failed or dropped
-- than it counts as captured, and every frame that the slot displaced is counted as dropped once its
-- thread has got to it.
pub run-counts :
    (fps : ℕ) (moves : List Move)
    → let v = run (spawn fps) moves in
      (v.counters.encoded + v.counters.encode_errors + v.counters.dropped ≤ v.counters.captured)
      × (v.counters.dropped + uncounted v.capture_thread ≡ v.slot.dropped)
run-counts fps moves =
    let c = run-IsCounted (spawn fps) moves (spawn-IsCounted fps) in
    (omega (arith, c.drops, c.captures_all, c.shares), c.drops)
