-- ===== src/Video/Pipeline.antt =====
-- crates/wx-video/src/pipeline.rs: the pacer, the slot of one frame, and the two threads that share it.
-- Times are numbers of nanoseconds. What the threads share, the slot and each counter, is behind
-- a lock or atomic. The counters have 64 bits, which frames do not use up.
pub mod Pacing
pub mod Counting
use win_xtend.Prelude.{
  ℕ, ◌+◌, ◌-◌, ◌/◌, ◌≡◌, Bool, true, false, not, ◌==◌, ltb, leb, if◌then◌else◌, Option, none, some,
  is_some, List, [], ◌∷◌, length, min,
}
use win_xtend.Prelude.Results.{Result, ok, err}
use win_xtend.Video.Frame.{RawFrame, CaptureError, clamp_fps}
use win_xtend.Video.Packet.{EncodeError}

-- 20 ms
abbrev pub stop_poll_interval : ℕ
stop_poll_interval = 20000000

pub record FramePacer : Type 0 where
  pub interval : ℕ
  pub next_due : Option ℕ

unfoldable pub new_pacer : ℕ → FramePacer
new_pacer fps = record { interval = 1000000000 / clamp_fps fps; next_due = none }

unfoldable pub tick : FramePacer → ℕ → FramePacer × Bool
tick p now = elim p.next_due [
  | none ↦ (record p { next_due = some (now + p.interval) }, true)
  | some due ↦
      if ltb now due
      then (p, false)
      else let next = due + p.interval in
        (record p { next_due = some (if leb next now then now + p.interval else next) }, true)
]

unfoldable pub until_next : FramePacer → ℕ → ℕ
until_next p now = elim p.next_due [ none ↦ 0 | some due ↦ due - now ]

pub record SlotState : Type 0 where
  pub pending : Option RawFrame
  pub closed : Bool
  pub published : ℕ
  pub dropped : ℕ

unfoldable pub new_slot : SlotState
new_slot = record { pending = none; closed = false; published = 0; dropped = 0 }

-- The slot after the frame was offered, and whether another was displaced.
unfoldable pub publish : SlotState → RawFrame → SlotState × Bool
publish s frame =
    if s.closed
    then (s, false)
    else let displaced = is_some s.pending in
      (
        record s {
          pending = some frame;
          published = s.published + 1;
          dropped = if displaced then s.dropped + 1 else s.dropped;
        },
        displaced,
      )

pub data Taken : Type 0 where
  frame_taken : RawFrame → Taken
  drained waits : Taken

-- `take_blocking`: a caller that finds neither a frame nor a closed slot waits and looks again.
unfoldable pub take_blocking : SlotState → SlotState × Taken
take_blocking s = elim s.pending [
  | some frame ↦ (record s { pending = none }, frame_taken frame)
  | none ↦ (s, if s.closed then drained else waits)
]

unfoldable pub try_take : SlotState → SlotState × Option RawFrame
try_take s = (record s { pending = none }, s.pending)

unfoldable pub close : SlotState → SlotState
close s = record s { closed = true }

pub record PipelineStats : Type 0 where
  pub captured : ℕ
  pub dropped : ℕ
  pub encoded : ℕ
  pub bytes_out : ℕ
  pub capture_errors : ℕ
  pub encode_errors : ℕ

-- Where each thread stands between two accesses to what they share.
pub data CapturePhase : Type 0 where
  pacing ended closing displacing : CapturePhase
  offering : RawFrame → CapturePhase

pub data EncodePhase : Type 0 where
  taking finished : EncodePhase
  encoding : RawFrame → EncodePhase

pub record VideoPipeline : Type 0 where
  pub stop : Bool
  pub slot : SlotState
  pub counters : PipelineStats
  pub pacer : FramePacer
  pub capture_thread : CapturePhase
  pub encode_thread : EncodePhase

unfoldable pub spawn : ℕ → VideoPipeline
unfolding new_pacer new_slot
spawn fps = record {
  stop = false;
  slot = new_slot;
  counters = record {
    captured = 0;
    dropped = 0;
    encoded = 0;
    bytes_out = 0;
    capture_errors = 0;
    encode_errors = 0;
  };
  pacer = new_pacer fps;
  capture_thread = pacing;
  encode_thread = taking;
}

-- What `capture.next_frame` gave.
unfoldable pub after_capture : VideoPipeline → Result CaptureError (Option RawFrame) → VideoPipeline
after_capture v (ok (some frame)) = record v {
  counters = record (v.counters) { captured = v.counters.captured + 1 };
  capture_thread = offering frame;
}
after_capture v (ok none) = v
after_capture v (err e) = record v {
  counters = record (v.counters) { capture_errors = v.counters.capture_errors + 1 };
  capture_thread = closing;
}

-- From the top of the capture loop to the frame, at the time `now`.
unfoldable pub capture_round :
    VideoPipeline → ℕ → Result CaptureError (Option RawFrame) → VideoPipeline
unfolding tick until_next after_capture
capture_round v now outcome =
    if v.stop
    then record v { capture_thread = closing }
    else if not (until_next v.pacer now == 0)
    then v
    else let (paced, due) = tick v.pacer now in
      if due then after_capture (record v { pacer = paced }) outcome else record v { pacer = paced }

-- What `encoder.encode` gave, a number of bytes for a packet.
unfoldable pub after_encode : PipelineStats → Result EncodeError (Option ℕ) → PipelineStats
after_encode c (ok (some bytes)) = record c {
  encoded = c.encoded + 1;
  bytes_out = c.bytes_out + bytes;
}
after_encode c (ok none) = c
after_encode c (err e) = record c { encode_errors = c.encode_errors + 1 }

unfoldable pub after_take : VideoPipeline → SlotState × Taken → VideoPipeline
after_take v (s, frame_taken frame) = record v { slot = s; encode_thread = encoding frame }
after_take v (s, drained) = record v { slot = s; encode_thread = finished }
after_take v (s, waits) = record v { slot = s }

pub data Move : Type 0 where
  captures : ℕ → Result CaptureError (Option RawFrame) → Move
  offers counts_drop closes takes : Move
  encodes : Result EncodeError (Option ℕ) → Move
  stops shuts : Move

abbrev pub capture_step : CapturePhase → VideoPipeline → Move → VideoPipeline
capture_step pacing v (captures now outcome) = capture_round v now outcome
capture_step (offering frame) v offers =
    let (s, displaced) = publish v.slot frame in
    record v { slot = s; capture_thread = if displaced then displacing else pacing }
capture_step displacing v counts_drop = record v {
  counters = record (v.counters) { dropped = v.counters.dropped + 1 };
  capture_thread = pacing;
}
capture_step closing v closes = record v { slot = close v.slot; capture_thread = ended }
capture_step phase v move = v

abbrev pub encode_step : EncodePhase → VideoPipeline → Move → VideoPipeline
encode_step taking v takes = after_take v (take_blocking v.slot)
encode_step (encoding frame) v (encodes outcome) =
    if v.stop
    then record v { encode_thread = finished }
    else record v { counters = after_encode v.counters outcome; encode_thread = taking }
encode_step phase v move = v

-- One access to what the threads share. A move that its thread is not at leaves all as it is.
unfoldable pub step : VideoPipeline → Move → VideoPipeline
unfolding capture_round publish close take_blocking after_take after_encode
step v stops = record v { stop = true }
step v shuts = record v { slot = close v.slot }
step v (captures now outcome) = capture_step v.capture_thread v (captures now outcome)
step v offers = capture_step v.capture_thread v offers
step v counts_drop = capture_step v.capture_thread v counts_drop
step v closes = capture_step v.capture_thread v closes
step v takes = encode_step v.encode_thread v takes
step v (encodes outcome) = encode_step v.encode_thread v (encodes outcome)

unfoldable pub run : VideoPipeline → List Move → VideoPipeline
unfolding step
run v [] = v
run v (move ∷ moves) = run (step v move) moves
