-- ===== src/Proto/Codec/Stream.antt =====
-- codec.rs with the receive loops of transport.rs: messages over a stream that arrives in pieces.
use mathlib.Core.List.{append_assoc}
use win_xtend.Prelude.{
  ℕ, zero, suc, ◌+◌, ◌≤◌, ◌<◌, ◌≡◌, refl, sym, ap, ◌∙◌, Option, none, some, List, [], ◌∷◌, ◌++◌,
  inl, inr, concat, length, arith, length-append, Option-cases, dec_lt, subst, append-eq-nil_left,
}
use win_xtend.Proto.Codec.{
  FrameReader, ok, max_frame_len, encode_frame, new, push, next_frame, next_message, pending_len,
  Ended, waiting, drain, read_control,
}
use win_xtend.Proto.Codec.Pending.{
  pending, IsValid, new-IsValid, pending-new, frame, pending-push, length-pending, next_frame_waits,
  next_frame_takes, length-frame, next_frame_empty,
}

module _ {T : Type 0} (to_allocvec : T → Option (List ℕ)) where
  -- The bytes that a sender writes for the messages, one frame after another.
  abbrev pub Sent : List T → List ℕ → Type 0
  Sent [] s = s ≡ []
  Sent (m ∷ ms) s =
      (b : List ℕ) × (rest : List ℕ) × (encode_frame to_allocvec m ≡ ok b)
      × (s ≡ b ++ rest)
      × Sent ms rest

  frame_of_encode :
      (m : T) (b : List ℕ)
      → encode_frame to_allocvec m ≡ ok b
      → (p : List ℕ) × (to_allocvec m ≡ some p) × (length p ≤ max_frame_len) × (b ≡ frame p)
  unfolding encode_frame
  frame_of_encode m b e = elim (Option-cases (to_allocvec m)) [
    | inl h ↦ absurd (ground arith)
    | inr (p, h) ↦ (p, h, ground arith, ground arith)
  ]

module _ {T : Type 0} (from_bytes : List ℕ → Option T) where
  next_message_waits :
      (r : FrameReader) → next_frame r ≡ (r, ok none) → next_message from_bytes r ≡ (r, ok none)
  unfolding next_message
  next_message_waits r e = rw e

  next_message_takes :
      (r r' : FrameReader) (p : List ℕ) (m : T)
      → next_frame r ≡ (r', ok (some p))
      → from_bytes p ≡ some m
      → next_message from_bytes r ≡ (r', ok (some m))
  unfolding next_message
  next_message_takes r r' p m e d = rw e (ground arith)

  drain_waits :
      (fuel : ℕ) (r : FrameReader)
      → next_message from_bytes r ≡ (r, ok none)
      → drain from_bytes (suc fuel) r ≡ (r, [], waiting)
  unfolding drain
  drain_waits fuel r e = ground arith

  drain_takes :
      (fuel : ℕ) (r r' : FrameReader) (m : T)
      → next_message from_bytes r ≡ (r', ok (some m))
      → let more = drain from_bytes fuel r' in
        drain from_bytes (suc fuel) r ≡ (more.0, m ∷ more.1, more.2)
  unfolding drain
  drain_takes fuel r r' m e = ground arith

module _ {T : Type 0} (to_allocvec : T → Option (List ℕ)) (from_bytes : List ℕ → Option T)
    (inverse : (m : T) (p : List ℕ) → to_allocvec m ≡ some p → from_bytes p ≡ some m) where
  -- A reader whose pending bytes, with those still to come, are the frames of `ms`.
  record Holds (r : FrameReader) (future : List ℕ) (ms : List T) : Type 0 where
    valid : IsValid r
    sent : Sent to_allocvec ms (pending r ++ future)

  -- What a receive loop did: it handed out a front part of the messages, and the reader holds the
  -- rest; if no byte is to come, there is no rest.
  record Handed (out : FrameReader × List T × Ended) (future : List ℕ) (ms : List T) : Type 0 where
    later : List T
    split : ms ≡ out.1 ++ later
    holds : Holds out.0 future later
    at_end : future ≡ [] → later ≡ []
    quiet : out.2 ≡ waiting

  -- What is left when a loop stops at an incomplete frame.
  stopped :
      (r : FrameReader) (future : List ℕ) (ms : List T)
      → Holds r future ms
      → (future ≡ [] → ms ≡ [])
      → Handed (r, [], waiting) future ms
  stopped r future ms h e = record { later = ms; split = refl; holds = h; at_end = e; quiet = refl }

  drain_stopped :
      (fuel : ℕ) (r : FrameReader) (future : List ℕ) (ms : List T)
      → next_frame r ≡ (r, ok none)
      → Holds r future ms
      → (future ≡ [] → ms ≡ [])
      → Handed (drain from_bytes (suc fuel) r) future ms
  drain_stopped fuel r future ms e h empty =
      rw (drain_waits from_bytes fuel r (next_message_waits from_bytes r e))
        (stopped r future ms h empty)

  drain_again :
      (fuel : ℕ) (r r' : FrameReader) (future : List ℕ) (m : T) (ms : List T)
      → next_message from_bytes r ≡ (r', ok (some m))
      → Handed (drain from_bytes fuel r') future ms
      → Handed (drain from_bytes (suc fuel) r) future (m ∷ ms)
  drain_again fuel r r' future m ms e d = rw (drain_takes from_bytes fuel r r' m e) (record {
    later = d.later;
    split = ap (λ t. m ∷ t) d.split;
    holds = d.holds;
    at_end = d.at_end;
    quiet = d.quiet;
  })

  drain-Handed :
      (fuel : ℕ) (r : FrameReader) (future : List ℕ) (ms : List T)
      → Holds r future ms
      → length (pending r) < fuel
      → Handed (drain from_bytes fuel r) future ms
  drain-Handed zero r future ms h lt = elim lt [ ]
  drain-Handed (suc fuel) r future [] h lt =
      drain_stopped fuel r future []
        (next_frame_empty r (append-eq-nil_left (pending r) future h.sent)) h (λ _. refl)
  drain-Handed (suc fuel) r future (m ∷ ms) h lt =
      let (b, rest, enc, eq, more) = h.sent in
      let (p, alloc, fits, framed) = frame_of_encode to_allocvec m b enc in
      let starts : pending r ++ future ≡ frame p ++ rest = eq ∙ ap (λ t. t ++ rest) framed in
      let total : length (pending r) + length future ≡ 4 + length p + length rest = omega (
        arith,
        ap length starts,
        length-append (pending r) future,
        length-append (frame p) rest,
        length-frame p,
      ) in
      elim (dec_lt (length (pending r)) (4 + length p)) [
        | yes short ↦
            drain_stopped fuel r future (m ∷ ms)
              (next_frame_waits r p rest future h.valid fits starts short) h
              (λ e. absurd (omega (arith, ap length e)))
        | no long ↦
            let (takes, after, valid) =
              next_frame_takes r p rest future h.valid fits starts (omega arith) in
            drain_again fuel r _ future m ms
              (next_message_takes from_bytes r _ p m takes (inverse m p alloc))
              (drain-Handed fuel _ future ms
                (record { valid = valid; sent = subst (Sent to_allocvec ms) (sym after) more })
                (omega (arith, ap length after, length-append (pending _) future)))
      ]

  push-Holds :
      (r : FrameReader) (chunk future : List ℕ) (ms : List T)
      → Holds r (chunk ++ future) ms
      → Holds (push r chunk) future ms
  push-Holds r chunk future ms h =
      let (e, valid) = pending-push r chunk h.valid in
      let bytes : pending r ++ (chunk ++ future) ≡ pending (push r chunk) ++ future =
        sym (append_assoc (pending r) chunk future) ∙ sym (ap (λ t. t ++ future) e) in
      record { valid = valid; sent = subst (Sent to_allocvec ms) bytes h.sent }

  read_rest :
      (chunks : List (List ℕ)) (r : FrameReader) (chunk : List ℕ) (ms later : List T)
      → let full = push r chunk in
        let step = drain from_bytes (suc (pending_len full)) full in
        let more = read_control from_bytes chunks step.0 in
        ms ≡ step.1 ++ later
        → step.2 ≡ waiting
        → (more.1 ≡ later) × (more.2 ≡ waiting)
        → ((read_control from_bytes (chunk ∷ chunks) r).1 ≡ ms)
          × ((read_control from_bytes (chunk ∷ chunks) r).2 ≡ waiting)
  unfolding read_control
  read_rest chunks r chunk ms later split quiet (all, end) = ground arith

  read_from :
      (chunks : List (List ℕ)) (r : FrameReader) (ms : List T)
      → Holds r (concat chunks) ms
      → (concat chunks ≡ [] → ms ≡ [])
      → ((read_control from_bytes chunks r).1 ≡ ms)
        × ((read_control from_bytes chunks r).2 ≡ waiting)
  unfolding read_control
  read_from [] r ms h e = (sym (e refl), refl)
  read_from (chunk ∷ chunks) r ms h e =
      let full = push r chunk in
      let hf = push-Holds r chunk (concat chunks) ms h in
      let d =
        drain-Handed (suc (pending_len full)) full (concat chunks) ms hf
          (omega (arith, length-pending full hf.valid)) in
      read_rest chunks r chunk ms d.later d.split d.quiet
        (read_from chunks _ d.later d.holds d.at_end)

  none_sent : (ms : List T) (s : List ℕ) → Sent to_allocvec ms s → s ≡ [] → ms ≡ []
  none_sent [] s h e = refl
  none_sent (m ∷ ms) s (b, rest, enc, eq, more) e =
      let (p, alloc, fits, framed) = frame_of_encode to_allocvec m b enc in
      absurd (
        omega (
          arith,
          ap length eq,
          ap length e,
          ap length framed,
          length-append b rest,
          length-frame p,
        ))

  -- A sender writes the frames of the messages `ms`, one after another, and the stream delivers
  -- those bytes in pieces, cut anywhere. The receive loop hands out exactly `ms`, in order, and
  -- stops at the end of the pieces waiting for more: no error and no message lost, made up or
  -- torn. This assumes that the serialiser's decoder inverts its encoder, and that each message
  -- was small enough for `encode_frame` to accept it.
  pub read_control_roundtrip :
      (ms : List T) (s : List ℕ) (chunks : List (List ℕ))
      → Sent to_allocvec ms s
      → concat chunks ≡ s
      → ((read_control from_bytes chunks new).1 ≡ ms)
        × ((read_control from_bytes chunks new).2 ≡ waiting)
  read_control_roundtrip ms s chunks sent cut =
      read_from chunks new ms
        (record {
          valid = new-IsValid;
          sent =
              subst (Sent to_allocvec ms) (sym cut ∙ ap (λ t. t ++ concat chunks) (sym pending-new))
                sent;
        })
        (λ e. none_sent ms s sent (sym cut ∙ e))
