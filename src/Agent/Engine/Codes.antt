-- ===== src/Agent/Engine/Codes.antt =====
-- crates/wx-agent/src/engine.rs: a pairing code from its offer to its session, through OfferedPins.
use win_xtend.Prelude.{
  ℕ, ◌≡◌, refl, Bool, true, not, none, some, is_some, List, [], ◌∷◌, all_of, ◌==◌, arith,
  Bool-cases, inl, inr, ==-self,
}
use win_xtend.Prelude.Maps.{lookup, insert, remove, lookup-insert, lookup-remove}
use win_xtend.Proto.Ids.{NodeId, node_key, node_eq_sound}
use win_xtend.Net.Control.{Text}
use win_xtend.Net.Pairing.{Pin}
use win_xtend.Agent.Engine.{
  OfferedPins, offer, claim, discard, discard_awaiting_dial, on_session_ended,
}

-- What befalls the codes.
pub data Turn : Type 0 where
  offered : NodeId → Pin → Text → ℕ → Turn
  claimed discarded dial_failed session_over : NodeId → Turn

abbrev pub after_turn : OfferedPins → Turn → OfferedPins
after_turn o (offered n pin name since) = offer o n pin name since
after_turn o (claimed n) = (claim o n).0
after_turn o (discarded n) = discard o n
after_turn o (dial_failed n) = (discard_awaiting_dial o n).0
after_turn o (session_over n) = on_session_ended o n

abbrev pub after_turns : OfferedPins → List Turn → OfferedPins
after_turns o [] = o
after_turns o (t ∷ ts) = after_turns (after_turn o t) ts

-- A turn that is about another node, or the end of any node's session.
abbrev pub spares : NodeId → Turn → Bool
spares node (offered n pin name since) = not (n == node)
spares node (claimed n) = not (n == node)
spares node (discarded n) = not (n == node)
spares node (dial_failed n) = not (n == node)
spares node (session_over n) = true

-- The code is held for a dial of the node.
record IsHeld (node : NodeId) (pin : Pin) (o : OfferedPins) : Type 0 where
  waits : is_some (lookup node o.awaiting_dial) ≡ true
  shown : lookup node o.pins ≡ some pin

module _ {V : Type 0} where
  insert_other :
      (node n : NodeId) (v : V) (m : List (NodeId × V))
      → not (n == node) ≡ true
      → lookup node (insert n v m) ≡ lookup node m
  insert_other node n v m h = ground (arith, h, lookup-insert n node v m)

  remove_other :
      (node n : NodeId) (m : List (NodeId × V))
      → not (n == node) ≡ true
      → lookup node (remove n m) ≡ lookup node m
  remove_other node n m h = ground (arith, h, lookup-remove n node m)

discard-IsHeld :
    (node : NodeId) (pin : Pin) (o : OfferedPins) (n : NodeId)
    → IsHeld node pin o
    → not (n == node) ≡ true
    → IsHeld node pin (discard o n)
unfolding discard
discard-IsHeld node pin o n v h = record {
  waits = rw (remove_other node n o.awaiting_dial h) v.waits;
  shown = rw (remove_other node n o.pins h) v.shown;
}

-- A session that ends, or a claim, when no dial is waited for takes only the code.
drop-IsHeld :
    (node : NodeId) (pin : Pin) (o : OfferedPins) (n : NodeId)
    → IsHeld node pin o
    → not (n == node) ≡ true
    → IsHeld node pin (record o { pins = remove n o.pins })
drop-IsHeld node pin o n v h = record {
  waits = v.waits;
  shown = rw (remove_other node n o.pins h) v.shown;
}

after_turn-IsHeld :
    (node : NodeId) (pin : Pin) (o : OfferedPins) (t : Turn)
    → IsHeld node pin o
    → spares node t ≡ true
    → IsHeld node pin (after_turn o t)
unfolding offer claim discard_awaiting_dial on_session_ended
after_turn-IsHeld node pin o (offered n q name since) v h = record {
  waits = rw (insert_other node n _ o.awaiting_dial h) v.waits;
  shown = rw (insert_other node n q o.pins h) v.shown;
}
after_turn-IsHeld node pin o (claimed n) v h =
    elim (Bool-cases (is_some (lookup n o.awaiting_dial))) [
      | inl e ↦ rw (after_turn, e) (discard-IsHeld node pin o n v h)
      | inr e ↦ rw (after_turn, e) (drop-IsHeld node pin o n v h)
    ]
after_turn-IsHeld node pin o (discarded n) v h = discard-IsHeld node pin o n v h
after_turn-IsHeld node pin o (dial_failed n) v h =
    elim (Bool-cases (is_some (lookup n o.awaiting_dial))) [
      | inl e ↦ rw (after_turn, e) (discard-IsHeld node pin o n v h)
      | inr e ↦ rw (after_turn, e) v
    ]
after_turn-IsHeld node pin o (session_over n) v h =
    elim (Bool-cases (is_some (lookup n o.awaiting_dial))) [
      | inl e ↦ rw (after_turn, e) v
      | inr e ↦
          rw (after_turn, e)
            (drop-IsHeld node pin o n v (ground (arith, e, v.waits, node_eq_sound n node)))
    ]

after_turns-IsHeld :
    (node : NodeId) (pin : Pin) (o : OfferedPins) (ts : List Turn)
    → IsHeld node pin o
    → all_of (spares node) ts ≡ true
    → IsHeld node pin (after_turns o ts)
after_turns-IsHeld node pin o [] v h = v
after_turns-IsHeld node pin o (t ∷ ts) v h =
    after_turns-IsHeld node pin (after_turn o t) ts
      (after_turn-IsHeld node pin o t v (ground (arith, h))) (ground (arith, h))

offer-IsHeld :
    (o : OfferedPins) (node : NodeId) (pin : Pin) (name : Text) (since : ℕ)
    → IsHeld node pin (offer o node pin name since)
unfolding offer
offer-IsHeld o node pin name since = record {
  waits = rw (lookup-insert node node _ o.awaiting_dial, ==-self node) refl;
  shown = rw (lookup-insert node node pin o.pins, ==-self node) refl;
}

claim_held :
    (node : NodeId) (pin : Pin) (o : OfferedPins) → IsHeld node pin o → (claim o node).1 ≡ some pin
unfolding claim
claim_held node pin o v = rw v.waits v.shown

claim_twice : (o : OfferedPins) (node : NodeId) → (claim (claim o node).0 node).1 ≡ none
unfolding claim discard
claim_twice o node = elim (Bool-cases (is_some (lookup node o.awaiting_dial))) [
  | inl e ↦ rw (e, lookup-remove node node o.awaiting_dial, ==-self node) refl
  | inr e ↦ rw (e, e) refl
]

-- A code that was offered for a node is still there for the session of that node after any
-- history in which codes of other nodes are offered, claimed, discarded or lost with their dials,
-- and sessions of any node, also of this one, end. It is claimed once: a second claim gets
-- nothing.
pub claim-offer :
    (o : OfferedPins) (node : NodeId) (pin : Pin) (name : Text) (since : ℕ) (ts : List Turn)
    → all_of (spares node) ts ≡ true
    → let held = after_turns (offer o node pin name since) ts in
      ((claim held node).1 ≡ some pin) × ((claim (claim held node).0 node).1 ≡ none)
claim-offer o node pin name since ts h = (
  claim_held node pin _ (after_turns-IsHeld node pin _ ts (offer-IsHeld o node pin name since) h),
  claim_twice _ node,
)
