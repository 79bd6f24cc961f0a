-- ===== src/Net/Handshake/Memory.antt =====
-- handshake.rs: both sides of a handshake joined in memory, run_in_memory.
use win_xtend.Prelude.{
  ℕ, zero, suc, Bool, true, false, not, if◌then◌else◌, Option, some, ◌>>=◌, List, [], ◌∷◌, ◌++◌,
}
use win_xtend.Net.Control.{NodeInfo, ControlMsg}
use win_xtend.Net.Trust.{TrustStore}
use win_xtend.Net.Identity.{Signing, ChannelBinding}
use win_xtend.Net.Handshake.{
  initiator, responder, Handshake, HandshakeError, Outcome, continue, established, refused,
  refused_by_peer, ok, err, on_message, new, with_pairing_mode, start,
}

pub record Party (F Secret : Type 0) : Type 0 where
  pub identity : Secret
  pub trust : TrustStore
  pub info : NodeInfo F
  pub nonce : List ℕ
  pub binding : ChannelBinding
  pub pairing_mode : Bool

-- `Result` of one side, and of delivering to it: the handshake, its outbox and its outcome.
pub data Verdict (F : Type 0) : Type 0 where
  ended : Outcome F → Verdict F
  failed : HandshakeError → Verdict F

pub data Delivery (F : Type 0) : Type 0 where
  delivered : Handshake F → List (ControlMsg F) → Outcome F → Delivery F
  undelivered : HandshakeError → Delivery F

abbrev going_on : {F : Type 0} → Outcome F → Bool
going_on continue = true
going_on (established e) = false
going_on (refused reason) = false
going_on (refused_by_peer reason) = false

abbrev pub is_empty {ℓ} : {A : Type ℓ} → List A → Bool
is_empty [] = true
is_empty (x ∷ xs) = false

module _ {F Secret : Type 0} ⦃c : Signing Secret⦄ where
  unfoldable pub deliver :
      List (ControlMsg F)
      → Handshake F
      → Party F Secret
      → List (ControlMsg F)
      → Outcome F
      → Option (Delivery F)
  deliver [] hs party outbox outcome = some (delivered hs outbox outcome)
  deliver (msg ∷ inbox) hs party outbox outcome =
      if not (going_on outcome)
      then some (delivered hs outbox outcome)
      else (on_message hs msg party.identity party.trust >>= λ r. elim r.1 [
        | ok step ↦ deliver inbox r.0 party (outbox ++ step.send) step.outcome
        | err e ↦ some (undelivered e)
      ])

  -- The loop: at most so many rounds.
  unfoldable pub rounds :
      ℕ
      → Handshake F
      → Handshake F
      → List (ControlMsg F)
      → List (ControlMsg F)
      → Outcome F
      → Outcome F
      → Party F Secret
      → Party F Secret
      → Option (Verdict F × Verdict F)
  rounds zero a b to_a to_b out_a out_b initiating responding = some (ended out_a, ended out_b)
  rounds (suc n) a b to_a to_b out_a out_b initiating responding =
      deliver to_b b responding to_a out_b >>= λ d. elim d [
        | undelivered e ↦ some (ended out_a, failed e)
        | delivered b' to_a' out_b' ↦ deliver to_a' a initiating [] out_a >>= λ d'. elim d' [
          | undelivered e ↦ some (failed e, ended out_b')
          | delivered a' to_b' out_a' ↦
              let rest = rounds n a' b' [] to_b' out_a' out_b' initiating responding in
              if is_empty to_b' then some (ended out_a', ended out_b') else rest
        ]
      ]

  unfoldable pub run_in_memory : Party F Secret → Party F Secret → Option (Verdict F × Verdict F)
  run_in_memory initiating responding =
      let a =
        with_pairing_mode (new initiator initiating.info initiating.nonce initiating.binding)
          initiating.pairing_mode in
      let b =
        with_pairing_mode (new responder responding.info responding.nonce responding.binding)
          responding.pairing_mode in
      rounds 8 a b [] (start a) continue continue initiating responding
