-- ===== src/Net/Handshake.antt =====
-- crates/wx-net/src/handshake.rs: the handshake as the state machine that it is, one side at a time,
-- and both sides joined in memory. `Secret` is an Identity; a nonce is a list of 32 bytes. A step
-- that panics is `none`: an `expect` of what an earlier state recorded.
pub mod Vetted
pub mod Sound
pub mod Memory
pub mod Exchange
pub mod Meets
use win_xtend.Prelude.{
  ℕ, zero, suc, ◌≡◌, Bool, true, false, ◌==◌, ◌&&◌, ◌||◌, not, if◌then◌else◌, Option, none, some,
  ◌>>=◌, List, [], ◌∷◌, ◌++◌,
}
use win_xtend.Proto.Ids.{NodeId}
use win_xtend.Proto.Caps.{VersionCheck, compatible, peer_too_old, check_version, protocol_version}
use win_xtend.Net.Control.{
  Text, NodeInfo, RejectReason, protocol_too_old, not_paired, blocked, other_reason, ControlMsg,
  hello, welcome, auth_proof, reject,
}
use win_xtend.Net.Trust.{TrustStore, is_paired, is_blocked}
use win_xtend.Net.Identity.{Signing, ChannelBinding, node_id, sign_handshake, verify_handshake}

pub data Role : Type 0 where
  initiator responder : Role

abbrev pub tag : Role → ℕ
tag initiator = 1
tag responder = 2

abbrev pub peer_role : Role → Role
peer_role initiator = responder
peer_role responder = initiator

pub data State : Type 0 where
  awaiting_hello awaiting_welcome awaiting_proof finished : State

-- The literals that the errors carry.
pub data MessageName : Type 0 where
  hello_name welcome_name auth_proof_name reject_name nothing post_handshake : MessageName

abbrev pub expected : State → MessageName
expected awaiting_hello = hello_name
expected awaiting_welcome = welcome_name
expected awaiting_proof = auth_proof_name
expected finished = nothing

unfoldable pub describe : {F : Type 0} → ControlMsg F → MessageName
describe (hello protocol info nonce) = hello_name
describe (welcome protocol info nonce) = welcome_name
describe (auth_proof signature) = auth_proof_name
describe (reject reason) = reject_name
describe other = post_handshake

pub data HandshakeError : Type 0 where
  out_of_order : MessageName → MessageName → HandshakeError
  already_finished : HandshakeError

pub record Established (F : Type 0) : Type 0 where
  pub role : Role
  pub peer : NodeInfo F
  pub protocol : ℕ
  pub peer_protocol : ℕ
  pub local_nonce : List ℕ
  pub peer_nonce : List ℕ
  pub peer_was_paired : Bool

abbrev pub initiator_nonce : {F : Type 0} → Established F → List ℕ
initiator_nonce e = elim e.role [ initiator ↦ e.local_nonce | responder ↦ e.peer_nonce ]

abbrev pub responder_nonce : {F : Type 0} → Established F → List ℕ
responder_nonce e = elim e.role [ initiator ↦ e.peer_nonce | responder ↦ e.local_nonce ]

pub data Outcome (F : Type 0) : Type 0 where
  continue : Outcome F
  established : Established F → Outcome F
  refused refused_by_peer : RejectReason → Outcome F

pub record Step (F : Type 0) : Type 0 where
  pub send : List (ControlMsg F)
  pub outcome : Outcome F

pub data Answer (F : Type 0) : Type 0 where
  ok : Step F → Answer F
  err : HandshakeError → Answer F

pub record Handshake (F : Type 0) : Type 0 where
  pub role : Role
  pub local_info : NodeInfo F
  pub local_nonce : List ℕ
  pub binding : ChannelBinding
  pub state : State
  pub peer : Option (NodeInfo F)
  pub peer_nonce : Option (List ℕ)
  pub negotiated : Option (ℕ × ℕ)
  pub pairing_mode : Bool

unfoldable pub new : {F : Type 0} → Role → NodeInfo F → List ℕ → ChannelBinding → Handshake F
new role local_info local_nonce binding = record {
  role = role;
  local_info = local_info;
  local_nonce = local_nonce;
  binding = binding;
  state = elim role [ initiator ↦ awaiting_welcome | responder ↦ awaiting_hello ];
  peer = none;
  peer_nonce = none;
  negotiated = none;
  pairing_mode = false;
}

unfoldable pub with_pairing_mode : {F : Type 0} → Handshake F → Bool → Handshake F
with_pairing_mode h enabled = record h { pairing_mode = enabled }

unfoldable pub start : {F : Type 0} → Handshake F → List (ControlMsg F)
start h = elim h.role [
  | initiator ↦ hello protocol_version h.local_info h.local_nonce ∷ []
  | responder ↦ []
]

-- `[u8; 32] == [u8; 32]`
abbrev pub same_bytes : List ℕ → List ℕ → Bool
same_bytes [] [] = true
same_bytes [] (b ∷ bs) = false
same_bytes (a ∷ more) [] = false
same_bytes (a ∷ more) (b ∷ bs) = a == b && same_bytes more bs

-- "peer advertises this node's own identity"
abbrev pub own_identity : Text
own_identity =
    112 ∷ 101 ∷ 101 ∷ 114 ∷ 32 ∷ 97 ∷ 100 ∷ 118 ∷ 101 ∷ 114 ∷ 116 ∷ 105 ∷ 115 ∷ 101 ∷ 115 ∷ 32 ∷ 116
    ∷ 104 ∷ 105 ∷ 115 ∷ 32 ∷ 110 ∷ 111 ∷ 100 ∷ 101 ∷ 39 ∷ 115 ∷ 32 ∷ 111 ∷ 119 ∷ 110 ∷ 32 ∷ 105
    ∷ 100 ∷ 101 ∷ 110 ∷ 116 ∷ 105 ∷ 116 ∷ 121 ∷ []

-- "peer echoed this connection's nonce"
abbrev pub echoed_nonce : Text
echoed_nonce =
    112 ∷ 101 ∷ 101 ∷ 114 ∷ 32 ∷ 101 ∷ 99 ∷ 104 ∷ 111 ∷ 101 ∷ 100 ∷ 32 ∷ 116 ∷ 104 ∷ 105 ∷ 115 ∷ 32
    ∷ 99 ∷ 111 ∷ 110 ∷ 110 ∷ 101 ∷ 99 ∷ 116 ∷ 105 ∷ 111 ∷ 110 ∷ 39 ∷ 115 ∷ 32 ∷ 110 ∷ 111 ∷ 110 ∷ 99
    ∷ 101 ∷ []

-- "handshake signature did not verify"
abbrev pub bad_signature : Text
bad_signature =
    104 ∷ 97 ∷ 110 ∷ 100 ∷ 115 ∷ 104 ∷ 97 ∷ 107 ∷ 101 ∷ 32 ∷ 115 ∷ 105 ∷ 103 ∷ 110 ∷ 97 ∷ 116 ∷ 117
    ∷ 114 ∷ 101 ∷ 32 ∷ 100 ∷ 105 ∷ 100 ∷ 32 ∷ 110 ∷ 111 ∷ 116 ∷ 32 ∷ 118 ∷ 101 ∷ 114 ∷ 105 ∷ 102
    ∷ 121 ∷ []

unfoldable pub refuse : {F : Type 0} → Handshake F → RejectReason → Handshake F × Step F
refuse h reason =
    (record h { state = finished }, record { send = reject reason ∷ []; outcome = refused reason })

abbrev answered : {F : Type 0} → Handshake F × Step F → Handshake F × Answer F
answered (h, step) = (h, ok step)

-- `Some` of a refusal.
abbrev pub refusing : {F : Type 0} → Handshake F × Step F → Handshake F × Option (Step F)
refusing (h, step) = (h, some step)

-- Hello and Welcome alike: the messages to send once the peer is admitted.
unfoldable pub greeted :
    {F : Type 0} → Handshake F × Option (Step F) → List (ControlMsg F) → Handshake F × Answer F
greeted (h, some step) send = (h, ok step)
greeted (h, none) send =
    (record h { state = awaiting_proof }, ok (record { send = send; outcome = continue }))

module _ {F Secret : Type 0} (c : Signing Secret) where
  unfoldable pub proven :
      Handshake F → NodeInfo F → List ℕ → ℕ × ℕ → List ℕ → TrustStore → Handshake F × Answer F
  proven h peer peer_nonce (protocol, peer_protocol) signature trust =
      if not (verify_handshake c peer.id h.binding h.local_nonce signature)
      then answered (refuse h (other_reason bad_signature))
      else (
        record h { state = finished },
        ok (record {
          send = [];
          outcome = established (record {
            role = h.role;
            peer = peer;
            protocol = protocol;
            peer_protocol = peer_protocol;
            local_nonce = h.local_nonce;
            peer_nonce = peer_nonce;
            peer_was_paired = is_paired trust peer.id;
          });
        }),
      )

module _ {F Secret : Type 0} ⦃c : Signing Secret⦄ where
  -- The handshake after the version check, and the refusal if there is one.
  unfoldable pub screen :
      Handshake F → NodeInfo F → List ℕ → Secret → TrustStore → Handshake F × Option (Step F)
  screen h info nonce identity trust =
      if info.id == node_id identity
      then refusing (refuse h (other_reason own_identity))
      else if same_bytes nonce h.local_nonce
      then refusing (refuse h (other_reason echoed_nonce))
      else if is_blocked trust info.id
      then refusing (refuse h blocked)
      else if not (is_paired trust info.id) && not h.pairing_mode
      then refusing (refuse h not_paired)
      else (record h { peer = some info; peer_nonce = some nonce }, none)

  unfoldable pub admit :
      Handshake F → ℕ → NodeInfo F → List ℕ → Secret → TrustStore → Handshake F × Option (Step F)
  admit h protocol info nonce identity trust = elim (check_version protocol) [
    | compatible effective ↦
        screen (record h { negotiated = some (effective, protocol) }) info nonce identity trust
    | peer_too_old peer min_supported ↦ refusing (refuse h (protocol_too_old min_supported))
  ]

  unfoldable pub in_state :
      State → Handshake F → ControlMsg F → Secret → TrustStore → Option (Handshake F × Answer F)
  in_state awaiting_hello h (hello protocol info nonce) identity trust = some (
      greeted (admit h protocol info nonce identity trust) (
        welcome protocol_version h.local_info h.local_nonce
        ∷ auth_proof (sign_handshake identity h.binding nonce)
        ∷ []))
  in_state awaiting_welcome h (welcome protocol info nonce) identity trust = some (
      greeted (admit h protocol info nonce identity trust)
        (auth_proof (sign_handshake identity h.binding nonce) ∷ []))
  in_state awaiting_proof h (auth_proof signature) identity trust = h.peer >>= λ peer.
      h.peer_nonce >>= λ nonce.
      h.negotiated >>= λ versions. some (proven c h peer nonce versions signature trust)
  in_state finished h msg identity trust = some (h, err already_finished)
  in_state state h other identity trust =
      some (h, err (out_of_order (expected state) (describe other)))

  unfoldable pub on_message :
      Handshake F → ControlMsg F → Secret → TrustStore → Option (Handshake F × Answer F)
  on_message h (reject reason) identity trust =
      some
        (record h { state = finished }, ok (record { send = []; outcome = refused_by_peer reason }))
  on_message h msg identity trust = in_state h.state h msg identity trust
