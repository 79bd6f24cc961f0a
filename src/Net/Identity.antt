-- ===== src/Net/Identity.antt =====
-- crates/wx-net/src/identity.rs: the signature that a machine gives over one connection and the
-- other side's nonce. Ed25519 is the `ed25519_dalek` crate's: a parameter, with what it documents
-- as `SigningLaws`.
use win_xtend.Prelude.{ℕ, ◌≡◌, Bool, true, false, if◌then◌else◌, List, [], ◌∷◌, ◌++◌}
use win_xtend.Proto.Ids.{NodeId}

pub record Signing (Secret : Type 0) : Type 0 where
  pub verifying_key : Secret → NodeId
  pub sign : Secret → List ℕ → List ℕ
  -- Whether the bytes are a point of the curve, and whether the signature is the key's.
  pub is_key : NodeId → Bool
  pub verify_strict : NodeId → List ℕ → List ℕ → Bool

-- A key pair's public half is a key, and verifies what the secret half signs.
pub record SigningLaws {Secret : Type 0} (c : Signing Secret) : Type 0 where
  pub key_is_key : (s : Secret) → c.is_key (c.verifying_key s) ≡ true
  pub signed_verifies :
      (s : Secret) (m : List ℕ) → c.verify_strict (c.verifying_key s) m (c.sign s m) ≡ true

-- "winxtend-handshake-v2"
abbrev handshake_context : List ℕ
handshake_context =
    119 ∷ 105 ∷ 110 ∷ 120 ∷ 116 ∷ 101 ∷ 110 ∷ 100 ∷ 45 ∷ 104 ∷ 97 ∷ 110 ∷ 100 ∷ 115 ∷ 104 ∷ 97 ∷ 107
    ∷ 101 ∷ 45 ∷ 118 ∷ 50 ∷ []

-- 32 bytes, exported by the connection's TLS session.
abbrev pub ChannelBinding : Type 0
ChannelBinding = List ℕ

unfoldable pub handshake_message : ChannelBinding → List ℕ → List ℕ
handshake_message binding nonce = handshake_context ++ (binding ++ nonce)

module _ {Secret : Type 0} ⦃c : Signing Secret⦄ where
  unfoldable pub node_id : Secret → NodeId
  node_id identity = c.verifying_key identity

  unfoldable pub sign_handshake : Secret → ChannelBinding → List ℕ → List ℕ
  sign_handshake identity binding nonce = c.sign identity (handshake_message binding nonce)

module _ {Secret : Type 0} (c : Signing Secret) where
  unfoldable pub verify_handshake : NodeId → ChannelBinding → List ℕ → List ℕ → Bool
  verify_handshake node binding nonce sig =
      if c.is_key node then c.verify_strict node (handshake_message binding nonce) sig else false

-- A machine's own signature verifies under its own node id.
module _ {Secret : Type 0} ⦃c : Signing Secret⦄ (laws : SigningLaws c) where
  pub verify_handshake-sign_handshake :
      (s : Secret) (binding nonce : List ℕ)
      → verify_handshake c (node_id s) binding nonce (sign_handshake s binding nonce) ≡ true
  unfolding verify_handshake node_id sign_handshake
  verify_handshake-sign_handshake s binding nonce =
      rw (laws.key_is_key s) (laws.signed_verifies s (handshake_message binding nonce))
