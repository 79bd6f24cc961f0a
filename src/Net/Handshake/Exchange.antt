-- ===== src/Net/Handshake/Exchange.antt =====
-- handshake.rs: what a party answers to another that it would admit.
use win_xtend.Prelude.{
  ℕ, ◌≡◌, refl, true, false, not, ◌&&◌, ◌||◌, ◌==◌, none, some, List, [], ◌∷◌, arith, ap,
}
use win_xtend.Proto.Caps.{protocol_version, check_version, negotiate}
use win_xtend.Net.Control.{NodeInfo, hello, welcome, auth_proof}
use win_xtend.Net.Trust.{TrustStore, is_paired, is_blocked}
use win_xtend.Net.Identity.{
  Signing, SigningLaws, node_id, sign_handshake, verify_handshake, verify_handshake-sign_handshake,
}
use win_xtend.Net.Handshake.{
  Role, initiator, responder, awaiting_proof, finished, Handshake, continue, established,
  Established, ok, on_message, in_state, same_bytes, screen, admit, greeted, proven, new,
  with_pairing_mode,
}
use win_xtend.Net.Handshake.Memory.{Party}

module _ {F Secret : Type 0} ⦃c : Signing Secret⦄ where
  -- `party` would admit `other`: another machine, with a nonce of its own, neither blocked nor a
  -- stranger; and the info that `other` sends names its own key.
  pub record Welcomes (party other : Party F Secret) : Type 0 where
    pub another : (other.info.id == node_id party.identity) ≡ false
    pub fresh : same_bytes other.nonce party.nonce ≡ false
    pub allowed : is_blocked party.trust other.info.id ≡ false
    pub known : (is_paired party.trust other.info.id || party.pairing_mode) ≡ true
    pub own_info : other.info.id ≡ node_id other.identity

  screen_clear :
      (h : Handshake F) (info : NodeInfo F) (nonce : List ℕ) (identity : Secret)
      (trust : TrustStore)
      → (info.id == node_id identity) ≡ false
      → same_bytes nonce h.local_nonce ≡ false
      → is_blocked trust info.id ≡ false
      → (is_paired trust info.id || h.pairing_mode) ≡ true
      → screen h info nonce identity trust
        ≡ (record h { peer = some info; peer_nonce = some nonce }, none)
  unfolding screen
  screen_clear h info nonce identity trust another fresh allowed known =
      rw (another, fresh, allowed, stranger known) refl
    where
      stranger :
          (is_paired trust info.id || h.pairing_mode) ≡ true
          → (not (is_paired trust info.id) && not h.pairing_mode) ≡ false
      stranger e = ground arith

  -- Each side of the exchange, at each stage.
  unfoldable pub opening : Role → Party F Secret → Handshake F
  opening role p = with_pairing_mode (new role p.info p.nonce p.binding) p.pairing_mode

  unfoldable pub greeting : Role → Party F Secret → Party F Secret → Handshake F
  unfolding opening
  greeting role p q = record (opening role p) {
    state = awaiting_proof;
    peer = some q.info;
    peer_nonce = some q.nonce;
    negotiated = some (1, 1);
  }

  unfoldable pub agreed : Role → Party F Secret → Party F Secret → Established F
  agreed role p q = record {
    role = role;
    peer = q.info;
    protocol = 1;
    peer_protocol = 1;
    local_nonce = p.nonce;
    peer_nonce = q.nonce;
    peer_was_paired = is_paired p.trust q.info.id;
  }

  pub on_message-hello :
      (p q : Party F Secret)
      → Welcomes p q
      → on_message (opening responder p) (hello protocol_version q.info q.nonce) p.identity p.trust
        ≡ some (
          greeting responder p q,
          ok (record {
            send =
                welcome protocol_version p.info p.nonce
                ∷ auth_proof (sign_handshake p.identity p.binding q.nonce)
                ∷ [];
            outcome = continue;
          }),
        )
  unfolding on_message in_state opening greeting new with_pairing_mode admit greeted check_version
      negotiate
  on_message-hello p q w =
      ap
        (λ r. some (
          greeted r (
            welcome protocol_version p.info p.nonce
            ∷ auth_proof (sign_handshake p.identity p.binding q.nonce)
            ∷ [])))
        (screen_clear _ q.info q.nonce p.identity p.trust w.another w.fresh w.allowed w.known)

  pub on_message-welcome :
      (p q : Party F Secret)
      → Welcomes p q
      → on_message
          (opening initiator p)
          (welcome protocol_version q.info q.nonce)
          p.identity
          p.trust
        ≡ some (
          greeting initiator p q,
          ok (record {
            send = auth_proof (sign_handshake p.identity p.binding q.nonce) ∷ [];
            outcome = continue;
          }),
        )
  unfolding on_message in_state opening greeting new with_pairing_mode admit greeted check_version
      negotiate
  on_message-welcome p q w =
      ap (λ r. some (greeted r (auth_proof (sign_handshake p.identity p.binding q.nonce) ∷ [])))
        (screen_clear _ q.info q.nonce p.identity p.trust w.another w.fresh w.allowed w.known)

  pub on_message-auth_proof :
      (role : Role) (p q : Party F Secret)
      → SigningLaws c
      → Welcomes p q
      → p.binding ≡ q.binding
      → on_message
          (greeting role p q)
          (auth_proof (sign_handshake q.identity q.binding p.nonce))
          p.identity
          p.trust
        ≡ some (
          record (greeting role p q) { state = finished },
          ok (record { send = []; outcome = established (agreed role p q) }),
        )
  unfolding on_message in_state opening greeting new with_pairing_mode proven agreed
  on_message-auth_proof role p q laws w b = rw (verified p q laws w b) refl
    where
      verified :
          (p q : Party F Secret)
          → SigningLaws c
          → Welcomes p q
          → p.binding ≡ q.binding
          → verify_handshake c q.info.id p.binding p.nonce
              (sign_handshake q.identity q.binding p.nonce)
            ≡ true
      verified p q laws w b =
          rw (b, w.own_info) (verify_handshake-sign_handshake laws q.identity q.binding p.nonce)
