-- ===== src/Net/Handshake/Vetted.antt =====
-- handshake.rs: what admitting a peer and checking its proof establish, and what a waiting
-- handshake has recorded.
use win_xtend.Prelude.{
  ℕ, ◌≡◌, refl, sym, subst, Bool, true, false, not, ◌&&◌, ◌||◌, ◌==◌, Option, none, some, List,
  arith, ◌⊎◌, Bool-cases, inl, inr,
}
use win_xtend.Proto.Caps.{VersionCheck, check_version, compatible, peer_too_old}
use win_xtend.Net.Control.{NodeInfo, ControlMsg, RejectReason, protocol_too_old, auth_proof}
use win_xtend.Net.Trust.{TrustStore, is_paired, is_blocked}
use win_xtend.Net.Identity.{Signing, node_id, verify_handshake}
use win_xtend.Net.Handshake.{
  awaiting_proof, finished, Handshake, Outcome, continue, established, refused, refused_by_peer,
  Established, Answer, err, ok, Step, same_bytes, refuse, refusing, screen, admit, greeted, proven,
}

VersionCheck-cases :
    (v : VersionCheck)
    → ((e : ℕ) × (v ≡ compatible e)) ⊎ ((p : ℕ) × (m : ℕ) × (v ≡ peer_too_old p m))
VersionCheck-cases (compatible e) = inl (e, refl)
VersionCheck-cases (peer_too_old p m) = inr (p, m, refl)

module _ {F Secret : Type 0} ⦃c : Signing Secret⦄ (identity : Secret) (trust : TrustStore) where
  -- What `admit` lets through: the peer's info, its nonce, and the two versions.
  pub record Vetted (h : Handshake F) (p : NodeInfo F) (n : List ℕ) (effective theirs : ℕ)
      : Type 0 where
    pub another : (p.id == node_id identity) ≡ false
    pub fresh : same_bytes n h.local_nonce ≡ false
    pub allowed : is_blocked trust p.id ≡ false
    pub known : (is_paired trust p.id || h.pairing_mode) ≡ true
    pub negotiable : check_version theirs ≡ compatible effective

  -- The peer's signature over this connection and this side's nonce.
  unfoldable pub Signed : Handshake F → ControlMsg F → NodeInfo F → Type 0
  Signed h msg p =
      (signature : List ℕ) × (msg ≡ auth_proof signature)
      × (verify_handshake c p.id h.binding h.local_nonce signature ≡ true)

  pub record Genuine (h : Handshake F) (msg : ControlMsg F) (e : Established F) : Type 0 where
    pub vetted : Vetted h e.peer e.peer_nonce e.protocol e.peer_protocol
    pub signed : Signed h msg e.peer
    pub same_role : e.role ≡ h.role
    pub same_nonce : e.local_nonce ≡ h.local_nonce
    pub was_paired : e.peer_was_paired ≡ is_paired trust e.peer.id

  abbrev pub OfOutcome : Handshake F → ControlMsg F → Outcome F → Type 0
  OfOutcome h msg continue = Unit
  OfOutcome h msg (established e) = Genuine h msg e
  OfOutcome h msg (refused reason) = Unit
  OfOutcome h msg (refused_by_peer reason) = Unit

  abbrev pub OfAnswer : Handshake F → ControlMsg F → Answer F → Type 0
  OfAnswer h msg (ok step) = OfOutcome h msg step.outcome
  OfAnswer h msg (err e) = Unit

  -- What a handshake that waits for the proof has recorded.
  pub record Pending (h : Handshake F) : Type 0 where
    pub peer : NodeInfo F
    pub nonce : List ℕ
    pub versions : ℕ × ℕ
    pub peer_recorded : h.peer ≡ some peer
    pub nonce_recorded : h.peer_nonce ≡ some nonce
    pub versions_recorded : h.negotiated ≡ some versions
    pub vetted : Vetted h peer nonce versions.0 versions.1

  abbrev pub Ready : Handshake F → Type 0
  Ready h = h.state ≡ awaiting_proof → Pending h

  abbrev pub SameSetup : Handshake F → Handshake F → Type 0
  SameSetup h h' =
      (h'.role ≡ h.role)
      × (h'.local_nonce ≡ h.local_nonce)
      × (h'.binding ≡ h.binding)
      × (h'.pairing_mode ≡ h.pairing_mode)

  pub carried_over :
      (h h' : Handshake F) {p : NodeInfo F} {n : List ℕ} {effective theirs : ℕ}
      → SameSetup h h'
      → Vetted h p n effective theirs
      → Vetted h' p n effective theirs
  carried_over h h' same v = record {
    another = v.another;
    fresh = rw same.1 v.fresh;
    allowed = v.allowed;
    known = rw same.3 v.known;
    negotiable = v.negotiable;
  }

  abbrev pub Kept : Handshake F → ControlMsg F → Handshake F × Answer F → Type 0
  Kept h msg r = Ready r.0 × SameSetup h r.0 × OfAnswer h msg r.1

  -- A refusal, or the peer recorded and vetted.
  abbrev Screened : Handshake F → NodeInfo F → List ℕ → ℕ → Handshake F × Option (Step F) → Type 0
  Screened h info nonce protocol (h', some step) =
      (h'.state ≡ finished)
      × SameSetup h h'
      × ((reason : RejectReason) × (step.outcome ≡ refused reason))
  Screened h info nonce protocol (h', none) =
      SameSetup h h'
      × (h'.peer ≡ some info)
      × (h'.peer_nonce ≡ some nonce)
      × ((effective : ℕ) × (h'.negotiated ≡ some (effective, protocol))
          × Vetted h info nonce effective protocol)

  screen-Screened :
      (h : Handshake F) (protocol effective : ℕ) (info : NodeInfo F) (nonce : List ℕ)
      → check_version protocol ≡ compatible effective
      → Screened h info nonce protocol
          (screen (record h { negotiated = some (effective, protocol) }) info nonce identity trust)
  unfolding screen refuse
  screen-Screened h protocol effective info nonce v =
      elim (Bool-cases (info.id == node_id identity)) [
        | inl own ↦ rw own (refl, (refl, refl, refl, refl), (_, refl))
        | inr another ↦ elim (Bool-cases (same_bytes nonce h.local_nonce)) [
          | inl echo ↦ rw (another, echo) (refl, (refl, refl, refl, refl), (_, refl))
          | inr fresh ↦ elim (Bool-cases (is_blocked trust info.id)) [
            | inl banned ↦ rw (another, fresh, banned) (refl, (refl, refl, refl, refl), (_, refl))
            | inr allowed ↦ elim (Bool-cases (is_paired trust info.id || h.pairing_mode)) [
              | inl known ↦
                  rw (another, fresh, allowed, unknown known)
                    (
                      (refl, refl, refl, refl),
                      refl,
                      refl,
                      (
                        effective,
                        refl,
                        record {
                          another = another;
                          fresh = fresh;
                          allowed = allowed;
                          known = known;
                          negotiable = v;
                        },
                      ),
                    )
              | inr stranger ↦
                  rw (another, fresh, allowed, unknown stranger)
                    (refl, (refl, refl, refl, refl), (_, refl))
            ]
          ]
        ]
      ]
    where
      unknown :
          {b : Bool}
          → (is_paired trust info.id || h.pairing_mode) ≡ b
          → (not (is_paired trust info.id) && not h.pairing_mode) ≡ not b
      unknown e = ground arith

  admit_compatible :
      (h : Handshake F) (protocol effective : ℕ) (info : NodeInfo F) (nonce : List ℕ)
      → check_version protocol ≡ compatible effective
      → admit h protocol info nonce identity trust
        ≡ screen (record h { negotiated = some (effective, protocol) }) info nonce identity trust
  unfolding admit
  admit_compatible h protocol effective info nonce v = rw (v, admit) refl

  admit_too_old :
      (h : Handshake F) (protocol newest floor : ℕ) (info : NodeInfo F) (nonce : List ℕ)
      → check_version protocol ≡ peer_too_old newest floor
      → admit h protocol info nonce identity trust ≡ refusing (refuse h (protocol_too_old floor))
  unfolding admit
  admit_too_old h protocol newest floor info nonce v = rw (v, admit) refl

  pub admit-Screened :
      (h : Handshake F) (protocol : ℕ) (info : NodeInfo F) (nonce : List ℕ)
      → Screened h info nonce protocol (admit h protocol info nonce identity trust)
  unfolding refuse
  admit-Screened h protocol info nonce = elim (VersionCheck-cases (check_version protocol)) [
    | inl (effective, v) ↦
        subst (Screened h info nonce protocol)
          (sym (admit_compatible h protocol effective info nonce v))
          (screen-Screened h protocol effective info nonce v)
    | inr (newest, floor, v) ↦
        subst (Screened h info nonce protocol)
          (sym (admit_too_old h protocol newest floor info nonce v))
          (refl, (refl, refl, refl, refl), (_, refl))
  ]

  pub greeted-Kept :
      (h : Handshake F) (msg : ControlMsg F) (protocol : ℕ) (info : NodeInfo F) (nonce : List ℕ)
      (r : Handshake F × Option (Step F)) (send : List (ControlMsg F))
      → Screened h info nonce protocol r
      → Kept h msg (greeted r send)
  unfolding greeted
  greeted-Kept h msg protocol info nonce (h', some step) send (e, same, (reason, k)) =
      ((λ w. absurd (cc)), same, rw k tt)
  greeted-Kept h msg protocol info nonce (h', none) send (same, p, n, (effective, v, vetted)) = (
    (λ w. record {
      peer = info;
      nonce = nonce;
      versions = (effective, protocol);
      peer_recorded = p;
      nonce_recorded = n;
      versions_recorded = v;
      vetted = carried_over h (record h' { state = awaiting_proof }) same vetted;
    }),
    same,
    tt,
  )

  pub proven-Kept :
      (h : Handshake F) (msg : ControlMsg F) (p : Pending h) (signature : List ℕ)
      → msg ≡ auth_proof signature
      → Kept h msg (proven c h p.peer p.nonce p.versions signature trust)
  unfolding proven refuse Signed
  proven-Kept h msg p signature m =
      elim (Bool-cases (verify_handshake c p.peer.id h.binding h.local_nonce signature)) [
        | inl good ↦ rw good (
          (λ w. absurd (ground arith)),
          (refl, refl, refl, refl),
          record {
            vetted = p.vetted;
            signed = (signature, m, good);
            same_role = refl;
            same_nonce = refl;
            was_paired = refl;
          },
        )
        | inr bad ↦ rw bad ((λ w. absurd (ground arith)), (refl, refl, refl, refl), tt)
      ]
