-- ===== src/Net/Handshake/Sound.antt =====
-- handshake.rs: what one side has checked by the time that it establishes, over any history of
-- messages.
use win_xtend.Prelude.{
  ℕ, ◌≡◌, refl, sym, subst, ◌∙◌, Bool, true, Option, some, ◌>>=◌, List, [], ◌∷◌, arith, All,
}
use win_xtend.Net.Control.{NodeInfo, ControlMsg, hello, welcome, auth_proof, reject}
use win_xtend.Net.Trust.{TrustStore}
use win_xtend.Net.Identity.{Signing, ChannelBinding, verify_handshake}
use win_xtend.Net.Handshake.{
  Role, initiator, responder, State, awaiting_hello, awaiting_proof, awaiting_welcome, finished,
  Handshake, Outcome, continue, established, refused, refused_by_peer, Answer, err, ok, in_state,
  on_message, new, with_pairing_mode,
}
use win_xtend.Net.Handshake.Vetted.{
  Signed, OfOutcome, OfAnswer, Ready, SameSetup, Kept, carried_over, admit-Screened, greeted-Kept,
  proven-Kept,
}

module _ {F Secret : Type 0} ⦃c : Signing Secret⦄ (identity : Secret) (trust : TrustStore) where
  -- It never panics, and what it answers is genuine.
  Proceeds : Handshake F → ControlMsg F → Option (Handshake F × Answer F) → Type 0
  Proceeds h msg o = (r : Handshake F × Answer F) × (o ≡ some r) × Kept identity trust h msg r

  in_state-Kept :
      (s : State) (h : Handshake F) (msg : ControlMsg F)
      → h.state ≡ s
      → Ready identity trust h
      → Proceeds h msg (in_state s h msg identity trust)
  unfolding in_state Proceeds
  in_state-Kept awaiting_hello h (hello protocol info nonce) e r = (
    _,
    refl,
    greeted-Kept identity trust h _ protocol info nonce _ _
        (admit-Screened identity trust h protocol info nonce),
  )
  in_state-Kept awaiting_welcome h (welcome protocol info nonce) e r = (
    _,
    refl,
    greeted-Kept identity trust h _ protocol info nonce _ _
        (admit-Screened identity trust h protocol info nonce),
  )
  in_state-Kept awaiting_proof h (auth_proof signature) e r =
      let p = r e in
      (
        _,
        simp (p.peer_recorded, p.nonce_recorded, p.versions_recorded),
        proven-Kept identity trust h (auth_proof signature) p signature refl,
      )
  in_state-Kept finished h msg e r = (_, refl, (r, (refl, refl, refl, refl), tt))
  in_state-Kept awaiting_hello h msg e r = (_, refl, (r, (refl, refl, refl, refl), tt))
  in_state-Kept awaiting_welcome h msg e r = (_, refl, (r, (refl, refl, refl, refl), tt))
  in_state-Kept awaiting_proof h msg e r = (_, refl, (r, (refl, refl, refl, refl), tt))

  on_message-Kept :
      (h : Handshake F) (msg : ControlMsg F)
      → Ready identity trust h
      → Proceeds h msg (on_message h msg identity trust)
  unfolding on_message Proceeds
  on_message-Kept h (reject reason) r =
      (_, refl, ((λ w. absurd (ground arith)), (refl, refl, refl, refl), tt))
  on_message-Kept h msg r = in_state-Kept h.state h msg refl r

  -- What a handshake answers to each message, one after the other; `none` if it panics.
  pub run : Handshake F → List (ControlMsg F) → Option (List (ControlMsg F × Answer F))
  run h [] = some []
  run h (msg ∷ msgs) =
      on_message h msg identity trust >>= λ r. run r.0 msgs >>= λ rest. some ((msg, r.1) ∷ rest)

  -- Genuine for one handshake is genuine for any with its set-up.
  genuine_again :
      (start h : Handshake F) (msg : ControlMsg F) (answer : Answer F)
      → SameSetup identity trust start h
      → OfAnswer identity trust h msg answer
      → OfAnswer identity trust start msg answer
  unfolding Signed
  genuine_again start h msg (err e) same g = tt
  genuine_again start h msg (ok step) same g = go step.outcome g
    where
      go : (o : Outcome F) → OfOutcome identity trust h msg o → OfOutcome identity trust start msg o
      go continue g = tt
      go (refused reason) g = tt
      go (refused_by_peer reason) g = tt
      go (established e) g = record {
        vetted =
            carried_over identity trust h start (sym same.0, sym same.1, sym same.2, sym same.3)
              g.vetted;
        signed = (
          g.signed.0,
          g.signed.1,
          subst (λ b. verify_handshake c e.peer.id b start.local_nonce g.signed.0 ≡ true) same.2
              (subst (λ n. verify_handshake c e.peer.id h.binding n g.signed.0 ≡ true) same.1
                g.signed.2),
        );
        same_role = g.same_role ∙ same.0;
        same_nonce = g.same_nonce ∙ same.1;
        was_paired = g.was_paired;
      }

  abbrev pub Genuinely : Handshake F → ControlMsg F × Answer F → Type 0
  Genuinely h entry = OfAnswer identity trust h entry.0 entry.1

  -- The history goes through, and everything that it establishes is genuine.
  abbrev pub Told : Handshake F → Option (List (ControlMsg F × Answer F)) → Type 0
  Told start o =
      (trace : List (ControlMsg F × Answer F)) × (o ≡ some trace) × All (Genuinely start) trace

  run_on :
      (h h' : Handshake F) (msg : ControlMsg F) (answer : Answer F) (msgs : List (ControlMsg F))
      {trace : List (ControlMsg F × Answer F)}
      → on_message h msg identity trust ≡ some (h', answer)
      → run h' msgs ≡ some trace
      → run h (msg ∷ msgs) ≡ some ((msg, answer) ∷ trace)
  unfolding run
  run_on h h' msg answer msgs e t = simp (e, t)

  history_on :
      (h h' start : Handshake F) (msg : ControlMsg F) (answer : Answer F)
      (msgs : List (ControlMsg F))
      → on_message h msg identity trust ≡ some (h', answer)
      → OfAnswer identity trust start msg answer
      → Told start (run h' msgs)
      → Told start (run h (msg ∷ msgs))
  history_on h h' start msg answer msgs e told (trace, t, all) =
      ((msg, answer) ∷ trace, run_on h h' msg answer msgs e t, (told, all))

  run-Told :
      (h start : Handshake F) (msgs : List (ControlMsg F))
      → Ready identity trust h
      → SameSetup identity trust start h
      → Told start (run h msgs)
  unfolding Proceeds
  run-Told h start [] r same = ([], unfold run in refl, tt)
  run-Told h start (msg ∷ msgs) r same =
      go (λ h' r' same'. run-Told h' start msgs r' same') (on_message-Kept h msg r)
    where
      go :
          ((h' : Handshake F)
            → Ready identity trust h'
            → SameSetup identity trust start h'
            → Told start (run h' msgs))
          → Proceeds h msg (on_message h msg identity trust)
          → Told start (run h (msg ∷ msgs))
      go later ((h', answer), e, (r', same', told)) =
          history_on h h' start msg answer msgs e (genuine_again start h msg answer same told)
            (later h' r' (same'.0 ∙ same.0, same'.1 ∙ same.1, same'.2 ∙ same.2, same'.3 ∙ same.3))

  -- Whatever messages come, in any number and any order, a new handshake answers each without a
  -- panic, and each time that it says Established: the message was a signature by the node id that
  -- it names, over this connection and this side's nonce; that node is not this one, did not send
  -- this side's nonce back, is not blocked, and is paired unless pairing is allowed; the version is
  -- what the check of the peer's version gives; and the role, the nonce and the pairing status are
  -- reported as they are.
  pub run-new-Told :
      (role : Role) (info : NodeInfo F) (nonce : List ℕ) (binding : ChannelBinding) (enabled : Bool)
      (msgs : List (ControlMsg F))
      → let h = with_pairing_mode (new role info nonce binding) enabled in Told h (run h msgs)
  unfolding new with_pairing_mode
  run-new-Told initiator info nonce binding enabled msgs =
      run-Told _ _ msgs (λ e. absurd (ground arith)) (refl, refl, refl, refl)
  run-new-Told responder info nonce binding enabled msgs =
      run-Told _ _ msgs (λ e. absurd (ground arith)) (refl, refl, refl, refl)
