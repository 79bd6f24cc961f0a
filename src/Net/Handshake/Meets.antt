-- ===== src/Net/Handshake/Meets.antt =====
-- handshake.rs: two parties that would admit each other, from hello to proof.
use win_xtend.Prelude.{ℕ, suc, ◌≡◌, refl, if◌then◌else◌, some, List, [], ◌∷◌, ◌++◌, sym, ◌∙◌}
use win_xtend.Proto.Caps.{protocol_version}
use win_xtend.Net.Control.{ControlMsg, hello, welcome, auth_proof}
use win_xtend.Net.Identity.{Signing, SigningLaws, sign_handshake}
use win_xtend.Net.Handshake.{
  Role, initiator, responder, finished, Handshake, Outcome, continue, established, Established, ok,
  Step, on_message, new, with_pairing_mode, start, initiator_nonce, responder_nonce,
}
use win_xtend.Net.Handshake.Memory.{
  Party, ended, delivered, is_empty, deliver, rounds, run_in_memory,
}
use win_xtend.Net.Handshake.Exchange.{
  Welcomes, opening, greeting, agreed, on_message-hello, on_message-welcome, on_message-auth_proof,
}

module _ {F Secret : Type 0} ⦃c : Signing Secret⦄ where
  deliver_one :
      (msg : ControlMsg F) (inbox outbox : List (ControlMsg F)) (hs h' : Handshake F)
      (party : Party F Secret) (step : Step F)
      → on_message hs msg party.identity party.trust ≡ some (h', ok step)
      → deliver (msg ∷ inbox) hs party outbox continue
        ≡ deliver inbox h' party (outbox ++ step.send) step.outcome
  unfolding deliver
  deliver_one msg inbox outbox hs h' party step e = rw e refl

  round :
      (n : ℕ) (a a' b b' : Handshake F) (to_a to_a' to_b to_b' : List (ControlMsg F))
      (out_a out_a' out_b out_b' : Outcome F) (p q : Party F Secret)
      → deliver to_b b q to_a out_b ≡ some (delivered b' to_a' out_b')
      → deliver to_a' a p [] out_a ≡ some (delivered a' to_b' out_a')
      → rounds (suc n) a b to_a to_b out_a out_b p q ≡ (
          if is_empty to_b'
          then some (ended out_a', ended out_b')
          else rounds n a' b' [] to_b' out_a' out_b' p q)
  unfolding rounds
  round n a a' b b' to_a to_a' to_b to_b' out_a out_a' out_b out_b' p q d e = rw (d, e) refl

  closed : Role → Party F Secret → Party F Secret → Handshake F
  closed role p q = record (greeting role p q) { state = finished }

  proof_of : Party F Secret → Party F Secret → ControlMsg F
  proof_of p q = auth_proof (sign_handshake p.identity p.binding q.nonce)

  deliver-hello :
      (p q : Party F Secret)
      → Welcomes q p
      → deliver (hello protocol_version p.info p.nonce ∷ []) (opening responder q) q [] continue
        ≡ some (
            delivered
              (greeting responder q p)
              (welcome protocol_version q.info q.nonce ∷ proof_of q p ∷ [])
              continue)
  unfolding deliver proof_of
  deliver-hello p q v =
      deliver_one _ [] [] (opening responder q) (greeting responder q p) q _
        (on_message-hello q p v)

  deliver-welcome :
      (p q : Party F Secret)
      → SigningLaws c
      → Welcomes p q
      → p.binding ≡ q.binding
      → deliver
          (welcome protocol_version q.info q.nonce ∷ proof_of q p ∷ [])
          (opening initiator p)
          p
          []
          continue
        ≡ some (
            delivered
              (closed initiator p q)
              (proof_of p q ∷ [])
              (established (agreed initiator p q)))
  unfolding proof_of closed
  deliver-welcome p q laws w b =
      deliver_one _ (proof_of q p ∷ []) [] (opening initiator p) (greeting initiator p q) p _
        (on_message-welcome p q w)
      ∙ deliver_one (proof_of q p) [] (proof_of p q ∷ []) (greeting initiator p q)
          (closed initiator p q) p
          (record { send = []; outcome = established (agreed initiator p q) })
          (on_message-auth_proof initiator p q laws w b)
      ∙ unfold deliver in refl

  deliver-auth_proof :
      (p q : Party F Secret)
      → SigningLaws c
      → Welcomes q p
      → p.binding ≡ q.binding
      → deliver (proof_of p q ∷ []) (greeting responder q p) q [] continue
        ≡ some (delivered (closed responder q p) [] (established (agreed responder q p)))
  unfolding proof_of closed
  deliver-auth_proof p q laws v b =
      deliver_one (proof_of p q) [] [] (greeting responder q p) (closed responder q p) q
        (record { send = []; outcome = established (agreed responder q p) })
        (on_message-auth_proof responder q p laws v (sym b))
      ∙ unfold deliver in refl

  deliver_none :
      (hs : Handshake F) (p : Party F Secret) (o : Outcome F)
      → deliver [] hs p [] o ≡ some (delivered hs [] o)
  unfolding deliver
  deliver_none hs p o = refl

  -- The hello reaches the responder, its two answers reach the initiator, and the proof comes back.
  rounds_lem :
      (p q : Party F Secret)
      → SigningLaws c
      → Welcomes p q
      → Welcomes q p
      → p.binding ≡ q.binding
      → rounds 8
          (opening initiator p)
          (opening responder q)
          []
          (hello protocol_version p.info p.nonce ∷ [])
          continue
          continue
          p
          q
        ≡ some
            (ended (established (agreed initiator p q)), ended (established (agreed responder q p)))
  rounds_lem p q laws w v b =
      round 7 (opening initiator p) (closed initiator p q) (opening responder q)
        (greeting responder q p) [] _ _ (proof_of p q ∷ []) continue
        (established (agreed initiator p q)) continue continue p q (deliver-hello p q v)
        (deliver-welcome p q laws w b)
      ∙ round 6 (closed initiator p q) (closed initiator p q) (greeting responder q p)
          (closed responder q p) [] [] (proof_of p q ∷ []) [] _ (established (agreed initiator p q))
          continue (established (agreed responder q p)) p q (deliver-auth_proof p q laws v b)
          (deliver_none (closed initiator p q) p (established (agreed initiator p q)))

  -- Two parties on one connection, each of which would admit the other, both establish: each with
  -- the info of the other, on one protocol version, and with one view of which nonce is whose.
  pub run_in_memory-Agree :
      (p q : Party F Secret)
      → SigningLaws c
      → Welcomes p q
      → Welcomes q p
      → p.binding ≡ q.binding
      → (e e' : Established F) × (run_in_memory p q
          ≡ some (ended (established e), ended (established e')))
        × (e.peer ≡ q.info)
        × (e'.peer ≡ p.info)
        × (e.protocol ≡ e'.protocol)
        × (initiator_nonce e ≡ initiator_nonce e')
        × (responder_nonce e ≡ responder_nonce e')
  unfolding run_in_memory opening new with_pairing_mode start agreed
  run_in_memory-Agree p q laws w v b = (
    agreed initiator p q,
    agreed responder q p,
    rounds_lem p q laws w v b,
    refl,
    refl,
    refl,
    refl,
    refl,
  )
