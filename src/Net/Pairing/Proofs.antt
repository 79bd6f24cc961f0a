-- ===== src/Net/Pairing/Proofs.antt =====
-- pairing.rs: which proofs of knowing the PIN are accepted.
use win_xtend.Prelude.{
  ℕ, ◌≡◌, ◌≢◌, refl, sym, ap, ap₂, subst, ◌∙◌, bit_or, bit_xor, Bool, true, false, ◌&&◌, ◌==◌, List,
  [], ◌∷◌, ◌++◌, length, arith, cons_head, cons_tail, ==-self, drop, get_or,
}
use win_xtend.Prelude.Bits.{bit_or-eq-zero, bit_xor-eq-zero, bit_xor_self}
use win_xtend.Net.Handshake.{
  Role, initiator, responder, peer_role, Established, initiator_nonce, responder_nonce, same_bytes,
}
use win_xtend.Net.Pairing.{
  Digests, Compares, Pin, pin_digits, ok, pairing_input, zip, differences, fold_difference,
  constant_time_eq, pairing_proof, verify_pairing_proof, new, confirm, accepts,
}

same_truth : (a b : Bool) → (a ≡ true → b ≡ true) → (b ≡ true → a ≡ true) → a ≡ b
same_truth true b f g = sym (f refl)
same_truth false true f g = g refl
same_truth false false f g = refl

pub same_bytes_sound : (xs ys : List ℕ) → same_bytes xs ys ≡ true → xs ≡ ys
same_bytes_sound [] [] h = refl
same_bytes_sound [] (y ∷ ys) h = absurd (ground arith)
same_bytes_sound (x ∷ xs) [] h = absurd (ground arith)
same_bytes_sound (x ∷ xs) (y ∷ ys) h =
    ap₂ (λ a b. a ∷ b) (ground arith) (same_bytes_sound xs ys (ground arith))

pub same_bytes_self : (xs : List ℕ) → same_bytes xs xs ≡ true
same_bytes_self [] = refl
same_bytes_self (x ∷ xs) = ground (arith, same_bytes_self xs)

pub same_bytes-length : (xs ys : List ℕ) → same_bytes xs ys ≡ true → length xs ≡ length ys
same_bytes-length xs ys h = ap length (same_bytes_sound xs ys h)

differences-start : (diff : ℕ) (pairs : List (ℕ × ℕ)) → differences diff pairs ≡ 0 → diff ≡ 0
unfolding differences
differences-start diff [] e = e
differences-start diff ((x, y) ∷ pairs) e =
    (bit_or-eq-zero diff (bit_xor x y) (differences-start (bit_or diff (bit_xor x y)) pairs e)).0

differences_lem :
    (diff : ℕ) (xs ys : List ℕ) → length xs ≡ length ys → differences diff (zip xs ys) ≡ 0 → xs ≡ ys
unfolding differences zip
differences_lem diff [] [] h e = refl
differences_lem diff [] (y ∷ ys) h e = absurd (omega arith)
differences_lem diff (x ∷ xs) [] h e = absurd (omega arith)
differences_lem diff (x ∷ xs) (y ∷ ys) h e =
    ap₂ (λ a b. a ∷ b)
      (bit_xor-eq-zero x y
        (bit_or-eq-zero diff (bit_xor x y)
          (differences-start (bit_or diff (bit_xor x y)) (zip xs ys) e)).1)
      (differences_lem (bit_or diff (bit_xor x y)) xs ys (omega arith) e)

differences_self : (xs : List ℕ) → differences 0 (zip xs xs) ≡ 0
unfolding differences zip
differences_self [] = refl
differences_self (x ∷ xs) =
    ap (λ t. differences (bit_or 0 t) (zip xs xs)) (bit_xor_self x) ∙ differences_self xs

constant_time_eq_self : (d : Digests) (xs : List ℕ) → Compares d → constant_time_eq d xs xs ≡ true
unfolding constant_time_eq fold_difference
constant_time_eq_self d xs compares =
    rw (==-self (length xs)) (ap (λ t. d.ct_eq t 0) (differences_self xs) ∙ compares 0 0)

constant_time_eq_sound :
    (d : Digests) (xs ys : List ℕ) → Compares d → constant_time_eq d xs ys ≡ true → xs ≡ ys
unfolding constant_time_eq fold_difference
constant_time_eq_sound d xs ys compares e = differences_lem 0 xs ys (ground arith) (
    zero (differences 0 (zip xs ys)) (
      sym (compares (differences 0 (zip xs ys)) 0)
      ∙ second (length xs == length ys) (d.ct_eq (differences 0 (zip xs ys)) 0) e))
  where
    zero : (n : ℕ) → (n == 0) ≡ true → n ≡ 0
    zero n h = ground arith

    second : (a b : Bool) → (a && b) ≡ true → b ≡ true
    second a b h = ground arith

-- Byte by byte without branches, or up to the first difference: the same answer.
constant_time_eq_lem :
    (d : Digests) (xs ys : List ℕ) → Compares d → constant_time_eq d xs ys ≡ same_bytes xs ys
constant_time_eq_lem d xs ys compares =
    same_truth (constant_time_eq d xs ys) (same_bytes xs ys)
      (λ e.
        subst (λ t. same_bytes xs t ≡ true) (constant_time_eq_sound d xs ys compares e)
          (same_bytes_self xs))
      (λ e.
        subst (λ t. constant_time_eq d xs t ≡ true) (same_bytes_sound xs ys e)
          (constant_time_eq_self d xs compares))

-- No two of these inputs hash alike.
abbrev pub Distinct : Digests → List ℕ → List ℕ → Type 0
Distinct d x y = d.sha256 x ≡ d.sha256 y → x ≡ y

append-same_length : (p q r : List ℕ) → length p ≡ length q → p ++ r ≡ q ++ r → p ≡ q
append-same_length [] [] r n e = refl
append-same_length [] (y ∷ q) r n e = absurd (omega arith)
append-same_length (x ∷ p) [] r n e = absurd (omega arith)
append-same_length (x ∷ p) (y ∷ q) r n e =
    ap₂ (λ a b. a ∷ b) (cons_head e) (append-same_length p q r (omega arith) (cons_tail e))

pairing_input-same_pin :
    (p q initiating responding : List ℕ) (prover : Role)
    → length p ≡ length q
    → pairing_input p initiating responding prover ≡ pairing_input q initiating responding prover
    → p ≡ q
unfolding pairing_input
pairing_input-same_pin p q initiating responding prover n e =
    append-same_length p q (initiating ++ responding) n (ap (drop 21) e)

pairing_input-same_prover :
    (p q initiating responding : List ℕ) (r : Role)
    → pairing_input p initiating responding (peer_role r) ≢ pairing_input q initiating responding r
unfolding pairing_input
pairing_input-same_prover p q initiating responding initiator e =
    absurd (omega (arith, ap (λ t. get_or t 19 0) e))
pairing_input-same_prover p q initiating responding responder e =
    absurd (omega (arith, ap (λ t. get_or t 19 0) e))

-- Hashes compare as what they were made of.
same_hash :
    (d : Digests) (p q x y : List ℕ)
    → (d.sha256 x ≡ d.sha256 y → p ≡ q)
    → (p ≡ q → x ≡ y)
    → same_bytes (d.sha256 x) (d.sha256 y) ≡ same_bytes p q
same_hash d p q x y back there =
    same_truth (same_bytes (d.sha256 x) (d.sha256 y)) (same_bytes p q)
      (λ e. subst (λ t. same_bytes p t ≡ true) (back (same_bytes_sound _ _ e)) (same_bytes_self p))
      (λ e.
        subst (λ t. same_bytes (d.sha256 x) (d.sha256 t) ≡ true) (there (same_bytes_sound p q e))
          (same_bytes_self (d.sha256 x)))

verify_pairing_proof-same_pin :
    (d : Digests) (p q initiating responding : List ℕ) (prover : Role)
    → Compares d
    → length p ≡ length q
    → Distinct d
        (pairing_input p initiating responding prover)
        (pairing_input q initiating responding prover)
    → verify_pairing_proof d p initiating responding prover
        (pairing_proof d q initiating responding prover)
      ≡ same_bytes p q
unfolding verify_pairing_proof pairing_proof
verify_pairing_proof-same_pin d p q initiating responding prover compares n apart =
    constant_time_eq_lem d _ _ compares
    ∙ same_hash d p q _ _ (λ e. pairing_input-same_pin p q initiating responding prover n (apart e))
        (ap (λ t. pairing_input t initiating responding prover))

verify_pairing_proof-own :
    (d : Digests) (p initiating responding : List ℕ) (r : Role)
    → Compares d
    → Distinct d
        (pairing_input p initiating responding (peer_role r))
        (pairing_input p initiating responding r)
    → verify_pairing_proof d p initiating responding
        (peer_role r)
        (pairing_proof d p initiating responding r)
      ≡ false
unfolding verify_pairing_proof pairing_proof
verify_pairing_proof-own d p initiating responding r compares apart =
    constant_time_eq_lem d _ _ compares
    ∙ same_truth _ false
        (λ e.
          absurd (
            pairing_input-same_prover p p initiating responding r (apart (same_bytes_sound _ _ e))))
        (λ e. absurd (ground arith))

-- Two sessions that the two ends of one handshake open, a PIN of six digits in each: either accepts
-- the other's proof exactly when the PINs are the same, and never its own proof sent back. The hash
-- is taken to tell apart the inputs that are compared.
pub accepts-confirm :
    (F : Type 0) (d : Digests) (e e' : Established F) (pin pin' : Pin)
    → Compares d
    → length pin ≡ pin_digits
    → length pin' ≡ pin_digits
    → e'.role ≡ peer_role e.role
    → initiator_nonce e' ≡ initiator_nonce e
    → responder_nonce e' ≡ responder_nonce e
    → Distinct d
        (pairing_input pin (initiator_nonce e) (responder_nonce e) (peer_role e.role))
        (pairing_input pin' (initiator_nonce e) (responder_nonce e) (peer_role e.role))
    → Distinct d
        (pairing_input pin (initiator_nonce e) (responder_nonce e) (peer_role e.role))
        (pairing_input pin (initiator_nonce e) (responder_nonce e) e.role)
    → (accepts d (new e pin) (confirm F d (new e' pin')) ≡ ok (same_bytes pin pin'))
      × (accepts d (new e pin) (confirm F d (new e pin)) ≡ ok false)
unfolding accepts new confirm
accepts-confirm F d e e' pin pin' compares n n' roles ours theirs apart reflected = (
  ap
        (λ t.
          ok (
            verify_pairing_proof d pin (initiator_nonce e) (responder_nonce e) (peer_role e.role)
              t))
        (sent e'.role (initiator_nonce e') (responder_nonce e') roles ours theirs)
      ∙ ap ok (
          verify_pairing_proof-same_pin d pin pin' (initiator_nonce e) (responder_nonce e)
            (peer_role e.role) compares (n ∙ sym n') apart),
  ap ok (
      verify_pairing_proof-own d pin (initiator_nonce e) (responder_nonce e) e.role compares
        reflected),
)
  where
    sent :
        (r : Role) (i t : List ℕ)
        → r ≡ peer_role e.role
        → i ≡ initiator_nonce e
        → t ≡ responder_nonce e
        → pairing_proof d pin' i t r
          ≡ pairing_proof d pin' (initiator_nonce e) (responder_nonce e) (peer_role e.role)
    sent r i t a b c = cc
