-- ===== src/Net/Pairing.antt =====
-- crates/wx-net/src/pairing.rs: the PIN that the user reads across, and the proof that each machine
-- sends of knowing it. A Pin is the list of its six bytes. SHA-256 is the `sha2` crate's and the
-- comparison without branches the `subtle` crate's: parameters, with what they document as laws.
pub mod Pins
pub mod Proofs
use win_xtend.Prelude.{
  ℕ, ◌+◌, ◌%◌, ◌≡◌, bit_or, bit_xor, Bool, true, false, ◌&&◌, ◌==◌, ltb, leb, if◌then◌else◌, Option,
  none, some, List, [], ◌∷◌, ◌++◌, length, keep, all_of, not,
}
use win_xtend.Net.Control.{Text, ControlMsg, pair_confirm}
use win_xtend.Net.Handshake.{Role, tag, peer_role, Established, initiator_nonce, responder_nonce}

pub record Digests : Type 0 where
  pub sha256 : List ℕ → List ℕ
  pub ct_eq : ℕ → ℕ → Bool

-- `ct_eq` is equality.
abbrev pub Compares : Digests → Type 0
Compares d = (a b : ℕ) → d.ct_eq a b ≡ (a == b)

abbrev pub pin_digits : ℕ
pin_digits = 6

-- "winxtend-pairing-v1"
abbrev pub pairing_context : List ℕ
pairing_context =
    119 ∷ 105 ∷ 110 ∷ 120 ∷ 116 ∷ 101 ∷ 110 ∷ 100 ∷ 45 ∷ 112 ∷ 97 ∷ 105 ∷ 114 ∷ 105 ∷ 110 ∷ 103 ∷ 45
    ∷ 118 ∷ 49 ∷ []

pub data PairingError : Type 0 where
  wrong_length : ℕ → PairingError
  not_ascii_digits not_a_pair_confirm random_failed : PairingError

pub data Result {ℓ} (A : Type ℓ) : Type ℓ where
  ok : A → Result A
  err : PairingError → Result A

abbrev pub Pin : Type 0
Pin = List ℕ

-- The bytes of one buffer, after the digits filled so far.
unfoldable pub fill_digits : List ℕ → List ℕ → List ℕ
fill_digits [] digits = digits
fill_digits (byte ∷ buf) digits =
    let rest = fill_digits buf (if ltb byte 250 then digits ++ (48 + byte % 10) ∷ [] else digits) in
    if length digits == pin_digits then digits else rest

-- `draws` are the buffers that the system's generator gives, one each time; `none` is a failure of
-- the generator. The result is `none` while the loop still wants a buffer.
unfoldable pub generate_from : List (Option (List ℕ)) → List ℕ → Option (Result Pin)
generate_from [] digits = if ltb (length digits) pin_digits then none else some (ok digits)
generate_from (none ∷ draws) digits =
    if ltb (length digits) pin_digits then some (err random_failed) else some (ok digits)
generate_from (some buf ∷ draws) digits =
    let rest = generate_from draws (fill_digits buf digits) in
    if ltb (length digits) pin_digits then rest else some (ok digits)

unfoldable pub generate : List (Option (List ℕ)) → Option (Result Pin)
generate draws = generate_from draws []

abbrev pub is_ascii_digit : ℕ → Bool
is_ascii_digit b = leb 48 b && leb b 57

-- `chars().count()`: the bytes that begin a character.
abbrev count_chars : Text → ℕ
count_chars s = length (keep (λ b. not (leb 128 b && ltb b 192)) s)

unfoldable pub parse : Text → Result Pin
parse s =
    if not (length s == pin_digits)
    then err (wrong_length (count_chars s))
    else if not (all_of is_ascii_digit s)
    then err not_ascii_digits
    else ok s

-- What is hashed.
unfoldable pub pairing_input : Pin → List ℕ → List ℕ → Role → List ℕ
pairing_input pin initiating responding prover =
    pairing_context ++ (tag prover ∷ pin_digits ∷ (pin ++ (initiating ++ responding)))

unfoldable pub zip : List ℕ → List ℕ → List (ℕ × ℕ)
zip [] ys = []
zip (x ∷ xs) [] = []
zip (x ∷ xs) (y ∷ ys) = (x, y) ∷ zip xs ys

unfoldable pub differences : ℕ → List (ℕ × ℕ) → ℕ
differences diff [] = diff
differences diff ((x, y) ∷ pairs) = differences (bit_or diff (bit_xor x y)) pairs

unfoldable pub fold_difference : Digests → List (ℕ × ℕ) → Bool
fold_difference d pairs = d.ct_eq (differences 0 pairs) 0

unfoldable pub constant_time_eq : Digests → List ℕ → List ℕ → Bool
constant_time_eq d a b = length a == length b && fold_difference d (zip a b)

unfoldable pub pairing_proof : Digests → Pin → List ℕ → List ℕ → Role → List ℕ
pairing_proof d pin initiating responding prover =
    d.sha256 (pairing_input pin initiating responding prover)

unfoldable pub verify_pairing_proof : Digests → Pin → List ℕ → List ℕ → Role → List ℕ → Bool
verify_pairing_proof d pin initiating responding prover offered =
    constant_time_eq d (pairing_proof d pin initiating responding prover) offered

pub record PairingSession : Type 0 where
  pub role : Role
  pub pin : Pin
  pub initiator_nonce : List ℕ
  pub responder_nonce : List ℕ

unfoldable pub new : {F : Type 0} → Established F → Pin → PairingSession
new e pin = record {
  role = e.role;
  pin = pin;
  initiator_nonce = initiator_nonce e;
  responder_nonce = responder_nonce e;
}

unfoldable pub confirm : (F : Type 0) → Digests → PairingSession → ControlMsg F
confirm F d s = pair_confirm (pairing_proof d s.pin s.initiator_nonce s.responder_nonce s.role)

unfoldable pub accepts : {F : Type 0} → Digests → PairingSession → ControlMsg F → Result Bool
accepts d s (pair_confirm code_proof) =
    ok (
      verify_pairing_proof d s.pin s.initiator_nonce s.responder_nonce (peer_role s.role)
        code_proof)
accepts d s other = err not_a_pair_confirm
