-- ===== src/Tests/Net.antt =====
-- The theorems on the handshake and on pairing at concrete inputs. Keys stand for themselves, and a
-- signature is the key before the message.
use win_xtend.Prelude.{
  ℕ, ◌≡◌, refl, true, false, ◌==◌, some, List, [], ◌∷◌, map, concat, take, arith,
}
use win_xtend.Proto.Caps.{linux, windows, wayland, windows_session}
use win_xtend.Net.Control.{NodeInfo, ControlMsg, hello, auth_proof}
use win_xtend.Net.Trust.{TrustStore, is_paired, is_blocked}
use win_xtend.Net.Identity.{Signing, SigningLaws, node_id}
use win_xtend.Net.Handshake.{
  initiator, responder, Established, established, new, with_pairing_mode, same_bytes,
  initiator_nonce, responder_nonce,
}
use win_xtend.Net.Handshake.Sound.{run, Told, run-new-Told}
use win_xtend.Net.Handshake.Memory.{Party, run_in_memory, ended}
use win_xtend.Net.Handshake.Exchange.{Welcomes}
use win_xtend.Net.Handshake.Meets.{run_in_memory-Agree}
use win_xtend.Net.Pairing.{Digests, Compares, ok, accepts, confirm, generate, parse}
use win_xtend.Net.Pairing as Pairing
use win_xtend.Net.Pairing.Pins.{unbiased, generate-parse}
use win_xtend.Net.Pairing.Proofs.{same_bytes_self, accepts-confirm}
use win_xtend.Tests.Fixed.{Milli}

instance abbrev plain : Signing ℕ
plain = record {
  verifying_key = λ s. s;
  sign = λ s m. s ∷ m;
  is_key = λ n. true;
  verify_strict = λ n m sig. same_bytes sig (n ∷ m);
}

abbrev plain_laws : SigningLaws plain
plain_laws = record { key_is_key = λ s. refl; signed_verifies = λ s m. same_bytes_self (s ∷ m) }

abbrev laptop_key : ℕ
laptop_key = 1

abbrev laptop : NodeInfo Milli
laptop = record {
  id = 1;
  name = 108 ∷ [];
  platform = linux;
  display_server = wayland;
  capabilities = 8;
  monitors = [];
  agent_version = [];
}

abbrev tower : NodeInfo Milli
tower = record {
  id = 2;
  name = 116 ∷ [];
  platform = windows;
  display_server = windows_session;
  capabilities = 8;
  monitors = [];
  agent_version = [];
}

abbrev trusts_tower : TrustStore
trusts_tower = (2, record { name = 116 ∷ []; blocked = false; paired_at_unix = 7 }) ∷ []

abbrev exchange : List (ControlMsg Milli)
exchange = hello 1 tower (6 ∷ []) ∷ auth_proof (2 ∷ []) ∷ hello 1 tower (6 ∷ []) ∷ []

run-new-Told_example :
    Told laptop_key trusts_tower
      (with_pairing_mode (new responder laptop (5 ∷ []) (9 ∷ [])) false)
      (run laptop_key trusts_tower
        (with_pairing_mode (new responder laptop (5 ∷ []) (9 ∷ [])) false)
        exchange)
run-new-Told_example =
    run-new-Told laptop_key trusts_tower responder laptop (5 ∷ []) (9 ∷ []) false exchange

abbrev at_laptop : Party Milli ℕ
at_laptop = record {
  identity = 1;
  trust = trusts_tower;
  info = laptop;
  nonce = 5 ∷ [];
  binding = 9 ∷ [];
  pairing_mode = false;
}

abbrev at_tower : Party Milli ℕ
at_tower = record {
  identity = 2;
  trust = [];
  info = tower;
  nonce = 6 ∷ [];
  binding = 9 ∷ [];
  pairing_mode = true;
}

laptop-Welcomes : Welcomes at_laptop at_tower
unfolding node_id is_blocked is_paired
laptop-Welcomes = record {
  another = refl;
  fresh = refl;
  allowed = refl;
  known = refl;
  own_info = refl;
}

tower-Welcomes : Welcomes at_tower at_laptop
unfolding node_id is_blocked is_paired
tower-Welcomes = record {
  another = refl;
  fresh = refl;
  allowed = refl;
  known = refl;
  own_info = refl;
}

run_in_memory-Agree_example :
    (e e' : Established Milli) × (run_in_memory at_laptop at_tower
      ≡ some (ended (established e), ended (established e')))
    × (e.peer ≡ tower)
    × (e'.peer ≡ laptop)
    × (e.protocol ≡ e'.protocol)
    × (initiator_nonce e ≡ initiator_nonce e')
    × (responder_nonce e ≡ responder_nonce e')
run_in_memory-Agree_example =
    run_in_memory-Agree at_laptop at_tower plain_laws laptop-Welcomes tower-Welcomes refl

abbrev digests : Digests
digests = record { sha256 = λ m. m; ct_eq = ◌==◌ }

abbrev session_at : NodeInfo Milli → Established Milli
session_at peer = record {
  role = initiator;
  peer = peer;
  protocol = 1;
  peer_protocol = 1;
  local_nonce = 5 ∷ [];
  peer_nonce = 6 ∷ [];
  peer_was_paired = false;
}

abbrev other_end : Established Milli
other_end = record (session_at laptop) {
  role = responder;
  local_nonce = 6 ∷ [];
  peer_nonce = 5 ∷ [];
}

abbrev pin : List ℕ
pin = 49 ∷ 50 ∷ 51 ∷ 52 ∷ 53 ∷ 54 ∷ []

abbrev wrong_pin : List ℕ
wrong_pin = 49 ∷ 50 ∷ 51 ∷ 52 ∷ 53 ∷ 55 ∷ []

accepts-confirm_example :
    (accepts digests
        (Pairing.new (session_at tower) pin)
        (confirm Milli digests (Pairing.new other_end wrong_pin))
      ≡ ok (same_bytes pin wrong_pin))
    × (accepts digests
          (Pairing.new (session_at tower) pin)
          (confirm Milli digests (Pairing.new (session_at tower) pin))
        ≡ ok false)
accepts-confirm_example =
    accepts-confirm Milli digests (session_at tower) other_end pin wrong_pin (λ a b. refl) refl refl
      refl refl refl (λ e. e) (λ e. e)

abbrev buffers : List (List ℕ)
buffers = (3 ∷ 251 ∷ 17 ∷ 250 ∷ []) ∷ (99 ∷ 255 ∷ 40 ∷ []) ∷ (5 ∷ 6 ∷ 7 ∷ []) ∷ []

generate-parse_example :
    (generate (map some buffers) ≡ some (ok (take 6 (unbiased (concat buffers)))))
    × (parse (take 6 (unbiased (concat buffers))) ≡ ok (take 6 (unbiased (concat buffers))))
generate-parse_example = generate-parse buffers (omega arith)
