-- ===== src/Net/Trust.antt =====
-- crates/wx-net/src/identity.rs, TrustStore: which machines are paired, and which are blocked. The
-- source keys the map by the hexadecimal text of a node id, one text for each id; it is keyed by
-- the id here. `now` is what now_unix() reads.
use win_xtend.Prelude.{ℕ, Bool, true, false, not, Option, none, some, map_or, is_some, List, []}
use win_xtend.Prelude.Maps.{lookup, insert, remove}
use win_xtend.Proto.Ids.{NodeId, node_key}
use win_xtend.Net.Control.{Text}

pub record TrustedPeer : Type 0 where
  pub name : Text
  pub blocked : Bool
  pub paired_at_unix : ℕ

abbrev pub TrustStore : Type 0
TrustStore = List (NodeId × TrustedPeer)

unfoldable pub new : TrustStore
new = []

unfoldable pub trust : TrustStore → NodeId → Text → ℕ → TrustStore
trust peers node name now =
    insert node (record { name = name; blocked = false; paired_at_unix = now }) peers

unfoldable pub block : TrustStore → NodeId → Text → ℕ → TrustStore
block peers node name now =
    let fresh : TrustedPeer = record { name = name; blocked = false; paired_at_unix = now } in
    let entry = map_or fresh (λ p. p) (lookup node peers) in
    insert node (record entry { blocked = true }) peers

unfoldable pub forget : TrustStore → NodeId → TrustStore × Bool
forget peers node = (remove node peers, is_some (lookup node peers))

unfoldable pub is_paired : TrustStore → NodeId → Bool
is_paired peers node = map_or false (λ (p : TrustedPeer). not p.blocked) (lookup node peers)

unfoldable pub is_blocked : TrustStore → NodeId → Bool
is_blocked peers node = map_or false (λ (p : TrustedPeer). p.blocked) (lookup node peers)

unfoldable pub name_of : TrustStore → NodeId → Option Text
name_of peers node = map_or none (λ (p : TrustedPeer). some p.name) (lookup node peers)

unfoldable pub rename : TrustStore → NodeId → Text → TrustStore × Bool
rename peers node name =
    map_or (peers, false)
      (λ (p : TrustedPeer). (insert node (record p { name = name }) peers, true))
      (lookup node peers)
