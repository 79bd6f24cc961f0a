-- ===== src/Agent/State/Events.antt =====
-- state.rs: what each event does to the peers.
use win_xtend.Prelude.{
  ℕ, ◌+◌, ◌-◌, min, Bool, true, false, not, ◌&&◌, ◌||◌, ◌==◌, if◌then◌else◌, Option, none, some,
  unwrap_or, map_or, map_option, or_option, is_some, List, [], ◌∷◌, map,
}
use win_xtend.Prelude.Maps.{lookup, insert}
use win_xtend.Proto.Ids.{NodeId, node_key}
use win_xtend.Proto.Caps.{Capabilities}
use win_xtend.Net.Control.{Text, NodeInfo}
use win_xtend.Net.Trust.{TrustStore, is_paired, is_blocked, name_of}
use win_xtend.Net.Handshake.{same_bytes}
use win_xtend.Agent.State.{
  PeerState, AgentState, ConnStatus, offline, discovered, pairing, connected, failed, is_usable,
  has_session, is_connecting, DroppedDatagrams, PeerConfig, peer_config, DiscoveredPeer, backoff,
  new_peer, capabilities, is_eligible,
}

module _ {F : Type 0} where
  -- `entry`, and what the caller does with the peer that it gives.
  unfoldable pub entry :
      AgentState F → NodeId → Text → ℕ → (PeerState F → PeerState F) → AgentState F
  entry s node name now f = record s {
    peers = insert node (f (unwrap_or (lookup node s.peers) (new_peer node name now))) s.peers;
  }

  -- `if let Some(p) = self.peers.get_mut(&node)`
  unfoldable pub get_mut : AgentState F → NodeId → (PeerState F → PeerState F) → AgentState F
  get_mut s node f =
      map_or s (λ p. record s { peers = insert node (f p) s.peers }) (lookup node s.peers)

  unfoldable pub peer_capabilities : AgentState F → NodeId → Capabilities
  peer_capabilities s node = map_or 0 capabilities (lookup node s.peers)

  unfoldable pub set_peer_capabilities : AgentState F → NodeId → Capabilities → AgentState F × Bool
  set_peer_capabilities s node caps =
      map_or (s, false)
        (λ (p : PeerState F).
          map_or (s, false)
            (λ (info : NodeInfo F). if info.capabilities == caps then (s, false) else (
              record s {
                peers =
                    insert node (record p { info = some (record info { capabilities = caps }) })
                      s.peers;
              },
              true,
            ))
            p.info)
        (lookup node s.peers)

  unfoldable pub is_reachable : AgentState F → NodeId → Bool
  is_reachable s node =
      node == s.local
      || map_or false (λ (p : PeerState F). is_usable p.status && is_eligible p)
          (lookup node s.peers)

  abbrev seen_idle : PeerState F → PeerState F
  seen_idle p =
      if not (has_session p.status) && not (is_connecting p.status)
      then record p { status = discovered; dial_failures = 0; next_dial = none }
      else p

  unfoldable pub observe_discovered :
      AgentState F → DiscoveredPeer → TrustStore → ℕ → AgentState F × Bool
  observe_discovered s peer trust now =
      let known = is_some (lookup peer.node s.peers) in
      let old =
        unwrap_or (lookup peer.node s.peers) (new_peer peer.node peer.advertised_name now) in
      let changed =
        not (same_bytes old.addresses peer.addresses)
        || (not (same_bytes old.advertised_name peer.advertised_name) || not known) in
      (
        entry s peer.node peer.advertised_name now (λ p. seen_idle (record p {
          advertised_name = peer.advertised_name;
          addresses = peer.addresses;
          last_seen = now;
          paired = is_paired trust peer.node;
          blocked = is_blocked trust peer.node;
        })),
        changed,
      )

  unfoldable pub observe_lost : AgentState F → NodeId → AgentState F
  observe_lost s node = get_mut s node (λ p. record p {
    status = if not (has_session p.status) then offline else p.status;
    addresses = [];
  })

  -- The two loops of `sync_trust`.
  unfoldable pub sync_known : AgentState F → TrustStore → ℕ → AgentState F
  sync_known s [] now = s
  sync_known s ((node, trusted) ∷ rest) now =
      sync_known
        (entry s node trusted.name now
          (λ p. record p { paired = not trusted.blocked; blocked = trusted.blocked }))
        rest now

  abbrev sync_peer : TrustStore → List (NodeId × PeerConfig) → PeerState F → PeerState F
  sync_peer trust config p =
      let cfg = peer_config config p.node in
      record p {
        paired = is_paired trust p.node;
        blocked = is_blocked trust p.node;
        enabled = cfg.enabled;
        configured_name = or_option cfg.name (name_of trust p.node);
      }

  unfoldable pub sync_trust :
      AgentState F → TrustStore → List (NodeId × PeerConfig) → ℕ → AgentState F
  sync_trust s trust config now =
      let known = sync_known s trust now in
      record known { peers = map (λ (k, p). (k, sync_peer trust config p)) known.peers }

  unfoldable pub set_status : AgentState F → NodeId → ConnStatus → AgentState F
  set_status s node status = get_mut s node (λ p. record p { status = status })

  unfoldable pub on_session : AgentState F → NodeInfo F → Bool → ℕ → AgentState F
  on_session s info trusted now = entry s info.id info.name now (λ p. record p {
    advertised_name = info.name;
    info = some info;
    last_seen = now;
    dial_failures = 0;
    next_dial = none;
    dropped_datagrams = none;
    dropped_sampled_at = now;
    status = if trusted then connected else pairing;
  })

  -- `dial_failures` is a u32, and saturates.
  unfoldable pub on_disconnected : AgentState F → NodeId → Option Text → ℕ → AgentState F
  on_disconnected s node reason now = get_mut s node (λ p.
      let failures = min (p.dial_failures + 1) 4294967295 in
      record p {
        status = map_or offline failed reason;
        rtt = none;
        dropped_datagrams = none;
        dial_failures = failures;
        next_dial = some (now + backoff failures);
      })

  unfoldable pub set_rtt : AgentState F → NodeId → ℕ → AgentState F
  set_rtt s node rtt = get_mut s node (λ p. record p { rtt = some rtt })

  abbrev reading : PeerState F → ℕ → ℕ → DroppedDatagrams
  reading p total now = record {
    total = total;
    recent = total - map_or 0 (λ (d : DroppedDatagrams). d.total) p.dropped_datagrams;
    window = now - p.dropped_sampled_at;
  }

  unfoldable pub sample_dropped_datagrams :
      AgentState F → NodeId → ℕ → ℕ → AgentState F × Option DroppedDatagrams
  sample_dropped_datagrams s node total now = (
    get_mut s node (λ p. record p {
      dropped_sampled_at = now;
      dropped_datagrams = some (reading p total now);
    }),
    map_option {A = PeerState F} (λ p. reading p total now) (lookup node s.peers),
  )

  unfoldable pub clear_dropped_datagrams : AgentState F → NodeId → AgentState F
  clear_dropped_datagrams s node = get_mut s node (λ p. record p { dropped_datagrams = none })
