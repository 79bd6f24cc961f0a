-- ===== src/Agent/State.antt =====
-- crates/wx-agent/src/state.rs: what the agent knows of each peer, which peers it dials, and where
-- the cursor goes when its machine is gone. Instants and durations are numbers of nanoseconds; an
-- address is a number. `values()` of the map is in the order of the association list.
pub mod Events
pub mod Dial
pub mod Reclaim
use win_xtend.Prelude.{
  ℕ, zero, suc, ◌+◌, ◌-◌, ◌*◌, ◌^◌, min, Bool, true, false, not, ◌&&◌, ◌||◌, ◌==◌, ltb,
  if◌then◌else◌, Option, none, some, unwrap_or, map_or, map_option, or_option, is_some, List, [],
  ◌∷◌, map, find_first, keep,
}
use win_xtend.Prelude.Int.{ℤ, pos, eqb_ℤ}
use win_xtend.Prelude.Maps.{lookup, insert}
use win_xtend.Proto.Ids.{NodeId, MonitorId, GlobalMonitorId, node_key}
use win_xtend.Proto.Caps.{Capabilities}
use win_xtend.Proto.Float.{Floats, f_eq}
use win_xtend.Proto.Geom.{Rect, Monitor}
use win_xtend.Net.Control.{Text, NodeInfo}
use win_xtend.Net.Trust.{TrustStore, TrustedPeer, is_paired, is_blocked, name_of}
use win_xtend.Net.Handshake.{same_bytes}

abbrev pub max_dial_backoff : ℕ
max_dial_backoff = 30000000000

abbrev pub base_dial_backoff : ℕ
base_dial_backoff = 500000000

abbrev pub dial_grace : ℕ
dial_grace = 3000000000

pub data ConnStatus : Type 0 where
  offline discovered connecting pairing connected : ConnStatus
  failed : Text → ConnStatus

abbrev pub is_usable : ConnStatus → Bool
is_usable connected = true
is_usable other = false

abbrev pub has_session : ConnStatus → Bool
has_session connected = true
has_session pairing = true
has_session other = false

abbrev pub is_connecting : ConnStatus → Bool
is_connecting connecting = true
is_connecting other = false

pub record DroppedDatagrams : Type 0 where
  pub total : ℕ
  pub recent : ℕ
  pub window : ℕ

pub record PeerState (F : Type 0) : Type 0 where
  pub node : NodeId
  pub advertised_name : Text
  pub configured_name : Option Text
  pub paired : Bool
  pub blocked : Bool
  pub enabled : Bool
  pub status : ConnStatus
  pub addresses : List ℕ
  pub info : Option (NodeInfo F)
  pub rtt : Option ℕ
  pub dropped_datagrams : Option DroppedDatagrams
  pub dropped_sampled_at : ℕ
  pub dial_failures : ℕ
  pub next_dial : Option ℕ
  pub first_seen : ℕ
  pub last_seen : ℕ

pub record AgentState (F : Type 0) : Type 0 where
  pub local : NodeId
  pub local_name : Text
  pub local_monitors : List (Monitor F)
  pub peers : List (NodeId × PeerState F)
  pub cursor_on : Option GlobalMonitorId
  pub cursor_locked : Bool
  pub started : ℕ

-- crates/wx-agent/src/config.rs: the settings of each peer.
pub record PeerConfig : Type 0 where
  pub name : Option Text
  pub enabled : Bool
  pub clipboard : Bool

unfoldable pub default_peer : PeerConfig
default_peer = record { name = none; enabled = true; clipboard = true }

unfoldable pub peer_config : List (NodeId × PeerConfig) → NodeId → PeerConfig
peer_config peers node = unwrap_or (lookup node peers) default_peer

-- crates/wx-net/src/discovery.rs
pub record DiscoveredPeer : Type 0 where
  pub node : NodeId
  pub advertised_name : Text
  pub agent_version : Text
  pub addresses : List ℕ
  pub fullname : Text

unfoldable pub backoff : ℕ → ℕ
backoff zero = 0
backoff (suc n) = min (base_dial_backoff * 2 ^ min n 16) max_dial_backoff

module _ {F : Type 0} ⦃fl : Floats F⦄ where
  -- The derived `==` of a list of monitors.
  unfoldable pub same_monitor : Monitor F → Monitor F → Bool
  same_monitor a b =
      a.id == b.id
      && same_bytes a.name b.name
      && same_rect a.local_bounds b.local_bounds
      && f_eq a.scale b.scale
      && (if a.primary then b.primary else not b.primary)
    where
      same_rect : Rect → Rect → Bool
      same_rect r s = eqb_ℤ r.x s.x && eqb_ℤ r.y s.y && r.w == s.w && r.h == s.h

  unfoldable pub same_monitors : List (Monitor F) → List (Monitor F) → Bool
  same_monitors [] [] = true
  same_monitors [] (b ∷ bs) = false
  same_monitors (a ∷ more) [] = false
  same_monitors (a ∷ more) (b ∷ bs) = same_monitor a b && same_monitors more bs

  unfoldable pub set_local_monitors : AgentState F → List (Monitor F) → AgentState F × Bool
  set_local_monitors s monitors =
      if same_monitors s.local_monitors monitors
      then (s, false)
      else (record s { local_monitors = monitors }, true)

module _ {F : Type 0} where
  unfoldable pub new_peer : NodeId → Text → ℕ → PeerState F
  new_peer node name now = record {
    node = node;
    advertised_name = name;
    configured_name = none;
    paired = false;
    blocked = false;
    enabled = true;
    status = offline;
    addresses = [];
    info = none;
    rtt = none;
    dropped_datagrams = none;
    dropped_sampled_at = now;
    dial_failures = 0;
    next_dial = none;
    first_seen = now;
    last_seen = now;
  }

  abbrev pub monitors : PeerState F → List (Monitor F)
  monitors p = map_or [] (λ (i : NodeInfo F). i.monitors) p.info

  abbrev pub capabilities : PeerState F → Capabilities
  capabilities p = map_or 0 (λ (i : NodeInfo F). i.capabilities) p.info

  abbrev pub is_eligible : PeerState F → Bool
  is_eligible p = p.paired && (not p.blocked && p.enabled)

  unfoldable pub new : NodeId → Text → ℕ → AgentState F
  new local local_name now = record {
    local = local;
    local_name = local_name;
    local_monitors = [];
    peers = [];
    cursor_on = none;
    cursor_locked = false;
    started = now;
  }

  unfoldable pub set_local_name : AgentState F → Text → AgentState F
  set_local_name s name = record s { local_name = name }

  unfoldable pub local_monitor : AgentState F → MonitorId → Option (Monitor F)
  local_monitor s id = find_first (λ m. m.id == id) s.local_monitors

  unfoldable pub uptime : AgentState F → ℕ → ℕ
  uptime s now = now - s.started

  unfoldable pub cursor_owner : AgentState F → NodeId
  cursor_owner s = map_or s.local (λ (m : GlobalMonitorId). m.node) s.cursor_on

  unfoldable pub set_cursor : AgentState F → GlobalMonitorId → Bool → AgentState F
  set_cursor s monitor locked = record s { cursor_on = some monitor; cursor_locked = locked }
