-- ===== src/Core/Transfer.antt =====
-- crates/wx-core/src/router.rs: the actions of the router, its state, and how control changes hands.
-- An operation takes and returns the state with the actions so far, in order. A sequence counter is
-- a u64.
use win_xtend.Prelude.{
  ℕ, ◌+◌, ◌%◌, ◌^◌, Bool, not, ◌==◌, if◌then◌else◌, Option, none, some, unwrap_or, List, [], ◌∷◌,
  ◌++◌,
}
use win_xtend.Prelude.Maps.{lookup, insert}
use win_xtend.Proto.Ids.{NodeId, MonitorId, GlobalMonitorId, node_key}
use win_xtend.Proto.Edge.{Edge}
use win_xtend.Proto.Geom.{NormPos}
use win_xtend.Proto.Input.{InputEvent, InputFrame, release_control}
use win_xtend.Core.Layout.{GlobalLayout}
use win_xtend.Core.Cursor.{VirtualCursor, set_locked as lock_cursor, toggle_lock as toggle_cursor}
use win_xtend.Core.Held.{HeldInput, nothing_held, clear, release_events}

pub data RouteAction (F : Type 0) : Type 0 where
  deliver : MonitorId → InputEvent F → RouteAction F
  remote : NodeId → InputFrame F → RouteAction F
  handoff : NodeId → MonitorId → NormPos F → Edge → RouteAction F
  yield : NodeId → RouteAction F

-- The two control messages that an action can become.
pub data ControlMsg (F : Type 0) : Type 0 where
  take_control : MonitorId → NormPos F → Edge → ControlMsg F
  yield_control : ControlMsg F

module _ {F : Type 0} where
  abbrev pub control_msg : RouteAction F → Option (ControlMsg F)
  control_msg (handoff node target entry via) = some (take_control target entry via)
  control_msg (yield node) = some yield_control
  control_msg _ = none

  abbrev pub node_of : RouteAction F → Option NodeId
  node_of (deliver target event) = none
  node_of (remote node frame) = some node
  node_of (handoff node target entry via) = some node
  node_of (yield node) = some node

pub record InputRouter (F : Type 0) : Type 0 where
  pub this_node : NodeId
  pub layout : GlobalLayout F
  pub cursor : VirtualCursor F
  pub seq : List (NodeId × ℕ)
  pub held : HeldInput

-- The counter of a peer, 0 before the first frame.
unfoldable pub counter : List (NodeId × ℕ) → NodeId → ℕ
counter seq node = unwrap_or (lookup node seq) 0

-- The state and the actions emitted so far.
abbrev pub Out : Type 0 → Type 0
Out F = InputRouter F × List (RouteAction F)

module _ {F : Type 0} where
  unfoldable pub new : NodeId → GlobalLayout F → VirtualCursor F → InputRouter F
  unfolding nothing_held
  new this_node layout cursor = record {
    this_node = this_node;
    layout = layout;
    cursor = cursor;
    seq = [];
    held = nothing_held;
  }

  abbrev pub owner : InputRouter F → NodeId
  owner r = r.cursor.monitor.node

  abbrev pub owns_cursor : InputRouter F → Bool
  owns_cursor r = owner r == r.this_node

  abbrev pub local_cursor_suppressed : InputRouter F → Bool
  local_cursor_suppressed r = not (owns_cursor r)

  unfoldable pub set_locked : InputRouter F → Bool → InputRouter F
  set_locked r locked = record r { cursor = lock_cursor r.cursor locked }

  unfoldable pub toggle_lock : InputRouter F → InputRouter F × Bool
  toggle_lock r =
      let (cursor, locked) = toggle_cursor r.cursor in (record r { cursor = cursor }, locked)

  unfoldable pub next_seq : InputRouter F → NodeId → InputRouter F × ℕ
  next_seq r node =
      let n = (counter r.seq node + 1) % 2 ^ 64 in (record r { seq = insert node n r.seq }, n)

  unfoldable pub emit : GlobalMonitorId → InputEvent F → Out F → Out F
  emit target event (r, out) =
      if target.node == r.this_node
      then (r, out ++ deliver target.monitor event ∷ [])
      else let (r', n) = next_seq r target.node in
        (
          r',
          out
              ++ remote target.node (record { seq = n; target = target.monitor; event = event })
                ∷ [],
        )

  unfoldable pub emit_all : GlobalMonitorId → List (InputEvent F) → Out F → Out F
  emit_all target [] o = o
  emit_all target (event ∷ events) o = emit_all target events (emit target event o)

  abbrev pub push_action : RouteAction F → Out F → Out F
  push_action a (r, out) = (r, out ++ a ∷ [])

  -- `release_events`, `emit` of each, `clear`.
  unfoldable pub let_go : GlobalMonitorId → Out F → Out F
  unfolding emit_all
  let_go from o =
      let o' = emit_all from (release_events o.0.held) o in
      (record (o'.0) { held = clear o'.0.held }, o'.1)

  unfoldable pub transfer : GlobalMonitorId → GlobalMonitorId → NormPos F → Edge → Out F → Out F
  transfer from to entry via o =
      if from.node == to.node
      then o
      else let released = let_go from o in
        let left =
          if from.node == o.0.this_node
          then emit from release_control released
          else push_action (yield from.node) released in
        if to.node == o.0.this_node
        then left
        else push_action (handoff to.node to.monitor entry via) left
