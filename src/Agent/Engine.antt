-- ===== src/Agent/Engine.antt =====
-- crates/wx-agent/src/engine.rs: the decisions of the engine that take no input or output: who
-- drives, which pairing codes are offered, which layout wins, what an unpaired peer may say.
pub mod Ranks
pub mod Gossip
pub mod Rescue
pub mod Codes
use Prim.Native.Nat.{compare, Ordering, lt, eq, gt}
use win_xtend.Prelude.{
  ℕ, ◌+◌, ◌-◌, Bool, true, false, not, ◌&&◌, ◌||◌, ◌==◌, if◌then◌else◌, Option, none, some, is_some,
  map_or, List, [], ◌∷◌, map, keep, any_of, length,
}
use win_xtend.Prelude.Int.{ℤ, pos_part, neg_part}
use win_xtend.Prelude.Maps.{lookup, insert, remove}
use win_xtend.Proto.Ids.{NodeId, GlobalMonitorId, node_key}
use win_xtend.Proto.Edge.{Edge}
use win_xtend.Proto.Float.{Floats}
use win_xtend.Proto.Geom.{Rect, Monitor, is_empty}
use win_xtend.Proto.Keyboard.{KeyAction, press, release, repeat}
use win_xtend.Proto.Input.{InputEvent, pointer, key, release_control, button}
use win_xtend.Core.Layout.{Placement, GlobalLayout, WireLayout, rect}
use win_xtend.Net.Control.{
  Text, ControlMsg, pair_request, pair_confirm, pair_result, reject, goodbye, ping, pong,
}
use win_xtend.Net.Pairing.{Pin}

-- A report about a session, or a dial, that another has replaced is stale.
unfoldable pub teardown_is_current : Option ℕ → ℕ → Bool
teardown_is_current current reported = map_or true (λ generation. generation == reported) current

unfoldable pub dial_is_current : Option ℕ → ℕ → Bool
dial_is_current current reported = map_or false (λ id. id == reported) current

pub data ClipboardJobKind : Type 0 where
  poll accept serve : ClipboardJobKind

pub record ClipboardTraffic : Type 0 where
  pub polling : Bool
  pub writes : ℕ
  pub lost : Bool

unfoldable pub may_poll : ClipboardTraffic → Bool
may_poll t = not t.lost && (not t.polling && t.writes == 0)

unfoldable pub dispatched : ClipboardTraffic → ClipboardJobKind → ClipboardTraffic
dispatched t poll = record t { polling = true }
dispatched t accept = record t { writes = t.writes + 1 }
dispatched t serve = t

unfoldable pub traffic_settled : ClipboardTraffic → ClipboardJobKind → ClipboardTraffic
traffic_settled t poll = record t { polling = false }
traffic_settled t accept = record t { writes = t.writes - 1 }
traffic_settled t serve = t

unfoldable pub worker_lost : ClipboardTraffic → ClipboardTraffic
worker_lost t = record { polling = false; writes = 0; lost = true }

-- DrivenBy: the peer that has control of this machine.
abbrev pub DrivenBy : Type 0
DrivenBy = Option NodeId

unfoldable pub took_control : DrivenBy → NodeId → DrivenBy × Option NodeId
took_control none node = (some node, none)
took_control (some previous) node = (some node, if previous == node then none else some previous)

unfoldable pub let_go_of : DrivenBy → NodeId → DrivenBy × Bool
let_go_of d node = if map_or false (λ n. n == node) d then (none, true) else (d, false)

pub record AwaitingDial : Type 0 where
  pub name : Text
  pub since : ℕ

pub record OfferedPins : Type 0 where
  pub pins : List (NodeId × Pin)
  pub awaiting_dial : List (NodeId × AwaitingDial)

unfoldable pub offer : OfferedPins → NodeId → Pin → Text → ℕ → OfferedPins
offer o node pin name since = record {
  pins = insert node pin o.pins;
  awaiting_dial = insert node (record { name = name; since = since }) o.awaiting_dial;
}

unfoldable pub discard : OfferedPins → NodeId → OfferedPins
discard o node = record { pins = remove node o.pins; awaiting_dial = remove node o.awaiting_dial }

unfoldable pub claim : OfferedPins → NodeId → OfferedPins × Option Pin
claim o node =
    if is_some (lookup node o.awaiting_dial)
    then (discard o node, lookup node o.pins)
    else (record o { pins = remove node o.pins }, none)

unfoldable pub discard_awaiting_dial : OfferedPins → NodeId → OfferedPins × Bool
discard_awaiting_dial o node =
    if is_some (lookup node o.awaiting_dial) then (discard o node, true) else (o, false)

unfoldable pub on_session_ended : OfferedPins → NodeId → OfferedPins
on_session_ended o node =
    if is_some (lookup node o.awaiting_dial) then o else record o { pins = remove node o.pins }

unfoldable pub should_inject_locally : {F : Type 0} → InputEvent F → Bool → Bool → Bool
should_inject_locally event suppressed from_remote =
    if from_remote || suppressed then true else lets_go event
  where
    lets_go : {F : Type 0} → InputEvent F → Bool
    lets_go release_control = true
    lets_go (key ev) = elim ev.action [ release ↦ true | _ ↦ false ]
    lets_go (pointer (button b pressed)) = not pressed
    lets_go other = false

unfoldable pub is_permitted_while_unpaired : {F : Type 0} → ControlMsg F → Bool
is_permitted_while_unpaired (pair_request info) = true
is_permitted_while_unpaired (pair_confirm code_proof) = true
is_permitted_while_unpaired (pair_result accepted) = true
is_permitted_while_unpaired (reject reason) = true
is_permitted_while_unpaired (goodbye reason) = true
is_permitted_while_unpaired (ping nonce) = true
is_permitted_while_unpaired (pong nonce) = true
is_permitted_while_unpaired other = false

unfoldable pub begin_liveness_window : List (NodeId × ℕ) → NodeId → NodeId → ℕ → List (NodeId × ℕ)
begin_liveness_window last_heard owner local now =
    if owner == local then last_heard else insert owner now last_heard

unfoldable pub needs_placement : {F : Type 0} → GlobalLayout F → NodeId → List (Monitor F) → Bool
needs_placement layout node monitors =
    any_of (λ m. not (is_some (rect layout (record { node = node; monitor = m.id }))))
      (keep (λ m. not (is_empty m.local_bounds)) monitors)

-- The derived order of tuples and of vectors: the first difference decides.
abbrev pub then_compare : Ordering → Ordering → Ordering
then_compare lt later = lt
then_compare eq later = later
then_compare gt later = gt

abbrev pub compare_ℤ : ℤ → ℤ → Ordering
compare_ℤ a b = compare (pos_part a + neg_part b) (pos_part b + neg_part a)

-- A placement as the tuple that is compared. The hexadecimal text of a node id orders as the id.
abbrev pub Entry : Type 0
Entry = GlobalMonitorId × Rect

unfoldable pub compare_entry : Entry → Entry → Ordering
compare_entry (m, r) (n, s) = then_compare (compare m.node n.node) (
    then_compare (compare m.monitor n.monitor) (
      then_compare (compare_ℤ r.x s.x)
        (then_compare (compare_ℤ r.y s.y) (then_compare (compare r.w s.w) (compare r.h s.h)))))

unfoldable pub compare_key : List Entry → List Entry → Ordering
compare_key [] [] = eq
compare_key [] (b ∷ bs) = lt
compare_key (a ∷ more) [] = gt
compare_key (a ∷ more) (b ∷ bs) = then_compare (compare_entry a b) (compare_key more bs)

unfoldable pub sorted_in : Entry → List Entry → List Entry
sorted_in a [] = a ∷ []
sorted_in a (b ∷ bs) =
    let rest = sorted_in a bs in elim (compare_entry b a) [ lt ↦ b ∷ rest | _ ↦ a ∷ b ∷ bs ]

unfoldable pub sort : List Entry → List Entry
sort [] = []
sort (a ∷ more) = sorted_in a (sort more)

-- Greater, less, or the next comparison.
abbrev pub decide : Ordering → Bool → Bool
decide gt next = true
decide lt next = false
decide eq next = next

module _ {F : Type 0} where
  unfoldable pub layout_key : WireLayout F → List Entry
  layout_key layout =
      sort (map (λ (p : Placement F). (p.monitor, p.global_bounds)) layout.placements)

  unfoldable pub accept_layout : WireLayout F → WireLayout F → Bool
  accept_layout current incoming = decide (compare incoming.revision current.revision) (
      decide (compare (length incoming.placements) (length current.placements))
        (elim (compare_key (layout_key incoming) (layout_key current)) [ lt ↦ true | _ ↦ false ]))
