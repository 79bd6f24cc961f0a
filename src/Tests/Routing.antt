-- ===== src/Tests/Routing.antt =====
-- The theorems on the layout, the cursor and the router at the two machines of Places.
use win_xtend.Prelude.{
  ℕ, ◌≡◌, refl, ap, true, Option, none, some, is_some, unwrap_or, List, [], ◌∷◌, ◌++◌, length,
  arith, All, map, any_of, false, ◌↔◌,
}
use win_xtend.Prelude.Int.{pos, ◌+ℤ◌, ◌-ℤ◌, wrap_i32}
use win_xtend.Proto.Ids.{gid_eq, gid_key}
use win_xtend.Proto.Edge.{Edge}
use win_xtend.Proto.Float.{i32_max}
use win_xtend.Proto.Geom.{
  Point, Rect, NormPos, clamp, contains, right, bottom, normalize, denormalize, sanitized,
}
use win_xtend.Proto.Geom.Clamp.{clamp_panics}
use win_xtend.Proto.Input.{InputFrame, MouseButton, pointer, move_to, accept, new as new_gate}
use win_xtend.Proto.Modifiers
use win_xtend.Proto.Keyboard.{KeyPayload, SpecialKey}
use win_xtend.Proto.Input.Gate.{gate_after}
use win_xtend.Core.Layout.{insert, iter, empty_layout, rect, placement, from_layout}
use win_xtend.Core.Layout.Index.{Edit, putting, taking, edited}
use win_xtend.Core.Layout.History.{arranged, iter-history}
use win_xtend.Core.Crossing.{
  Crossing, exit_edge, leave_by, resolve_crossing, resolve_move, entry_point, edge_gap, winner,
  scan, axis_gap, perpendicular_offset, consider, better,
}
use win_xtend.Core.Crossing.Total.{Arrives, resolve_move_total}
use win_xtend.Core.Crossing.Winner.{has_neighbour-resolve_crossing}
use win_xtend.Core.Neighbours.{has_neighbour, edge_midpoint}
use win_xtend.Core.Cursor.{
  VirtualCursor, CursorMotion, move_by, move_on, settle, outside, cross_or_block, accumulate,
  effective_scale, sanitize_delta, renormalize, ok, err, unknown_monitor, warp_to, usable_rect,
}
use win_xtend.Core.Cursor.Inside.{Settles, move_by-IsInside}
use win_xtend.Core.Cursor.Report.{IsReport, move_by-IsReport}
use win_xtend.Core.Held.{HeldInput, release_events, nothing_held, clear, covered, stranded_keys}
use win_xtend.Core.Transfer.{
  InputRouter, RouteAction, Out, transfer, counter, new, emit, emit_all, next_seq, let_go,
}
use win_xtend.Core.Router.{route, release_all, warp_via, after_warp}
use win_xtend.Core.Router.Steps.{Op, routes, releases, run, step}
use win_xtend.Core.Router.Sequence.{frames_to}
use win_xtend.Core.Router.Numbering.{seqs, up_from, run_numbers, run_passes_gate}
use win_xtend.Core.Router.Handover.{CarryAll, leave_action, take_actions, transfer_order}
use win_xtend.Core.Router.Release.{observe_events, release_events_lem}
use win_xtend.Core.Router.Warping.{IsWarp, warp_via-IsWarp}
use win_xtend.Core.Router.Addressed.{Away, run-Away}
use win_xtend.Tests.Fixed.{Milli, nan, fin, fixed, fixed_laws}
use win_xtend.Core.Neighbours.{validate}
use win_xtend.Core.Crossing.{rects_overlap}
use win_xtend.Proto.Geom.{saturate}
use win_xtend.Core.Neighbours.Faults.{is_fault, Filled, Apart, validate-Apart}
use win_xtend.Tests.Places.{
  here, there, here_placement, there_placement, desk, desk_wire, here-IsSound, there-IsSound,
  desk-IsSoundLayout, near_edge, at_edge, at_edge-Inside,
}

-- Ten units to the right, with NaN for the other delta.
move_by-IsInside_example :
    Settles fixed_laws desk desk-IsSoundLayout (move_by desk at_edge (fin (pos 10000)) nan)
move_by-IsInside_example =
    move_by-IsInside fixed_laws desk desk-IsSoundLayout at_edge (fin (pos 10000)) nan at_edge-Inside

resolve_move_total_example :
    (x : Option (Crossing Milli)) × (resolve_move desk here near_edge
        (record { x = fin (pos 105000); y = fin (pos 50000) })
      ≡ some x)
    × Arrives desk x
resolve_move_total_example =
    resolve_move_total fixed_laws desk desk-IsSoundLayout here near_edge
      (record { x = fin (pos 105000); y = fin (pos 50000) }) (refl, refl)

validate-Apart_example : (any_of is_fault [] ≡ false) ↔ (All Filled (iter desk) × Apart (iter desk))
unfolding validate perpendicular_offset iter insert empty_layout gid_eq rects_overlap edge_midpoint
    resolve_crossing rect winner scan consider axis_gap better right bottom edge_gap entry_point
    clamp saturate ◌-ℤ◌ ◌+ℤ◌ wrap_i32
validate-Apart_example = validate-Apart desk [] (here-IsSound, (there-IsSound, tt)) refl

abbrev far_rect : Rect
far_rect = record { x = i32_max; y = pos 0; w = 10; h = 10 }

clamp_panics_example : clamp far_rect near_edge ≡ none
clamp_panics_example = clamp_panics fixed_laws far_rect near_edge refl refl

abbrev moves : List (Edit Milli)
moves = taking here ∷ putting there_placement ∷ putting here_placement ∷ []

iter-history_example :
    iter (edited (from_layout desk_wire) moves)
    ≡ arranged (arranged [] (map putting desk_wire.placements)) moves
iter-history_example = iter-history desk_wire moves

abbrev crossing : Crossing Milli
crossing = record {
  to = there;
  entry = record { x = fin (pos 101000); y = fin (pos 20000) };
  via = Edge.left;
}

abbrev leaves_at : Point Milli
leaves_at = record { x = fin (pos 100000); y = fin (pos 20000) }

crosses : resolve_crossing desk here leaves_at Edge.right ≡ some (some crossing)
unfolding resolve_crossing insert empty_layout rect gid_eq winner scan consider axis_gap better iter
    entry_point clamp right bottom contains edge_gap perpendicular_offset ◌+ℤ◌ ◌-ℤ◌ wrap_i32
crosses = refl

has_right_neighbour : has_neighbour desk here Edge.right ≡ some true
unfolding has_neighbour edge_midpoint resolve_crossing insert empty_layout rect gid_eq winner scan
    consider axis_gap better iter entry_point clamp right bottom contains edge_gap
    perpendicular_offset ◌+ℤ◌ ◌-ℤ◌ wrap_i32
has_right_neighbour = refl

has_neighbour-resolve_crossing_example : is_some (some crossing) ≡ true
has_neighbour-resolve_crossing_example =
    has_neighbour-resolve_crossing desk here Edge.right true leaves_at (some crossing)
      has_right_neighbour crosses

-- A motion of ten units to the right, and where it ends.
abbrev after_move : VirtualCursor Milli × CursorMotion Milli
after_move =
    unwrap_or (move_by desk at_edge (fin (pos 10000)) (fin (pos 0)))
      (at_edge, CursorMotion.blocked here at_edge.last_norm)

moves_on : move_by desk at_edge (fin (pos 10000)) (fin (pos 0)) ≡ some after_move
unfolding move_by placement move_on settle outside cross_or_block accumulate effective_scale
    sanitize_delta renormalize resolve_move leave_by exit_edge resolve_crossing insert empty_layout
    rect gid_eq winner scan consider axis_gap better iter entry_point clamp right bottom contains
    edge_gap perpendicular_offset normalize sanitized ◌+ℤ◌ ◌-ℤ◌ wrap_i32
moves_on = refl

move_by-IsReport_example : IsReport desk at_edge after_move.0 after_move.1
move_by-IsReport_example = move_by-IsReport desk at_edge (fin (pos 10000)) (fin (pos 0)) moves_on

abbrev holding : HeldInput
holding = record {
  keys = KeyPayload.special SpecialKey.alt_right ∷ [];
  buttons = MouseButton.left ∷ [];
  mods = 5;
}

abbrev entering : NormPos Milli
entering = record { x = fin (pos 500); y = fin (pos 500) }

abbrev driving : InputRouter Milli
driving = record { this_node = 1; layout = desk; cursor = at_edge; seq = []; held = holding }

transfer_order_example :
    (releases : List (RouteAction Milli)) × ((transfer here there entering Edge.left
        (driving, [])).1
      ≡ releases ++ (leave_action 1 here ∷ take_actions 1 there entering Edge.left))
    × CarryAll 1 here (release_events holding) releases
    × ((transfer here there entering Edge.left (driving, [])).0.held ≡ nothing_held)
    × ((transfer here there entering Edge.left (driving, [])).0.this_node ≡ 1)
transfer_order_example = transfer_order here there entering Edge.left driving refl

-- The cursor starts on the other machine, and two pointer events go there.
abbrev away_cursor : VirtualCursor Milli
away_cursor = record at_edge { monitor = there }

abbrev calls : List (Op Milli)
calls = routes (pointer (move_to entering)) ∷ releases ∷ routes (pointer (move_to entering)) ∷ []

abbrev start : InputRouter Milli
start = new 1 desk away_cursor

abbrev finish : Out Milli
finish = unwrap_or (run start calls) (start, [])

runs : run start calls ≡ some finish
unfolding run step route emit next_seq new release_all let_go counter
runs = refl

abbrev frames : List (InputFrame Milli)
frames = frames_to 2 finish.1

abbrev sent : ℕ → InputFrame Milli
sent n = record { seq = n; target = 1; event = pointer (move_to entering) }

two_frames : frames ≡ sent 1 ∷ sent 2 ∷ []
unfolding run step route emit emit_all next_seq new release_all let_go counter release_events
    frames_to nothing_held clear covered stranded_keys Modifiers.without Modifiers.contains
two_frames = refl

run_numbers_example :
    (seqs frames ≡ up_from 0 (length frames)) × (counter finish.0.seq 2 ≡ length frames)
run_numbers_example =
    run_numbers 2 1 desk away_cursor calls finish runs (omega (arith, ap length two_frames))

run_passes_gate_example : (accept (gate_after new_gate (sent 1 ∷ [])) (sent 2)).1 ≡ true
run_passes_gate_example =
    run_passes_gate 2 1 desk away_cursor calls finish (sent 1 ∷ []) (sent 2) [] runs
      (omega (arith, ap length two_frames)) two_frames

run-Away_example : (finish.0.this_node ≡ start.this_node) × All (Away start.this_node) finish.1
run-Away_example = run-Away start calls finish runs

release_events_example :
    ((observe_events holding (release_events {F = Milli} holding)).keys ≡ [])
    × ((observe_events holding (release_events {F = Milli} holding)).buttons ≡ [])
release_events_example = release_events_lem Milli holding

-- A warp from the first machine to the middle of the second one.
abbrev warped : Out Milli
warped =
    elim (unwrap_or (warp_via driving there entering Edge.left) (err (unknown_monitor there))) [
      | ok o ↦ o
      | err e ↦ (driving, [])
    ]

warps_there : warp_via driving there entering Edge.left ≡ some (ok warped)
unfolding warp_via after_warp warp_to usable_rect rect insert empty_layout gid_eq clamp denormalize
    sanitized right bottom renormalize normalize transfer emit next_seq let_go ◌+ℤ◌
warps_there = refl

warp_via-IsWarp_example : IsWarp driving there entering Edge.left warped
warp_via-IsWarp_example = warp_via-IsWarp driving there entering Edge.left warped warps_there refl
