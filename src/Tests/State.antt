-- ===== src/Tests/State.antt =====
-- The theorems on the agent's peers and on the keys of a capture backend at concrete inputs.
use win_xtend.Net.Pairing.{Pin}
use win_xtend.Agent.Engine.{OfferedPins, offer, claim}
use win_xtend.Agent.Engine.Codes.{Turn, offered, claimed, session_over, after_turns, claim-offer}
use win_xtend.Prelude.{
  ◌+◌, ℕ, ◌≡◌, ◌≢◌, ap, get_or, refl, Bool, true, false, not, ◌&&◌, ◌||◌, ltb, if◌then◌else◌, inl,
  inr, none, some, is_some, map_or, List, [], ◌∷◌, any_of, keep, arith, ◌↔◌,
}
use win_xtend.Proto.Ids.{NodeId}
use win_xtend.Proto.Keyboard.{press, repeat, release, text}
use win_xtend.Core.Layout.{iter, monitors_of, rect}
use win_xtend.Core.Held.{nothing_held}
use win_xtend.Agent.State.{PeerState, AgentState, new_peer, new}
use win_xtend.Agent.State.Events.{on_disconnected}
use win_xtend.Agent.State.Dial.{dials, dials-one_side, dials-on_disconnected}
use win_xtend.Agent.State.Reclaim.{roomy, refuge, candidates, reclaim_target}
use win_xtend.Agent.State.Reclaim.Lands.{offers, reclaim_target-lands}
use win_xtend.Agent.State.Reclaim.Nearest.{Best, IsTotalCmp}
use win_xtend.Platform.Keyres as Keyres
use win_xtend.Platform.Keyres.{RawKey, release_held, resolve}
use win_xtend.Platform.Keyres.Recorded.{receive, Consistent}
use win_xtend.Platform.Keyres.Clears.{pump, AllConsistent, release_held-clears}
use win_xtend.Platform.Accent.{compose, classify, precomposed, position}
use win_xtend.Platform.Keyres.Strand.{accent_key, letter_key, release_held_strands}
use win_xtend.Platform.Coords.{deduplicate_ids}
use win_xtend.Platform.Coords.Distinct.{Distinct, Kept, deduplicate_ids-Distinct}
use win_xtend.Tests.Fixed.{Milli, fin, fixed}
use win_xtend.Prelude.Int.{pos}
use win_xtend.Tests.Places.{there, desk}

-- A peer that was first seen at instant 5, and may be dialled.
abbrev wanted : NodeId → PeerState Milli
wanted node = record {
  node = node;
  advertised_name = [];
  configured_name = none;
  paired = true;
  blocked = false;
  enabled = true;
  status = win_xtend.Agent.State.discovered;
  addresses = 77 ∷ [];
  info = none;
  rtt = none;
  dropped_datagrams = none;
  dropped_sampled_at = 5;
  dial_failures = 3;
  next_dial = none;
  first_seen = 5;
  last_seen = 5;
}

abbrev agent : NodeId → NodeId → AgentState Milli
agent local other = record {
  local = local;
  local_name = [];
  local_monitors = [];
  peers = (other, wanted other) ∷ [];
  cursor_on = none;
  cursor_locked = false;
  started = 0;
}

dials-one_side_example :
    ((dials (agent 1 2) 2 9 && ltb 2 1) ≡ false)
    × ((dials (agent 2 1) 1 8 && ltb 1 2) ≡ false)
    × ((dials (agent 1 2) 2 9 && dials (agent 2 1) 1 8) ≡ false)
dials-one_side_example = dials-one_side (agent 1 2) (agent 2 1) 9 8 (omega arith) refl refl

dials-on_disconnected_example :
    dials (on_disconnected (agent 2 1) 1 (some (9 ∷ [])) 1000) 1 40000000000 ≡ true
dials-on_disconnected_example =
    dials-on_disconnected (agent 2 1) 1 (wanted 1) (some (9 ∷ [])) 1000 40000000000 refl refl refl
      (omega arith) (omega arith) (omega arith)

-- Only machine 1 is left.
abbrev only_here : NodeId → Bool
only_here node = ltb node 2

abbrev rank : Milli → ℕ
rank (fin (pos n)) = n + 1
rank _ = 0

-- The order of the values that are not negative, all others below them.
abbrev milli_less : Milli → Milli → Bool
milli_less a b = ltb (rank a) (rank b)

milli_less-IsTotalCmp : IsTotalCmp milli_less
milli_less-IsTotalCmp = record {
  asymmetric = λ a b h. ground (arith, h);
  splits = λ a b c h. ground (arith, h);
}

reclaim_target-lands_example :
    (is_some (reclaim_target milli_less desk there 1 only_here) ≡ (
      not (only_here 2)
      && (any_of roomy (monitors_of desk 1) || any_of (refuge there only_here) (iter desk))))
    × map_or Unit
        (λ id.
          (if any_of roomy (monitors_of desk 1)
            then offers roomy (monitors_of desk 1) id
            else offers (refuge there only_here) (iter desk) id)
          ≡ true)
        (reclaim_target milli_less desk there 1 only_here)
    × map_or Unit
        (Best milli_less (rect desk there) (
          if any_of roomy (monitors_of desk 1)
          then candidates (keep roomy (monitors_of desk 1))
          else candidates (keep (refuge there only_here) (iter desk))))
        (reclaim_target milli_less desk there 1 only_here)
reclaim_target-lands_example =
    reclaim_target-lands milli_less milli_less-IsTotalCmp desk there 1 only_here

abbrev typed : ℕ → RawKey
typed code = record {
  code = code;
  action = press;
  modifiers = 0;
  special = none;
  text = some (97 ∷ []);
  dead = none;
}

-- One key pressed and held, another pressed and released, both for the same letter.
abbrev keys : List RawKey
keys =
    typed 30
    ∷ record (typed 30) { action = repeat }
    ∷ typed 31
    ∷ record (typed 31) { action = release }
    ∷ []

keys-Consistent : AllConsistent Keyres.new keys
unfolding Consistent Keyres.new resolve Keyres.resolve_press Keyres.press_with Keyres.payload_for
    Keyres.composed
keys-Consistent = (inr (inl refl), (inr (inr refl), (inr (inl refl), (inl refl, tt))))

release_held-clears_example :
    (receive
      (pump Keyres.new nothing_held keys).1
      (release_held (pump Keyres.new nothing_held keys).0).1).keys
    ≡ []
release_held-clears_example = release_held-clears keys keys-Consistent

-- A dead acute at key 40, and the letter a at key 30.
abbrev accented_a : List RawKey
accented_a =
    accent_key 40 180 0 press
    ∷ letter_key 30 97 0 press
    ∷ letter_key 30 97 0 repeat
    ∷ letter_key 30 97 0 release
    ∷ []

acute-changes : compose 180 (97 ∷ []) ≢ 97 ∷ []
unfolding compose classify precomposed position
acute-changes e = absurd (omega (arith, ap (λ t. get_or t 0 0) e))

release_held_strands_example :
    (receive
      (pump Keyres.new nothing_held accented_a).1
      (release_held (pump Keyres.new nothing_held accented_a).0).1).keys
    ≡ text (compose 180 (97 ∷ [])) ∷ []
release_held_strands_example =
    release_held_strands 40 30 180 97 0 (λ e. omega arith) refl acute-changes

abbrev clashing : List ℕ
clashing = 7 ∷ 7 ∷ 4294967295 ∷ 8 ∷ 4294967295 ∷ []

deduplicate_ids-Distinct_example :
    Distinct (deduplicate_ids clashing)
    × Kept [] clashing (deduplicate_ids clashing)
    × (Distinct clashing ↔ (deduplicate_ids clashing ≡ clashing))
deduplicate_ids-Distinct_example =
    deduplicate_ids-Distinct clashing
      (omega arith, (omega arith, (omega arith, (omega arith, (omega arith, tt))))) (omega arith)

-- A code of six digits.
abbrev shown_code : Pin
shown_code = 49 ∷ 50 ∷ 51 ∷ 52 ∷ 53 ∷ 54 ∷ []

abbrev other_code : Pin
other_code = 54 ∷ 53 ∷ 52 ∷ 51 ∷ 50 ∷ 49 ∷ []

abbrev no_codes : OfferedPins
no_codes = record { pins = []; awaiting_dial = [] }

-- The session that the user's new pairing replaces ends, and another machine is paired meanwhile.
abbrev meanwhile : List Turn
meanwhile = session_over 2 ∷ offered 3 other_code [] 8 ∷ claimed 3 ∷ session_over 3 ∷ []

abbrev with_code : OfferedPins
with_code = after_turns (offer no_codes 2 shown_code [] 7) meanwhile

claim-offer_example :
    ((claim with_code 2).1 ≡ some shown_code) × ((claim (claim with_code 2).0 2).1 ≡ none)
claim-offer_example = claim-offer no_codes 2 shown_code [] 7 meanwhile refl
