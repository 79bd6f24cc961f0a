-- ===== src/Proto/Input.antt =====
-- crates/wx-proto/src/input.rs: captured events, frames on the input plane, and the gate that a
-- receiver puts before them.
pub mod Gate
use win_xtend.Prelude.{
  ℕ, Bool, true, false, not, Option, none, some, leb, if◌then◌else◌, map_or, ℕ_discrete,
}
use win_xtend.Proto.Ids.{MonitorId}
use win_xtend.Proto.Geom.{NormPos}
use win_xtend.Proto.Keyboard.{KeyEvent}

pub data MouseButton : Type 0 where
  left right middle back forward : MouseButton
  extra : ℕ → MouseButton

unfoldable pub MouseButton-discrete : Discrete MouseButton
MouseButton-discrete = hlevel ℕ_discrete

pub data ScrollUnit : Type 0 where
  lines pixels : ScrollUnit

pub data PointerEvent (F : Type 0) : Type 0 where
  move_to : NormPos F → PointerEvent F
  move_by : F → F → PointerEvent F
  button : MouseButton → Bool → PointerEvent F
  scroll : F → F → ScrollUnit → PointerEvent F

pub data Reliability : Type 0 where
  best_effort reliable : Reliability

pub data InputEvent (F : Type 0) : Type 0 where
  pointer : PointerEvent F → InputEvent F
  key : KeyEvent → InputEvent F
  release_control : InputEvent F

abbrev pub reliability : {F : Type 0} → InputEvent F → Reliability
reliability (pointer (move_to pos)) = best_effort
reliability (pointer (move_by dx dy)) = reliable
reliability (pointer (scroll dx dy unit)) = reliable
reliability (pointer (button b pressed)) = reliable
reliability (key e) = reliable
reliability release_control = reliable

pub record InputFrame (F : Type 0) : Type 0 where
  pub seq : ℕ
  pub target : MonitorId
  pub event : InputEvent F

pub record SequenceGate : Type 0 where
  pub highest_seen : Option ℕ

unfoldable pub new : SequenceGate
new = record { highest_seen = none }

abbrev is_reliable : Reliability → Bool
is_reliable best_effort = false
is_reliable reliable = true

unfoldable pub accept : {F : Type 0} → SequenceGate → InputFrame F → SequenceGate × Bool
accept g frame =
    if map_or false (λ h. leb frame.seq h) g.highest_seen
    then (g, is_reliable (reliability frame.event))
    else (record { highest_seen = some frame.seq }, true)

unfoldable pub reset : SequenceGate → SequenceGate
reset g = record { highest_seen = none }
