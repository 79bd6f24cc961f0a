-- ===== src/Agent/Engine/Rescue.antt =====
-- crates/wx-agent/src/engine.rs, reclaim_cursor: the cursor is brought back from a machine that is gone;
-- local_exits: the edges by which it may leave. `total_less` is `f64::total_cmp` giving Less.
use win_xtend.Prelude.{◌>>=◌, Bool, Option, none, some, List, [], ◌∷◌}
use win_xtend.Proto.Ids.{NodeId}
use win_xtend.Proto.Edge.{Edge}
use win_xtend.Proto.Float.{Floats, f_half}
use win_xtend.Proto.Geom.{Rect, Monitor}
use win_xtend.Core.Layout.{GlobalLayout}
use win_xtend.Core.Neighbours.{exit_edges}
use win_xtend.Core.Transfer.{InputRouter, Out}
use win_xtend.Core.Router.{warp, or_default}
use win_xtend.Agent.State.Reclaim.{reclaim_target}

pub record ScreenExits : Type 0 where
  pub bounds : Rect
  pub edges : List Edge

module _ {F : Type 0} ⦃fl : Floats F⦄ where
  unfoldable pub reclaim_cursor :
      (F → F → Bool) → InputRouter F → NodeId → (NodeId → Bool) → Option (Out F)
  reclaim_cursor total_less r local is_reachable =
      elim (reclaim_target total_less r.layout r.cursor.monitor local is_reachable) [
        | none ↦ some (r, [])
        | some target ↦ (do
          out ← warp r target (record { x = f_half; y = f_half })
          some (or_default r out))
      ]

  unfoldable pub local_exits :
      GlobalLayout F → NodeId → List (Monitor F) → Option (List ScreenExits)
  local_exits layout node [] = some []
  local_exits layout node (m ∷ more) = do
    edges ← exit_edges layout (record { node = node; monitor = m.id })
    rest ← local_exits layout node more
    some (record { bounds = m.local_bounds; edges = edges } ∷ rest)
