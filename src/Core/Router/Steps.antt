-- ===== src/Core/Router/Steps.antt =====
-- The operations of router.rs as steps of one machine.
use win_xtend.Prelude.{Bool, Option, some, ◌>>=◌, List, [], ◌∷◌, ◌++◌}
use win_xtend.Proto.Ids.{GlobalMonitorId}
use win_xtend.Proto.Edge.{Edge}
use win_xtend.Proto.Float.{Floats}
use win_xtend.Proto.Geom.{NormPos}
use win_xtend.Proto.Input.{InputEvent}
use win_xtend.Core.Layout.{GlobalLayout}
use win_xtend.Core.Transfer.{InputRouter, Out, set_locked, toggle_lock}
use win_xtend.Core.Router.{motion, route, warp, warp_via, release_all, set_layout, or_default}

pub data Op (F : Type 0) : Type 0 where
  moves : F → F → Op F
  routes : InputEvent F → Op F
  warps : GlobalMonitorId → NormPos F → Edge → Op F
  jumps : GlobalMonitorId → NormPos F → Op F
  releases : Op F
  lays_out : GlobalLayout F → Op F
  locks : Bool → Op F
  toggles : Op F

module _ {F : Type 0} ⦃fl : Floats F⦄ where
  -- One call of the router. A warp that fails leaves it as it was.
  unfoldable pub step : InputRouter F → Op F → Option (Out F)
  step r (moves dx dy) = motion r dx dy
  step r (routes event) = route r event
  step r (warps monitor entry via) = do out ← warp_via r monitor entry via; some (or_default r out)
  step r (jumps monitor entry) = do out ← warp r monitor entry; some (or_default r out)
  step r releases = some (release_all r)
  step r (lays_out layout) = set_layout r layout
  step r (locks locked) = some (set_locked r locked, [])
  step r toggles = some ((toggle_lock r).0, [])

  -- A history of calls, with all the actions in order.
  unfoldable pub run : InputRouter F → List (Op F) → Option (Out F)
  run r [] = some (r, [])
  run r (op ∷ ops) = do first ← step r op; rest ← run first.0 ops; some (rest.0, first.1 ++ rest.1)
