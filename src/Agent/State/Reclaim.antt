-- ===== src/Agent/State/Reclaim.antt =====
-- state.rs, reclaim_target: where the cursor goes when the machine that it is on is gone. `total_less`
-- is `f64::total_cmp` giving Less.
pub mod Lands
pub mod Nearest
use win_xtend.Prelude.{
  ◌≡◌, refl, sym, subst, ◌∙◌, Bool, true, false, not, ◌&&◌, ◌||◌, ◌==◌, ltb, if◌then◌else◌, Option,
  none, some, is_some, map_or, or_option, List, [], ◌∷◌, map, keep, any_of, arith, All, Bool-cases,
  inl, inr,
}
use win_xtend.Proto.Ids.{NodeId, GlobalMonitorId, gid_eq, gid_eq_refl}
use win_xtend.Proto.Float.{Floats, of_int, of_nat, f_add, f_sub, f_mul, f_div}
use win_xtend.Proto.Geom.{Rect, is_empty}
use win_xtend.Core.Layout.{Placement, GlobalLayout, rect, iter, monitors_of}

abbrev pub Candidate : Type 0
Candidate = GlobalMonitorId × Rect

abbrev pub first : List Candidate → Option GlobalMonitorId
first [] = none
first (c ∷ cs) = some c.0

module _ {F : Type 0} ⦃fl : Floats F⦄ where
  unfoldable pub distance_between : Rect → Rect → F
  distance_between a b = f_add (f_mul dx dx) (f_mul dy dy)
    where
      cx : Rect → F
      cx r = f_add (of_int r.x) (f_div (of_nat r.w) (of_nat 2))

      cy : Rect → F
      cy r = f_add (of_int r.y) (f_div (of_nat r.h) (of_nat 2))

      dx : F
      dx = f_sub (cx a) (cx b)

      dy : F
      dy = f_sub (cy a) (cy b)

module _ {F : Type 0} where
  -- A placement with some room, and one on a reachable machine other than the one gone.
  abbrev pub roomy : Placement F → Bool
  roomy p = not (is_empty p.global_bounds)

  abbrev pub refuge : GlobalMonitorId → (NodeId → Bool) → Placement F → Bool
  refuge cursor_on is_reachable p =
      not (p.monitor.node == cursor_on.node) && (roomy p && is_reachable p.monitor.node)

  abbrev pub candidates : List (Placement F) → List Candidate
  candidates ps = map (λ (p : Placement F). (p.monitor, p.global_bounds)) ps

module _ {F : Type 0} ⦃fl : Floats F⦄ (total_less : F → F → Bool) where
  -- `a` is strictly before `b`: by distance, then by the number of the monitor.
  unfoldable pub closer : Rect → Candidate → Candidate → Bool
  closer reference a b =
      let da = distance_between reference a.1 in
      let db = distance_between reference b.1 in
      total_less da db || (not (total_less db da) && ltb a.0.monitor b.0.monitor)

  -- `min_by`, which gives the first of equals.
  unfoldable pub min_by : Rect → Candidate → List Candidate → Candidate
  min_by reference best [] = best
  min_by reference best (c ∷ cs) = min_by reference (if closer reference c best then c else best) cs

  unfoldable pub nearest : Option Rect → List Candidate → Option GlobalMonitorId
  nearest none candidates = none
  nearest (some reference) [] = none
  nearest (some reference) (c ∷ cs) = some (min_by reference c cs).0

  unfoldable pub reclaim_target :
      GlobalLayout F → GlobalMonitorId → NodeId → (NodeId → Bool) → Option GlobalMonitorId
  reclaim_target layout cursor_on local is_reachable =
      if is_reachable cursor_on.node
      then none
      else (let from = rect layout cursor_on in
          let locals = candidates (keep roomy (monitors_of layout local)) in
          let elsewhere = candidates (keep (refuge cursor_on is_reachable) (iter layout)) in
          if is_some (first locals)
          then or_option (nearest from locals) (first locals)
          else or_option (nearest from elsewhere) (first elsewhere))
