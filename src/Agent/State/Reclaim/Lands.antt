-- ===== src/Agent/State/Reclaim/Lands.antt =====
-- state.rs, reclaim_target: when the cursor is moved, and to which monitor.
use win_xtend.Prelude.{
  ◌≡◌, refl, sym, subst, ◌∙◌, Bool, true, false, not, ◌&&◌, ◌||◌, if◌then◌else◌, Option, none, some,
  is_some, map_or, or_option, List, [], ◌∷◌, keep, any_of, arith, All, Bool-cases, inl, inr,
}
use win_xtend.Proto.Ids.{NodeId, GlobalMonitorId, gid_eq, gid_eq_refl}
use win_xtend.Proto.Float.{Floats}
use win_xtend.Proto.Geom.{Rect}
use win_xtend.Core.Layout.{Placement, GlobalLayout, rect, iter, monitors_of}
use win_xtend.Agent.State.Reclaim.{
  Candidate, first, roomy, refuge, candidates, closer, min_by, nearest, reclaim_target,
}
use win_xtend.Agent.State.Reclaim.Nearest.{Best, IsTotalCmp, min_by-NoWorse}

module _ {F : Type 0} where
  -- The placement of that monitor is in the list, and passes the test.
  abbrev pub offers : (Placement F → Bool) → List (Placement F) → GlobalMonitorId → Bool
  offers q ps id = any_of (λ (p : Placement F). gid_eq p.monitor id && q p) ps

  offers-cons :
      (q : Placement F → Bool) (p : Placement F) (ps : List (Placement F)) (cs : List Candidate)
      → All (λ (c : Candidate). offers q ps c.0 ≡ true) cs
      → All (λ (c : Candidate). offers q (p ∷ ps) c.0 ≡ true) cs
  offers-cons q p ps [] all = tt
  offers-cons q p ps (c ∷ cs) all = (ground (arith, all.0), offers-cons q p ps cs all.1)

  keep-take :
      (q : Placement F → Bool) (p : Placement F) (ps : List (Placement F))
      → q p ≡ true
      → keep q (p ∷ ps) ≡ p ∷ keep q ps
  keep-take q p ps kept = rw kept refl

  keep-drop :
      (q : Placement F → Bool) (p : Placement F) (ps : List (Placement F))
      → q p ≡ false
      → keep q (p ∷ ps) ≡ keep q ps
  keep-drop q p ps dropped = rw dropped refl

  kept-All :
      (q : Placement F → Bool) (ps : List (Placement F))
      → All (λ (c : Candidate). offers q ps c.0 ≡ true) (candidates (keep q ps))
  kept-All q [] = tt
  kept-All q (p ∷ ps) =
      let later = offers-cons q p ps (candidates (keep q ps)) (kept-All q ps) in
      elim (Bool-cases (q p)) [
        | inl kept ↦
            subst Offered (sym (keep-take q p ps kept))
              (ground (arith, gid_eq_refl p.monitor, kept), later)
        | inr dropped ↦ subst Offered (sym (keep-drop q p ps dropped)) later
      ]
    where
      Offered : List (Placement F) → Type 0
      Offered kept = All (λ (c : Candidate). offers q (p ∷ ps) c.0 ≡ true) (candidates kept)

  some_kept :
      (q : Placement F → Bool) (ps : List (Placement F))
      → is_some (first (candidates (keep q ps))) ≡ any_of q ps
  some_kept q [] = refl
  some_kept q (p ∷ ps) = elim (Bool-cases (q p)) [
    | inl kept ↦ rw kept refl
    | inr dropped ↦ rw dropped (some_kept q ps)
  ]

module _ {F : Type 0} ⦃fl : Floats F⦄ (total_less : F → F → Bool) where
  min_by-All :
      (P : GlobalMonitorId → Type 0) (reference : Rect) (best : Candidate) (cs : List Candidate)
      → P best.0
      → All (λ (c : Candidate). P c.0) cs
      → P (min_by total_less reference best cs).0
  unfolding min_by
  min_by-All P reference best [] p all = p
  min_by-All P reference best (c ∷ cs) p all =
      elim (Bool-cases (closer total_less reference c best)) [
        | inl nearer ↦ rw (nearer, min_by) (min_by-All P reference c cs all.0 all.1)
        | inr farther ↦ rw (farther, min_by) (min_by-All P reference best cs p all.1)
      ]

  -- What holds of every candidate holds of the one chosen, no other beats it, and one is chosen if
  -- there is any.
  abbrev Chosen :
      (GlobalMonitorId → Type 0) → Option Rect → List Candidate → Option GlobalMonitorId → Type 0
  Chosen P from cs o =
      (is_some o ≡ is_some (first cs)) × map_or Unit P o × map_or Unit (Best total_less from cs) o

module _ {F : Type 0} ⦃fl : Floats F⦄ (total_less : F → F → Bool)
    (cmp : IsTotalCmp total_less) where
  pick :
      (P : GlobalMonitorId → Type 0) (from : Option Rect) (cs : List Candidate)
      → All (λ (c : Candidate). P c.0) cs
      → Chosen total_less P from cs (or_option (nearest total_less from cs) (first cs))
  unfolding nearest
  pick P none [] all = (refl, tt, tt)
  pick P none (c ∷ cs) all = (refl, all.0, refl)
  pick P (some reference) [] all = (refl, tt, tt)
  pick P (some reference) (c ∷ cs) all =
      let (among, start, others) = min_by-NoWorse total_less cmp reference c cs in
      (
        refl,
        min_by-All total_less P reference c cs all.0 all.1,
        (min_by total_less reference c cs, refl, among, (start, others)),
      )

  pick_kept :
      (q : Placement F → Bool) (from : Option Rect) (ps : List (Placement F))
      → let cs = candidates (keep q ps) in
        let o = or_option (nearest total_less from cs) (first cs) in
        (is_some o ≡ any_of q ps)
        × map_or Unit (λ id. offers q ps id ≡ true) o
        × map_or Unit (Best total_less from cs) o
  pick_kept q from ps =
      let (found, offered, best) =
        pick (λ id. offers q ps id ≡ true) from (candidates (keep q ps)) (kept-All q ps) in
      (found ∙ some_kept q ps, offered, best)

  -- The cursor is moved exactly when its machine is not reachable and there is somewhere to go: a
  -- monitor of this machine with some room, and if it has none, such a monitor of a reachable
  -- machine other than the one that is gone. Of those it goes to one with the least distance from
  -- the monitor it was on, by the order `total_less`, and of the ones at that distance to one with
  -- the lowest monitor number; if the monitor that it was on is not in the layout, to the first.
  -- `total_less` has to be as `f64::total_cmp` promises.
  pub reclaim_target-lands :
      (layout : GlobalLayout F) (cursor_on : GlobalMonitorId) (local : NodeId)
      (is_reachable : NodeId → Bool)
      → let here = any_of roomy (monitors_of layout local) in
        let elsewhere = any_of (refuge cursor_on is_reachable) (iter layout) in
        let target = reclaim_target total_less layout cursor_on local is_reachable in
        (is_some target ≡ (not (is_reachable cursor_on.node) && (here || elsewhere)))
        × map_or Unit
            (λ id.
              (if here
                then offers roomy (monitors_of layout local) id
                else offers (refuge cursor_on is_reachable) (iter layout) id)
              ≡ true)
            target
        × map_or Unit
            (Best total_less (rect layout cursor_on) (
              if here
              then candidates (keep roomy (monitors_of layout local))
              else candidates (keep (refuge cursor_on is_reachable) (iter layout))))
            target
  unfolding reclaim_target
  reclaim_target-lands layout cursor_on local is_reachable =
      elim (Bool-cases (is_reachable cursor_on.node)) [
        | inl there ↦ rw there (refl, tt, tt)
        | inr gone ↦ elim (Bool-cases (any_of roomy (monitors_of layout local))) [
          | inl home ↦
              let (found, offered, best) =
                pick_kept roomy (rect layout cursor_on) (monitors_of layout local) in
              rw (gone, some_kept roomy (monitors_of layout local) ∙ home, home)
                (found ∙ home, offered, best)
          | inr away ↦
              let chosen =
                pick_kept (refuge cursor_on is_reachable) (rect layout cursor_on) (iter layout) in
              rw (gone, some_kept roomy (monitors_of layout local) ∙ away, away) chosen
        ]
      ]
