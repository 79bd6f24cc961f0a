-- ===== src/Core/Crossing/Total.antt =====
-- layout.rs: crossings in a layout of sound rectangles, and the points at which they end.
use win_xtend.Core.Crossing.Landing.{
  IsFinite, NoNan, CleanExit, entry_point-contains, exit_edge-CleanExit,
}
use win_xtend.Prelude.{
  ◌≡◌, refl, true, false, inl, inr, Option, none, some, Bool-cases, Option-cases,
}
use win_xtend.Proto.Ids.{GlobalMonitorId}
use win_xtend.Proto.Edge.{Edge, opposite}
use win_xtend.Proto.Float.{Floats, FloatLaws}
use win_xtend.Proto.Geom.{Point, Rect, IsSound, is_empty, contains}
use win_xtend.Core.Layout.{GlobalLayout, rect}
use win_xtend.Core.Layout.Index.{IsIndexed}
use win_xtend.Core.Crossing.{
  Candidate, Crossing, exit_edge, leave_by, land, resolve_crossing, winner, resolve_move,
}
use win_xtend.Core.Crossing.Winner.{winner-IsBeyond}

-- The layout is indexed, and no rectangle in it reaches past the coordinate range.
pub record IsSoundLayout {F : Type 0} (l : GlobalLayout F) : Type 0 where
  pub indexed : IsIndexed l
  pub sound : (id : GlobalMonitorId) (r : Rect) → rect l id ≡ some r → IsSound r

module _ {F : Type 0} ⦃fl : Floats F⦄ where
  -- The point lies in the monitor, which is in the layout and not empty.
  pub record Inside (l : GlobalLayout F) (monitor : GlobalMonitorId) (p : Point F) : Type 0 where
    pub bounds : Rect
    pub placed : rect l monitor ≡ some bounds
    pub roomy : is_empty bounds ≡ false
    pub held : contains bounds p ≡ true

  -- A crossing, if there is one, enters the monitor that it leads to.
  abbrev pub Arrives : GlobalLayout F → Option (Crossing F) → Type 0
  Arrives l none = Unit {0}
  Arrives l (some x) = Inside l x.to x.entry

module _ {F : Type 0} ⦃fl : Floats F⦄ (laws : FloatLaws fl) (l : GlobalLayout F)
    (s : IsSoundLayout l) where
  land_total :
      (from : GlobalMonitorId) (r : Rect) (exit : Point F) (edge : Edge) (c : Option (Candidate F))
      → winner l from r exit edge ≡ c
      → NoNan exit
      → (x : Option (Crossing F)) × (land exit edge c ≡ some x) × Arrives l x
  unfolding land
  land_total from r exit edge none e n = (none, refl, tt)
  land_total from r exit edge (some c) e n =
      let good = winner-IsBeyond l from r exit edge c s.indexed e in
      let (q, lands, inside) =
        entry_point-contains laws c.bounds exit (opposite edge)
          (s.sound c.monitor c.bounds good.stored) good.roomy n in
      (
        some (record { to = c.monitor; entry = q; via = opposite edge }),
        rw lands,
        record { bounds = c.bounds; placed = good.stored; roomy = good.roomy; held = inside },
      )

  pub resolve_crossing_total :
      (from : GlobalMonitorId) (exit : Point F) (edge : Edge)
      → NoNan exit
      → (x : Option (Crossing F)) × (resolve_crossing l from exit edge ≡ some x) × Arrives l x
  unfolding resolve_crossing
  resolve_crossing_total from exit edge n = elim (Option-cases (rect l from)) [
    | inl gone ↦ (none, rw (gone, resolve_crossing), tt)
    | inr (r, placed) ↦
        let (x, e, arrives) = land_total from r exit edge (winner l from r exit edge) refl n in
        (x, rw (placed, resolve_crossing) e, arrives)
  ]

  leave_by_total :
      (from : GlobalMonitorId) (exit : Option (Edge × Point F))
      → CleanExit laws exit
      → (x : Option (Crossing F)) × (leave_by l from exit ≡ some x) × Arrives l x
  unfolding leave_by
  leave_by_total from none n = (none, refl, tt)
  leave_by_total from (some (edge, exit)) n = resolve_crossing_total from exit edge n

  -- In a sound layout, with arithmetic that keeps the laws above, a move from a finite point never
  -- panics; if it crosses, it ends inside the monitor it reaches.
  pub resolve_move_total :
      (from : GlobalMonitorId) (origin target : Point F)
      → IsFinite origin
      → (x : Option (Crossing F)) × (resolve_move l from origin target ≡ some x) × Arrives l x
  unfolding resolve_move
  resolve_move_total from origin target f = elim (Option-cases (rect l from)) [
    | inl gone ↦ (none, rw (gone, resolve_move), tt)
    | inr (r, placed) ↦ elim (Bool-cases (contains r target)) [
      | inl within ↦ (none, rw (placed, resolve_move, within), tt)
      | inr outside ↦
          let (x, e, arrives) =
            leave_by_total from (exit_edge r origin target)
              (exit_edge-CleanExit laws r origin target f) in
          (x, rw (placed, resolve_move, outside) e, arrives)
    ]
  ]
