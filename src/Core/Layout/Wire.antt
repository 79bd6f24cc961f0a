-- ===== src/Core/Layout/Wire.antt =====
-- layout.rs: the layout that a peer sends, taken in and sent on.
use mathlib.Core.List.{append-nil, append_assoc}
use win_xtend.Prelude.{
  ℕ, ◌≡◌, refl, ap, subst, ◌∙◌, sym, false, some, List, [], ◌∷◌, ◌++◌, arith, All,
}
use win_xtend.Prelude.Maps.{lookup}
use win_xtend.Proto.Ids.{GlobalMonitorId, gid_key, gid_eq_sound, gid_eq_sym}
use win_xtend.Core.Layout.{
  Placement, GlobalLayout, WireLayout, insert, from_layout, to_layout, iter, placed, insert_all,
  empty_layout,
}
use win_xtend.Core.Layout.Index.{
  IsIndexed, listed, listed-append, Distinct, empty_layout-IsIndexed, insert-IsIndexed,
}
use win_xtend.Core.Layout.RoundTrip.{monitors, put_new, iter-insert, Backed, backed, placed_cons}

module _ {F : Type 0} where
  -- What is listed is stored: every placement of the iteration is found again by its monitor.
  placed_stored :
      (m : List (GlobalMonitorId × Placement F)) (ids : List GlobalMonitorId)
      → Backed m ids
      → All (λ p. lookup p.monitor m ≡ some p) (placed m ids)
  placed_stored m [] b = unfold placed in tt
  placed_stored m (id ∷ ids) ((p, e, k), b) = rw (placed_cons m id ids p e) (
    subst (λ t. lookup t m ≡ some p) (sym (gid_eq_sound p.monitor id k)) e,
    placed_stored m ids b,
  )

  pub iter_stored :
      (l : GlobalLayout F)
      → IsIndexed l
      → All (λ p. lookup p.monitor l.placements ≡ some p) (iter l)
  unfolding iter
  iter_stored l v = placed_stored l.placements l.order (backed l l.order v (λ j h. h))

  -- No monitor of `ps` is among `acc`.
  abbrev Apart : List (Placement F) → List (Placement F) → Type 0
  Apart acc ps = All (λ (p : Placement F). listed p.monitor (monitors acc) ≡ false) ps

  monitors-append : (xs ys : List (Placement F)) → monitors (xs ++ ys) ≡ monitors xs ++ monitors ys
  monitors-append [] ys = refl
  monitors-append (x ∷ xs) ys = ap (λ t. x.monitor ∷ t) (monitors-append xs ys)

  Apart-append :
      (acc ps : List (Placement F)) (p : Placement F)
      → Apart acc ps
      → listed p.monitor (monitors ps) ≡ false
      → Apart (acc ++ p ∷ []) ps
  Apart-append acc [] p a h = tt
  Apart-append acc (q ∷ ps) p a h = (
    rw (monitors-append acc (p ∷ [])) (
        ground (
          arith,
          a.0,
          h,
          gid_eq_sym q.monitor p.monitor,
          listed-append q.monitor (monitors acc) (p.monitor ∷ []),
        )),
    Apart-append acc ps p a.1 (ground arith),
  )

  iter-insert_all :
      (l : GlobalLayout F) (ps : List (Placement F))
      → IsIndexed l
      → Apart (iter l) ps
      → Distinct (monitors ps)
      → iter (insert_all l ps) ≡ iter l ++ ps
  unfolding insert_all
  iter-insert_all l [] v a d = sym (append-nil (iter l))
  iter-insert_all l (p ∷ ps) v a d =
      let one : iter (insert l p) ≡ iter l ++ p ∷ [] = iter-insert l p v ∙ put_new p (iter l) a.0 in
      iter-insert_all (insert l p) ps (insert-IsIndexed l p v)
        (rw one (Apart-append (iter l) ps p a.1 d.0)) d.1
      ∙ ap (λ t. t ++ ps) one
      ∙ append_assoc (iter l) (p ∷ []) ps

  insert_all-revision :
      (l : GlobalLayout F) (ps : List (Placement F)) → (insert_all l ps).revision ≡ l.revision
  unfolding insert_all insert
  insert_all-revision l [] = refl
  insert_all-revision l (p ∷ ps) = insert_all-revision (insert l p) ps ∙ ground arith

  Apart-empty : (ps : List (Placement F)) → Apart [] ps
  Apart-empty [] = tt
  Apart-empty (p ∷ ps) = (refl, Apart-empty ps)

  empty_layout-iter : (revision : ℕ) → iter (empty_layout {F = F} revision) ≡ []
  unfolding empty_layout iter
  empty_layout-iter revision = refl

  wire_placements :
      (w : WireLayout F)
      → Distinct (monitors w.placements)
      → iter (insert_all (empty_layout w.revision) w.placements) ≡ w.placements
  wire_placements w d =
      iter-insert_all (empty_layout w.revision) w.placements (empty_layout-IsIndexed w.revision)
        (rw (empty_layout-iter w.revision) (Apart-empty w.placements)) d
      ∙ ap (λ t. t ++ w.placements) (empty_layout-iter w.revision)

  -- A layout that names each monitor once comes back from `from_layout` and `to_layout` unchanged,
  -- with its placements in the same order and its revision.
  pub to_layout-from_layout :
      (w : WireLayout F) → Distinct (monitors w.placements) → to_layout (from_layout w) ≡ w
  unfolding to_layout from_layout
  to_layout-from_layout w d = λ i. record {
    placements = wire_placements w d i;
    revision = insert_all-revision (empty_layout w.revision) w.placements i;
  }
