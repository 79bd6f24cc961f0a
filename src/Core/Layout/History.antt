-- ===== src/Core/Layout/History.antt =====
-- layout.rs over any history of insertions and removals.
use win_xtend.Prelude.{ℕ, ◌≡◌, refl, ◌∙◌, ap, List, [], ◌∷◌, keep, not, map}
use win_xtend.Proto.Ids.{gid_eq}
use win_xtend.Core.Layout.{
  Placement, GlobalLayout, WireLayout, insert, remove, iter, from_layout, insert_all, empty_layout,
  placed,
}
use win_xtend.Core.Layout.Index.{
  IsIndexed, Edit, putting, taking, edited, insert-IsIndexed, remove-IsIndexed,
  empty_layout-IsIndexed, from_layout-IsIndexed,
}
use win_xtend.Core.Layout.RoundTrip.{put, iter-insert, iter-remove}

module _ {F : Type 0} where
  -- The same history on a plain list of placements.
  abbrev pub arranged : List (Placement F) → List (Edit F) → List (Placement F)
  arranged ps [] = ps
  arranged ps (putting q ∷ more) = arranged (put q ps) more
  arranged ps (taking id ∷ more) = arranged (keep (λ p. not (gid_eq p.monitor id)) ps) more

  iter-edited :
      (l : GlobalLayout F) (es : List (Edit F))
      → IsIndexed l
      → iter (edited l es) ≡ arranged (iter l) es
  iter-edited l [] v = refl
  iter-edited l (putting q ∷ more) v =
      iter-edited (insert l q) more (insert-IsIndexed l q v)
      ∙ ap (λ ps. arranged ps more) (iter-insert l q v)
  iter-edited l (taking id ∷ more) v =
      iter-edited (remove l id) more (remove-IsIndexed l id v)
      ∙ ap (λ ps. arranged ps more) (iter-remove l id v)

  edited_putting :
      (l : GlobalLayout F) (ps : List (Placement F)) → insert_all l ps ≡ edited l (map putting ps)
  unfolding insert_all
  edited_putting l [] = refl
  edited_putting l (p ∷ ps) = edited_putting (insert l p) ps

  iter-empty_layout : (revision : ℕ) → iter (empty_layout {F = F} revision) ≡ []
  unfolding empty_layout iter placed
  iter-empty_layout revision = refl

  start : (w : WireLayout F) → iter (from_layout w) ≡ arranged [] (map putting w.placements)
  unfolding from_layout
  start w =
      ap iter (edited_putting (empty_layout w.revision) w.placements)
      ∙ iter-edited (empty_layout w.revision) (map putting w.placements)
          (empty_layout-IsIndexed w.revision)
      ∙ ap (λ ps. arranged ps (map putting w.placements)) (iter-empty_layout w.revision)

  -- A layout made from the wire and then changed by any history of insertions and removals is the
  -- ordered list of placements on which the same placements and the same history were carried out,
  -- beginning with no placement: an insertion replaces the placement of its monitor where it stands
  -- or appends it, a removal drops the placement of its monitor and keeps the others' order.
  pub iter-history :
      (w : WireLayout F) (es : List (Edit F))
      → iter (edited (from_layout w) es) ≡ arranged (arranged [] (map putting w.placements)) es
  iter-history w es =
      iter-edited (from_layout w) es (from_layout-IsIndexed w) ∙ ap (λ ps. arranged ps es) (start w)
