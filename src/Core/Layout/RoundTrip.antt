-- ===== src/Core/Layout/RoundTrip.antt =====
-- layout.rs as an ordered list of placements, and `insert` and `remove` on that list.
use win_xtend.Prelude.{
  ◌≡◌, refl, ap, subst, ◌∙◌, sym, true, false, not, ◌⊎◌, inl, inr, if◌then◌else◌, none, some,
  is_some, List, [], ◌∷◌, ◌++◌, arith, Bool-cases, Option-cases, keep, map,
}
use win_xtend.Prelude.Maps.{
  lookup, lookup-insert, lookup-remove, insert as map_insert, remove as map_remove,
}
use win_xtend.Proto.Ids.{GlobalMonitorId, gid_eq, gid_key, gid_eq_sound, gid_eq_refl, gid_eq_sym}
use win_xtend.Core.Layout.{Placement, GlobalLayout, insert, remove, iter, placed}
use win_xtend.Core.Layout.Index.{IsIndexed, listed, Distinct}

module _ {F : Type 0} where
  -- The placements of the list, with `p` in the place of the one for its monitor, or at the end.
  abbrev pub put : Placement F → List (Placement F) → List (Placement F)
  put p [] = p ∷ []
  put p (q ∷ qs) = let rest = put p qs in if gid_eq q.monitor p.monitor then p ∷ qs else q ∷ rest

  -- Every listed monitor is stored, under its own id.
  abbrev pub Backed : List (GlobalMonitorId × Placement F) → List GlobalMonitorId → Type 0
  Backed m [] = Unit {0}
  Backed m (id ∷ ids) =
      ((p : Placement F) × (lookup id m ≡ some p) × (gid_eq p.monitor id ≡ true)) × Backed m ids

  pub placed_cons :
      (m : List (GlobalMonitorId × Placement F)) (id : GlobalMonitorId) (ids : List GlobalMonitorId)
      → (p : Placement F) → lookup id m ≡ some p
      → placed m (id ∷ ids) ≡ p ∷ placed m ids
  unfolding placed
  placed_cons m id ids p h = rw (h, placed)

  -- A store that agrees with another on the listed monitors places the same.
  placed_untouched :
      (m : List (GlobalMonitorId × Placement F)) (q : Placement F) (ids : List GlobalMonitorId)
      → listed q.monitor ids ≡ false
      → Backed m ids
      → placed (map_insert q.monitor q m) ids ≡ placed m ids
  placed_untouched m q [] h b = unfold placed in refl
  placed_untouched m q (id ∷ ids) h ((p, e, k), b) =
      rw
        (
          placed_cons m id ids p e,
          placed_cons (map_insert q.monitor q m) id ids p
              (lookup-insert q.monitor id q m ∙ ground (arith, h, e, gid_eq_sym id q.monitor)),
        )
        (ap (λ t. p ∷ t) (placed_untouched m q ids (ground arith) b))

  placed_replaced :
      (m : List (GlobalMonitorId × Placement F)) (q : Placement F) (ids : List GlobalMonitorId)
      → listed q.monitor ids ≡ true
      → Distinct ids
      → Backed m ids
      → placed (map_insert q.monitor q m) ids ≡ put q (placed m ids)
  placed_replaced m q [] h d b = absurd (ground arith)
  placed_replaced m q (id ∷ ids) h d ((p, e, k), b) =
      let own : gid_eq p.monitor q.monitor ≡ gid_eq id q.monitor =
        ap (λ t. gid_eq t q.monitor) (gid_eq_sound p.monitor id k) in
      elim (Bool-cases (gid_eq id q.monitor)) [
        | inl hit ↦
            let same = gid_eq_sound id q.monitor hit in
            rw
              (
                placed_cons m id ids p e,
                placed_cons (map_insert q.monitor q m) id ids q
                    (lookup-insert q.monitor id q m ∙ rw (gid_eq_sym q.monitor id, hit) refl),
                own,
                hit,
              )
              (ap (λ t. q ∷ t)
                (placed_untouched m q ids (subst (λ t. listed t ids ≡ false) same d.0) b))
        | inr miss ↦
            rw
              (
                placed_cons m id ids p e,
                placed_cons (map_insert q.monitor q m) id ids p
                    (lookup-insert q.monitor id q m ∙ rw (gid_eq_sym q.monitor id, miss) e),
                own,
                miss,
              )
              (ap (λ t. p ∷ t) (placed_replaced m q ids (rw (miss) at h) d.1 b))
      ]

  placed-append :
      (m : List (GlobalMonitorId × Placement F)) (xs ys : List GlobalMonitorId)
      → placed m (xs ++ ys) ≡ placed m xs ++ placed m ys
  unfolding placed
  placed-append m [] ys = refl
  placed-append m (x ∷ xs) ys = ground (arith, placed-append m xs ys)

  -- The store behind an indexed layout.
  pub backed :
      (l : GlobalLayout F) (ids : List GlobalMonitorId)
      → IsIndexed l
      → ((id : GlobalMonitorId) → listed id ids ≡ true → listed id l.order ≡ true)
      → Backed l.placements ids
  backed l [] v sub = tt
  backed l (id ∷ ids) v sub = (
    backed_head (Option-cases (lookup id l.placements)),
    backed l ids v (λ j h. sub j (ground arith)),
  )
    where
      backed_head :
          (lookup id l.placements ≡ none) ⊎ ((p : Placement F) × (lookup id l.placements ≡ some p))
          → (p : Placement F) × (lookup id l.placements ≡ some p) × (gid_eq p.monitor id ≡ true)
      backed_head (inl e) = absurd (ground (arith, v.names id, sub id, gid_eq_refl id))
      backed_head (inr (p, e)) = (p, e, v.keyed id p e)

  -- What an append does when no entry is for the same monitor.
  abbrev pub monitors : List (Placement F) → List GlobalMonitorId
  monitors ps = map (λ p. p.monitor) ps

  pub put_new :
      (q : Placement F) (ps : List (Placement F))
      → listed q.monitor (monitors ps) ≡ false
      → put q ps ≡ ps ++ q ∷ []
  put_new q [] h = refl
  put_new q (p ∷ ps) h = ground (arith, put_new q ps)

  monitors-placed :
      (m : List (GlobalMonitorId × Placement F)) (ids : List GlobalMonitorId)
      → Backed m ids
      → monitors (placed m ids) ≡ ids
  monitors-placed m [] b = unfold placed in refl
  monitors-placed m (id ∷ ids) ((p, e, k), b) =
      rw (placed_cons m id ids p e)
        (ground (arith, gid_eq_sound p.monitor id k, monitors-placed m ids b))

  pub iter-insert :
      (l : GlobalLayout F) (q : Placement F) → IsIndexed l → iter (insert l q) ≡ put q (iter l)
  unfolding iter insert
  iter-insert l q v =
      let b = backed l l.order v (λ j h. h) in
      elim (Bool-cases (is_some (lookup q.monitor l.placements))) [
        | inl old ↦
            rw old (placed_replaced l.placements q l.order (v.names q.monitor ∙ old) v.distinct b)
        | inr new ↦
            let fresh = v.names q.monitor ∙ new in
            rw
              (
                new,
                placed-append (map_insert q.monitor q l.placements) l.order (q.monitor ∷ []),
                placed_untouched l.placements q l.order fresh b,
                placed_cons (map_insert q.monitor q l.placements) q.monitor [] q
                    (lookup-insert q.monitor q.monitor q l.placements ∙ rw (gid_eq_refl q.monitor)),
              )
              (unfold placed in
                sym (
                  put_new q (placed l.placements l.order)
                    (rw (monitors-placed l.placements l.order b) fresh)))
      ]

  placed-remove :
      (m : List (GlobalMonitorId × Placement F)) (k : GlobalMonitorId) (ids : List GlobalMonitorId)
      → Backed m ids
      → placed (map_remove k m) (keep (λ j. not (gid_eq j k)) ids)
        ≡ keep (λ p. not (gid_eq p.monitor k)) (placed m ids)
  placed-remove m k [] b = unfold placed in refl
  placed-remove m k (id ∷ ids) ((p, e, own), b) =
      let same : gid_eq p.monitor k ≡ gid_eq id k =
        ap (λ t. gid_eq t k) (gid_eq_sound p.monitor id own) in
      elim (Bool-cases (gid_eq id k)) [
        | inl hit ↦ rw (placed_cons m id ids p e) (rw (keep, same, hit) (placed-remove m k ids b))
        | inr miss ↦ rw (placed_cons m id ids p e) (
            rw (keep, same, miss)
              (rw
                (placed_cons (map_remove k m) id (keep (λ j. not (gid_eq j k)) ids) p
                  (lookup-remove k id m ∙ rw (gid_eq_sym k id, miss) e))
                (ap (λ t. p ∷ t) (placed-remove m k ids b))))
      ]

  pub iter-remove :
      (l : GlobalLayout F) (k : GlobalMonitorId)
      → IsIndexed l
      → iter (remove l k) ≡ keep (λ p. not (gid_eq p.monitor k)) (iter l)
  unfolding iter remove
  iter-remove l k v = placed-remove l.placements k l.order (backed l l.order v (λ j h. h))
