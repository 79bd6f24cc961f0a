-- ===== src/Core/Layout/Index.antt =====
-- The map and the order list of layout.rs, and what ties them together.
use win_xtend.Prelude.{
  ℕ, ◌≡◌, refl, ◌∙◌, Bool, true, false, not, inl, inr, if◌then◌else◌, some, is_some, List, [], ◌∷◌,
  ◌++◌, arith, Bool-cases, any_of, keep,
}
use win_xtend.Prelude.Maps.{lookup, lookup-insert, lookup-remove, insert as map_insert}
use win_xtend.Proto.Ids.{GlobalMonitorId, gid_eq, gid_key, gid_eq_sound, gid_eq_refl, gid_eq_sym}
use win_xtend.Core.Layout.{
  Placement, GlobalLayout, WireLayout, insert, remove, from_layout, insert_all, empty_layout,
}

-- The monitor stands in the order list, as a test.
abbrev pub listed : GlobalMonitorId → List GlobalMonitorId → Bool
listed id ids = any_of (λ m. gid_eq m id) ids

-- No monitor stands twice in the list.
abbrev pub Distinct : List GlobalMonitorId → Type 0
Distinct [] = Unit {0}
Distinct (id ∷ ids) = (listed id ids ≡ false) × Distinct ids

pub listed-append :
    (id : GlobalMonitorId) (xs ys : List GlobalMonitorId)
    → listed id (xs ++ ys) ≡ (if listed id xs then true else listed id ys)
listed-append id [] ys = refl
listed-append id (x ∷ xs) ys = ground (arith, listed-append id xs ys)

Distinct-append :
    (xs : List GlobalMonitorId) (id : GlobalMonitorId)
    → Distinct xs
    → listed id xs ≡ false
    → Distinct (xs ++ id ∷ [])
Distinct-append [] id d h = (refl, tt)
Distinct-append (x ∷ xs) id d h = (
  ground (arith, listed-append x xs (id ∷ []), gid_eq_sym x id),
  Distinct-append xs id d.1 (ground arith),
)

listed-keep :
    (id k : GlobalMonitorId) (xs : List GlobalMonitorId)
    → listed id (keep (λ m. not (gid_eq m k)) xs) ≡ (if gid_eq k id then false else listed id xs)
listed-keep id k [] = ground arith
listed-keep id k (x ∷ xs) = ground (
  arith,
  listed-keep id k xs,
  gid_eq_sound x k,
  gid_eq_sound k id,
  gid_eq_sound x id,
  gid_eq_refl id,
  gid_eq_refl k,
)

Distinct-keep :
    (k : GlobalMonitorId) (xs : List GlobalMonitorId)
    → Distinct xs
    → Distinct (keep (λ m. not (gid_eq m k)) xs)
Distinct-keep k [] d = tt
Distinct-keep k (x ∷ xs) d = elim (Bool-cases (gid_eq x k)) [
  | inl hit ↦ rw (keep, hit) (Distinct-keep k xs d.1)
  | inr miss ↦ rw (keep, miss) (listed-keep x k xs ∙ ground (arith, d.0), Distinct-keep k xs d.1)
]

-- A placement is stored under its own monitor, and the order list names the stored monitors, each
-- once.
pub record IsIndexed {F : Type 0} (l : GlobalLayout F) : Type 0 where
  pub keyed :
      (id : GlobalMonitorId) (p : Placement F)
      → lookup id l.placements ≡ some p
      → gid_eq p.monitor id ≡ true
  pub names : (id : GlobalMonitorId) → listed id l.order ≡ is_some (lookup id l.placements)
  pub distinct : Distinct l.order

module _ {F : Type 0} where
  pub empty_layout-IsIndexed : (revision : ℕ) → IsIndexed (empty_layout {F = F} revision)
  unfolding empty_layout
  empty_layout-IsIndexed revision = record {
    keyed = λ id p h. absurd (ground arith);
    names = λ id. refl;
    distinct = tt;
  }

  keyed-insert :
      (l : GlobalLayout F) (q : Placement F)
      → IsIndexed l
      → (id : GlobalMonitorId) (p : Placement F)
      → lookup id (map_insert q.monitor q l.placements) ≡ some p
      → gid_eq p.monitor id ≡ true
  keyed-insert l q v id p h =
      ground (arith, lookup-insert q.monitor id q l.placements, v.keyed id p)

  pub insert-IsIndexed :
      (l : GlobalLayout F) (q : Placement F) → IsIndexed l → IsIndexed (insert l q)
  unfolding insert
  insert-IsIndexed l q v = elim (Bool-cases (is_some (lookup q.monitor l.placements))) [
    | inl old ↦
        rw (insert, old)
          (record {
            keyed = keyed-insert l q v;
            names = λ id. ground (
              arith,
              old,
              lookup-insert q.monitor id q l.placements,
              v.names id,
              gid_eq_sound q.monitor id,
            );
            distinct = v.distinct;
          })
    | inr new ↦
        rw (insert, new)
          (record {
            keyed = keyed-insert l q v;
            names = λ id. ground (
              arith,
              lookup-insert q.monitor id q l.placements,
              v.names id,
              listed-append id l.order (q.monitor ∷ []),
            );
            distinct = Distinct-append l.order q.monitor v.distinct (v.names q.monitor ∙ new);
          })
  ]

  pub remove-IsIndexed :
      (l : GlobalLayout F) (k : GlobalMonitorId) → IsIndexed l → IsIndexed (remove l k)
  unfolding remove
  remove-IsIndexed l k v = record {
    keyed = λ id p h. ground (arith, lookup-remove k id l.placements, v.keyed id p);
    names =
        λ id. ground (arith, lookup-remove k id l.placements, v.names id, listed-keep id k l.order);
    distinct = Distinct-keep k l.order v.distinct;
  }

  insert_all-IsIndexed :
      (l : GlobalLayout F) (ps : List (Placement F)) → IsIndexed l → IsIndexed (insert_all l ps)
  unfolding insert_all
  insert_all-IsIndexed l [] v = v
  insert_all-IsIndexed l (p ∷ ps) v = insert_all-IsIndexed (insert l p) ps (insert-IsIndexed l p v)

  pub from_layout-IsIndexed : (w : WireLayout F) → IsIndexed (from_layout w)
  unfolding from_layout
  from_layout-IsIndexed w =
      insert_all-IsIndexed _ w.placements (unfold empty_layout in empty_layout-IsIndexed w.revision)

-- A change to a layout.
pub data Edit (F : Type 0) : Type 0 where
  putting : Placement F → Edit F
  taking : GlobalMonitorId → Edit F

module _ {F : Type 0} where
  abbrev pub edited : GlobalLayout F → List (Edit F) → GlobalLayout F
  edited l [] = l
  edited l (putting q ∷ more) = edited (insert l q) more
  edited l (taking id ∷ more) = edited (remove l id) more

  edits-IsIndexed :
      (l : GlobalLayout F) (es : List (Edit F)) → IsIndexed l → IsIndexed (edited l es)
  edits-IsIndexed l [] v = v
  edits-IsIndexed l (putting q ∷ more) v =
      edits-IsIndexed (insert l q) more (insert-IsIndexed l q v)
  edits-IsIndexed l (taking id ∷ more) v =
      edits-IsIndexed (remove l id) more (remove-IsIndexed l id v)

  -- A layout that came over the wire, whatever it holds, is indexed, and it stays so over any history
  -- of insertions and removals: the order list names the stored monitors, each once, and a placement
  -- is stored under its own monitor.
  pub history-IsIndexed :
      (w : WireLayout F) (es : List (Edit F)) → IsIndexed (edited (from_layout w) es)
  history-IsIndexed w es = edits-IsIndexed (from_layout w) es (from_layout-IsIndexed w)
