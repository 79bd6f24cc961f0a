-- ===== src/Core/Crossing/Winner.antt =====
-- layout.rs: the monitor that a crossing leads to, and whether there is one.
use win_xtend.Prelude.{
  ◌≡◌, refl, ap, subst, ◌∙◌, sym, Bool, true, false, inl, inr, Option, none, some, is_some,
  or_option, List, [], ◌∷◌, arith, Option-cases, some_inj, bind_some_keeps, All, any_of,
}
use win_xtend.Prelude.Int.{pos, ◌≤ℤ◌}
use win_xtend.Prelude.Maps.{lookup}
use win_xtend.Proto.Ids.{GlobalMonitorId, gid_eq, gid_key}
use win_xtend.Proto.Edge.{Edge, opposite}
use win_xtend.Proto.Float.{Floats}
use win_xtend.Proto.Geom.{Point, Rect, is_empty}
use win_xtend.Core.Layout.{Placement, GlobalLayout, rect, iter}
use win_xtend.Core.Layout.Index.{IsIndexed}
use win_xtend.Core.Layout.Wire.{iter_stored}
use win_xtend.Core.Crossing.{
  Candidate, Crossing, edge_gap, winner, land, resolve_crossing, entry_point,
}
use win_xtend.Core.Crossing.Choice.{Found, is_eligible, scan_keeps, is_some-scan}
use win_xtend.Core.Neighbours.{has_neighbour, edge_midpoint}

-- The monitor is another one of the layout, with these bounds, which are not empty and lie beyond
-- the edge.
pub record IsBeyond {F : Type 0} (l : GlobalLayout F) (from : GlobalMonitorId) (from_rect : Rect)
    (edge : Edge) (to : GlobalMonitorId) (bounds : Rect) : Type 0 where
  pub stored : rect l to ≡ some bounds
  pub other : gid_eq to from ≡ false
  pub roomy : is_empty bounds ≡ false
  pub ahead : pos 0 ≤ℤ edge_gap from_rect bounds edge

All-map :
    {A : Type 0} {P Q : A → Type 0} (xs : List A) → ((x : A) → P x → Q x) → All P xs → All Q xs
All-map [] f h = tt
All-map (x ∷ xs) f h = (f x h.0, All-map xs f h.1)

module _ {F : Type 0} ⦃fl : Floats F⦄ (l : GlobalLayout F) (from : GlobalMonitorId)
    (from_rect : Rect) (exit : Point F) (edge : Edge) where
  abbrev pub Good : Candidate F → Type 0
  Good c = IsBeyond l from from_rect edge c.monitor c.bounds

  eligible-IsBeyond :
      (pl : Placement F)
      → lookup pl.monitor l.placements ≡ some pl
      → is_eligible from from_rect edge pl ≡ true
      → IsBeyond l from from_rect edge pl.monitor pl.global_bounds
  unfolding is_eligible rect
  eligible-IsBeyond pl h e = record {
    stored = rw h;
    other = ground arith;
    roomy = ground arith;
    ahead = ground arith;
  }

  pub winner-IsBeyond :
      (c : Candidate F) → IsIndexed l → winner l from from_rect exit edge ≡ some c → Good c
  unfolding winner
  winner-IsBeyond c v e =
      let (f, g) =
        scan_keeps from from_rect exit edge Good (iter l)
          (All-map (iter l)
            (λ pl h fits. (eligible-IsBeyond pl h fits, eligible-IsBeyond pl h fits))
            (iter_stored l v))
          (none, none) tt tt in
      found _ _ f g e
    where
      found :
          (a b : Option (Candidate F))
          → Found Good a
          → Found Good b
          → or_option a b ≡ some c
          → Good c
      found none none f g e = absurd (ground arith)
      found none (some b) f g e = subst Good (some_inj e) g
      found (some a) b f g e = subst Good (some_inj e) f

  abbrev any_eligible : List (Placement F) → Bool
  any_eligible pls = any_of (is_eligible from from_rect edge) pls

  -- Each eligible placement of a part of the layout is an eligible one of the layout.
  eligible_All :
      (pls : List (Placement F))
      → (any_eligible pls ≡ true → any_eligible (iter l) ≡ true)
      → All
          (λ (pl : Placement F).
            is_eligible from from_rect edge pl ≡ true
            → (any_eligible (iter l) ≡ true) × (any_eligible (iter l) ≡ true))
          pls
  eligible_All [] h = tt
  eligible_All (pl ∷ pls) h = (
    (λ fits. (h (ground (arith, fits)), h (ground (arith, fits)))),
    eligible_All pls (λ k. h (ground (arith, k))),
  )

  or_eligible :
      (a b : Option (Candidate F))
      → Found (λ c. any_eligible (iter l) ≡ true) a
      → is_some b ≡ any_eligible (iter l)
      → is_some (or_option a b) ≡ any_eligible (iter l)
  or_eligible none b f e = e
  or_eligible (some x) b f e = sym f

  -- The search finds a monitor exactly when some placement is eligible.
  pub is_some-winner : is_some (winner l from from_rect exit edge) ≡ any_eligible (iter l)
  unfolding winner
  is_some-winner =
      or_eligible _ _
        (scan_keeps from from_rect exit edge (λ c. any_eligible (iter l) ≡ true) (iter l)
          (eligible_All (iter l) (λ h. h)) (none, none) tt tt).0
        (is_some-scan from from_rect exit edge (iter l) (none, none))

  land-is_some :
      (c : Option (Candidate F)) (x : Option (Crossing F))
      → land exit edge c ≡ some x
      → is_some x ≡ is_some c
  unfolding land
  land-is_some none x e = ap is_some (sym (some_inj e))
  land-is_some (some c) x e =
      bind_some_keeps (λ y. is_some y ≡ true) (entry_point c.bounds exit (opposite edge)) _
        (λ entry _. refl) e

  pub resolved :
      (x : Option (Crossing F))
      → rect l from ≡ some from_rect
      → resolve_crossing l from exit edge ≡ some x
      → is_some x ≡ any_eligible (iter l)
  unfolding resolve_crossing
  resolved x r e =
      land-is_some (winner l from from_rect exit edge) x (rw (r, resolve_crossing) at e)
      ∙ is_some-winner

  -- What a crossing tells of the candidate that it leads to.
  abbrev pub Lands : Crossing F → Type 0
  Lands x =
      (bounds : Rect) × IsBeyond l from from_rect edge x.to bounds
      × (entry_point bounds exit (opposite edge) ≡ some x.entry)
      × (x.via ≡ opposite edge)

module _ {F : Type 0} ⦃fl : Floats F⦄ where
  pub unplaced :
      (l : GlobalLayout F) (monitor : GlobalMonitorId) (edge : Edge) (exit : Point F)
      → (x : Option (Crossing F)) → rect l monitor ≡ none
      → resolve_crossing l monitor exit edge ≡ some x
      → is_some x ≡ false
  unfolding resolve_crossing
  unplaced l monitor edge exit x r e = ap is_some (sym (some_inj (rw (r, resolve_crossing) at e)))

  -- Where along an edge the cursor leaves decides which monitor it reaches, never whether there is
  -- one: `has_neighbour`, which asks at the middle of the edge, agrees with every crossing of that
  -- edge, as long as neither panics.
  pub has_neighbour-resolve_crossing :
      (l : GlobalLayout F) (monitor : GlobalMonitorId) (edge : Edge) (b : Bool)
      → (exit : Point F) (x : Option (Crossing F)) → has_neighbour l monitor edge ≡ some b
      → resolve_crossing l monitor exit edge ≡ some x
      → is_some x ≡ b
  unfolding has_neighbour
  has_neighbour-resolve_crossing l monitor edge b exit x h e =
      elim (Option-cases (rect l monitor)) [
        | inl r ↦ unplaced l monitor edge exit x r e ∙ some_inj (rw (r, has_neighbour) at h)
        | inr (r, placed) ↦
            bind_some_keeps (λ t. is_some x ≡ t)
              (resolve_crossing l monitor (edge_midpoint r edge) edge) is_some
              (λ y at_middle.
                resolved l monitor r exit edge x placed e
                ∙ sym (resolved l monitor r (edge_midpoint r edge) edge y placed at_middle))
              (rw (placed, has_neighbour) at h)
      ]
