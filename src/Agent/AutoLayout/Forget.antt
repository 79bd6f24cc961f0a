-- ===== src/Agent/AutoLayout/Forget.antt =====
-- autolayout.rs: forgetting a node, and placing it again.
use win_xtend.Prelude.{
  ◌≡◌, refl, ap, ◌∙◌, Bool, true, not, ◌&&◌, ◌==◌, List, [], ◌∷◌, map, keep, any_of, arith, All,
}
use win_xtend.Proto.Ids.{NodeId, GlobalMonitorId, gid_eq, gid_eq_refl, gid_eq_sound, gid_eq_sym}
use win_xtend.Proto.Float.{Floats}
use win_xtend.Proto.Geom.{Monitor}
use win_xtend.Core.Layout.{Placement, GlobalLayout, remove, iter, monitors_of}
use win_xtend.Core.Layout.Index.{IsIndexed, remove-IsIndexed, listed}
use win_xtend.Core.Layout.RoundTrip.{iter-remove}
use win_xtend.Agent.AutoLayout.{
  forget_ids, remove_all, next_revision, forget_node, other_rects, place_node,
}

module _ {ℓ} {A : Type ℓ} where
  keep-keep : (p q : A → Bool) (xs : List A) → keep p (keep q xs) ≡ keep (λ x. q x && p x) xs
  keep-keep p q [] = refl
  keep-keep p q (x ∷ xs) = ground (arith, keep-keep p q xs)

  -- Two tests that agree on the list keep the same of it.
  keep_same : (p q : A → Bool) (xs : List A) → All (λ x. p x ≡ q x) xs → keep p xs ≡ keep q xs
  keep_same p q [] h = refl
  keep_same p q (x ∷ xs) h = ground (arith, keep_same p q xs h.1, h.0)

every : {A : Type 0} (P : A → Type 0) → ((a : A) → P a) → (xs : List A) → All P xs
every P h [] = tt
every P h (x ∷ xs) = (h x, every P h xs)

All-mono :
    {A : Type 0} (P Q : A → Type 0) → ((a : A) → P a → Q a) → (xs : List A) → All P xs → All Q xs
All-mono P Q f [] h = tt
All-mono P Q f (x ∷ xs) h = (f x h.0, All-mono P Q f xs h.1)

module _ {F : Type 0} where
  remove_all-IsIndexed :
      (l : GlobalLayout F) (ids : List GlobalMonitorId) → IsIndexed l → IsIndexed (remove_all l ids)
  unfolding remove_all
  remove_all-IsIndexed l [] v = v
  remove_all-IsIndexed l (id ∷ ids) v =
      remove_all-IsIndexed (remove l id) ids (remove-IsIndexed l id v)

  keep_nothing : (ps : List (Placement F)) → ps ≡ keep (λ p. not (listed p.monitor [])) ps
  keep_nothing [] = refl
  keep_nothing (p ∷ ps) = ap (λ t. p ∷ t) (keep_nothing ps)

  iter-remove_all :
      (l : GlobalLayout F) (ids : List GlobalMonitorId)
      → IsIndexed l
      → iter (remove_all l ids) ≡ keep (λ p. not (listed p.monitor ids)) (iter l)
  unfolding remove_all
  iter-remove_all l [] v = keep_nothing (iter l)
  iter-remove_all l (id ∷ ids) v =
      iter-remove_all (remove l id) ids (remove-IsIndexed l id v)
      ∙ ap (keep (λ p. not (listed p.monitor ids))) (iter-remove l id v)
      ∙ keep-keep _ _ (iter l)
      ∙ keep_same (λ p. not (gid_eq p.monitor id) && not (listed p.monitor ids))
          (λ p. not (listed p.monitor (id ∷ ids))) (iter l)
          (every _ (λ p. ground (arith, gid_eq_sym p.monitor id)) (iter l))

  -- The monitors in a list that are on one node.
  abbrev on_node : NodeId → List (Placement F) → List GlobalMonitorId
  on_node node ps = map (λ p. p.monitor) (keep (λ p. p.monitor.node == node) ps)

  on_node-node :
      (node : NodeId) (k : GlobalMonitorId) (ps : List (Placement F))
      → listed k (on_node node ps) ≡ true
      → (k.node == node) ≡ true
  on_node-node node k [] h = absurd (ground arith)
  on_node-node node k (p ∷ ps) h = ground (arith, on_node-node node k ps, gid_eq_sound p.monitor k)

  node-on_node :
      (node : NodeId) (ps : List (Placement F))
      → All (λ p. (p.monitor.node == node) ≡ true → listed p.monitor (on_node node ps) ≡ true) ps
  node-on_node node [] = tt
  node-on_node node (p ∷ ps) = (
    (λ h. ground (arith, gid_eq_refl p.monitor)),
    All-mono _ _ (λ q f h. ground (arith, f h)) ps (node-on_node node ps),
  )

  on_node_iff :
      (node : NodeId) (ps : List (Placement F))
      → All (λ p. not (listed p.monitor (on_node node ps)) ≡ not (p.monitor.node == node)) ps
  on_node_iff node ps =
      All-mono _ _ (λ p f. ground (arith, f, on_node-node node p.monitor ps)) ps
        (node-on_node node ps)

  iter-forget :
      (l : GlobalLayout F) (node : NodeId)
      → IsIndexed l
      → iter (remove_all l (on_node node (iter l)))
        ≡ keep (λ p. not (p.monitor.node == node)) (iter l)
  iter-forget l node v =
      iter-remove_all l (on_node node (iter l)) v
      ∙ keep_same _ _ (iter l) (on_node_iff node (iter l))

  next_revision-iter : (l : GlobalLayout F) → iter (next_revision l) ≡ iter l
  unfolding iter
  next_revision-iter l = refl

  forget_ids-iter :
      (l : GlobalLayout F) (ids : List GlobalMonitorId)
      → iter (forget_ids l ids).0 ≡ iter (remove_all l ids)
  unfolding remove_all
  forget_ids-iter l [] = refl
  forget_ids-iter l (id ∷ ids) = next_revision-iter (remove_all l (id ∷ ids))

  forget_ids-changed :
      (l : GlobalLayout F) (node : NodeId) (ps : List (Placement F))
      → (forget_ids l (on_node node ps)).1 ≡ any_of (λ p. p.monitor.node == node) ps
  forget_ids-changed l node [] = refl
  forget_ids-changed l node (p ∷ ps) = ground (arith, forget_ids-changed l node ps)

  -- Forgetting a node takes exactly its placements out of the layout and keeps the others in their
  -- order; it reports a change exactly when the node had a placement.
  pub iter-forget_node :
      (l : GlobalLayout F) (node : NodeId)
      → IsIndexed l
      → (iter (forget_node l node).0 ≡ keep (λ p. not (p.monitor.node == node)) (iter l))
        × ((forget_node l node).1 ≡ any_of (λ p. p.monitor.node == node) (iter l))
  unfolding forget_node monitors_of
  iter-forget_node l node v = (
    forget_ids-iter l (on_node node (iter l)) ∙ iter-forget l node v,
    forget_ids-changed l node (iter l),
  )

  other_rects-others :
      (node : NodeId) (ps : List (Placement F))
      → other_rects node (keep (λ p. not (p.monitor.node == node)) ps) ≡ other_rects node ps
  other_rects-others node [] = refl
  other_rects-others node (p ∷ ps) = ground (arith, other_rects-others node ps)

module _ {F : Type 0} ⦃fl : Floats F⦄ where
  -- Where a node is placed does not depend on where it was: placing it gives the same as forgetting
  -- it first and then placing it, so a second placement does not march it further right.
  pub place_node-forget_node :
      (l : GlobalLayout F) (node : NodeId) (monitors : List (Monitor F))
      → IsIndexed l
      → place_node (forget_node l node).0 node monitors ≡ place_node l node monitors
  unfolding place_node
  place_node-forget_node l node monitors v =
      rw ((iter-forget_node l node v).0, other_rects-others node (iter l)) refl
