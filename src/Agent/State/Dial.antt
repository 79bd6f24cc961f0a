-- ===== src/Agent/State/Dial.antt =====
-- state.rs: which peers are dialled.
use win_xtend.Prelude.{
  ℕ, zero, suc, ◌+◌, ◌-◌, min, Bool, true, false, not, ◌&&◌, ◌||◌, ◌==◌, ltb, if◌then◌else◌, Option,
  none, some, map_or, any_of, all_of, length, ◌≡◌, ◌≢◌, ◌≤◌, ◌<◌, ==-self, refl, sym, ap, ◌∙◌,
  arith, Bool-cases, inl, inr, List, [], ◌∷◌, map, keep,
}
use win_xtend.Prelude.Maps.{lookup, lookup-insert}
use win_xtend.Proto.Ids.{NodeId, node_key}
use win_xtend.Net.Control.{Text}
use win_xtend.Agent.State.{
  PeerState, AgentState, offline, failed, has_session, is_connecting, backoff, is_eligible,
  dial_grace, max_dial_backoff,
}
use win_xtend.Agent.State.Events.{on_disconnected, get_mut}

-- `sort_by_key` by the hexadecimal text of the node id, which orders as the id does.
unfoldable pub by_node : NodeId × List ℕ → List (NodeId × List ℕ) → List (NodeId × List ℕ)
by_node t [] = t ∷ []
by_node t (u ∷ us) = let rest = by_node t us in if ltb u.0 t.0 then u ∷ rest else t ∷ (u ∷ us)

unfoldable pub sort_by_node : List (NodeId × List ℕ) → List (NodeId × List ℕ)
sort_by_node [] = []
sort_by_node (t ∷ ts) = by_node t (sort_by_node ts)

module _ {F : Type 0} where
  -- The `continue`s of the loop of `dial_targets`.
  unfoldable pub is_dialled : NodeId → ℕ → PeerState F → Bool
  is_dialled local now p =
      if not (is_eligible p) || has_session p.status
      then false
      else if is_connecting p.status || is_nil p.addresses
      then false
      else if map_or false (λ t. ltb now t) p.next_dial
      then false
      else if ltb p.node local && ltb (now - p.first_seen) dial_grace
      then false
      else true
    where
      is_nil : List ℕ → Bool
      is_nil [] = true
      is_nil (a ∷ more) = false

  unfoldable pub dial_targets : AgentState F → ℕ → List (NodeId × List ℕ)
  dial_targets s now =
      sort_by_node
        (map (λ p. (p.node, p.addresses)) (keep (is_dialled s.local now) (map (λ e. e.1) s.peers)))

-- The node is among the targets.
abbrev pub names : NodeId → List (NodeId × List ℕ) → Bool
names node ts = any_of (λ t. t.0 == node) ts

names-by_node :
    (node : NodeId) (t : NodeId × List ℕ) (ts : List (NodeId × List ℕ))
    → names node (by_node t ts) ≡ (t.0 == node) || names node ts
unfolding by_node
names-by_node node t [] = refl
names-by_node node t (u ∷ us) = ground (arith, names-by_node node t us)

names-sort_by_node :
    (node : NodeId) (ts : List (NodeId × List ℕ)) → names node (sort_by_node ts) ≡ names node ts
unfolding sort_by_node
names-sort_by_node node [] = refl
names-sort_by_node node (t ∷ ts) =
    names-by_node node t (sort_by_node ts)
    ∙ ap (λ b. (t.0 == node) || b) (names-sort_by_node node ts)

backoff-le : (n : ℕ) → backoff n ≤ max_dial_backoff
unfolding backoff
backoff-le zero = omega arith
backoff-le (suc n) = omega arith

module _ {F : Type 0} where
  abbrev pub values : AgentState F → List (PeerState F)
  values s = map (λ e. e.1) s.peers

  unfoldable pub dials : AgentState F → NodeId → ℕ → Bool
  dials s node now = names node (dial_targets s now)

  dialled_names :
      (local node : NodeId) (now : ℕ) (ps : List (PeerState F))
      → names node
          (map (λ (p : PeerState F). (p.node, p.addresses)) (keep (is_dialled local now) ps))
        ≡ any_of (λ p. is_dialled local now p && p.node == node) ps
  dialled_names local node now [] = refl
  dialled_names local node now (p ∷ ps) = elim (Bool-cases (is_dialled local now p)) [
    | inl goes ↦ rw goes (ap (λ b. (p.node == node) || b) (dialled_names local node now ps))
    | inr stays ↦ rw stays (dialled_names local node now ps)
  ]

  dials_lem :
      (s : AgentState F) (node : NodeId) (now : ℕ)
      → dials s node now ≡ any_of (λ p. is_dialled s.local now p && p.node == node) (values s)
  unfolding dials dial_targets
  dials_lem s node now = names-sort_by_node node _ ∙ dialled_names s.local node now (values s)

  -- Every peer of that node was first seen less than the grace period ago.
  abbrev pub Recent : NodeId → ℕ → List (PeerState F) → Type 0
  Recent node now ps =
      all_of (λ (p : PeerState F). not (p.node == node) || ltb (now - p.first_seen) dial_grace) ps
      ≡ true

  is_dialled-above :
      (local node : NodeId) (now : ℕ) (p : PeerState F)
      → (not (p.node == node) || ltb (now - p.first_seen) dial_grace) ≡ true
      → (is_dialled local now p && p.node == node) ≡ true
      → local ≤ node
  unfolding is_dialled
  is_dialled-above local node now p r h = ground arith

  dialled-above :
      (local node : NodeId) (now : ℕ) (ps : List (PeerState F))
      → Recent node now ps
      → any_of (λ p. is_dialled local now p && p.node == node) ps ≡ true
      → local ≤ node
  dialled-above local node now [] r h = absurd (ground arith)
  dialled-above local node now (p ∷ ps) r h =
      elim (Bool-cases (is_dialled local now p && p.node == node)) [
        | inl this ↦ is_dialled-above local node now p (ground arith) this
        | inr other ↦ dialled-above local node now ps (ground arith) (ground arith)
      ]

  dials-above :
      (s : AgentState F) (node : NodeId) (now : ℕ)
      → Recent node now (values s)
      → dials s node now ≡ true
      → s.local ≤ node
  dials-above s node now r h =
      dialled-above s.local node now (values s) r (sym (dials_lem s node now) ∙ h)

  -- While the grace period of each lasts, of two machines with different node ids that have just
  -- seen each other the one with the larger id does not dial, whatever the clocks say; so they do
  -- not both dial.
  pub dials-one_side :
      (a b : AgentState F) (now now' : ℕ)
      → a.local ≢ b.local
      → Recent b.local now (values a)
      → Recent a.local now' (values b)
      → ((dials a b.local now && ltb b.local a.local) ≡ false)
        × ((dials b a.local now' && ltb a.local b.local) ≡ false)
        × ((dials a b.local now && dials b a.local now') ≡ false)
  dials-one_side a b now now' distinct r r' = (
    ground (arith, dials-above a b.local now r),
    ground (arith, dials-above b a.local now' r'),
    ground (arith, dials-above a b.local now r, dials-above b a.local now' r', distinct),
  )

  -- The first entry of the node is what a lookup finds.
  found-any :
      (local node : NodeId) (now : ℕ) (m : List (NodeId × PeerState F)) (p : PeerState F)
      → lookup node m ≡ some p
      → p.node ≡ node
      → is_dialled local now p ≡ true
      → any_of (λ p. is_dialled local now p && p.node == node) (map (λ e. e.1) m) ≡ true
  found-any local node now [] p e k d = absurd (ground arith)
  found-any local node now ((j, q) ∷ m) p e k d = elim (Bool-cases (j == node)) [
    | inl here ↦
        let same : q ≡ p = ground arith in
        ground (arith, ap (is_dialled local now) same, ap (λ (r : PeerState F). r.node) same)
    | inr there ↦ ground (arith, found-any local node now m p (ground arith) k d)
  ]

  is_dialled-ready :
      (local : NodeId) (now : ℕ) (p : PeerState F) (until : ℕ)
      → is_eligible p ≡ true
      → has_session p.status ≡ false
      → is_connecting p.status ≡ false
      → 0 < length p.addresses
      → p.next_dial ≡ some until
      → until ≤ now
      → p.first_seen + dial_grace ≤ now
      → is_dialled local now p ≡ true
  unfolding is_dialled
  is_dialled-ready local now p until wanted idle free reachable next waited settled = ground arith

  after_failure :
      (s : AgentState F) (node : NodeId) (p : PeerState F) (reason : Option Text) (ended : ℕ)
      → lookup node s.peers ≡ some p
      → let failures = min (p.dial_failures + 1) 4294967295 in
        let p' = record p {
          status = map_or offline failed reason;
          rtt = none;
          dropped_datagrams = none;
          dial_failures = failures;
          next_dial = some (ended + backoff failures);
        } in
        (lookup node (on_disconnected s node reason ended).peers ≡ some p')
        × ((on_disconnected s node reason ended).local ≡ s.local)
  unfolding on_disconnected get_mut
  after_failure s node p reason ended e =
      rw e (rw (lookup-insert node node _ s.peers, ==-self node) refl, refl)

  -- A peer that is still wanted is dialled again after its session ends, whatever the number of
  -- failures before: at the latest 30 seconds after, once the grace period is over.
  pub dials-on_disconnected :
      (s : AgentState F) (node : NodeId) (p : PeerState F) (reason : Option Text) (ended now : ℕ)
      → lookup node s.peers ≡ some p
      → p.node ≡ node
      → is_eligible p ≡ true
      → 0 < length p.addresses
      → ended + max_dial_backoff ≤ now
      → p.first_seen + dial_grace ≤ now
      → dials (on_disconnected s node reason ended) node now ≡ true
  dials-on_disconnected s node p reason ended now e k wanted reachable waited settled =
      dials_lem (on_disconnected s node reason ended) node now
      ∙ found-any (on_disconnected s node reason ended).local node now
          (on_disconnected s node reason ended).peers _ (after_failure s node p reason ended e).0 k
          (is_dialled-ready _ now _ (ended + backoff (min (p.dial_failures + 1) 4294967295)) wanted
            (idle reason) (free reason) reachable refl
            (omega (arith, backoff-le (min (p.dial_failures + 1) 4294967295))) settled)
    where
      idle : (r : Option Text) → has_session (map_or offline failed r) ≡ false
      idle none = refl
      idle (some t) = refl

      free : (r : Option Text) → is_connecting (map_or offline failed r) ≡ false
      free none = refl
      free (some t) = refl
