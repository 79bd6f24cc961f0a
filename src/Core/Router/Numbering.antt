-- ===== src/Core/Router/Numbering.antt =====
-- The frame numbers of router.rs over whole histories, and the gate of input.rs at the other end.
use win_xtend.Prelude.{
  ℕ, zero, suc, ◌+◌, ◌^◌, ◌<◌, ◌≡◌, refl, subst, true, inl, inr, some, List, [], ◌∷◌, ◌++◌, arith,
  length, Option-cases, some_inj, map, All, cons_head, cons_tail,
}
use win_xtend.Proto.Ids.{NodeId}
use win_xtend.Proto.Float.{Floats}
use win_xtend.Proto.Input.{InputFrame, accept, new as new_gate}
use win_xtend.Proto.Input.Gate.{gate_after, accept-history}
use win_xtend.Core.Layout.{GlobalLayout}
use win_xtend.Core.Cursor.{VirtualCursor}
use win_xtend.Core.Transfer.{InputRouter, Out, counter, new}
use win_xtend.Core.Router.Steps.{Op, step, run}
use win_xtend.Core.Router.Keeps.{step_keeps}
use win_xtend.Core.Router.Sequence.{
  frames_to, frames_to-append, Continues, Continues-append, Numbered, Numbered-Keeps,
}

abbrev pub up_from : ℕ → ℕ → List ℕ
up_from c zero = []
up_from c (suc k) = suc c ∷ up_from (suc c) k

module _ {F : Type 0} where
  abbrev pub seqs : List (InputFrame F) → List ℕ
  seqs fs = map (λ f. f.seq) fs

  Continues-up_from :
      (c c' : ℕ) (fs : List (InputFrame F))
      → Continues c fs c'
      → c + length fs < 2 ^ 64
      → (seqs fs ≡ up_from c (length fs)) × (c' ≡ c + length fs)
  Continues-up_from c c' [] h lt = (refl, omega (arith, h))
  Continues-up_from c c' (f ∷ fs) h lt =
      let next : f.seq ≡ suc c = omega (arith, h.0) in
      let rest =
        Continues-up_from (suc c) c' fs (subst (λ t. Continues t fs c') next h.1) (omega arith) in
      (ground (arith, next, rest), omega (arith, rest.1))

  -- In such a sequence a frame comes after smaller numbers only.
  below_next :
      (c k : ℕ) (xs : List (InputFrame F)) (f : InputFrame F) (ys : List (InputFrame F))
      → seqs (xs ++ f ∷ ys) ≡ up_from c k
      → (c < f.seq) × All (λ e. e.seq < f.seq) xs
  below_next c zero [] f ys h = absurd (ground arith)
  below_next c zero (x ∷ xs) f ys h = absurd (ground arith)
  below_next c (suc k) [] f ys h = (omega (arith, cons_head h), tt)
  below_next c (suc k) (x ∷ xs) f ys h =
      let rest = below_next (suc c) k xs f ys (cons_tail h) in
      (omega (arith, rest.0), (omega (arith, rest.0, cons_head h), rest.1))

module _ {F : Type 0} ⦃fl : Floats F⦄ where
  step-Numbered :
      (n : NodeId) (r : InputRouter F) (op : Op F) (o : Out F)
      → step r op ≡ some o
      → Numbered n (counter r.seq n) o
  unfolding frames_to
  step-Numbered n r =
      step_keeps (Numbered n (counter r.seq n)) (Numbered-Keeps n (counter r.seq n)) r
        (λ c l h. refl)

  -- The two parts of a run that goes on after its first call.
  pub run_cons :
      (r : InputRouter F) (op : Op F) (ops : List (Op F)) (o : Out F)
      → run r (op ∷ ops) ≡ some o
      → (first : Out F) × (rest : Out F) × (step r op ≡ some first)
        × (run first.0 ops ≡ some rest)
        × (o ≡ (rest.0, first.1 ++ rest.1))
  unfolding run
  run_cons r op ops o e = elim (Option-cases (step r op)) [
    | inl h ↦ absurd (ground arith)
    | inr (first, h) ↦ elim (Option-cases (run first.0 ops)) [
      | inl k ↦ absurd (ground arith)
      | inr (rest, k) ↦ (first, rest, h, k, ground arith)
    ]
  ]

  run-Numbered :
      (n : NodeId) (r : InputRouter F) (ops : List (Op F)) (o : Out F)
      → run r ops ≡ some o
      → Numbered n (counter r.seq n) o
  unfolding run frames_to
  run-Numbered n r [] o e = subst (Numbered n (counter r.seq n)) (some_inj e) refl
  run-Numbered n r (op ∷ ops) o e =
      let (first, rest, s, t, split) = run_cons r op ops o e in
      rw split (
        rw (frames_to-append n first.1 rest.1) (
          Continues-append (counter r.seq n) _ _ (frames_to n first.1) (frames_to n rest.1)
            (step-Numbered n r op first s) (run-Numbered n first.0 ops rest t)))

  counter-new :
      (n this_node : NodeId) (layout : GlobalLayout F) (cursor : VirtualCursor F)
      → counter (new this_node layout cursor).seq n ≡ 0
  unfolding counter new
  counter-new n this_node layout cursor = refl

  -- Over any history of calls of a new router that does not panic, the frames that one peer is sent
  -- carry the numbers 1, 2, 3 and so on without a gap, in the order of sending, whatever goes to
  -- other peers in between; and the counter kept for the peer is how many there were. This holds
  -- for fewer than 2 ^ 64 frames.
  pub run_numbers :
      (n this_node : NodeId) (layout : GlobalLayout F) (cursor : VirtualCursor F)
      → (ops : List (Op F)) (o : Out F) → run (new this_node layout cursor) ops ≡ some o
      → length (frames_to n o.1) < 2 ^ 64
      → (seqs (frames_to n o.1) ≡ up_from 0 (length (frames_to n o.1)))
        × (counter o.0.seq n ≡ length (frames_to n o.1))
  run_numbers n this_node layout cursor ops o e lt =
      let (numbers, last) =
        Continues-up_from 0 (counter o.0.seq n) (frames_to n o.1)
          (subst (λ c. Continues c (frames_to n o.1) (counter o.0.seq n))
            (counter-new n this_node layout cursor)
            (run-Numbered n (new this_node layout cursor) ops o e))
          (omega arith) in
      (numbers, omega (arith, last))

  -- A peer that puts a fresh gate before the frames lets every one of them through, if they reach
  -- it in the order of sending: each passes the gate that the ones before it have gone through.
  pub run_passes_gate :
      (n this_node : NodeId) (layout : GlobalLayout F) (cursor : VirtualCursor F)
      → (ops : List (Op F)) (o : Out F)
      → (xs : List (InputFrame F)) (f : InputFrame F) (ys : List (InputFrame F))
      → run (new this_node layout cursor) ops ≡ some o
      → length (frames_to n o.1) < 2 ^ 64
      → frames_to n o.1 ≡ xs ++ f ∷ ys
      → (accept (gate_after new_gate xs) f).1 ≡ true
  run_passes_gate n this_node layout cursor ops o xs f ys e lt split = (accept-history xs f).1 (
      inr
        (below_next 0 _ xs f ys (
          subst (λ t. seqs t ≡ up_from 0 (length (frames_to n o.1))) split
            (run_numbers n this_node layout cursor ops o e lt).0)).1)
