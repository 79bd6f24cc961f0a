-- ===== src/Proto/Input/Gate.antt =====
-- The sequence gate of input.rs against the history of frames that reached it.
use win_xtend.Prelude.{
  ℕ, ◌<◌, ◌≡◌, refl, ◌⊎◌, ◌↔◌, inl, inr, true, Option, none, some, List, [], ◌∷◌, All, arith,
}
use win_xtend.Proto.Input.{InputFrame, SequenceGate, new, accept, reliable, reliability}

abbrev SeqsBelow : Option ℕ → ℕ → Type 0
SeqsBelow none s = Unit {0}
SeqsBelow (some h) s = h < s

-- The gate has seen no number from `s` on.
abbrev Newer : SequenceGate → ℕ → Type 0
Newer g s = SeqsBelow g.highest_seen s

module _ {F : Type 0} where
  -- The gate after a sequence of frames, whichever of them were let through.
  unfoldable pub gate_after : SequenceGate → List (InputFrame F) → SequenceGate
  gate_after g [] = g
  gate_after g (f ∷ fs) = gate_after (accept g f).0 fs

  Newer-accept_mark :
      (o : Option ℕ) (f : InputFrame F) (s : ℕ)
      → Newer (accept (record { highest_seen = o }) f).0 s ↔ (SeqsBelow o s × (f.seq < s))
  unfolding accept
  Newer-accept_mark none f s = ((λ h. (tt, h)), (λ h. h.1))
  Newer-accept_mark (some m) f s = (λ h. ground arith, λ h. ground arith)

  Newer-accept :
      (g : SequenceGate) (f : InputFrame F) (s : ℕ)
      → Newer (accept g f).0 s ↔ (Newer g s × (f.seq < s))
  Newer-accept g f s = Newer-accept_mark g.highest_seen f s

  Newer-after :
      (g : SequenceGate) (fs : List (InputFrame F)) (s : ℕ)
      → Newer (gate_after g fs) s ↔ (Newer g s × All (λ e. e.seq < s) fs)
  unfolding gate_after
  Newer-after g [] s = ((λ h. (h, tt)), (λ h. h.0))
  Newer-after g (f ∷ fs) s =
      let rest = Newer-after (accept g f).0 fs s in
      let head = Newer-accept g f s in
      (
        (λ h. ((head.0 (rest.0 h).0).0, ((head.0 (rest.0 h).0).1, (rest.0 h).1))),
        (λ h. rest.1 (head.1 (h.0, h.1.0), h.1.1)),
      )

  accept_iff_mark :
      (o : Option ℕ) (f : InputFrame F)
      → ((accept (record { highest_seen = o }) f).1 ≡ true)
        ↔ ((reliability f.event ≡ reliable) ⊎ SeqsBelow o f.seq)
  unfolding accept
  accept_iff_mark none f = ((λ h. inr tt), (λ h. refl))
  accept_iff_mark (some m) f = (λ h. ground arith, λ h. ground arith)

  -- After any history of frames, a fresh gate lets the next frame through exactly when it is
  -- reliable or its number is above that of every frame in the history, let through or not.
  pub accept-history :
      (fs : List (InputFrame F)) (f : InputFrame F)
      → ((accept (gate_after new fs) f).1 ≡ true)
        ↔ ((reliability f.event ≡ reliable) ⊎ All (λ e. e.seq < f.seq) fs)
  unfolding new
  accept-history fs f =
      let seen = Newer-after new fs f.seq in
      let test = accept_iff_mark (gate_after new fs).highest_seen f in
      (
        (λ h. elim (test.0 h) [ inl r ↦ inl r | inr n ↦ inr (seen.0 n).1 ]),
        (λ h. test.1 (elim h [ inl r ↦ inl r | inr n ↦ inr (seen.1 (tt, n)) ])),
      )
