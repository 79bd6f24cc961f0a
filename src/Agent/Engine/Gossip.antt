-- ===== src/Agent/Engine/Gossip.antt =====
-- crates/wx-agent/src/engine.rs: accept_layout, by which two machines come to one layout.
use Prim.Native.Nat.{compare, Ordering, lt, eq, gt}
use win_xtend.Prelude.{
  Bool, true, false, length, if◌then◌else◌, ◌&&◌, ◌≡◌, arith, refl, sym, subst, ap, ap₂, ◌∙◌,
}
use win_xtend.Core.Layout.{WireLayout}
use win_xtend.Agent.Engine.{then_compare, compare_key, layout_key, decide, accept_layout}
use win_xtend.Agent.Engine.Ranks.{
  flip, compare-flip, compare-eq, then_compare-flip, then_compare-eq, compare_key-flip,
  compare_key-eq,
}

abbrev wins : Ordering → Bool
wins o = decide o false

wins-then_compare : (x y : Ordering) → decide x (wins y) ≡ wins (then_compare x y)
wins-then_compare lt y = refl
wins-then_compare eq y = refl
wins-then_compare gt y = refl

is_less-flip : (x : Ordering) → elim x [ lt ↦ true | _ ↦ false ] ≡ wins (flip x)
is_less-flip lt = refl
is_less-flip eq = refl
is_less-flip gt = refl

exclusive : (o : Ordering) → wins o && wins (flip o) ≡ false
exclusive lt = refl
exclusive eq = refl
exclusive gt = refl

module _ {F : Type 0} where
  -- The comparisons that `accept_layout` makes as one: incoming against current.
  abbrev verdict : WireLayout F → WireLayout F → Ordering
  verdict a b = then_compare (compare b.revision a.revision) (
      then_compare (compare (length b.placements) (length a.placements))
        (compare_key (layout_key a) (layout_key b)))

  accept_layout_lem : (a b : WireLayout F) → accept_layout a b ≡ wins (verdict a b)
  unfolding accept_layout
  accept_layout_lem a b =
      ap
        (λ t.
          decide (compare b.revision a.revision)
            (decide (compare (length b.placements) (length a.placements)) t))
        (is_less-flip _ ∙ ap wins (sym (compare_key-flip (layout_key b) (layout_key a))))
      ∙ ap (decide (compare b.revision a.revision)) (wins-then_compare _ _)
      ∙ wins-then_compare _ _

  verdict-flip : (a b : WireLayout F) → verdict b a ≡ flip (verdict a b)
  verdict-flip a b =
      ap₂ then_compare (compare-flip b.revision a.revision) (
        ap₂ then_compare (compare-flip (length b.placements) (length a.placements))
          (compare_key-flip (layout_key a) (layout_key b))
        ∙ then_compare-flip _ _)
      ∙ then_compare-flip _ _

  -- What two layouts agree in for `accept_layout`.
  abbrev pub Level : WireLayout F → WireLayout F → Type 0
  Level a b =
      (a.revision ≡ b.revision)
      × (length a.placements ≡ length b.placements)
      × (layout_key a ≡ layout_key b)

  verdict-Level : (a b : WireLayout F) → verdict a b ≡ eq → Level a b
  verdict-Level a b e =
      let (r, e₁) = then_compare-eq (compare b.revision a.revision) _ e in
      let (l, k) = then_compare-eq (compare (length b.placements) (length a.placements)) _ e₁ in
      (sym (compare-eq _ _ r), sym (compare-eq _ _ l), compare_key-eq _ _ k)

  abbrev pub takes : WireLayout F → WireLayout F → WireLayout F
  takes current incoming = if accept_layout current incoming then incoming else current

  abbrev Met : Bool → Bool → WireLayout F → WireLayout F → Type 0
  Met p q a b = Level (if p then b else a) (if q then a else b)

  meet : (o : Ordering) (a b : WireLayout F) → verdict a b ≡ o → Met (wins o) (wins (flip o)) a b
  meet lt a b e = (refl, refl, refl)
  meet eq a b e = verdict-Level a b e
  meet gt a b e = (refl, refl, refl)

  verdict_self : (a : WireLayout F) → verdict a a ≡ eq
  verdict_self a = own (verdict a a) (verdict-flip a a)
    where
      own : (o : Ordering) → o ≡ flip o → o ≡ eq
      own lt e = ground arith
      own eq e = refl
      own gt e = ground arith

  settles : (a b : WireLayout F) → Level a b → accept_layout a b ≡ false
  settles a b (r, l, k) =
      accept_layout_lem a b
      ∙ ap wins (
          (λ i. then_compare (compare (sym r i) a.revision) (
            then_compare (compare (sym l i) (length a.placements))
              (compare_key (layout_key a) (sym k i))))
          ∙ verdict_self a)

  takes-Level : (a b : WireLayout F) → Level (takes a b) (takes b a)
  takes-Level a b =
      subst (λ t. Met t (accept_layout b a) a b) p
        (subst (λ t. Met (wins (verdict a b)) t a b) q (meet (verdict a b) a b refl))
    where
      p : wins (verdict a b) ≡ accept_layout a b
      p = sym (accept_layout_lem a b)

      q : wins (flip (verdict a b)) ≡ accept_layout b a
      q = sym (accept_layout_lem b a ∙ ap wins (verdict-flip a b))

  -- Two machines that send each other their layouts, each taking the other's if
  -- `accept_layout` says so, end with the same revision, the same number of placements and the
  -- same key. It is never both of them that take the other's, and after it neither accepts the
  -- other's again.
  pub takes_meet :
      (a b : WireLayout F)
      → Level (takes a b) (takes b a)
        × (accept_layout a b && accept_layout b a ≡ false)
        × (accept_layout (takes a b) (takes b a) ≡ false)
        × (accept_layout (takes b a) (takes a b) ≡ false)
  takes_meet a b = (
    takes-Level a b,
    ap₂ ◌&&◌ (accept_layout_lem a b) (accept_layout_lem b a ∙ ap wins (verdict-flip a b))
        ∙ exclusive (verdict a b),
    settles _ _ (takes-Level a b),
    settles _ _ (takes-Level b a),
  )
