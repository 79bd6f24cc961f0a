-- ===== src/Core/Router/Warping.antt =====
-- router.rs: the actions of a warp to another machine.
use win_xtend.Prelude.{
  ◌≡◌, refl, sym, ap, subst, ◌∙◌, false, Option, none, Bool-cases, ◌==◌, inl, inr, some, List, [],
  ◌∷◌, ◌++◌, arith, Option-cases, some_inj,
}
use win_xtend.Proto.Ids.{GlobalMonitorId}
use win_xtend.Proto.Edge.{Edge}
use win_xtend.Proto.Float.{Floats}
use win_xtend.Proto.Geom.{Point, Rect, NormPos, is_empty, clamp, normalize, denormalize, sanitized}
use win_xtend.Proto.Input.{InputEvent, pointer, move_to, release_control}
use win_xtend.Core.Cursor.{VirtualCursor, Warp, ok, err, warp_to, usable_rect, renormalize}
use win_xtend.Core.Layout.{GlobalLayout, rect}
use win_xtend.Core.Held.{release_events, nothing_held}
use win_xtend.Core.Transfer.{
  InputRouter, RouteAction, Out, transfer, emit, emit_all, let_go, next_seq,
}
use win_xtend.Core.Router.{warp_via, after_warp}
use win_xtend.Core.Router.Handover.{
  Carries, CarryAll, leave_action, take_actions, transfer_order, emit_lem, emit-held,
}

module _ {F : Type 0} ⦃fl : Floats F⦄ where
  -- The cursor stands on the monitor, at the point of its rectangle that the requested position
  -- names, and the position reported is that point's.
  pub record Arrives (l : GlobalLayout F) (to : GlobalMonitorId) (requested : NormPos F)
      (c : VirtualCursor F) (entry : NormPos F) : Type 0 where
    pub bounds : Rect
    pub found : rect l to ≡ some bounds
    pub has_room : is_empty bounds ≡ false
    pub on : c.monitor ≡ to
    pub at_point : clamp bounds (denormalize bounds (sanitized requested)) ≡ some c.pos
    pub entry_true : entry ≡ sanitized (normalize bounds c.pos)

  -- What a warp to another machine did: the cursor is there, then the whole handover, then the
  -- position.
  pub record IsWarp (r : InputRouter F) (to : GlobalMonitorId) (requested : NormPos F) (via : Edge)
      (o : Out F) : Type 0 where
    pub entry : NormPos F
    pub releases : List (RouteAction F)
    pub last : RouteAction F
    pub arrival : Arrives r.layout to requested o.0.cursor entry
    pub order :
        o.1
        ≡ (releases
            ++ (leave_action r.this_node r.cursor.monitor ∷ take_actions r.this_node to entry via))
          ++ last ∷ []
    pub lets_go : CarryAll r.this_node r.cursor.monitor (release_events r.held) releases
    pub places : Carries r.this_node to (pointer (move_to entry)) last
    pub empty_handed : o.0.held ≡ nothing_held

  emit-cursor :
      (t : GlobalMonitorId) (e : InputEvent F) (o : Out F) → (emit t e o).0.cursor ≡ o.0.cursor
  unfolding emit next_seq
  emit-cursor t e o = ground arith

  emit_all-cursor :
      (t : GlobalMonitorId) (es : List (InputEvent F)) (o : Out F)
      → (emit_all t es o).0.cursor ≡ o.0.cursor
  unfolding emit_all
  emit_all-cursor t [] o = refl
  emit_all-cursor t (e ∷ es) o = emit_all-cursor t es (emit t e o) ∙ emit-cursor t e o

  let_go-cursor : (from : GlobalMonitorId) (o : Out F) → (let_go from o).0.cursor ≡ o.0.cursor
  unfolding let_go
  let_go-cursor from o = emit_all-cursor from (release_events o.0.held) o

  transfer-cursor :
      (from to : GlobalMonitorId) (entry : NormPos F) (via : Edge) (o : Out F)
      → (transfer from to entry via o).0.cursor ≡ o.0.cursor
  unfolding transfer
  transfer-cursor from to entry via o =
      ground (arith, let_go-cursor from o, emit-cursor from release_control (let_go from o))

ok_inj : {A : Type 0} {a b : A} → ok a ≡ ok b → a ≡ b
ok_inj h = cc

module _ {F : Type 0} ⦃fl : Floats F⦄ where
  clamped :
      (l : GlobalLayout F) (c : VirtualCursor F) (to : GlobalMonitorId) (requested : NormPos F)
      (b : Rect)
      → rect l to ≡ some b
      → is_empty b ≡ false
      → (pos : Option (Point F)) → clamp b (denormalize b (sanitized requested)) ≡ pos
      → {c' : VirtualCursor F} {entry : NormPos F}
      → warp_to l c to requested ≡ some (ok (c', entry))
      → Arrives l to requested c' entry
  unfolding warp_to usable_rect renormalize
  clamped l c to requested b found roomy none e {c'} {entry} h =
      absurd (cc (rw (found, roomy, e, warp_to) at h))
  clamped l c to requested b found roomy (some pos) e {c'} {entry} h =
      subst (λ (p : VirtualCursor F × NormPos F). Arrives l to requested p.0 p.1)
        (ok_inj (some_inj (rw (found, roomy, e, warp_to) at h)))
        (record {
          bounds = b;
          found = found;
          has_room = roomy;
          on = refl;
          at_point = e;
          entry_true = refl;
        })

  warp_to-Arrives :
      (l : GlobalLayout F) (c : VirtualCursor F) (to : GlobalMonitorId) (requested : NormPos F)
      → {c' : VirtualCursor F} {entry : NormPos F}
      → warp_to l c to requested ≡ some (ok (c', entry))
      → Arrives l to requested c' entry
  unfolding warp_to usable_rect
  warp_to-Arrives l c to requested h = elim (Option-cases (rect l to)) [
    | inl gone ↦ absurd (cc (rw (gone, warp_to) at h))
    | inr (b, found) ↦ elim (Bool-cases (is_empty b)) [
      | inl empty ↦ absurd (cc (rw (found, empty, warp_to) at h))
      | inr roomy ↦
          clamped l c to requested b found roomy (clamp b (denormalize b (sanitized requested)))
            refl h
    ]
  ]

  landed_order :
      (r : InputRouter F) (to : GlobalMonitorId) (requested : NormPos F) (via : Edge)
      → (landed : Warp (VirtualCursor F × NormPos F)) (o : Out F)
      → warp_to r.layout r.cursor to requested ≡ some landed
      → after_warp r to via landed ≡ ok o
      → (r.cursor.monitor.node == to.node) ≡ false
      → IsWarp r to requested via o
  unfolding after_warp
  landed_order r to requested via (err e) o arrived h across = absurd (cc h)
  landed_order r to requested via (ok (c, entry)) o arrived h across =
      let r' = record r { cursor = c } in
      let moved = transfer r.cursor.monitor to entry via (r', []) in
      let (releases, order, all, held, this) =
        transfer_order r.cursor.monitor to entry via r' across in
      let (last, one, carries) = emit_lem to (pointer (move_to entry)) moved in
      let cursor =
        emit-cursor to (pointer (move_to entry)) moved
        ∙ transfer-cursor r.cursor.monitor to entry via (r', []) in
      subst (IsWarp r to requested via) (ok_inj h) (record {
        entry = entry;
        releases = releases;
        last = last;
        arrival =
            subst (λ x. Arrives r.layout to requested x entry) (sym cursor)
              (warp_to-Arrives r.layout r.cursor to requested arrived);
        order = one ∙ ap (λ t. t ++ last ∷ []) order;
        lets_go = all;
        places = subst (λ n. Carries n to (pointer (move_to entry)) last) this carries;
        empty_handed = emit-held to (pointer (move_to entry)) moved ∙ held;
      })

  -- A warp to a monitor of another machine that succeeds leaves the cursor on that monitor, which is
  -- in the layout and not empty, at the point that the requested position, sanitized, names in its
  -- rectangle, clamped to it. It emits, in this order, the releases of everything held, all to the
  -- monitor that loses control; the message that ends its ownership; the handoff, unless this node
  -- gains control; and the position, to the monitor warped to. Handoff and position both name the
  -- normalised position of the point at which the cursor is, and nothing counts as held afterwards.
  pub warp_via-IsWarp :
      (r : InputRouter F) (to : GlobalMonitorId) (requested : NormPos F) (via : Edge) (o : Out F)
      → warp_via r to requested via ≡ some (ok o)
      → (r.cursor.monitor.node == to.node) ≡ false
      → IsWarp r to requested via o
  unfolding warp_via
  warp_via-IsWarp r to requested via o h across =
      elim (Option-cases (warp_to r.layout r.cursor to requested)) [
        | inl gone ↦ absurd (ground arith)
        | inr (landed, e) ↦
            landed_order r to requested via landed o e (some_inj (rw (e, warp_via) at h)) across
      ]
