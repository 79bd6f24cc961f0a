-- ===== src/Platform/Keyres/Clears.antt =====
-- keyres.rs: what a history of raw keys, and then release_held, comes to for the receiver.
use mathlib.Core.List.{reverse}
use win_xtend.Prelude.{
  ℕ, ◌≡◌, refl, ap, ◌∙◌, true, false, not, Option, none, some, map_or, List, [], ◌∷◌, keep,
}
use win_xtend.Prelude.Keeps.{keep_twice, keep_none, any_of-reverse, All-map}
use win_xtend.Proto.Keyboard.{KeyPayload, release}
use win_xtend.Core.Held.{HeldInput, nothing_held, same_key, observe_key}
use win_xtend.Platform.Keyres.{RawKey, KeyResolver, new, resolve, releases, release_held}
use win_xtend.Platform.Keyres.Recorded.{receive, recorded, Covered, Consistent}
use win_xtend.Platform.Keyres.Steady.{resolve-Covered}

-- The resolver, and the receiver of its events, after some raw keys.
unfoldable pub pump : KeyResolver → HeldInput → List RawKey → KeyResolver × HeldInput
pump r h [] = (r, h)
pump r h (raw ∷ raws) = pump (resolve r raw).0 (receive h (resolve r raw).1) raws

abbrev pub AllConsistent : KeyResolver → List RawKey → Type 0
AllConsistent r [] = Unit
AllConsistent r (raw ∷ raws) = Consistent r raw × AllConsistent (resolve r raw).0 raws

pump-Covered :
    (r : KeyResolver) (h : HeldInput) (raws : List RawKey)
    → AllConsistent r raws
    → Covered h.keys r.down
    → Covered (pump r h raws).1.keys (pump r h raws).0.down
unfolding pump
pump-Covered r h [] consistent all = all
pump-Covered r h (raw ∷ raws) consistent all =
    pump-Covered (resolve r raw).0 (receive h (resolve r raw).1) raws consistent.1
      (resolve-Covered r raw h consistent.0 all)

keys-releases :
    (h : HeldInput) (down : List (ℕ × Option KeyPayload))
    → (receive h (releases down)).keys ≡ keep (λ k. not (recorded k down)) h.keys
unfolding receive releases recorded observe_key
keys-releases h [] = keep_all h.keys
  where
    keep_all : (ks : List KeyPayload) → ks ≡ keep (λ k. true) ks
    keep_all [] = refl
    keep_all (k ∷ ks) = ap (λ t. k ∷ t) (keep_all ks)
keys-releases h ((code, none) ∷ down) = keys-releases h down
keys-releases h ((code, some p) ∷ down) =
    keys-releases (observe_key h (record { payload = p; action = release; modifiers = 0 })) down
    ∙ keep_twice (λ k. same_key k p) (λ k. recorded k down) h.keys

-- The receiver is rid of every key once they are released: whatever raw keys came in, in any order,
-- with releases missing or out of the blue, as long as a key that is recorded as down came to what
-- is recorded for it whenever it was pressed or repeated.
pub release_held-clears :
    (raws : List RawKey)
    → AllConsistent new raws
    → (receive (pump new nothing_held raws).1 (release_held (pump new nothing_held raws).0).1).keys
      ≡ []
unfolding release_held recorded new nothing_held
release_held-clears raws consistent =
    let (r, h) = pump new nothing_held raws in
    keys-releases h (reverse r.down)
    ∙ keep_none (λ k. recorded k (reverse r.down)) h.keys
        (All-map _ _ h.keys (λ k e. any_of-reverse (λ e. map_or false (same_key k) e.1) r.down ∙ e)
          (pump-Covered new nothing_held raws consistent tt))
