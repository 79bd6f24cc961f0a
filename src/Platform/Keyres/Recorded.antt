-- ===== src/Platform/Keyres/Recorded.antt =====
-- keyres.rs: the keys that the receiver of the events holds down, next to what the resolver has
-- recorded.
use win_xtend.Prelude.{
  ℕ, ◌≡◌, ◌≢◌, ◌⊎◌, inl, inr, refl, ap, Bool, true, false, not, ◌==◌, Option, none, some, map_or,
  List, [], ◌∷◌, ◌++◌, any_of, All, arith, Bool-cases,
}
use win_xtend.Prelude.Maps.{lookup, insert}
use win_xtend.Prelude.Keeps.{All-keep, All-snoc, All-map}
use win_xtend.Proto.Ids.{node_key}
use win_xtend.Proto.Keyboard.{KeyAction, press, release, repeat, KeyPayload, text, KeyEvent}
use win_xtend.Core.Held.{HeldInput, same_key, press_key, release_key, observe_key}
use win_xtend.Core.Router.Release.{same_key_self}
use win_xtend.Platform.Keyres.{
  RawKey, KeyResolver, resolve, drop_first, flushed, flush_accent, accent_text,
}

-- The receiver after a list of events.
unfoldable pub receive : HeldInput → List KeyEvent → HeldInput
receive h [] = h
receive h (ev ∷ evs) = receive (observe_key h ev) evs

-- Some key is recorded as down with that payload.
unfoldable pub recorded : KeyPayload → List (ℕ × Option KeyPayload) → Bool
recorded k down = any_of (λ e. map_or false (same_key k) e.1) down

abbrev pub Covered : List KeyPayload → List (ℕ × Option KeyPayload) → Type 0
Covered keys down = All (λ k. recorded k down ≡ true) keys

-- A key that is recorded as down comes to what is recorded for it.
unfoldable pub Consistent : KeyResolver → RawKey → Type 0
Consistent r raw =
    (raw.action ≡ release)
    ⊎ ((lookup raw.code r.down ≡ none)
        ⊎ (lookup raw.code (resolve r raw).0.down ≡ lookup raw.code r.down))

-- The slot of a key is new, or has that value.
abbrev pub Fits : ℕ → Option KeyPayload → List (ℕ × Option KeyPayload) → Type 0
Fits code slot down = (lookup code down ≡ none) ⊎ (lookup code down ≡ some slot)

pub head_slot :
    (code c : ℕ) (p slot : Option KeyPayload) (down : List (ℕ × Option KeyPayload))
    → (c == code) ≡ true
    → lookup code ((c, p) ∷ down) ≡ some slot
    → p ≡ slot
head_slot code c p slot down here e = ground arith

Fits-head :
    (code c : ℕ) (p slot : Option KeyPayload) (down : List (ℕ × Option KeyPayload))
    → (c == code) ≡ true
    → Fits code slot ((c, p) ∷ down)
    → p ≡ slot
Fits-head code c p slot down here (inl e) = absurd (ground arith)
Fits-head code c p slot down here (inr e) = head_slot code c p slot down here e

Fits-tail :
    (code c : ℕ) (p slot : Option KeyPayload) (down : List (ℕ × Option KeyPayload))
    → (c == code) ≡ false
    → Fits code slot ((c, p) ∷ down)
    → Fits code slot down
Fits-tail code c p slot down there (inl e) = inl (ground arith)
Fits-tail code c p slot down there (inr e) = inr (ground arith)

pub recorded-insert :
    (k : KeyPayload) (code : ℕ) (slot : Option KeyPayload) (down : List (ℕ × Option KeyPayload))
    → Fits code slot down
    → recorded k down ≡ true
    → recorded k (insert code slot down) ≡ true
unfolding recorded
recorded-insert k code slot [] f e = absurd (ground arith)
recorded-insert k code slot ((c, p) ∷ down) f e = elim (Bool-cases (c == code)) [
  | inl here ↦ ground (arith, ap (map_or false (same_key k)) (Fits-head code c p slot down here f))
  | inr there ↦
      ground (arith, recorded-insert k code slot down (Fits-tail code c p slot down there f))
]

pub recorded-insert_self :
    (k : KeyPayload) (code : ℕ) (down : List (ℕ × Option KeyPayload))
    → recorded k (insert code (some k) down) ≡ true
unfolding recorded
recorded-insert_self k code [] = ground (arith, same_key_self k)
recorded-insert_self k code ((c, p) ∷ down) =
    ground (arith, same_key_self k, recorded-insert_self k code down)

pub recorded-drop_first :
    (k p : KeyPayload) (code : ℕ) (down : List (ℕ × Option KeyPayload))
    → lookup code down ≡ some (some p)
    → same_key k p ≡ false
    → recorded k down ≡ true
    → recorded k (drop_first code down) ≡ true
unfolding recorded drop_first
recorded-drop_first k p code [] e d r = absurd (ground arith)
recorded-drop_first k p code ((c, q) ∷ down) e d r = elim (Bool-cases (c == code)) [
  | inl here ↦
      ground (arith, ap (map_or false (same_key k)) (head_slot code c q (some p) down here e))
  | inr there ↦ ground (arith, recorded-drop_first k p code down)
]

pub recorded-drop_dead :
    (k : KeyPayload) (code : ℕ) (down : List (ℕ × Option KeyPayload))
    → lookup code down ≡ some none
    → recorded k down ≡ true
    → recorded k (drop_first code down) ≡ true
unfolding recorded drop_first
recorded-drop_dead k code [] e r = absurd (ground arith)
recorded-drop_dead k code ((c, q) ∷ down) e r = elim (Bool-cases (c == code)) [
  | inl here ↦ ground (arith, ap (map_or false (same_key k)) (head_slot code c q none down here e))
  | inr there ↦ ground (arith, recorded-drop_dead k code down)
]

-- What one event does to the keys held.
pub observe_key-press :
    (h : HeldInput) (ev : KeyEvent) (a : KeyAction)
    → ev.action ≡ a
    → a ≢ release
    → (observe_key h ev).keys ≡ press_key h.keys ev.payload
unfolding observe_key
observe_key-press h ev press e d = rw e refl
observe_key-press h ev repeat e d = rw e refl
observe_key-press h ev release e d = absurd (d refl)

observe_key-release :
    (h : HeldInput) (ev : KeyEvent)
    → ev.action ≡ release
    → (observe_key h ev).keys ≡ release_key h.keys ev.payload
unfolding observe_key
observe_key-release h ev e = rw e refl

pub Covered-press_key :
    (keys : List KeyPayload) (k : KeyPayload) (down : List (ℕ × Option KeyPayload))
    → recorded k down ≡ true
    → Covered keys down
    → Covered (press_key keys k) down
Covered-press_key keys k down e all = elim (Bool-cases (any_of (same_key k) keys)) [
  | inl held ↦ rw held all
  | inr fresh ↦ rw fresh (All-snoc (λ k. recorded k down ≡ true) keys k all e)
]

-- An accent on its own is pressed and released at once.
pub tapped :
    (keys : List KeyPayload) (k : KeyPayload) (down : List (ℕ × Option KeyPayload))
    → Covered keys down
    → Covered (release_key (press_key keys k) k) down
tapped keys k down all = elim (Bool-cases (any_of (same_key k) keys)) [
  | inl held ↦ rw held (All-keep Recorded Recorded gone keys (λ x d e. e) all)
  | inr fresh ↦ rw fresh (
      All-keep Either Recorded gone (keys ++ k ∷ []) settle (
        All-snoc Either keys k (All-map Recorded Either keys (λ x e. inl e) all)
          (inr (same_key_self k))))
]
  where
    Recorded : KeyPayload → Type 0
    Recorded x = recorded x down ≡ true

    Either : KeyPayload → Type 0
    Either x = (recorded x down ≡ true) ⊎ (same_key x k ≡ true)

    gone : KeyPayload → Bool
    gone x = not (same_key x k)

    settle : (x : KeyPayload) → not (same_key x k) ≡ true → Either x → Recorded x
    settle x d (inl e) = e
    settle x d (inr e) = absurd (ground arith)

pub receive-append :
    (h : HeldInput) (xs ys : List KeyEvent) → receive h (xs ++ ys) ≡ receive (receive h xs) ys
unfolding receive
receive-append h [] ys = refl
receive-append h (x ∷ xs) ys = receive-append (observe_key h x) xs ys

pub flushed-Covered :
    (h : HeldInput) (pending : Option ℕ) (down : List (ℕ × Option KeyPayload))
    → Covered h.keys down
    → Covered (receive h (flushed pending)).keys down
unfolding receive flush_accent observe_key
flushed-Covered h none down all = all
flushed-Covered h (some accent) down all = tapped h.keys (text (accent_text accent)) down all
