-- ===== src/Platform/X11/Inject/Leftover.antt =====
-- inject.rs, release_all: what is left of the lists when each item that it names is let go.
use win_xtend.Prelude.{
  ℕ, ◌≡◌, subst, true, false, not, ◌&&◌, ◌||◌, ◌==◌, ==_iff, Bool-cases, inl, inr, List, [], ◌∷◌,
  arith,
}
use win_xtend.Prelude.Keeps.{any_of-append}
use win_xtend.Platform.X11.Inject.{Held, holds, has_code, without_code}
use win_xtend.Platform.X11.Inject.Modifiers.{ModifierKeys}
use win_xtend.Platform.X11.Inject.Release.{without_held, chosen_codes, release_order}
use win_xtend.Platform.X11.Inject.Tracked.{any_of-keep_others, held_eq}
use win_xtend.Proto.Ids.{node_key}

-- What is left when each of the first list is let go.
abbrev pub without_all : List Held → List Held → List Held
without_all [] held = held
without_all (item ∷ items) held = without_all items (without_held item held)

abbrev pub without_codes : List ℕ → List ℕ → List ℕ
without_codes [] codes = codes
without_codes (code ∷ more) codes = without_codes more (without_code code codes)

pub holds-without_all :
    (items held : List Held) (x : Held)
    → holds (without_all items held) x ≡ (holds held x && not (holds items x))
holds-without_all [] held x = ground arith
holds-without_all (item ∷ items) held x =
    ground
      (arith, holds-without_all items (without_held item held) x, any_of-keep_others item x held)

pub has_code-without_codes :
    (codes pressed : List ℕ) (x : ℕ)
    → has_code (without_codes codes pressed) x ≡ (has_code pressed x && not (has_code codes x))
has_code-without_codes [] pressed x = ground arith
has_code-without_codes (code ∷ codes) pressed x = ground (
  arith,
  has_code-without_codes codes (without_code code pressed) x,
  any_of-keep_others code x pressed,
)

chosen_codes_cover :
    (pressed candidates codes : List ℕ) (x : ℕ)
    → (has_code codes x || (has_code candidates x && has_code pressed x)) ≡ true
    → has_code (chosen_codes pressed candidates codes) x ≡ true
chosen_codes_cover pressed [] codes x h = ground (arith, h)
chosen_codes_cover pressed (code ∷ more) codes x h =
    chosen_codes_cover pressed more _ x
      (elim (Bool-cases (has_code pressed code && not (has_code codes code))) [
        | inl added ↦ rw (added, any_of-append (λ c. c == x) codes (code ∷ [])) (ground (arith, h))
        | inr kept ↦ rw kept (elim (Bool-cases (code == x)) [
          | inl hit ↦ ground (
            arith,
            h,
            subst (λ t. (has_code pressed t && not (has_code codes t)) ≡ false)
                ((==_iff code x).0 hit) kept,
          )
          | inr miss ↦ ground (arith, h, miss)
        ])
      ])

pub release_order_cover :
    (keys : ModifierKeys) (pressed : List ℕ) (x : ℕ)
    → has_code pressed x ≡ true
    → has_code (release_order keys pressed) x ≡ true
unfolding release_order
release_order_cover keys pressed x h = chosen_codes_cover pressed pressed _ x (ground (arith, h))
