-- ===== src/Platform/X11/Inject.antt =====
-- crates/wx-platform/src/linux_x11/inject.rs: the injector of an X server: its state, what it may ask
-- of the server, and the keys that it holds. What the server answers is a parameter: an answer for
-- each call in turn. A request that was refused has not reached the server.
pub mod Modifiers
pub mod Keys
pub mod Pointer
pub mod Release
pub mod Monad
pub mod Tracked
pub mod Moves
pub mod Typing
pub mod Pointing
pub mod Clears
pub mod Histories
pub mod Leftover
use win_xtend.Prelude.{
  ℕ, ◌+◌, ◌≡◌, Bool, true, false, not, ◌&&◌, ◌||◌, ◌==◌, if◌then◌else◌, Option, none, some, List,
  [], ◌∷◌, ◌++◌, keep, any_of,
}
use win_xtend.Prelude.Int.{ℤ}
use win_xtend.Prelude.Results.{Result, ok, err}
use win_xtend.Platform.X11.Keymap.{Keymap, LevelMods, no_level}

pub data Request : Type 0 where
  motion : ℤ → ℤ → Bool → Request
  button_request key_request : ℕ → Bool → Request

-- What was refused with `Unsupported`.
pub data Operation : Type 0 where
  this_mouse_button unaddressable_keycode this_key unreachable_character missing_level_key :
      Operation

pub data PlatformError : Type 0 where
  unsupported : Operation → PlatformError
  other : List ℕ → PlatformError

-- An error is returned; `panicked` is no value of the source.
pub data Stop : Type 0 where
  failed : PlatformError → Stop
  panicked : Stop

-- The answers of the server to the call of that number.
pub record Sink : Type 0 where
  pub send : ℕ → Request → Option PlatformError
  pub keymap : ℕ → Result PlatformError Keymap
  pub caps_locked : ℕ → Result PlatformError Bool

pub data Held : Type 0 where
  held_key held_button : ℕ → Held

abbrev pub same_held : Held → Held → Bool
same_held (held_key a) (held_key b) = a == b
same_held (held_button a) (held_button b) = a == b
same_held a b = false

pub record Injector (F : Type 0) : Type 0 where
  pub held : List Held
  pub chord : ℕ
  pub level : LevelMods
  pub pressed : List ℕ
  pub relative : F × F
  pub scroll : F × F

-- The injector, the requests that reached the server, the newest first, and the calls so far.
pub record Session (F : Type 0) : Type 0 where
  pub injector : Injector F
  pub sent : List Request
  pub calls : ℕ

abbrev pub M : Type 0 → Type 0 → Type 0
M F A = Session F → Session F × Result Stop A

module _ {F : Type 0} where
  abbrev pub pass :
      {A B : Type 0} → (A → M F B) → Session F × Result Stop A → Session F × Result Stop B
  pass f (s, ok a) = f a s
  pass f (s, err e) = (s, err e)

  infixl 5 ◌>>=◌ ◌>>◌
  abbrev pub ◌>>=◌ : {A B : Type 0} → M F A → (A → M F B) → M F B
  ◌>>=◌ m f s = pass f (m s)

  abbrev pub ◌>>◌ : {B : Type 0} → M F (Unit {0}) → M F B → M F B
  ◌>>◌ m n s = pass (λ done. n) (m s)

  abbrev pub return : {A : Type 0} → A → M F A
  return a s = (s, ok a)

  abbrev pub fail : {A : Type 0} → PlatformError → M F A
  fail e s = (s, err (failed e))

  abbrev pub update : (Injector F → Injector F) → M F (Unit {0})
  update f s = (record s { injector = f s.injector }, ok tt)

  -- A step that reads the injector first.
  abbrev pub reading : {A : Type 0} → (Injector F → M F A) → M F A
  reading f s = f s.injector s

  abbrev pub lift : {A : Type 0} → Result PlatformError A → M F A
  lift (ok a) s = (s, ok a)
  lift (err e) s = (s, err (failed e))

module _ {F : Type 0} (k : Sink) where
  abbrev pub answered : Request → Option PlatformError → M F (Unit {0})
  answered r none s = (record s { sent = r ∷ s.sent; calls = s.calls + 1 }, ok tt)
  answered r (some e) s = (record s { calls = s.calls + 1 }, err (failed e))

  unfoldable pub send : Request → M F (Unit {0})
  send r s = answered r (k.send s.calls r) s

  -- The question, and its answer with any error in it.
  unfoldable pub try_keymap : M F (Result PlatformError Keymap)
  try_keymap s = (record s { calls = s.calls + 1 }, ok (k.keymap s.calls))

  unfoldable pub try_caps_locked : M F (Result PlatformError Bool)
  try_caps_locked s = (record s { calls = s.calls + 1 }, ok (k.caps_locked s.calls))

  unfoldable pub ask_keymap : M F Keymap
  ask_keymap = try_keymap >>= lift

abbrev pub holds : List Held → Held → Bool
holds items item = any_of (λ h. same_held h item) items

abbrev pub has_code : List ℕ → ℕ → Bool
has_code codes code = any_of (λ c. c == code) codes

abbrev pub without_code : ℕ → List ℕ → List ℕ
without_code code codes = keep (λ c. not (c == code)) codes

-- The list that `track` leaves.
unfoldable pub tracked : Held → Bool → List Held → List Held
tracked item release items =
    if release
    then keep (λ h. not (same_held h item)) items
    else if holds items item
    then items
    else items ++ item ∷ []

module _ {F : Type 0} where
  unfoldable pub track : Held → Bool → M F (Unit {0})
  unfolding tracked
  track item release = update (λ i. record i { held = tracked item release i.held })

module _ {F : Type 0} (k : Sink) where
  unfoldable pub send_key : ℕ → Bool → M F (Unit {0})
  unfolding send track
  send_key keycode release = do
    send k (key_request keycode (not release))
    track (held_key keycode) release

module _ {F : Type 0} where
  abbrev pub sender_holds : Injector F → ℕ → Bool
  sender_holds i code = holds i.held (held_key code)

  -- Whether the modifier key is believed to be down.
  abbrev pub key_down : Injector F → ℕ → Bool
  key_down i code = has_code i.pressed code || sender_holds i code
