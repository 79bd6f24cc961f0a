-- ===== src/Platform/Keys/Tables.antt =====
-- keys.rs: the tables of the two directions, side by side.
use win_xtend.Prelude.{
  ℕ, ◌≡◌, refl, if◌then◌else◌, ◌∙◌, sym, ap, subst, some_inj, ==_iff, ◌↔◌, All, some, arith, Bool,
  true, false, ◌==◌, List, [], ◌∷◌,
}
use win_xtend.Proto.Keyboard.{
  SpecialKey, escape, backspace, tab, enter, delete, insert, home, end, page_up, page_down, up,
  down, left, right, f1, f2, f3, f4, f5, f6, f7, f8, f9, f10, f11, f12, shift_left, shift_right,
  ctrl_left, ctrl_right, alt_left, alt_right, super_left, super_right, caps_lock, num_lock,
  scroll_lock, print_screen, pause, menu, volume_up, volume_down, volume_mute, media_play_pause,
  media_next, media_prev, media_stop, brightness_up, brightness_down,
}
use win_xtend.Proto.Input.{MouseButton, left, right, middle, back, forward, extra}
use win_xtend.Platform.Accent.{
  Accent, combining, acute, grave, circumflex, tilde, diaeresis, ring, cedilla, caron, macron,
  breve, dot_above, double_acute, ogonek,
}
use win_xtend.Platform.Keys.{
  evdev_from_special, special_from_evdev, evdev_from_button, button_from_evdev, dead_keysym,
  dead_accent, evdev_code, find_in, evdev_keys,
}

special_round : (key : SpecialKey) → special_from_evdev (evdev_code key) ≡ some key
unfolding special_from_evdev
special_round escape = refl
special_round backspace = refl
special_round tab = refl
special_round enter = refl
special_round delete = refl
special_round insert = refl
special_round home = refl
special_round end = refl
special_round page_up = refl
special_round page_down = refl
special_round up = refl
special_round down = refl
special_round left = refl
special_round right = refl
special_round f1 = refl
special_round f2 = refl
special_round f3 = refl
special_round f4 = refl
special_round f5 = refl
special_round f6 = refl
special_round f7 = refl
special_round f8 = refl
special_round f9 = refl
special_round f10 = refl
special_round f11 = refl
special_round f12 = refl
special_round shift_left = refl
special_round shift_right = refl
special_round ctrl_left = refl
special_round ctrl_right = refl
special_round alt_left = refl
special_round alt_right = refl
special_round super_left = refl
special_round super_right = refl
special_round caps_lock = refl
special_round num_lock = refl
special_round scroll_lock = refl
special_round print_screen = refl
special_round pause = refl
special_round menu = refl
special_round volume_up = refl
special_round volume_down = refl
special_round volume_mute = refl
special_round media_play_pause = refl
special_round media_next = refl
special_round media_prev = refl
special_round media_stop = refl
special_round brightness_up = refl
special_round brightness_down = refl

button_back :
    (code : ℕ) (b : MouseButton) → evdev_from_button b ≡ some code → button_from_evdev code ≡ some b
unfolding evdev_from_button button_from_evdev
button_back code left h = ground arith
button_back code right h = ground arith
button_back code middle h = ground arith
button_back code back h = ground arith
button_back code forward h = ground arith
button_back code (extra n) h = ground arith

button_there :
    (code : ℕ) (b : MouseButton) → button_from_evdev code ≡ some b → evdev_from_button b ≡ some code
unfolding evdev_from_button button_from_evdev
button_there code b h = ground arith

entry_round : All (λ (e : ℕ × SpecialKey). evdev_code e.1 ≡ e.0) evdev_keys
entry_round = omega arith

find_in_sound :
    (code : ℕ) (table : List (ℕ × SpecialKey)) (key : SpecialKey)
    → All (λ (e : ℕ × SpecialKey). evdev_code e.1 ≡ e.0) table
    → find_in code table ≡ some key
    → evdev_code key ≡ code
find_in_sound code [] key all h = absurd (ground (arith, h))
find_in_sound code ((k, a) ∷ more) key all h =
    pick (k == code) (==_iff k code).0 (find_in_sound code more key all.1) h
  where
    pick :
        (b : Bool)
        → (b ≡ true → k ≡ code)
        → (find_in code more ≡ some key → evdev_code key ≡ code)
        → (if b then some a else find_in code more) ≡ some key
        → evdev_code key ≡ code
    pick true same rest h = sym (ap evdev_code (some_inj h)) ∙ all.0 ∙ same refl
    pick false same rest h = rest h

-- A code stands for a key with no text exactly when that is the code that is sent for the key, and
-- so it is with the buttons of a mouse.
pub evdev_round :
    ((code : ℕ) (key : SpecialKey)
      → (special_from_evdev code ≡ some key) ↔ (evdev_from_special key ≡ some code))
    × ((code : ℕ) (b : MouseButton)
        → (button_from_evdev code ≡ some b) ↔ (evdev_from_button b ≡ some code))
unfolding special_from_evdev evdev_from_special
evdev_round = (
  λ code key. (
    λ h. ap some (find_in_sound code evdev_keys key entry_round h),
    λ h. subst (λ c. special_from_evdev c ≡ some key) (some_inj h) (special_round key),
  ),
  λ code b. (button_there code b, button_back code b),
)

accent_round :
    (a : Accent)
    → (k : ℕ) × (dead_keysym (combining a) ≡ some k) × (dead_accent k ≡ some (combining a))
unfolding dead_keysym dead_accent
accent_round acute = (65105, refl, refl)
accent_round grave = (65104, refl, refl)
accent_round circumflex = (65106, refl, refl)
accent_round tilde = (65107, refl, refl)
accent_round diaeresis = (65111, refl, refl)
accent_round ring = (65112, refl, refl)
accent_round cedilla = (65115, refl, refl)
accent_round caron = (65114, refl, refl)
accent_round macron = (65108, refl, refl)
accent_round breve = (65109, refl, refl)
accent_round dot_above = (65110, refl, refl)
accent_round double_acute = (65113, refl, refl)
accent_round ogonek = (65116, refl, refl)
