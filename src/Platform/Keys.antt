-- ===== src/Platform/Keys.antt =====
-- crates/wx-platform/src/linux_wayland/keys.rs: keysyms, evdev codes and mouse buttons. A match on
-- numbers is a table that is searched in the order of its arms.
pub mod Tables
use win_xtend.Prelude.{
  ℕ, ◌+◌, ◌-◌, ◌*◌, ◌%◌, ◌^◌, ◌<◌, ◌≡◌, Bool, true, false, ◌&&◌, ◌||◌, leb, ltb, ◌==◌,
  if◌then◌else◌, Option, none, some, List, [], ◌∷◌, bit_and, bit_or,
}
use win_xtend.Proto.Keyboard.{
  SpecialKey, escape, backspace, tab, enter, delete, insert, home, end, page_up, page_down, up,
  down, left, right, f1, f2, f3, f4, f5, f6, f7, f8, f9, f10, f11, f12, shift_left, shift_right,
  ctrl_left, ctrl_right, alt_left, alt_right, super_left, super_right, caps_lock, num_lock,
  scroll_lock, print_screen, pause, menu, volume_up, volume_down, volume_mute, media_play_pause,
  media_next, media_prev, media_stop, brightness_up, brightness_down,
}
use win_xtend.Proto.Input.{MouseButton, left, right, middle, back, forward, extra}

abbrev pub find_in : {A : Type 0} → ℕ → List (ℕ × A) → Option A
find_in code [] = none
find_in code ((k, a) ∷ more) = if k == code then some a else find_in code more

-- 0x01000000, and the range of `char`.
abbrev pub unicode_keysym_base : ℕ
unicode_keysym_base = 2 ^ 24

abbrev pub is_direct_keysym : ℕ → Bool
is_direct_keysym code = leb 32 code && leb code 255 || leb 8352 code && leb code 8364

unfoldable pub keysym_for_char : ℕ → ℕ
keysym_for_char c = if is_direct_keysym c then c else bit_or unicode_keysym_base c

unfoldable pub char_keysyms : ℕ → List ℕ
unfolding keysym_for_char
char_keysyms c = keysym_for_char c ∷ bit_or unicode_keysym_base c ∷ []

-- `char::from_u32`: no surrogate, and nothing past 0x10ffff.
abbrev pub char_from_u32 : ℕ → Option ℕ
char_from_u32 code =
    if leb 55296 code && leb code 57343 then none else if leb code 1114111 then some code else none

unfoldable pub char_for_keysym : ℕ → Option ℕ
char_for_keysym keysym =
    if is_direct_keysym keysym
    then char_from_u32 keysym
    else if bit_and keysym unicode_keysym_base == unicode_keysym_base
    then char_from_u32 (bit_and keysym (2 ^ 24 - 1))
    else none

abbrev pub dead_keysyms : List (ℕ × ℕ)
dead_keysyms =
    (768, 65104)
    ∷ (769, 65105)
    ∷ (770, 65106)
    ∷ (771, 65107)
    ∷ (772, 65108)
    ∷ (774, 65109)
    ∷ (775, 65110)
    ∷ (776, 65111)
    ∷ (778, 65112)
    ∷ (779, 65113)
    ∷ (780, 65114)
    ∷ (807, 65115)
    ∷ (808, 65116)
    ∷ []

unfoldable pub dead_keysym : ℕ → Option ℕ
dead_keysym combining = find_in combining dead_keysyms

abbrev pub dead_accents : List (ℕ × ℕ)
dead_accents =
    (65104, 768)
    ∷ (65105, 769)
    ∷ (65106, 770)
    ∷ (65107, 771)
    ∷ (65108, 772)
    ∷ (65109, 774)
    ∷ (65110, 775)
    ∷ (65111, 776)
    ∷ (65112, 778)
    ∷ (65113, 779)
    ∷ (65114, 780)
    ∷ (65115, 807)
    ∷ (65116, 808)
    ∷ []

unfoldable pub dead_accent : ℕ → Option ℕ
dead_accent keysym = find_in keysym dead_accents

-- Every key has a code.
abbrev pub evdev_code : SpecialKey → ℕ
evdev_code escape = 1
evdev_code backspace = 14
evdev_code tab = 15
evdev_code enter = 28
evdev_code delete = 111
evdev_code insert = 110
evdev_code home = 102
evdev_code end = 107
evdev_code page_up = 104
evdev_code page_down = 109
evdev_code up = 103
evdev_code down = 108
evdev_code left = 105
evdev_code right = 106
evdev_code f1 = 59
evdev_code f2 = 60
evdev_code f3 = 61
evdev_code f4 = 62
evdev_code f5 = 63
evdev_code f6 = 64
evdev_code f7 = 65
evdev_code f8 = 66
evdev_code f9 = 67
evdev_code f10 = 68
evdev_code f11 = 87
evdev_code f12 = 88
evdev_code shift_left = 42
evdev_code shift_right = 54
evdev_code ctrl_left = 29
evdev_code ctrl_right = 97
evdev_code alt_left = 56
evdev_code alt_right = 100
evdev_code super_left = 125
evdev_code super_right = 126
evdev_code caps_lock = 58
evdev_code num_lock = 69
evdev_code scroll_lock = 70
evdev_code print_screen = 99
evdev_code pause = 119
evdev_code menu = 127
evdev_code volume_up = 115
evdev_code volume_down = 114
evdev_code volume_mute = 113
evdev_code media_play_pause = 164
evdev_code media_next = 163
evdev_code media_prev = 165
evdev_code media_stop = 166
evdev_code brightness_up = 225
evdev_code brightness_down = 224

unfoldable pub evdev_from_special : SpecialKey → Option ℕ
evdev_from_special key = some (evdev_code key)

abbrev pub evdev_keys : List (ℕ × SpecialKey)
evdev_keys =
    (1, escape)
    ∷ (14, backspace)
    ∷ (15, tab)
    ∷ (28, enter)
    ∷ (111, delete)
    ∷ (110, insert)
    ∷ (102, home)
    ∷ (107, end)
    ∷ (104, page_up)
    ∷ (109, page_down)
    ∷ (103, up)
    ∷ (108, down)
    ∷ (105, left)
    ∷ (106, right)
    ∷ (59, f1)
    ∷ (60, f2)
    ∷ (61, f3)
    ∷ (62, f4)
    ∷ (63, f5)
    ∷ (64, f6)
    ∷ (65, f7)
    ∷ (66, f8)
    ∷ (67, f9)
    ∷ (68, f10)
    ∷ (87, f11)
    ∷ (88, f12)
    ∷ (42, shift_left)
    ∷ (54, shift_right)
    ∷ (29, ctrl_left)
    ∷ (97, ctrl_right)
    ∷ (56, alt_left)
    ∷ (100, alt_right)
    ∷ (125, super_left)
    ∷ (126, super_right)
    ∷ (58, caps_lock)
    ∷ (69, num_lock)
    ∷ (70, scroll_lock)
    ∷ (99, print_screen)
    ∷ (119, pause)
    ∷ (127, menu)
    ∷ (115, volume_up)
    ∷ (114, volume_down)
    ∷ (113, volume_mute)
    ∷ (164, media_play_pause)
    ∷ (163, media_next)
    ∷ (165, media_prev)
    ∷ (166, media_stop)
    ∷ (225, brightness_up)
    ∷ (224, brightness_down)
    ∷ []

unfoldable pub special_from_evdev : ℕ → Option SpecialKey
special_from_evdev code = find_in code evdev_keys

abbrev pub modifier_keysyms : List (ℕ × SpecialKey)
modifier_keysyms =
    (65027, alt_right)
    ∷ (65406, alt_right)
    ∷ (65505, shift_left)
    ∷ (65506, shift_right)
    ∷ (65507, ctrl_left)
    ∷ (65508, ctrl_right)
    ∷ (65511, alt_left)
    ∷ (65513, alt_left)
    ∷ (65512, alt_right)
    ∷ (65514, alt_right)
    ∷ (65515, super_left)
    ∷ (65516, super_right)
    ∷ []

unfoldable pub special_from_keysym : ℕ → Option SpecialKey
special_from_keysym keysym = find_in keysym modifier_keysyms

-- BTN_LEFT 0x110, BTN_SIDE 0x113, BTN_EXTRA 0x114, BTN_FORWARD 0x115, BTN_TASK 0x117. The number of
-- an extra button is a byte.
unfoldable pub evdev_from_button : MouseButton → Option ℕ
evdev_from_button left = some 272
evdev_from_button right = some 273
evdev_from_button middle = some 274
evdev_from_button back = some 275
evdev_from_button forward = some 276
evdev_from_button (extra n) = if ltb 279 (277 + n) then none else some (277 + n)

unfoldable pub button_from_evdev : ℕ → Option MouseButton
button_from_evdev code =
    if code == 272
    then some left
    else if code == 273
    then some right
    else if code == 274
    then some middle
    else if code == 275
    then some back
    else if code == 276
    then some forward
    else if leb 277 code && leb code 279
    then some (extra (code - 277))
    else none
