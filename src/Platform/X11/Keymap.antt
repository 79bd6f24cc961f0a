-- ===== src/Platform/X11/Keymap.antt =====
-- crates/wx-platform/src/linux_x11/keymap.rs: the keyboard of an X server, looked up by keysym. The
-- letter case of a character is a parameter, `to_lowercase` and `to_uppercase` of std.
pub mod Cheapest
pub mod Groups
pub mod Offers
use win_xtend.Prelude.{
  ℕ, zero, suc, ◌+◌, ◌-◌, ◌≡◌, Bool, true, false, not, ◌&&◌, ◌||◌, ◌==◌, ltb, leb, if◌then◌else◌,
  Option, none, some, is_some, map_option, or_option, ◌>>=◌, List, [], ◌∷◌, ◌++◌, length, take,
  drop, get_elem?, get_or, any_of, find_first, concat,
}
use win_xtend.Prelude.Maps.{lookup, insert as map_insert}
use win_xtend.Proto.Ids.{node_key}
use win_xtend.Proto.Keyboard.{
  SpecialKey, escape, backspace, tab, enter, delete, insert, home, end, page_up, page_down, up,
  down, left, right, f1, f2, f3, f4, f5, f6, f7, f8, f9, f10, f11, f12, shift_left, shift_right,
  ctrl_left, ctrl_right, alt_left, alt_right, super_left, super_right, caps_lock, num_lock,
  scroll_lock, print_screen, pause, menu, volume_up, volume_down, volume_mute, media_play_pause,
  media_next, media_prev, media_stop, brightness_up, brightness_down,
}
use win_xtend.Platform.Keys.{char_for_keysym, keysym_for_char}

pub record LevelMods : Type 0 where
  pub shift : Bool
  pub level3 : Bool

abbrev pub no_level : LevelMods
no_level = record { shift = false; level3 = false }

abbrev pub same_level : LevelMods → LevelMods → Bool
same_level a b =
    (if a.shift then b.shift else not b.shift) && (if a.level3 then b.level3 else not b.level3)

abbrev pub of_bool : Bool → ℕ
of_bool true = 1
of_bool false = 0

abbrev pub cost : LevelMods → ℕ
cost m = of_bool m.shift + of_bool m.level3

pub record Stroke : Type 0 where
  pub keycode : ℕ
  pub mods : LevelMods
  pub alphabetic : Bool

-- A keycode is a byte. `modifiers` has eight lists.
pub record RawKeymap : Type 0 where
  pub min_keycode : ℕ
  pub keysyms_per_keycode : ℕ
  pub keysyms : List ℕ
  pub modifiers : List (List ℕ)

pub record Keymap : Type 0 where
  pub strokes : List (ℕ × Stroke)
  pub shift : Option ℕ
  pub level3 : Option ℕ
  pub caps_is_lock : Bool

abbrev pub empty_keymap : Keymap
empty_keymap = record { strokes = []; shift = none; level3 = none; caps_is_lock = false }

-- `chunks(per)`, with a round for each element at most.
abbrev pub chunks_in : ℕ → ℕ → List ℕ → List (List ℕ)
chunks_in zero per xs = []
chunks_in (suc rounds) per [] = []
chunks_in (suc rounds) per (x ∷ xs) = take per (x ∷ xs) ∷ chunks_in rounds per (drop per (x ∷ xs))

abbrev pub chunks : ℕ → List ℕ → List (List ℕ)
chunks per xs = chunks_in (length xs) per xs

-- A keysym at a place of a row, where 0 stands for none.
abbrev pub at_level : List ℕ → ℕ → Option ℕ
at_level row i = elim (get_elem? row i) [ none ↦ none | some k ↦ if k == 0 then none else some k ]

-- Level by level, what a key gives and what has to be held for it.
abbrev pub Levels : Type 0
Levels = List (Option ℕ × LevelMods)

-- The cheapest stroke stays, and a tie keeps the one that is there.
abbrev pub offer_stroke : List (ℕ × Stroke) → ℕ → Stroke → List (ℕ × Stroke)
offer_stroke strokes keysym candidate = elim (lookup keysym strokes) [
  | none ↦ map_insert keysym candidate strokes
  | some existing ↦
      if leb (cost existing.mods) (cost candidate.mods)
      then strokes
      else map_insert keysym candidate strokes
]

unfoldable pub offer_levels : ℕ → Bool → Levels → List (ℕ × Stroke) → List (ℕ × Stroke)
offer_levels keycode alphabetic [] strokes = strokes
offer_levels keycode alphabetic ((none, mods) ∷ levels) strokes =
    offer_levels keycode alphabetic levels strokes
offer_levels keycode alphabetic ((some keysym, mods) ∷ levels) strokes =
    offer_levels keycode alphabetic levels (
      offer_stroke strokes keysym
        (record { keycode = keycode; mods = mods; alphabetic = alphabetic }))

abbrev pub row_contains : RawKeymap → ℕ → ℕ → ℕ → Bool
row_contains raw per keycode keysym =
    if ltb keycode raw.min_keycode
    then false
    else (elim (get_elem? (chunks per raw.keysyms) (keycode - raw.min_keycode)) [
      | none ↦ false
      | some row ↦ any_of (λ k. k == keysym) row
    ])

-- XK_ISO_LEVEL3_SHIFT or XK_MODE_SWITCH on a key of the modifiers from the fourth on.
abbrev pub find_level3 : RawKeymap → ℕ → Option ℕ
find_level3 raw per =
    find_first (λ code. row_contains raw per code 65027 || row_contains raw per code 65406)
      (concat (drop 3 raw.modifiers))

module _ (lower upper : ℕ → List ℕ) where
  -- Both cases of a letter, each one character and not the same.
  abbrev pub single_pair : List ℕ → List ℕ → Option (ℕ × ℕ)
  single_pair (low ∷ []) (high ∷ []) =
      if low == high then none else some (keysym_for_char low, keysym_for_char high)
  single_pair lows ups = none

  unfoldable pub cased_pair : ℕ → Option (ℕ × ℕ)
  cased_pair keysym = do c ← char_for_keysym keysym; single_pair (lower c) (upper c)

  abbrev pub pair_up : Option ℕ → Option ℕ → Option ℕ × Option ℕ
  pair_up (some k) none = elim (cased_pair k) [
    | some (low, high) ↦ (some low, some high)
    | none ↦ (some k, none)
  ]
  pair_up low high = (low, high)

  unfoldable pub group_one_levels : List ℕ → Levels
  group_one_levels row =
      let first = pair_up (at_level row 0) (at_level row 1) in
      let third = pair_up (at_level row 4) (at_level row 5) in
      (first.0, no_level)
      ∷ (first.1, record { shift = true; level3 = false })
      ∷ (third.0, record { shift = false; level3 = true })
      ∷ (third.1, record { shift = true; level3 = true })
      ∷ []

  abbrev pub is_cased : Option ℕ → Option ℕ → Bool
  is_cased (some low) (some high) = elim (cased_pair low) [
    | some (l, u) ↦ l == low && u == high
    | none ↦ false
  ]
  is_cased low high = false

  unfoldable pub is_alphabetic : List ℕ → Bool
  is_alphabetic row =
      let first = pair_up (at_level row 0) (at_level row 1) in is_cased first.0 first.1

  -- The rows from one keycode on, high to 255, past which the protocol has none.
  unfoldable pub offer_rows : ℕ → List (List ℕ) → List (ℕ × Stroke) → List (ℕ × Stroke)
  unfolding offer_levels group_one_levels is_alphabetic
  offer_rows keycode [] strokes = strokes
  offer_rows keycode (row ∷ rows) strokes =
      let rest =
        offer_rows (keycode + 1) rows
          (offer_levels keycode (is_alphabetic row) (group_one_levels row) strokes) in
      if ltb 255 keycode then strokes else rest

  -- XK_CAPS_LOCK is 65509.
  unfoldable pub from_raw : RawKeymap → Keymap
  unfolding offer_rows
  from_raw raw =
      let per = raw.keysyms_per_keycode in
      if per == 0 || length raw.keysyms == 0 then empty_keymap else record {
        strokes = offer_rows raw.min_keycode (chunks per raw.keysyms) [];
        shift = get_elem? (get_or raw.modifiers 0 []) 0;
        level3 = find_level3 raw per;
        caps_is_lock = any_of (λ code. row_contains raw per code 65509) (get_or raw.modifiers 1 []);
      }

abbrev pub stroke : Keymap → ℕ → Option Stroke
stroke keymap keysym = lookup keysym keymap.strokes

abbrev pub stroke_for_any : Keymap → List ℕ → Option Stroke
stroke_for_any keymap [] = none
stroke_for_any keymap (k ∷ ks) = or_option (stroke keymap k) (stroke_for_any keymap ks)

abbrev pub keycode_of : Keymap → ℕ → Option ℕ
keycode_of keymap keysym = map_option (λ (s : Stroke). s.keycode) (stroke keymap keysym)

abbrev pub keysym_from_special : SpecialKey → ℕ
keysym_from_special escape = 65307
keysym_from_special backspace = 65288
keysym_from_special tab = 65289
keysym_from_special enter = 65293
keysym_from_special delete = 65535
keysym_from_special insert = 65379
keysym_from_special home = 65360
keysym_from_special end = 65367
keysym_from_special page_up = 65365
keysym_from_special page_down = 65366
keysym_from_special up = 65362
keysym_from_special down = 65364
keysym_from_special left = 65361
keysym_from_special right = 65363
keysym_from_special f1 = 65470
keysym_from_special f2 = 65471
keysym_from_special f3 = 65472
keysym_from_special f4 = 65473
keysym_from_special f5 = 65474
keysym_from_special f6 = 65475
keysym_from_special f7 = 65476
keysym_from_special f8 = 65477
keysym_from_special f9 = 65478
keysym_from_special f10 = 65479
keysym_from_special f11 = 65480
keysym_from_special f12 = 65481
keysym_from_special shift_left = 65505
keysym_from_special shift_right = 65506
keysym_from_special ctrl_left = 65507
keysym_from_special ctrl_right = 65508
keysym_from_special alt_left = 65513
keysym_from_special alt_right = 65514
keysym_from_special super_left = 65515
keysym_from_special super_right = 65516
keysym_from_special caps_lock = 65509
keysym_from_special num_lock = 65407
keysym_from_special scroll_lock = 65300
keysym_from_special print_screen = 65377
keysym_from_special pause = 65299
keysym_from_special menu = 65383
keysym_from_special volume_up = 269025043
keysym_from_special volume_down = 269025041
keysym_from_special volume_mute = 269025042
keysym_from_special media_play_pause = 269025044
keysym_from_special media_next = 269025047
keysym_from_special media_prev = 269025046
keysym_from_special media_stop = 269025045
keysym_from_special brightness_up = 269025026
keysym_from_special brightness_down = 269025027
