-- ===== src/Proto/Keyboard.antt =====
-- crates/wx-proto/src/keyboard.rs: keys by meaning. A text is the list of its
-- characters.
use mathlib.Core.List.{List-discrete}
use win_xtend.Proto.Modifiers
use win_xtend.Proto.Modifiers.{Modifiers}
use win_xtend.Prelude.{ℕ, List, Bool, true, false, Option, none, some, ℕ_discrete}

pub data KeyAction : Type 0 where
  press release repeat : KeyAction

pub data SpecialKey : Type 0 where
  escape backspace tab enter delete insert home end page_up page_down up down left right :
      SpecialKey
  f1 f2 f3 f4 f5 f6 f7 f8 f9 f10 f11 f12 : SpecialKey
  shift_left shift_right ctrl_left ctrl_right alt_left alt_right super_left super_right : SpecialKey
  caps_lock num_lock scroll_lock print_screen pause menu : SpecialKey
  volume_up volume_down volume_mute media_play_pause media_next media_prev media_stop : SpecialKey
  brightness_up brightness_down : SpecialKey

pub SpecialKey-discrete : Discrete SpecialKey
SpecialKey-discrete = hlevel

pub data KeyPayload : Type 0 where
  text : List ℕ → KeyPayload
  special : SpecialKey → KeyPayload
  raw_key_code : ℕ → KeyPayload

unfoldable pub KeyPayload-discrete : Discrete KeyPayload
KeyPayload-discrete = hlevel (List-discrete, ℕ_discrete, SpecialKey-discrete)

abbrev pub is_modifier : SpecialKey → Bool
is_modifier shift_left = true
is_modifier shift_right = true
is_modifier ctrl_left = true
is_modifier ctrl_right = true
is_modifier alt_left = true
is_modifier alt_right = true
is_modifier super_left = true
is_modifier super_right = true
is_modifier _ = false

abbrev pub modifier_bit : SpecialKey → Option Modifiers
modifier_bit shift_left = some Modifiers.shift
modifier_bit shift_right = some Modifiers.shift
modifier_bit ctrl_left = some Modifiers.ctrl
modifier_bit ctrl_right = some Modifiers.ctrl
modifier_bit alt_left = some Modifiers.alt
modifier_bit alt_right = some Modifiers.alt
modifier_bit super_left = some Modifiers.super
modifier_bit super_right = some Modifiers.super
modifier_bit caps_lock = some Modifiers.caps_lock
modifier_bit num_lock = some Modifiers.num_lock
modifier_bit _ = none

pub record KeyEvent : Type 0 where
  pub payload : KeyPayload
  pub action : KeyAction
  pub modifiers : Modifiers

-- The constructor `KeyEvent::special`.
abbrev pub special_event : SpecialKey → KeyAction → Modifiers → KeyEvent
special_event key action modifiers = record {
  payload = special key;
  action = action;
  modifiers = modifiers;
}

unfoldable pub injection_modifiers : KeyEvent → Modifiers
injection_modifiers e = elim e.payload [
  | text t ↦ Modifiers.without (Modifiers.without e.modifiers Modifiers.shift) Modifiers.alt_gr
  | _ ↦ e.modifiers
]
