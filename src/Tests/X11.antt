-- ===== src/Tests/X11.antt =====
-- The theorems on the keymap and the injector of an X server at concrete inputs.
use win_xtend.Prelude.{
  ℕ, ◌≤◌, ◌≡◌, refl, true, false, if◌then◌else◌, ◌&&◌, ◌==◌, ◌%◌, ltb, ◌+◌, ◌-◌, inl, some, List,
  [], ◌∷◌, arith,
}
use win_xtend.Prelude.{none}
use win_xtend.Prelude.Int.{ℤ, pos}
use win_xtend.Prelude.Results.{ok, err}
use win_xtend.Proto.Modifiers
use win_xtend.Proto.Keyboard.{special_event, shift_left, press, text}
use win_xtend.Proto.Geom.{Monitor}
use win_xtend.Proto.Input.{key, pointer, button, scroll, left, lines}
use win_xtend.Platform.X11.Inject.{Sink, other}
use win_xtend.Platform.X11.Inject.Release.{
  Call, injects, releases, release_all, after_calls, new_session,
}
use win_xtend.Platform.X11.Inject.Clears.{LetGo, release_all-lets_go}
use win_xtend.Tests.Fixed.{Milli, nan, fin, quot, fixed}
use win_xtend.Tests.Places.{here_rect}
use win_xtend.Platform.X11.Keymap.{
  Stroke, RawKeymap, cost, from_raw, stroke, is_alphabetic, cased_pair, group_one_levels,
}
use win_xtend.Platform.Keys.{char_for_keysym}
use win_xtend.Platform.X11.Keymap.Cheapest.{Listed, stroke-cheapest}

-- A number cut to an integer.
abbrev whole_part : Milli → ℤ
whole_part nan = pos 0
whole_part (fin a) = quot a 1000

-- The case of a to z.
abbrev small_letter : ℕ → List ℕ
small_letter c = (if ltb 64 c && ltb c 91 then c + 32 else c) ∷ []

abbrev capital : ℕ → List ℕ
capital c = (if ltb 96 c && ltb c 123 then c - 32 else c) ∷ []

-- 1 and ! on key 10; a on key 38; ! alone on key 11.
abbrev keyboard : RawKeymap
keyboard = record {
  min_keycode = 10;
  keysyms_per_keycode = 2;
  keysyms = 49 ∷ 33 ∷ 33 ∷ 0 ∷ 97 ∷ 0 ∷ [];
  modifiers = [];
}

-- ! with Shift on key 10.
abbrev shifted : Stroke
shifted = record {
  keycode = 10;
  mods = record { shift = true; level3 = false };
  alphabetic = false;
}

stroke-cheapest_example :
    (s : Stroke) × (stroke (from_raw small_letter capital keyboard) 33 ≡ some s)
    × Listed small_letter capital 10 ((49 ∷ 33 ∷ []) ∷ (33 ∷ 0 ∷ []) ∷ (97 ∷ 0 ∷ []) ∷ []) 33 s
    × (cost s.mods ≤ cost shifted.mods)
unfolding is_alphabetic cased_pair char_for_keysym group_one_levels
stroke-cheapest_example =
    stroke-cheapest small_letter capital keyboard 33 shifted refl
      (omega arith, inl (refl, refl, inl refl))

abbrev screen : Monitor Milli
screen = record {
  id = 1;
  name = [];
  local_bounds = here_rect;
  scale = fin (pos 1000);
  primary = true;
}

-- A server that refuses every third call, and one that refuses nothing.
abbrev failing : Sink
failing = record {
  send = λ n r. if n % 3 == 2 then some (other []) else none;
  keymap = λ n. ok (from_raw small_letter capital keyboard);
  caps_locked = λ n. ok false;
}

abbrev working : Sink
working = record { send = λ n r. none; keymap = λ n. err (other []); caps_locked = λ n. ok false }

-- Shift, an exclamation mark typed and held, a button, the wheel, and a release that does not finish.
abbrev history : List (Call Milli)
history =
    injects screen (key (special_event shift_left press Modifiers.none))
    ∷ injects screen
        (key (record { payload = text (33 ∷ []); action = press; modifiers = Modifiers.none }))
    ∷ injects screen (pointer (button left true))
    ∷ injects screen (pointer (scroll (fin (pos 0)) (fin (pos 3000)) lines))
    ∷ releases
    ∷ []

release_all-lets_go_example :
    LetGo (release_all working (after_calls failing whole_part new_session history))
release_all-lets_go_example = release_all-lets_go failing working whole_part history (λ n r. refl)
