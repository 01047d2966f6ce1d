-- ===== src/Tests/KillSwitch.antt =====
-- src/security/KillSwitch.cpp at concrete hotkeys and events.
use win_bot.Base.{
  text_eq, refl, rfind, contains, starts_with, ℕ, text, Bool, true, false, [], ◌∷◌, ◌≡◌, ◌↔◌, Any,
}
use win_bot.Common.{to_lower, to_upper, ascii_upper}
use win_bot.KillSwitch.{
  KillSwitch, KeyEvent, wm_keydown, last_token, key_code, named_key, parse_hotkey, install,
}
use win_bot.KillSwitch.Hotkeys.{parse_hotkey-to_lower, see_all}
use win_bot.KillSwitch.Halting.{ctrl, alt, letter, spelled, Presses, triggered_iff}

abbrev off : KillSwitch
off = record {
  hotkey = record { need_ctrl = true; need_alt = true; need_shift = false; vk_code = b'X' };
  triggered = true;
}

abbrev press : Bool → ℕ → KeyEvent
press alt_down key = record {
  code = 0;
  message = wm_keydown;
  key = key;
  ctrl_down = true;
  alt_down = alt_down;
  shift_down = false;
}

parse_hotkey-to_lower_example :
    parse_hotkey (to_lower (text "Ctrl+Alt+X")) ≡ parse_hotkey (text "Ctrl+Alt+X")
parse_hotkey-to_lower_example = parse_hotkey-to_lower (text "Ctrl+Alt+X")

triggered_iff_example :
    ((see_all (press false b'X' ∷ press true b'X' ∷ []) (install (text "Ctrl+Alt+X") off)).triggered
      ≡ true)
    ↔ Any (Presses (ctrl ∷ alt ∷ []) b'X') (press false b'X' ∷ press true b'X' ∷ [])
unfolding text to_upper ascii_upper spelled
triggered_iff_example =
    triggered_iff (ctrl ∷ alt ∷ []) (b'X' ∷ []) (text "Ctrl+Alt+X") b'X' off
      (press false b'X' ∷ press true b'X' ∷ []) (letter b'X' refl) refl

-- A key that the parser does not know stands for X.
unknown_key : (parse_hotkey (text "Ctrl+F5")).vk_code ≡ b'X'
unfolding parse_hotkey last_token key_code named_key to_upper ascii_upper text text_eq rfind
    contains starts_with
unknown_key = refl
