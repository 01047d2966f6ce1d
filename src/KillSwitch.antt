-- ===== src/KillSwitch.antt =====
-- src/security/KillSwitch.h and .cpp: the hotkey that halts the program, and the hook that sees it.
pub mod Hotkeys
pub mod Halting
use win_bot.Base.{
  ℕ, ◌+◌, Text, text, text_eq, contains, rfind, drop, Bool, true, false, not, ◌&&◌, ◌||◌, Option,
  none, some, List, [], ◌∷◌, leb, ◌==◌, if◌then◌else◌,
}
use win_bot.Common.{to_upper}

-- s_needCtrl, s_needAlt, s_needShift and s_vkCode
pub record Hotkey : Type 0 where
  pub need_ctrl : Bool
  pub need_alt : Bool
  pub need_shift : Bool
  pub vk_code : ℕ

pub record KillSwitch : Type 0 where
  pub hotkey : Hotkey
  pub triggered : Bool

-- What the hook is called with: nCode, wParam, the key, and the modifiers that are down.
pub record KeyEvent : Type 0 where
  pub code : ℕ
  pub message : ℕ
  pub key : ℕ
  pub ctrl_down : Bool
  pub alt_down : Bool
  pub shift_down : Bool

abbrev pub hc_action : ℕ
hc_action = 0

abbrev pub wm_keydown : ℕ
wm_keydown = 256

abbrev pub wm_syskeydown : ℕ
wm_syskeydown = 260

abbrev pub vk_escape : ℕ
vk_escape = 27

abbrev pub vk_f12 : ℕ
vk_f12 = 123

-- std::isalpha in the "C" locale
abbrev pub is_alpha : ℕ → Bool
is_alpha c = (leb b'A' c && leb c b'Z') || (leb b'a' c && leb c b'z')

-- What stands behind the last '+'.
unfoldable pub last_token : Text → Text
last_token upper = elim (rfind upper b'+') [ none ↦ upper | some p ↦ drop (p + 1) upper ]

unfoldable pub named_key : Text → ℕ
named_key key =
    if text_eq key (text "ESCAPE") || text_eq key (text "ESC")
    then vk_escape
    else if text_eq key (text "F12")
    then vk_f12
    else b'X'

unfoldable pub key_code : Text → ℕ
unfolding named_key
key_code (c ∷ []) = if is_alpha c then c else named_key (c ∷ [])
key_code key = named_key key

unfoldable pub parse_hotkey : Text → Hotkey
unfolding last_token key_code
parse_hotkey hotkey =
    let upper = to_upper hotkey in
    record {
      need_ctrl = contains upper (text "CTRL");
      need_alt = contains upper (text "ALT");
      need_shift = contains upper (text "SHIFT");
      vk_code = key_code (last_token upper);
    }

unfoldable pub install : Text → KillSwitch → KillSwitch
unfolding parse_hotkey
install hotkey k = record { hotkey = parse_hotkey hotkey; triggered = false }

unfoldable pub reset : KillSwitch → KillSwitch
reset k = record k { triggered = false }

abbrev pub modifiers_match : Hotkey → KeyEvent → Bool
modifiers_match hotkey e =
    (not hotkey.need_ctrl || e.ctrl_down)
    && (not hotkey.need_alt || e.alt_down)
    && (not hotkey.need_shift || e.shift_down)

unfoldable pub low_level_keyboard_proc : KeyEvent → KillSwitch → KillSwitch
low_level_keyboard_proc e k =
    if e.code == hc_action && (e.message == wm_keydown || e.message == wm_syskeydown)
    then if modifiers_match k.hotkey e && e.key == k.hotkey.vk_code
      then record k { triggered = true }
      else k
    else k
