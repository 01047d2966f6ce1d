-- ===== src/InputTools/Keyboard.antt =====
-- src/tools/InputTools.cpp: keyPress and typeText. The code of a character, VkKeyScanA without its
-- shift state, is a parameter.
use win_bot.Base.{
  ℕ, Text, text, text_eq, is_empty, show_nat, length, Bool, true, false, ◌&&◌, ◌||◌, Option, none,
  some, List, [], ◌∷◌, ◌++◌, Outcome, returned, ◌>>=◌, ToolResult, ok, ltb, leb, ◌==◌,
  if◌then◌else◌,
}
use win_bot.Common.{to_lower}
use win_bot.Json.{JsonApi}
use win_bot.InputTools.{InputEvent, key_down, key_up, char_down, char_up}

abbrev pub KeyTable : Type 0
KeyTable = List (Text × ℕ)

-- kKeyMap
unfoldable pub key_map : KeyTable
key_map =
    (text "alt", 18)
    ∷ (text "backspace", 8)
    ∷ (text "ctrl", 17)
    ∷ (text "delete", 46)
    ∷ (text "down", 40)
    ∷ (text "end", 35)
    ∷ (text "enter", 13)
    ∷ (text "esc", 27)
    ∷ (text "escape", 27)
    ∷ (text "f1", 112)
    ∷ (text "f10", 121)
    ∷ (text "f11", 122)
    ∷ (text "f12", 123)
    ∷ (text "f2", 113)
    ∷ (text "f3", 114)
    ∷ (text "f4", 115)
    ∷ (text "f5", 116)
    ∷ (text "f6", 117)
    ∷ (text "f7", 118)
    ∷ (text "f8", 119)
    ∷ (text "f9", 120)
    ∷ (text "home", 36)
    ∷ (text "insert", 45)
    ∷ (text "left", 37)
    ∷ (text "pagedown", 34)
    ∷ (text "pageup", 33)
    ∷ (text "printscreen", 44)
    ∷ (text "return", 13)
    ∷ (text "right", 39)
    ∷ (text "shift", 16)
    ∷ (text "space", 32)
    ∷ (text "tab", 9)
    ∷ (text "up", 38)
    ∷ (text "win", 91)
    ∷ (text "windows", 91)
    ∷ []

-- operator< on std::string_view
unfoldable pub text_ltb : Text → Text → Bool
text_ltb s [] = false
text_ltb [] (y ∷ t) = true
text_ltb (x ∷ s) (y ∷ t) = ltb x y || (x == y && text_ltb s t)

-- std::ranges::lower_bound: the entries from the first one on that is not below the token
unfoldable pub lower_bound : KeyTable → Text → KeyTable
unfolding text_ltb
lower_bound [] token = []
lower_bound ((name, vk) ∷ table) token =
    if text_ltb name token then lower_bound table token else (name, vk) ∷ table

abbrev pub exact_first : Text → KeyTable → Option ℕ
exact_first token [] = none
exact_first token ((name, vk) ∷ table) = if text_eq name token then some vk else none

unfoldable pub find_key : KeyTable → Text → Option ℕ
unfolding lower_bound
find_key table token = exact_first token (lower_bound table token)

-- std::isspace in the "C" locale
abbrev is_space : ℕ → Bool
is_space c = c == 32 || (leb 9 c && leb c 13)

unfoldable pub trim_front : Text → Text
trim_front [] = []
trim_front (c ∷ s) = if is_space c then trim_front s else c ∷ s

unfoldable pub trim_back : Text → Text
trim_back [] = []
trim_back (c ∷ s) = let rest = trim_back s in if is_space c && is_empty rest then [] else c ∷ rest

-- The tokens between the '+'; `token` is what was read of the next one.
unfoldable pub split_plus : Text → Text → List Text
split_plus token [] = token ∷ []
split_plus token (c ∷ s) =
    if c == b'+' then token ∷ split_plus [] s else split_plus (token ++ c ∷ []) s

abbrev pub is_modifier : ℕ → Bool
is_modifier vk = vk == 17 || (vk == 18 || (vk == 16 || vk == 91))

-- `modifiers` and `keys`
pub record Combo : Type 0 where
  pub modifiers : List ℕ
  pub keys : List ℕ

-- The loops that press and release.
unfoldable pub downs : List ℕ → List InputEvent
downs [] = []
downs (vk ∷ vks) = key_down vk ∷ downs vks

unfoldable pub presses : List ℕ → List InputEvent
presses [] = []
presses (vk ∷ vks) = key_down vk ∷ key_up vk ∷ presses vks

unfoldable pub ups_reversed : List ℕ → List InputEvent
ups_reversed [] = []
ups_reversed (vk ∷ vks) = ups_reversed vks ++ key_up vk ∷ []

module _ (scan : ℕ → ℕ) where
  -- The code of a token that the table lacks, 0 where there is none.
  abbrev scanned : Text → ℕ
  scanned (c ∷ []) = scan c
  scanned _ = 0

  add_key : Text → Option ℕ → Combo → Combo
  add_key token (some vk) combo =
      if is_modifier vk
      then record { modifiers = combo.modifiers ++ vk ∷ []; keys = combo.keys }
      else record { modifiers = combo.modifiers; keys = combo.keys ++ vk ∷ [] }
  add_key token none combo =
      if scanned token == 0
      then combo
      else record { modifiers = combo.modifiers; keys = combo.keys ++ scanned token ∷ [] }

  unfoldable pub parse_combo : List Text → Combo → Combo
  unfolding add_key find_key key_map trim_front trim_back
  parse_combo [] combo = combo
  parse_combo (part ∷ parts) combo =
      let token = trim_back (trim_front part) in
      parse_combo parts
        (if is_empty token then combo else add_key token (find_key key_map token) combo)

  unfoldable pub key_press : Text → ToolResult × List InputEvent
  unfolding parse_combo split_plus downs presses ups_reversed to_lower
  key_press combo =
      let parsed =
        parse_combo (split_plus [] (to_lower combo)) (record { modifiers = []; keys = [] }) in
      (
        ok (text "Key pressed: " ++ combo),
        downs parsed.modifiers ++ presses parsed.keys ++ ups_reversed parsed.modifiers,
      )

  unfoldable pub key_tool : {J : Type 0} → JsonApi J → J → Outcome (ToolResult × List InputEvent)
  unfolding key_press
  key_tool api args =
      api.value_text args (text "combo") (text "Enter") >>= λ combo. returned (key_press combo)

unfoldable pub typed : Text → List InputEvent
typed [] = []
typed (c ∷ wide) = char_down c ∷ char_up c ∷ typed wide

-- typeText, of the UTF-16 text.
unfoldable pub type_text : (Text → Text) → Text → ToolResult × List InputEvent
unfolding typed
type_text to_wide s =
    (ok (text "Typed " ++ show_nat (length (to_wide s)) ++ text " characters"), typed (to_wide s))

unfoldable pub type_tool :
    {J : Type 0} → JsonApi J → (Text → Text) → J → Outcome (ToolResult × List InputEvent)
unfolding type_text
type_tool api to_wide args =
    api.value_text args (text "text") [] >>= λ s. returned (type_text to_wide s)
