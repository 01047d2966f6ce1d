-- ===== src/Tests/InputTools.antt =====
-- src/tools/InputTools.cpp on a screen with a monitor left of the primary one.
use win_bot.Base.{text, text_eq, true, Option, some, List, [], ◌∷◌, ℤ, pos, negsuc, ◌≡◌, refl}
use win_bot.Common.{to_lower, ascii_lower}
use win_bot.InputTools.{key_down, key_up, Screen, click, double_click, drag, scroll}
use win_bot.InputTools.Keyboard.{
  key_map, find_key, key_press, type_text, parse_combo, split_plus, downs, presses, ups_reversed,
  lower_bound, text_ltb, trim_front, trim_back,
}
use win_bot.InputTools.Holding.{HoldsNoMore, input-HoldsNoMore}

abbrev screen : Screen
screen = record {
  virtual_x = negsuc 1919;
  virtual_y = pos 0;
  virtual_width = pos 3840;
  virtual_height = pos 0;
  width = pos 1920;
  height = pos 1080;
}

abbrev straight : ℤ → ℤ → Option (List (ℤ × ℤ))
straight x y = some ((pos 1, pos 2) ∷ (x, y) ∷ [])

input-HoldsNoMore_example :
    HoldsNoMore (click screen straight (pos 5) (pos 6) (text "right") true).1
    × HoldsNoMore (double_click screen straight (pos 5) (pos 6) true).1
    × HoldsNoMore (drag screen straight (pos 5) (pos 6) (pos 50) (pos 60) true).1
    × HoldsNoMore (scroll screen straight (pos 5) (pos 6) (negsuc 2) true).1
    × HoldsNoMore (key_press (λ c. c) (text "Ctrl+Shift+S")).1
    × HoldsNoMore (type_text (λ s. s) (text "hi")).1
input-HoldsNoMore_example =
    input-HoldsNoMore screen straight (pos 5) (pos 6) (pos 50) (pos 60) (negsuc 2) (text "right")
      true (λ c. c) (λ s. s) (text "Ctrl+Shift+S") (text "hi")

-- The modifiers go up in the reverse order.
key_press_run :
    (key_press (λ c. c) (text "Ctrl+Shift+Tab")).1
    ≡ key_down 17 ∷ key_down 16 ∷ key_down 9 ∷ key_up 9 ∷ key_up 16 ∷ key_up 17 ∷ []
unfolding key_press parse_combo split_plus downs presses ups_reversed find_key key_map lower_bound
    text_ltb trim_front trim_back to_lower ascii_lower text text_eq
key_press_run = refl

-- A combination of which no token is known presses nothing, and is reported as pressed.
unknown_run : (key_press (λ c. c) (text "Hyper+Foo")).1 ≡ []
unfolding key_press parse_combo split_plus downs presses ups_reversed find_key key_map lower_bound
    text_ltb trim_front trim_back to_lower ascii_lower text text_eq
unknown_run = refl
