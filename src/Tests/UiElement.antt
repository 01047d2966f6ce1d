-- ===== src/Tests/UiElement.antt =====
-- src/platform/uia/UIAutomationScanner.cpp at a small tree.
use win_bot.Base.{◌⊎◌, ◌≤◌, ◌<◌, Text, text, text_eq, true, false, [], All, pos, some, ◌≡◌, refl}
use win_bot.Common.{ci_equal, ci_contains, ci_search, ci_starts_with, ci_char_eq}
use win_bot.UiElement.{
  Properties, Element, element, end, child, Query, score, name_points, type_points, search, check,
  preorder, preorder_all, resolved, excluded_process, find_best_match,
}
use win_bot.UiElement.Ranking.{AtMost, find_best_match-greatest, window_before_exact}

abbrev named : Text → Text → Properties
named type name = record {
  name = name;
  value = [];
  control_type = type;
  automation_id = [];
  left = pos 0;
  top = pos 0;
  right = pos 10;
  bottom = pos 10;
  is_enabled = true;
  is_focusable = false;
  is_focused = false;
  runtime_id = [];
  owner_hwnd = 0;
  process_id = 7;
  supports_invoke = false;
}

abbrev window : Properties
window = named (text "Window") (text "Save as")

abbrev button : Properties
button = named (text "Button") (text "Save")

abbrev root : Element
root =
    element (named (text "Pane") (text "Desktop"))
      (child (element button end) (child (element window end) end))

abbrev query : Query
query = record { name_or_id = text "save"; control_type = []; excluded = 0 }

find_best_match-greatest_example :
    (score (resolved 4 query) window ≡ some 115)
    × (All (AtMost (resolved 4 query) 115) (preorder root) ⊎ (150 ≤ 115))
unfolding find_best_match resolved excluded_process search check preorder preorder_all score
    name_points type_points text text_eq ci_equal ci_contains ci_search ci_starts_with ci_char_eq
find_best_match-greatest_example =
    find_best_match-greatest 4 query root (element window end) 115 refl

window_before_exact_example : 55 < 115
unfolding score name_points type_points text text_eq ci_equal ci_contains ci_search ci_starts_with
    ci_char_eq
window_before_exact_example =
    window_before_exact query window button 115 55 refl refl refl refl refl refl refl
