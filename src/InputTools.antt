-- ===== src/InputTools.antt =====
-- src/tools/InputTools.cpp: the mouse and the keyboard, as the events that SendInput is given. The
-- path of a human-like move, which is random, and the Windows key of a character are parameters.
pub mod Keyboard
pub mod KeyMap
pub mod Balance
pub mod Holding
pub mod Scaling
use win_bot.Base.{
  String, ℕ, zero, suc, ◌+◌, ◌-◌, ◌*◌, ◌/◌, ◌%◌, ◌^◌, Text, text, text_eq, show_int, Bool, true,
  false, Option, none, some, List, [], ◌∷◌, ◌++◌, ℤ, pos, negsuc, pos_part, neg_part, Outcome,
  returned, ◌>>=◌, ToolResult, ok, leb, if◌then◌else◌,
}
use win_bot.Json.{JsonApi}

pub data Button : Type 0 where
  left : Button
  right : Button
  middle : Button

-- Mouse events carry the absolute position; `wheel` the amount as a DWORD.
pub data InputEvent : Type 0 where
  move : ℤ → ℤ → InputEvent
  button_down : Button → ℤ → ℤ → InputEvent
  button_up : Button → ℤ → ℤ → InputEvent
  wheel : ℕ → ℤ → ℤ → InputEvent
  key_down : ℕ → InputEvent
  key_up : ℕ → InputEvent
  char_down : ℕ → InputEvent
  char_up : ℕ → InputEvent

-- GetSystemMetrics: the virtual screen, and the primary one.
pub record Screen : Type 0 where
  pub virtual_x : ℤ
  pub virtual_y : ℤ
  pub virtual_width : ℤ
  pub virtual_height : ℤ
  pub width : ℤ
  pub height : ℤ

-- `a - b` as an int
abbrev pub minus : ℕ → ℕ → ℤ
minus a b = if leb b a then pos (a - b) else negsuc (b - a - 1)

infixl 20 ◌-ℤ◌ ◌+ℤ◌
abbrev pub ◌-ℤ◌ : ℤ → ℤ → ℤ
a -ℤ b = minus (pos_part a + neg_part b) (neg_part a + pos_part b)

abbrev pub ◌+ℤ◌ : ℤ → ℤ → ℤ
a +ℤ b = minus (pos_part a + pos_part b) (neg_part a + neg_part b)

-- `z * m / d` for positive `m` and `d`; the division of C++ drops the fraction.
abbrev pub scaled : ℤ → ℕ → ℕ → ℤ
scaled (pos n) m d = pos (n * m / d)
scaled (negsuc n) m d = minus 0 (suc n * m / d)

-- The width that is used: the first positive one.
abbrev pub positive_or : ℤ → ℕ → ℕ
positive_or (pos (suc n)) default = suc n
positive_or _ default = default

abbrev pub screen_width : Screen → ℕ
screen_width screen = positive_or screen.virtual_width (positive_or screen.width 1920)

abbrev pub screen_height : Screen → ℕ
screen_height screen = positive_or screen.virtual_height (positive_or screen.height 1080)

-- The coordinates of sendMouseEvent, from 0 to 65535 over the screen.
unfoldable pub absolute_x : Screen → ℤ → ℤ
absolute_x screen x = scaled (x -ℤ screen.virtual_x) 65535 (screen_width screen)

unfoldable pub absolute_y : Screen → ℤ → ℤ
absolute_y screen y = scaled (y -ℤ screen.virtual_y) 65535 (screen_height screen)

abbrev pub coordinates : ℤ → ℤ → Text
coordinates x y = text "(" ++ show_int x ++ text ", " ++ show_int y ++ text ")"

abbrev pub button_of : Text → Button
button_of name =
    if text_eq name (text "right")
    then right
    else if text_eq name (text "middle")
    then middle
    else left

-- `static_cast<DWORD>(static_cast<unsigned int>(delta * WHEEL_DELTA))`
abbrev wheel_data : ℤ → ℕ
wheel_data (pos n) = n * 120 % 2 ^ 32
wheel_data (negsuc n) = (2 ^ 32 - suc n * 120 % 2 ^ 32) % 2 ^ 32

-- `x1 + (x2 - x1) * i / steps` with 20 steps
abbrev pub between : ℤ → ℤ → ℕ → ℤ
between from to i = from +ℤ scaled (to -ℤ from) i 20

-- The points of a drag from step `i` on.
unfoldable pub drag_points : ℕ → ℕ → ℤ → ℤ → ℤ → ℤ → List (ℤ × ℤ)
drag_points zero i x1 y1 x2 y2 = []
drag_points (suc n) i x1 y1 x2 y2 =
    (between x1 x2 i, between y1 y2 i) ∷ drag_points n (suc i) x1 y1 x2 y2

-- `human` gives the points that a human-like move goes through before its target, none where the
-- cursor is within five pixels of it.
module _ (screen : Screen) (human : ℤ → ℤ → Option (List (ℤ × ℤ))) where
  abbrev move_to : ℤ → ℤ → InputEvent
  move_to x y = move (absolute_x screen x) (absolute_y screen y)

  unfoldable pub moves : List (ℤ × ℤ) → List InputEvent
  unfolding absolute_x absolute_y
  moves [] = []
  moves ((x, y) ∷ points) = move_to x y ∷ moves points

  unfoldable pub moved_by : Option (List (ℤ × ℤ)) → ℤ → ℤ → ToolResult × List InputEvent
  unfolding moves absolute_x absolute_y
  moved_by none x y = (ok (text "Mouse moved to " ++ coordinates x y), move_to x y ∷ [])
  moved_by (some points) x y =
      (ok (text "Human mouse moved to " ++ coordinates x y), moves points ++ move_to x y ∷ [])

  unfoldable pub human_mouse_move : ℤ → ℤ → ToolResult × List InputEvent
  unfolding moved_by
  human_mouse_move x y = moved_by (human x y) x y

  unfoldable pub move_mouse : ℤ → ℤ → Bool → ToolResult × List InputEvent
  unfolding human_mouse_move absolute_x absolute_y
  move_mouse x y human_move =
      if human_move
      then human_mouse_move x y
      else (ok (text "Mouse moved to " ++ coordinates x y), move_to x y ∷ [])

  -- How click, drag and scroll come to their first point.
  unfoldable pub approach : ℤ → ℤ → Bool → List InputEvent
  unfolding human_mouse_move absolute_x absolute_y
  approach x y human_move = if human_move then (human_mouse_move x y).1 else move_to x y ∷ []

  unfoldable pub click : ℤ → ℤ → Text → Bool → ToolResult × List InputEvent
  unfolding approach absolute_x absolute_y
  click x y button human_move = (
    ok (button ++ text " click at " ++ coordinates x y),
    approach x y human_move
        ++ button_down (button_of button) (absolute_x screen x) (absolute_y screen y)
          ∷ button_up (button_of button) (absolute_x screen x) (absolute_y screen y)
          ∷ [],
  )

  unfoldable pub double_click : ℤ → ℤ → Bool → ToolResult × List InputEvent
  unfolding click
  double_click x y human_move = (
    ok (text "Double click at " ++ coordinates x y),
    (click x y (text "left") human_move).1 ++ (click x y (text "left") false).1,
  )

  unfoldable pub drag_path : ℤ → ℤ → ℤ → ℤ → Bool → List InputEvent
  unfolding human_mouse_move drag_points moves
  drag_path x1 y1 x2 y2 human_move =
      if human_move then (human_mouse_move x2 y2).1 else moves (drag_points 20 1 x1 y1 x2 y2)

  abbrev pair_of : ℤ → ℤ → Text
  pair_of x y = text "(" ++ show_int x ++ text "," ++ show_int y ++ text ")"

  -- The arrow of the message, in UTF-8.
  abbrev arrow : Text
  arrow = 226 ∷ 134 ∷ 146 ∷ []

  unfoldable pub drag : ℤ → ℤ → ℤ → ℤ → Bool → ToolResult × List InputEvent
  unfolding approach drag_path absolute_x absolute_y
  drag x1 y1 x2 y2 human_move = (
    ok (text "Dragged " ++ pair_of x1 y1 ++ text " " ++ arrow ++ text " " ++ pair_of x2 y2),
    approach x1 y1 human_move
        ++ (button_down left (absolute_x screen x1) (absolute_y screen y1)
            ∷ (drag_path x1 y1 x2 y2 human_move
                ++ button_up left (absolute_x screen x2) (absolute_y screen y2) ∷ [])),
  )

  unfoldable pub scroll : ℤ → ℤ → ℤ → Bool → ToolResult × List InputEvent
  unfolding approach absolute_x absolute_y
  scroll x y delta human_move = (
    ok (text "Scrolled " ++ show_int delta ++ text " at " ++ coordinates x y),
    approach x y human_move
        ++ wheel (wheel_data delta) (absolute_x screen x) (absolute_y screen y) ∷ [],
  )

  module _ {J : Type 0} (api : JsonApi J) (args : J) where
    abbrev int_arg : String → Outcome ℤ
    int_arg name = api.value_int args (text name) (pos 0)

    -- ClickTool, DoubleClickTool, MouseDragTool, ScrollTool and HumanMoveTool
    unfoldable pub click_tool : Outcome (ToolResult × List InputEvent)
    unfolding click
    click_tool = int_arg "x" >>= λ x. int_arg "y" >>= λ y.
        api.value_text args (text "button") (text "left") >>= λ button.
        returned (click x y button false)

    unfoldable pub double_click_tool : Outcome (ToolResult × List InputEvent)
    unfolding double_click
    double_click_tool = int_arg "x" >>= λ x. int_arg "y" >>= λ y. returned (double_click x y false)

    unfoldable pub mouse_drag_tool : Outcome (ToolResult × List InputEvent)
    unfolding drag
    mouse_drag_tool = int_arg "x1" >>= λ x1. int_arg "y1" >>= λ y1.
        int_arg "x2" >>= λ x2. int_arg "y2" >>= λ y2. returned (drag x1 y1 x2 y2 false)

    unfoldable pub scroll_tool : Outcome (ToolResult × List InputEvent)
    unfolding scroll
    scroll_tool = int_arg "x" >>= λ x. int_arg "y" >>= λ y.
        api.value_int args (text "delta") (negsuc 2) >>= λ delta. returned (scroll x y delta false)

    unfoldable pub human_move_tool : Outcome (ToolResult × List InputEvent)
    unfolding human_mouse_move
    human_move_tool = int_arg "x" >>= λ x. int_arg "y" >>= λ y. returned (human_mouse_move x y)
