-- ===== src/InputTools/Balance.antt =====
-- src/tools/InputTools.cpp: each operation releases what it presses, in the reverse order.
use win_bot.Base.{
  ℕ, Text, text, Bool, true, false, Option, none, some, List, [], ◌∷◌, ◌++◌, append-nil,
  append_assoc, ℤ, ◌==◌, if◌then◌else◌, ◌≡◌, refl, sym, arith,
}
use win_bot.InputTools.{
  absolute_x, absolute_y, button_of, Button, left, right, middle, InputEvent, move, button_down,
  button_up, wheel, key_down, key_up, char_down, char_up, Screen, moves, moved_by, human_mouse_move,
  approach, click, double_click, drag_path, drag_points, drag, scroll,
}
use mathlib.Core.Path.{subst}
use win_bot.Common.{to_lower}
use win_bot.InputTools.Keyboard.{
  parse_combo, split_plus, downs, presses, ups_reversed, key_press, typed, type_text,
}

-- What is held down.
pub data Held : Type 0 where
  button : Button → Held
  key : ℕ → Held
  char : ℕ → Held

abbrev pub same_button : Button → Button → Bool
same_button left left = true
same_button right right = true
same_button middle middle = true
same_button _ _ = false

abbrev pub same : Held → Held → Bool
same (button a) (button b) = same_button a b
same (key a) (key b) = a == b
same (char a) (char b) = a == b
same _ _ = false

abbrev pub released : Held → List Held → Option (List Held)
released h [] = none
released h (g ∷ stack) = if same g h then some stack else none

-- What an event does to what is held.
pub data Effect : Type 0 where
  neither : Effect
  press : Held → Effect
  release : Held → Effect

abbrev pub effect : InputEvent → Effect
effect (move x y) = neither
effect (wheel data_ x y) = neither
effect (button_down b x y) = press (button b)
effect (button_up b x y) = release (button b)
effect (key_down vk) = press (key vk)
effect (key_up vk) = release (key vk)
effect (char_down c) = press (char c)
effect (char_up c) = release (char c)

-- The presses that are not yet released, the last one first.
abbrev pub on_effect : Effect → List Held → Option (List Held)
on_effect neither stack = some stack
on_effect (press h) stack = some (h ∷ stack)
on_effect (release h) stack = released h stack

abbrev pub on_event : InputEvent → List Held → Option (List Held)
on_event e stack = on_effect (effect e) stack

abbrev pub then_ : Option (List Held) → (List Held → Option (List Held)) → Option (List Held)
then_ none f = none
then_ (some stack) f = f stack

-- The presses not yet released after some events; none where something is released that is not what
-- was pressed last.
unfoldable pub held : List InputEvent → List Held → Option (List Held)
held [] stack = some stack
held (e ∷ events) stack = then_ (on_event e stack) (held events)

then_-then_ :
    (o : Option (List Held)) (f g h : List Held → Option (List Held))
    → ((stack : List Held) → h stack ≡ then_ (f stack) g)
    → then_ o h ≡ then_ (then_ o f) g
then_-then_ none f g h e = refl
then_-then_ (some stack) f g h e = e stack

held-append :
    (es fs : List InputEvent) (stack : List Held)
    → held (es ++ fs) stack ≡ then_ (held es stack) (held fs)
unfolding held
held-append [] fs stack = refl
held-append (e ∷ es) fs stack =
    then_-then_ (on_event e stack) (held es) (held fs) (held (es ++ fs)) (held-append es fs)

-- Events that release all that they press.
unfoldable pub Neutral : List InputEvent → Type 0
unfolding held
Neutral events = (stack : List Held) → held events stack ≡ some stack

append-Neutral : (es fs : List InputEvent) → Neutral es → Neutral fs → Neutral (es ++ fs)
unfolding Neutral
append-Neutral es fs a b stack = rw (held-append es fs stack, a stack) (b stack)

button_refl : (b : Button) → same_button b b ≡ true
button_refl left = refl
button_refl right = refl
button_refl middle = refl

-- A button or a key around events that are neutral.
around_button :
    (b : Button) (x y x' y' : ℤ) (es : List InputEvent)
    → Neutral es
    → Neutral (button_down b x y ∷ es ++ button_up b x' y' ∷ [])
unfolding Neutral held
around_button b x y x' y' es n stack =
    rw (held-append es (button_up b x' y' ∷ []) (button b ∷ stack), n (button b ∷ stack))
      (rw (button_refl b) refl)

around_key :
    (vk : ℕ) (es : List InputEvent) → Neutral es → Neutral (key_down vk ∷ es ++ key_up vk ∷ [])
unfolding Neutral held
around_key vk es n stack =
    let e : (vk == vk) ≡ true = ground arith in
    rw (held-append es (key_up vk ∷ []) (key vk ∷ stack), n (key vk ∷ stack)) (rw e refl)

module _ (screen : Screen) (human : ℤ → ℤ → Option (List (ℤ × ℤ))) where
  moves-Neutral : (points : List (ℤ × ℤ)) → Neutral (moves screen human points)
  unfolding Neutral held moves
  moves-Neutral [] stack = refl
  moves-Neutral ((x, y) ∷ points) stack = moves-Neutral points stack

  moved_by-Neutral : (o : Option (List (ℤ × ℤ))) (x y : ℤ) → Neutral (moved_by screen human o x y).1
  unfolding Neutral held moved_by
  moved_by-Neutral none x y = λ stack. refl
  moved_by-Neutral (some points) x y =
      append-Neutral (moves screen human points) _ (moves-Neutral points) (λ stack. refl)

  approach-Neutral : (x y : ℤ) (human_move : Bool) → Neutral (approach screen human x y human_move)
  unfolding Neutral held approach human_mouse_move
  approach-Neutral x y true = moved_by-Neutral (human x y) x y
  approach-Neutral x y false = λ stack. refl

  pub click-Neutral :
      (x y : ℤ) (name : Text) (human_move : Bool)
      → Neutral (click screen human x y name human_move).1
  unfolding Neutral click
  click-Neutral x y name human_move =
      append-Neutral (approach screen human x y human_move) _ (approach-Neutral x y human_move) (
        around_button (button_of name) (absolute_x screen x) (absolute_y screen y)
          (absolute_x screen x) (absolute_y screen y) [] (λ stack. refl))

  pub double_click-Neutral :
      (x y : ℤ) (human_move : Bool) → Neutral (double_click screen human x y human_move).1
  unfolding double_click
  double_click-Neutral x y human_move =
      append-Neutral (click screen human x y (text "left") human_move).1
        (click screen human x y (text "left") false).1 (click-Neutral x y (text "left") human_move)
        (click-Neutral x y (text "left") false)

  drag_path-Neutral :
      (x1 y1 x2 y2 : ℤ) (human_move : Bool)
      → Neutral (drag_path screen human x1 y1 x2 y2 human_move)
  unfolding drag_path human_mouse_move
  drag_path-Neutral x1 y1 x2 y2 true = moved_by-Neutral (human x2 y2) x2 y2
  drag_path-Neutral x1 y1 x2 y2 false = moves-Neutral (drag_points 20 1 x1 y1 x2 y2)

  pub drag-Neutral :
      (x1 y1 x2 y2 : ℤ) (human_move : Bool) → Neutral (drag screen human x1 y1 x2 y2 human_move).1
  unfolding drag
  drag-Neutral x1 y1 x2 y2 human_move =
      append-Neutral (approach screen human x1 y1 human_move) _ (approach-Neutral x1 y1 human_move)
        (around_button left (absolute_x screen x1) (absolute_y screen y1) (absolute_x screen x2)
          (absolute_y screen y2) (drag_path screen human x1 y1 x2 y2 human_move)
          (drag_path-Neutral x1 y1 x2 y2 human_move))

  pub scroll-Neutral :
      (x y delta : ℤ) (human_move : Bool) → Neutral (scroll screen human x y delta human_move).1
  unfolding Neutral held scroll
  scroll-Neutral x y delta human_move =
      append-Neutral (approach screen human x y human_move) _ (approach-Neutral x y human_move)
        (λ stack. refl)

presses-Neutral : (vks : List ℕ) → Neutral (presses vks)
unfolding Neutral held presses
presses-Neutral [] stack = refl
presses-Neutral (vk ∷ vks) stack =
    let e : (vk == vk) ≡ true = ground arith in rw e (presses-Neutral vks stack)

modified-Neutral :
    (vks : List ℕ) (es : List InputEvent)
    → Neutral es
    → Neutral (downs vks ++ es ++ ups_reversed vks)
unfolding downs ups_reversed
modified-Neutral [] es n = subst Neutral (sym (append-nil es)) n
modified-Neutral (vk ∷ vks) es n =
    subst (λ events. Neutral (key_down vk ∷ events)) (reassociate vk vks es)
      (around_key vk _ (modified-Neutral vks es n))
  where
    reassociate :
        (vk : ℕ) (vks : List ℕ) (es : List InputEvent)
        → ((downs vks ++ es ++ ups_reversed vks) ++ key_up vk ∷ [])
          ≡ (downs vks ++ es ++ (ups_reversed vks ++ key_up vk ∷ []))
    reassociate vk vks es = append_assoc (downs vks ++ es) (ups_reversed vks) (key_up vk ∷ [])

typed-Neutral : (wide : Text) → Neutral (typed wide)
unfolding Neutral held typed
typed-Neutral [] stack = refl
typed-Neutral (c ∷ wide) stack =
    let e : (c == c) ≡ true = ground arith in rw e (typed-Neutral wide stack)

pub key_press-Neutral : (scan : ℕ → ℕ) (combo : Text) → Neutral (key_press scan combo).1
unfolding key_press
key_press-Neutral scan combo =
    let parsed =
      parse_combo scan (split_plus [] (to_lower combo)) (record { modifiers = []; keys = [] }) in
    modified-Neutral parsed.modifiers (presses parsed.keys) (presses-Neutral parsed.keys)

pub type_text-Neutral : (to_wide : Text → Text) (s : Text) → Neutral (type_text to_wide s).1
unfolding type_text
type_text-Neutral to_wide s = typed-Neutral (to_wide s)
