-- ===== src/InputTools/Holding.antt =====
-- src/tools/InputTools.cpp: no operation leaves a button or a key pressed, on a system where a key is
-- held or not.
use win_bot.Base.{
  not, any, ap, Bool-cases, inl, inr, ◌&&◌, ◌||◌, ℕ, Text, Bool, true, false, Option, none, some,
  List, [], ◌∷◌, ℤ, if◌then◌else◌, ◌≡◌, refl, sym, arith,
}
use win_bot.InputTools.{
  Button, left, right, middle, InputEvent, Screen, click, double_click, drag, scroll,
}
use win_bot.InputTools.Keyboard.{key_press, type_text}
use win_bot.InputTools.Balance.{
  Held, button, key, char, same_button, same, Effect, neither, press, release, effect, on_effect,
  on_event, then_, held, Neutral, click-Neutral, double_click-Neutral, drag-Neutral, scroll-Neutral,
  key_press-Neutral, type_text-Neutral,
}

-- The system's state: whether each is held. To press what is held changes nothing, and one release
-- ends it.
abbrev pub set_by : Effect → (Held → Bool) → Held → Bool
set_by neither state h = state h
set_by (press g) state h = same h g || state h
set_by (release g) state h = not (same h g) && state h

abbrev pub is_held : List InputEvent → (Held → Bool) → Held → Bool
is_held [] state = state
is_held (e ∷ events) state = is_held events (set_by (effect e) state)

abbrev pub releases : Held → Effect → Bool
releases h (release g) = same h g
releases h _ = false

abbrev pub is_released : Held → List InputEvent → Bool
is_released h [] = false
is_released h (e ∷ events) = releases h (effect e) || is_released h events

-- The events leave held what was held before and they do not release.
unfoldable pub HoldsNoMore : List InputEvent → Type 0
HoldsNoMore events =
    (state : Held → Bool) (h : Held)
    → is_held events state h ≡ (state h && not (is_released h events))

abbrev pending : Held → List Held → Bool
pending h stack = any (same h) stack

equal_buttons : (a b : Button) → same_button a b ≡ true → a ≡ b
equal_buttons left left e = refl
equal_buttons left right e = absurd (ground arith)
equal_buttons left middle e = absurd (ground arith)
equal_buttons right left e = absurd (ground arith)
equal_buttons right right e = refl
equal_buttons right middle e = absurd (ground arith)
equal_buttons middle left e = absurd (ground arith)
equal_buttons middle right e = absurd (ground arith)
equal_buttons middle middle e = refl

same_equal : (g h : Held) → same g h ≡ true → g ≡ h
same_equal (button a) (button b) e = ap button (equal_buttons a b e)
same_equal (button a) (key b) e = absurd (ground arith)
same_equal (button a) (char b) e = absurd (ground arith)
same_equal (key a) (button b) e = absurd (ground arith)
same_equal (key a) (key b) e = ap key (ground (arith, e))
same_equal (key a) (char b) e = absurd (ground arith)
same_equal (char a) (button b) e = absurd (ground arith)
same_equal (char a) (key b) e = absurd (ground arith)
same_equal (char a) (char b) e = ap char (ground (arith, e))

released_pending :
    (g g' h : Held) (stack next : List Held) (b : Bool)
    → same g' g ≡ b
    → (if b then some stack else none) ≡ some next
    → same h g ≡ false
    → pending h (g' ∷ stack) ≡ true
    → pending h next ≡ true
released_pending g g' h stack next false e o r p = absurd (ground arith)
released_pending g g' h stack next true e o r p =
    let q : stack ≡ next = cc in
    let r' = rw (sym (same_equal g' g e)) at r in rw (sym q) (ground (arith, p, r'))

-- One event, for one key that it does not release: what was pending stays so.
effect_pending :
    (e : Effect) (stack next : List Held) (h : Held)
    → on_effect e stack ≡ some next
    → releases h e ≡ false
    → pending h stack ≡ true
    → pending h next ≡ true
effect_pending neither stack next h o r p = let q : stack ≡ next = cc in let p' = rw q at p in p'
effect_pending (press g) stack next h o r p =
    let q : (g ∷ stack) ≡ next = cc in rw (sym q) (ground (arith, p))
effect_pending (release g) [] next h o r p = absurd (ground arith)
effect_pending (release g) (g' ∷ stack) next h o r p =
    released_pending g g' h stack next (same g' g) refl o r p

held_pending :
    (es : List InputEvent) (stack next : List Held) (h : Held)
    → held es stack ≡ some next
    → is_released h es ≡ false
    → pending h stack ≡ true
    → pending h next ≡ true
unfolding held
held_pending [] stack next h o r p = let q : stack ≡ next = cc in rw (sym q) p
held_pending (e ∷ es) stack next h o r p = go (held_pending es) (on_event e stack) refl o
  where
    go :
        ((stack next : List Held) (h : Held)
          → held es stack ≡ some next
          → is_released h es ≡ false
          → pending h stack ≡ true
          → pending h next ≡ true)
        → (first : Option (List Held)) → on_event e stack ≡ first
        → then_ first (held es) ≡ some next
        → pending h next ≡ true
    go again none f o = absurd (ground arith)
    go again (some first) f o =
        again first next h o (ground (arith, r))
          (effect_pending (effect e) stack first h f (ground (arith, r)) p)

-- One event, for one key that is not pending in the end and is not released later.
set_by_lem :
    (e : Effect) (stack first : List Held) (state : Held → Bool) (h : Held)
    → on_effect e stack ≡ some first
    → pending h first ≡ false
    → set_by e state h ≡ (state h && not (releases h e))
set_by_lem neither stack first state h o p = ground arith
set_by_lem (press g) stack first state h o p =
    let q : first ≡ (g ∷ stack) = cc in let p' = rw q at p in ground (arith, p')
set_by_lem (release g) stack first state h o p = ground arith

held-is_held :
    (es : List InputEvent) (stack next : List Held) (state : Held → Bool) (h : Held)
    → held es stack ≡ some next
    → pending h next ≡ false
    → is_held es state h ≡ (state h && not (is_released h es))
unfolding held
held-is_held [] stack next state h o p = ground arith
held-is_held (e ∷ es) stack next state h o p = go (held-is_held es) (on_event e stack) refl o
  where
    go :
        ((stack next : List Held) (state : Held → Bool) (h : Held)
          → held es stack ≡ some next
          → pending h next ≡ false
          → is_held es state h ≡ (state h && not (is_released h es)))
        → (first : Option (List Held)) → on_event e stack ≡ first
        → then_ first (held es) ≡ some next
        → is_held es (set_by (effect e) state) h
          ≡ (state h && not (releases h (effect e) || is_released h es))
    go again none f o = absurd (ground arith)
    go again (some first) f o =
        let rest = again first next (set_by (effect e) state) h o p in
        elim (Bool-cases (is_released h es)) [
          | inl x ↦ ground (arith, rest, x)
          | inr x ↦
              let still : pending h first ≡ false = elim (Bool-cases (pending h first)) [
                | inl y ↦ absurd (ground (arith, held_pending es first next h o x y, p))
                | inr y ↦ y
              ] in
              ground (arith, rest, x, set_by_lem (effect e) stack first state h f still)
        ]

Neutral-HoldsNoMore : (es : List InputEvent) → Neutral es → HoldsNoMore es
unfolding Neutral HoldsNoMore
Neutral-HoldsNoMore es n state h = held-is_held es [] [] state h (n []) refl

-- On the system, where to press a key that is held changes nothing and one release ends it, each
-- operation of the mouse, with a human-like move or without, and keyPress and typeText of any text,
-- leave held exactly the buttons and keys that were held before and that they do not release
-- themselves: nothing that they press stays down.
pub input-HoldsNoMore :
    (screen : Screen) (human : ℤ → ℤ → Option (List (ℤ × ℤ))) (x y x2 y2 delta : ℤ) (name : Text)
    (human_move : Bool) (scan : ℕ → ℕ) (to_wide : Text → Text) (combo s : Text)
    → HoldsNoMore (click screen human x y name human_move).1
      × HoldsNoMore (double_click screen human x y human_move).1
      × HoldsNoMore (drag screen human x y x2 y2 human_move).1
      × HoldsNoMore (scroll screen human x y delta human_move).1
      × HoldsNoMore (key_press scan combo).1
      × HoldsNoMore (type_text to_wide s).1
input-HoldsNoMore screen human x y x2 y2 delta name human_move scan to_wide combo s = (
  Neutral-HoldsNoMore _ (click-Neutral screen human x y name human_move),
  Neutral-HoldsNoMore _ (double_click-Neutral screen human x y human_move),
  Neutral-HoldsNoMore _ (drag-Neutral screen human x y x2 y2 human_move),
  Neutral-HoldsNoMore _ (scroll-Neutral screen human x y delta human_move),
  Neutral-HoldsNoMore _ (key_press-Neutral scan combo),
  Neutral-HoldsNoMore _ (type_text-Neutral to_wide s),
)
