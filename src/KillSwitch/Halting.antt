-- ===== src/KillSwitch/Halting.antt =====
-- src/security/KillSwitch.cpp: exactly when a hotkey that is made of known names halts the program.
use win_bot.Base.{
  ℕ, Text, text, text_eq, contains, starts_with, rfind, Bool, true, false, ◌&&◌, ◌||◌, none, List,
  [], ◌∷◌, ◌++◌, append_assoc, any, All, Any, leb, ◌≡◌, ◌↔◌, ◌⊎◌, refl, sym, ap, ◌∙◌, inl, inr,
  arith,
}
use win_bot.Common.{to_upper}
use win_bot.KillSwitch.{
  Hotkey, KillSwitch, KeyEvent, hc_action, wm_keydown, wm_syskeydown, vk_escape, vk_f12, last_token,
  named_key, key_code, parse_hotkey, install,
}
use win_bot.KillSwitch.Hotkeys.{Matches, see_all, last_token-append, see_all_triggered}

pub data Modifier : Type 0 where
  ctrl : Modifier
  alt : Modifier
  shift : Modifier

abbrev pub name_of : Modifier → Text
name_of ctrl = text "CTRL"
name_of alt = text "ALT"
name_of shift = text "SHIFT"

-- The modifiers and the key, with a '+' after each modifier.
unfoldable pub spelled : List Modifier → Text → Text
spelled [] key = key
spelled (m ∷ ms) key = name_of m ++ b'+' ∷ spelled ms key

-- The names of keys, and their virtual-key codes.
pub data Names : Text → ℕ → Type 0 where
  letter : (c : ℕ) → (leb b'A' c && leb c b'Z') ≡ true → Names (c ∷ []) c
  esc : Names (text "ESC") vk_escape
  escape : Names (text "ESCAPE") vk_escape
  f12 : Names (text "F12") vk_f12

abbrev pub Down : KeyEvent → Modifier → Type 0
Down e ctrl = e.ctrl_down ≡ true
Down e alt = e.alt_down ≡ true
Down e shift = e.shift_down ≡ true

-- The event is a press of the key while all the modifiers are down.
pub record Presses (ms : List Modifier) (vk : ℕ) (e : KeyEvent) : Type 0 where
  pub action : e.code ≡ hc_action
  pub pressed : (e.message ≡ wm_keydown) ⊎ (e.message ≡ wm_syskeydown)
  pub held : All (Down e) ms
  pub key : e.key ≡ vk

abbrev is_ctrl : Modifier → Bool
is_ctrl ctrl = true
is_ctrl _ = false

abbrev is_alt : Modifier → Bool
is_alt alt = true
is_alt _ = false

abbrev is_shift : Modifier → Bool
is_shift shift = true
is_shift _ = false

contains-ctrl :
    (ms : List Modifier) (key : Text) (vk : ℕ)
    → Names key vk
    → contains (spelled ms key) (text "CTRL") ≡ any is_ctrl ms
unfolding spelled contains text starts_with
contains-ctrl [] _ _ (letter c h) = ground arith
contains-ctrl [] _ _ esc = refl
contains-ctrl [] _ _ escape = refl
contains-ctrl [] _ _ f12 = refl
contains-ctrl (ctrl ∷ ms) key vk n = refl
contains-ctrl (alt ∷ ms) key vk n = contains-ctrl ms key vk n
contains-ctrl (shift ∷ ms) key vk n = contains-ctrl ms key vk n

contains-alt :
    (ms : List Modifier) (key : Text) (vk : ℕ)
    → Names key vk
    → contains (spelled ms key) (text "ALT") ≡ any is_alt ms
unfolding spelled contains text starts_with
contains-alt [] _ _ (letter c h) = ground arith
contains-alt [] _ _ esc = refl
contains-alt [] _ _ escape = refl
contains-alt [] _ _ f12 = refl
contains-alt (ctrl ∷ ms) key vk n = contains-alt ms key vk n
contains-alt (alt ∷ ms) key vk n = refl
contains-alt (shift ∷ ms) key vk n = contains-alt ms key vk n

contains-shift :
    (ms : List Modifier) (key : Text) (vk : ℕ)
    → Names key vk
    → contains (spelled ms key) (text "SHIFT") ≡ any is_shift ms
unfolding spelled contains text starts_with
contains-shift [] _ _ (letter c h) = ground arith
contains-shift [] _ _ esc = refl
contains-shift [] _ _ escape = refl
contains-shift [] _ _ f12 = refl
contains-shift (ctrl ∷ ms) key vk n = contains-shift ms key vk n
contains-shift (alt ∷ ms) key vk n = contains-shift ms key vk n
contains-shift (shift ∷ ms) key vk n = refl

key_code-Names : (key : Text) (vk : ℕ) → Names key vk → key_code key ≡ vk
unfolding key_code named_key text text_eq
key_code-Names _ _ (letter c h) = ground arith
key_code-Names _ _ esc = refl
key_code-Names _ _ escape = refl
key_code-Names _ _ f12 = refl

no_plus : (key : Text) (vk : ℕ) → Names key vk → rfind key b'+' ≡ none
unfolding rfind text
no_plus _ _ (letter c h) = ground arith
no_plus _ _ esc = refl
no_plus _ _ escape = refl
no_plus _ _ f12 = refl

before_key : Modifier → List Modifier → Text
before_key m [] = name_of m
before_key m (m' ∷ ms) = name_of m ++ b'+' ∷ before_key m' ms

spelled-before_key :
    (m : Modifier) (ms : List Modifier) (key : Text)
    → spelled (m ∷ ms) key ≡ before_key m ms ++ b'+' ∷ key
unfolding spelled before_key
spelled-before_key m [] key = refl
spelled-before_key m (m' ∷ ms) key =
    ap (λ s. name_of m ++ b'+' ∷ s) (spelled-before_key m' ms key)
    ∙ sym (append_assoc (name_of m) (b'+' ∷ before_key m' ms) (b'+' ∷ key))

last_token-whole : (key : Text) → rfind key b'+' ≡ none → last_token key ≡ key
unfolding last_token
last_token-whole key h = rw (h, last_token) refl

last_token-spelled :
    (ms : List Modifier) (key : Text) → rfind key b'+' ≡ none → last_token (spelled ms key) ≡ key
unfolding spelled
last_token-spelled [] key h = last_token-whole key h
last_token-spelled (m ∷ ms) key h =
    ap last_token (spelled-before_key m ms key) ∙ last_token-append (before_key m ms) key h

-- What the parser makes of a hotkey of known names, in letters of either case.
parse_hotkey-spelled :
    (ms : List Modifier) (key hotkey : Text) (vk : ℕ)
    → Names key vk
    → to_upper hotkey ≡ spelled ms key
    → parse_hotkey hotkey ≡ record {
      need_ctrl = any is_ctrl ms;
      need_alt = any is_alt ms;
      need_shift = any is_shift ms;
      vk_code = vk;
    }
unfolding parse_hotkey
parse_hotkey-spelled ms key hotkey vk n e =
    rw
      (
        e,
        contains-ctrl ms key vk n,
        contains-alt ms key vk n,
        contains-shift ms key vk n,
        last_token-spelled ms key (no_plus key vk n),
        key_code-Names key vk n,
      )
      refl

down_needed :
    (e : KeyEvent) (ms : List Modifier)
    → All (Down e) ms
    → (any is_ctrl ms ≡ true → e.ctrl_down ≡ true)
      × (any is_alt ms ≡ true → e.alt_down ≡ true)
      × (any is_shift ms ≡ true → e.shift_down ≡ true)
down_needed e [] h = (λ x. absurd cc, λ x. absurd cc, λ x. absurd cc)
down_needed e (ctrl ∷ ms) (d, h) = let (c, a, s) = down_needed e ms h in (λ x. d, a, s)
down_needed e (alt ∷ ms) (d, h) = let (c, a, s) = down_needed e ms h in (c, λ x. d, s)
down_needed e (shift ∷ ms) (d, h) = let (c, a, s) = down_needed e ms h in (c, a, λ x. d)

or_true : (b : Bool) → (b || true) ≡ true
or_true b = ground arith

needed_down :
    (e : KeyEvent) (ms : List Modifier)
    → (any is_ctrl ms ≡ true → e.ctrl_down ≡ true)
    → (any is_alt ms ≡ true → e.alt_down ≡ true)
    → (any is_shift ms ≡ true → e.shift_down ≡ true)
    → All (Down e) ms
needed_down e [] c a s = tt
needed_down e (ctrl ∷ ms) c a s = (c refl, needed_down e ms (λ x. c refl) a s)
needed_down e (alt ∷ ms) c a s = (a refl, needed_down e ms c (λ x. a refl) s)
needed_down e (shift ∷ ms) c a s = (s refl, needed_down e ms c a (λ x. s refl))

module _ (ms : List Modifier) (vk : ℕ) where
  -- The hotkey of some modifiers and a key.
  abbrev wanted : Hotkey
  wanted = record {
    need_ctrl = any is_ctrl ms;
    need_alt = any is_alt ms;
    need_shift = any is_shift ms;
    vk_code = vk;
  }

  Matches-Presses : (e : KeyEvent) → Matches wanted e → Presses ms vk e
  Matches-Presses e m = record {
    action = m.action;
    pressed = m.pressed;
    held = needed_down e ms m.ctrl m.alt m.shift;
    key = m.key;
  }

  Presses-Matches : (e : KeyEvent) → Presses ms vk e → Matches wanted e
  Presses-Matches e p =
      let (c, a, s) = down_needed e ms p.held in
      record { action = p.action; pressed = p.pressed; ctrl = c; alt = a; shift = s; key = p.key }

map-Any :
    {P Q : KeyEvent → Type 0}
    → ((e : KeyEvent) → P e → Q e)
    → (es : List KeyEvent) → Any P es
    → Any Q es
map-Any f [] h = absurd h
map-Any f (e ∷ es) (inl p) = inl (f e p)
map-Any f (e ∷ es) (inr h) = inr (map-Any f es h)

-- A hotkey that names Ctrl, Alt and Shift in any number and order and then a letter, Esc, Escape or
-- F12, joined by '+' and in letters of either case, halts the program exactly when some event since
-- the installation was a press of that key while all the named modifiers were down, whatever was seen
-- before.
pub triggered_iff :
    (ms : List Modifier) (key hotkey : Text) (vk : ℕ) (k : KillSwitch) (events : List KeyEvent)
    → Names key vk
    → to_upper hotkey ≡ spelled ms key
    → ((see_all events (install hotkey k)).triggered ≡ true) ↔ Any (Presses ms vk) events
unfolding install
triggered_iff ms key hotkey vk k events n e =
    let parsed = parse_hotkey-spelled ms key hotkey vk n e in
    let (p, q) = see_all_triggered events (install hotkey k) in
    (
      λ h. elim (p h) [
        | inl a ↦ map-Any (Matches-Presses ms vk) events (rw parsed at a)
        | inr b ↦ absurd (ground arith)
      ],
      λ a. q (inl (rw parsed (map-Any (Presses-Matches ms vk) events a))),
    )
