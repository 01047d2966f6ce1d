-- ===== src/KillSwitch/Hotkeys.antt =====
-- src/security/KillSwitch.cpp: the parts of a hotkey, and the hook over a sequence of events.
use win_bot.Base.{
  ℕ, ◌+◌, Text, rfind, rfind-append, rfind-cons, drop_past, Bool, true, false, not, ◌&&◌, ◌||◌,
  none, List, [], ◌∷◌, ◌++◌, ◌==◌, Any, ◌≡◌, ◌↔◌, ◌⊎◌, refl, sym, ◌∙◌, inl, inr, arith, length,
}
use win_bot.Common.{ascii_lower, ascii_upper, to_lower, to_upper}
use win_bot.KillSwitch.{
  Hotkey, KillSwitch, KeyEvent, hc_action, wm_keydown, wm_syskeydown, is_alpha, last_token,
  key_code, parse_hotkey, modifiers_match, low_level_keyboard_proc,
}

ascii_upper-ascii_lower : (c : ℕ) → ascii_upper (ascii_lower c) ≡ ascii_upper c
unfolding ascii_upper ascii_lower
ascii_upper-ascii_lower c = ground arith

to_upper-to_lower : (s : Text) → to_upper (to_lower s) ≡ to_upper s
unfolding to_upper to_lower
to_upper-to_lower [] = refl
to_upper-to_lower (c ∷ s) = cc (ascii_upper-ascii_lower c, to_upper-to_lower s)

-- The case of the letters of a hotkey does not matter.
pub parse_hotkey-to_lower : (hotkey : Text) → parse_hotkey (to_lower hotkey) ≡ parse_hotkey hotkey
unfolding parse_hotkey
parse_hotkey-to_lower hotkey = rw (to_upper-to_lower hotkey) refl

to_upper-append : (a b : Text) → to_upper (a ++ b) ≡ to_upper a ++ to_upper b
unfolding to_upper
to_upper-append [] b = refl
to_upper-append (c ∷ a) b = cc (to_upper-append a b)

upper_alpha : (c : ℕ) → is_alpha c ≡ true → is_alpha (ascii_upper c) ≡ true
unfolding ascii_upper
upper_alpha c h = ground arith

no_plus : (c : ℕ) → is_alpha c ≡ true → rfind (ascii_upper c ∷ []) b'+' ≡ none
unfolding ascii_upper rfind
no_plus c h = ground arith

add_zero : (n : ℕ) → n + 0 ≡ n
add_zero n = omega arith

pub last_token-append : (a b : Text) → rfind b b'+' ≡ none → last_token (a ++ b'+' ∷ b) ≡ b
unfolding last_token
last_token-append a b h =
    let plus = rfind-append b'+' a (b'+' ∷ b) 0 (rfind-cons b'+' b h) in
    rw (rw (add_zero (length a)) at plus, last_token) (drop_past a b'+' b)

upper_whole :
    (modifiers : Text) (c : ℕ)
    → to_upper (modifiers ++ b'+' ∷ c ∷ []) ≡ to_upper modifiers ++ b'+' ∷ ascii_upper c ∷ []
unfolding to_upper ascii_upper
upper_whole modifiers c = to_upper-append modifiers (b'+' ∷ c ∷ [])

-- A hotkey that ends in '+' and a letter of either case is released by the key of that letter,
-- whatever stands before.
pub parse_hotkey_letter :
    (modifiers : Text) (c : ℕ)
    → is_alpha c ≡ true
    → (parse_hotkey (modifiers ++ b'+' ∷ c ∷ [])).vk_code ≡ ascii_upper c
unfolding parse_hotkey key_code
parse_hotkey_letter modifiers c h =
    rw
      (
        upper_whole modifiers c,
        last_token-append (to_upper modifiers) (ascii_upper c ∷ []) (no_plus c h),
        upper_alpha c h,
      )
      refl

-- The event passes the tests of the hook.
pub record Matches (hotkey : Hotkey) (e : KeyEvent) : Type 0 where
  pub action : e.code ≡ hc_action
  pub pressed : (e.message ≡ wm_keydown) ⊎ (e.message ≡ wm_syskeydown)
  pub ctrl : hotkey.need_ctrl ≡ true → e.ctrl_down ≡ true
  pub alt : hotkey.need_alt ≡ true → e.alt_down ≡ true
  pub shift : hotkey.need_shift ≡ true → e.shift_down ≡ true
  pub key : e.key ≡ hotkey.vk_code

-- The hook over a sequence of events.
abbrev pub see_all : List KeyEvent → KillSwitch → KillSwitch
see_all [] k = k
see_all (e ∷ events) k = see_all events (low_level_keyboard_proc e k)

proc-hotkey : (e : KeyEvent) (k : KillSwitch) → (low_level_keyboard_proc e k).hotkey ≡ k.hotkey
unfolding low_level_keyboard_proc
proc-hotkey e k = ground arith

-- The two tests of the hook.
abbrev is_press : Hotkey → KeyEvent → Bool
is_press hotkey e =
    (e.code == hc_action && (e.message == wm_keydown || e.message == wm_syskeydown))
    && (modifiers_match hotkey e && e.key == hotkey.vk_code)

is_press_sound : (hotkey : Hotkey) (e : KeyEvent) → is_press hotkey e ≡ true → Matches hotkey e
is_press_sound hotkey e h = record {
  action = ground arith;
  pressed = ground arith;
  ctrl = ground arith;
  alt = ground arith;
  shift = ground arith;
  key = ground arith;
}

implied : (need down : Bool) → (need ≡ true → down ≡ true) → (not need || down) ≡ true
implied true down h = h refl
implied false down h = refl

is_press_complete : (hotkey : Hotkey) (e : KeyEvent) → Matches hotkey e → is_press hotkey e ≡ true
is_press_complete hotkey e h =
    let c = implied hotkey.need_ctrl e.ctrl_down h.ctrl in
    let a = implied hotkey.need_alt e.alt_down h.alt in
    let s = implied hotkey.need_shift e.shift_down h.shift in
    let k = h.key in let m = h.pressed in let o = h.action in ground arith

proc_triggered :
    (e : KeyEvent) (k : KillSwitch)
    → (low_level_keyboard_proc e k).triggered ≡ (is_press k.hotkey e || k.triggered)
unfolding low_level_keyboard_proc
proc_triggered e k = ground arith

either : (a b : Bool) → (a || b) ≡ true → (a ≡ true) ⊎ (b ≡ true)
either true b h = inl refl
either false b h = inr h

pub see_all_triggered :
    (events : List KeyEvent) (k : KillSwitch)
    → ((see_all events k).triggered ≡ true) ↔ (Any (Matches k.hotkey) events ⊎ (k.triggered ≡ true))
see_all_triggered [] k = (λ h. inr h, λ h. ground arith)
see_all_triggered (e ∷ events) k =
    let (p, q) = see_all_triggered events (low_level_keyboard_proc e k) in
    let t = proc_triggered e k in
    let f = proc-hotkey e k in
    (
      λ h. elim (p h) [
        | inl a ↦ inl (inr (rw f at a))
        | inr b ↦ elim (either (is_press k.hotkey e) k.triggered (sym t ∙ b)) [
          | inl x ↦ inl (inl (is_press_sound k.hotkey e x))
          | inr y ↦ inr y
        ]
      ],
      λ h. q (elim h [
        | inl a ↦ elim a [
          | inl x ↦ inr (let c = is_press_complete k.hotkey e x in t ∙ ground arith)
          | inr y ↦ inl (rw f y)
        ]
        | inr b ↦ inr (t ∙ ground arith)
      ]),
    )
