-- ===== src/Browser/Pointing.antt =====
-- src/platform/browser/BrowserAutomation.cpp, clickSelector: whether the pointer is moved.
use win_bot.Base.{
  Text, text, Bool, true, false, [], ◌∷◌, ℤ, Outcome, returned, ◌≡◌, refl, ap, ToolResult, ok,
  if◌then◌else◌,
}
use win_bot.Json.{JsonApi}
use win_bot.Browser.{BrowserAutomation, Socket, result, Awaited, and_then, give, send_cdp_command}
use win_bot.Browser.Commands.{Pointer, eval_js, value_of, or_braces}
use win_bot.Browser.Clicking.{
  point_of, move_to, point_at, position_js, click_js, click_quoted, click_selector,
}

if_same : {A : Type 0} (c : Bool) (a : A) → (if c then a else a) ≡ a
if_same true a = refl
if_same false a = refl

module _ {J W : Type 0} (api : JsonApi J) (get_int : J → Outcome ℤ) (pointer : Pointer W) where
  -- An answer that parses as a text names no point.
  point_at-text :
      (answer : Text) (v : J) (b : BrowserAutomation W)
      → api.parse answer ≡ returned v
      → api.contains v (text "x") ≡ false
      → point_at api get_int pointer (ok answer) b ≡ give tt b
  unfolding point_at point_of move_to
  point_at-text answer v b p x = rw (p, x) (if_same _ _)

module _ {J W : Type 0} (api : JsonApi J) (get_int : J → Outcome ℤ) (pointer : Pointer W)
    (equals_int : J → ℤ → Bool) (socket : Socket W) where
  -- clickSelector moves no pointer. The first script gives a text; evalJs prints that value, quotes
  -- included, and parsing what is printed gives the text again, which has no members. So the call is
  -- that of the second script alone, whatever the first one found, the handler never called. The
  -- JSON library prints the text and parses it back, as its documentation says.
  pub pointer_never_moved :
      (selector quoted found answer : Text) (reply rv : J) (b b' : BrowserAutomation W)
      → api.dump (api.string selector) ≡ returned quoted
      → send_cdp_command api equals_int socket
          (text "Runtime.evaluate")
          (api.object (
            (text "expression", api.string (position_js quoted))
            ∷ (text "returnByValue", api.bool true)
            ∷ []))
          b
        ≡ give (result reply) b'
      → api.at reply (text "result") ≡ returned rv
      → api.contains rv (text "value") ≡ true
      → api.at rv (text "value") ≡ returned (api.string found)
      → api.dump (api.string found) ≡ returned answer
      → api.parse answer ≡ returned (api.string found)
      → api.contains (api.string found) (text "x") ≡ false
      → click_selector api get_int pointer equals_int socket selector b
        ≡ eval_js api equals_int socket (click_js quoted) b'
  unfolding click_selector click_quoted eval_js value_of or_braces
  pointer_never_moved selector quoted found answer reply rv b b' q s r c v d p x =
      rw (q, s, r, c, v, d)
        (ap
          (λ (m : Awaited W (Unit {0})).
            and_then {B = ToolResult} m (λ moved. eval_js api equals_int socket (click_js quoted)))
          (point_at-text api get_int pointer answer (api.string found) b' p x))
