-- ===== src/Browser/Calls.antt =====
-- src/platform/browser/BrowserAutomation.cpp: the calls that make several commands end.
use win_bot.Base.{
  ℕ, Text, text, text_eq, is_empty, not, ◌&&◌, Bool, true, false, Option, none, some, List, [], ◌∷◌,
  ℤ, Outcome, returned, threw, threw_unknown, ◌≡◌, arith, any, Bool-cases, inl, inr, ToolResult, ok,
  err, if◌then◌else◌,
}
use win_bot.Json.{JsonApi}
use win_bot.Browser.{BrowserAutomation, Socket, Awaited, and_then, give}
use win_bot.Browser.Ending.{Ended, runs_out, and_then-Ended, eval_js_ends, type_chars_ends}
use win_bot.Browser.Commands.{
  Pointer, attempt, typed, focus_js, type_into, type_when_focused, is_past, is_found, on_polled,
  poll, wait_for_selector,
}
use win_bot.Browser.Clicking.{
  click_selector, click_quoted, point_at, move_to, point_of, after_move, move,
}

attempt-Ended :
    {W A B : Type 0} (o : Outcome A) (f : A → BrowserAutomation W → Awaited W B)
    (b : BrowserAutomation W)
    → ((a : A) (b : BrowserAutomation W) → Ended (f a b))
    → Ended (and_then (attempt o b) f)
attempt-Ended (returned a) f b h = h a b
attempt-Ended (threw what) f b h = tt
attempt-Ended threw_unknown f b h = tt

if-Ended :
    {W A : Type 0} (c : Bool) (m n : Awaited W A) → Ended m → Ended n → Ended (if c then m else n)
if-Ended true m n h k = h
if-Ended false m n h k = k

module _ {J W : Type 0} (api : JsonApi J) (get_int : J → Outcome ℤ) (pointer : Pointer W) where
  after_move_ends :
      (moved : Outcome (Unit {0}) × W) (b : BrowserAutomation W)
      → Ended (after_move api get_int pointer moved b)
  unfolding after_move
  after_move_ends (returned u, w) b = tt
  after_move_ends (threw what, w) b = tt
  after_move_ends (threw_unknown, w) b = tt

  move_to_ends :
      (o : Outcome (Option (ℤ × ℤ))) (b : BrowserAutomation W)
      → Ended (move_to api get_int pointer o b)
  unfolding move_to
  move_to_ends (returned none) b = tt
  move_to_ends (returned (some (x, y))) b =
      after_move_ends (move api get_int pointer pointer.handler x y b.world) b
  move_to_ends (threw what) b = tt
  move_to_ends threw_unknown b = tt

  point_at_ends :
      (answer : ToolResult) (b : BrowserAutomation W)
      → Ended (point_at api get_int pointer answer b)
  unfolding point_at
  point_at_ends (err why) b = tt
  point_at_ends (ok answer) b =
      if-Ended (not (text_eq answer (text "null")) && not (is_empty answer))
        (move_to api get_int pointer (point_of api get_int pointer answer) b) (give tt b)
        (move_to_ends (point_of api get_int pointer answer) b) tt

module _ {J W : Type 0} (api : JsonApi J) (equals_int : J → ℤ → Bool) (socket : Socket W)
    (ends : (w : W) → runs_out (socket.turns w).0 ≡ true) where
  on_polled_past :
      (timeout : ℤ) (clock : ℕ) (again : BrowserAutomation W → Awaited W Bool) (r : ToolResult)
      (b : BrowserAutomation W)
      → is_past timeout clock ≡ true
      → Ended (on_polled api equals_int socket timeout clock again r b)
  unfolding on_polled
  on_polled_past timeout clock again r b h =
      rw h (if-Ended (is_found r) (give true b) (give false b) tt tt)

  on_polled_ends :
      (timeout : ℤ) (clock : ℕ) (again : BrowserAutomation W → Awaited W Bool) (r : ToolResult)
      (b : BrowserAutomation W)
      → Ended (again b)
      → Ended (on_polled api equals_int socket timeout clock again r b)
  unfolding on_polled
  on_polled_ends timeout clock again r b h =
      if-Ended (is_found r) _ _ tt (if-Ended (is_past timeout clock) (give false b) (again b) tt h)

  poll_ends :
      (timeout : ℤ) (js : Text) (clocks : List ℕ) (b : BrowserAutomation W)
      → any (is_past timeout) clocks ≡ true
      → Ended (poll api equals_int socket timeout js clocks b)
  unfolding poll
  poll_ends timeout js [] b h = ground (arith, h)
  poll_ends timeout js (clock ∷ clocks) b h =
      and_then-Ended _ _ (eval_js_ends api equals_int socket ends js b) (λ r b'.
        elim (Bool-cases (is_past timeout clock)) [
          | inl e ↦
              on_polled_past timeout clock (poll api equals_int socket timeout js clocks) r b' e
          | inr e ↦
              on_polled_ends timeout clock (poll api equals_int socket timeout js clocks) r b'
                (poll_ends timeout js clocks b' (ground (arith, h, e)))
        ])

  type_when_focused_ends :
      (selector content : Text) (focused : ToolResult) (b : BrowserAutomation W)
      → Ended (type_when_focused api equals_int socket selector content focused b)
  unfolding type_when_focused
  type_when_focused_ends selector content (err why) b = tt
  type_when_focused_ends selector content (ok focused) b =
      type_chars_ends api equals_int socket ends (typed selector content) content b

  -- Every call of the page ends when each wait of the connection does and the clock of
  -- waitForSelector passes its deadline: one that types a text, one that clicks, and one that waits
  -- for an element.
  pub browser_calls_end :
      (selector content : Text) (get_int : J → Outcome ℤ) (pointer : Pointer W) (timeout : ℤ)
      (clocks : List ℕ) (b : BrowserAutomation W)
      → any (is_past timeout) clocks ≡ true
      → Ended (type_into api equals_int socket selector content b)
        × Ended (click_selector api get_int pointer equals_int socket selector b)
        × Ended (wait_for_selector api equals_int socket selector timeout clocks b)
  unfolding type_into click_selector click_quoted wait_for_selector
  browser_calls_end selector content get_int pointer timeout clocks b h = (
    attempt-Ended (api.dump (api.string selector)) _ b (λ quoted b'.
        and_then-Ended _ _ (eval_js_ends api equals_int socket ends (focus_js quoted) b')
          (type_when_focused_ends selector content)),
    attempt-Ended (api.dump (api.string selector)) _ b (λ quoted b'.
        and_then-Ended _ _ (eval_js_ends api equals_int socket ends _ b') (λ answer b''.
          and_then-Ended _ _ (point_at_ends api get_int pointer answer b'')
            (λ moved. eval_js_ends api equals_int socket ends _))),
    attempt-Ended (api.dump (api.string selector)) _ b
        (λ quoted b'. and_then-Ended _ _ (poll_ends timeout _ clocks b' h) (λ found b''. tt)),
  )
