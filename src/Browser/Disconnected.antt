-- ===== src/Browser/Disconnected.antt =====
-- src/platform/browser/BrowserAutomation.cpp: the calls on a browser that is not connected.
use win_bot.Base.{
  ℕ, Text, text, ◌++◌, Bool, true, false, List, [], ◌∷◌, ℤ, Outcome, returned, ◌≡◌, refl, arith,
  any, Bool-cases, inl, inr, err,
}
use win_bot.Json.{JsonApi}
use win_bot.Browser.{BrowserAutomation, Socket, give, send_cdp_command, failure}
use win_bot.Browser.Commands.{
  navigate, eval_js, type_into, type_when_focused, capture_screenshot, is_past, on_polled, poll,
  waited, wait_for_selector, Pointer,
}
use win_bot.Browser.Clicking.{click_selector, click_quoted, point_at}

abbrev why : Text
why = text "Not connected to browser"

module _ {J W : Type 0} (api : JsonApi J) (equals_int : J → ℤ → Bool) (socket : Socket W) where
  send_cdp_command-disconnected :
      (method : Text) (params : J) (b : BrowserAutomation W)
      → b.connected ≡ false
      → send_cdp_command api equals_int socket method params b ≡ give (failure why) b
  unfolding send_cdp_command
  send_cdp_command-disconnected method params b h = rw h refl

  eval_js-disconnected :
      (js : Text) (b : BrowserAutomation W)
      → b.connected ≡ false
      → eval_js api equals_int socket js b ≡ give (err why) b
  unfolding eval_js
  eval_js-disconnected js b h = rw (send_cdp_command-disconnected _ _ b h) refl

  poll-disconnected :
      (timeout : ℤ) (js : Text) (clocks : List ℕ) (b : BrowserAutomation W)
      → b.connected ≡ false
      → any (is_past timeout) clocks ≡ true
      → poll api equals_int socket timeout js clocks b ≡ give false b
  unfolding poll on_polled
  poll-disconnected timeout js [] b h p = ground (arith, p)
  poll-disconnected timeout js (clock ∷ clocks) b h p = elim (Bool-cases (is_past timeout clock)) [
    | inl e ↦ rw (eval_js-disconnected js b h, e) refl
    | inr e ↦
        rw (eval_js-disconnected js b h, e)
          (poll-disconnected timeout js clocks b h (ground (arith, p, e)))
  ]

  -- Nothing is sent by a browser that is not connected, and it stays as it is, the numbers of its
  -- commands included: navigating, running a script, taking a picture, typing and clicking report that
  -- it is not connected, and waiting for an element reports a timeout once the clock is past
  -- the deadline. The selector can be printed as JSON.
  pub disconnected_untouched :
      (url js selector quoted content : Text) (get_int : J → Outcome ℤ) (pointer : Pointer W)
      (timeout : ℤ) (clocks : List ℕ) (b : BrowserAutomation W)
      → b.connected ≡ false
      → api.dump (api.string selector) ≡ returned quoted
      → any (is_past timeout) clocks ≡ true
      → (navigate api equals_int socket url b ≡ give (err why) b)
        × (eval_js api equals_int socket js b ≡ give (err why) b)
        × (capture_screenshot api equals_int socket b ≡ give (err why) b)
        × (type_into api equals_int socket selector content b ≡ give (err why) b)
        × (click_selector api get_int pointer equals_int socket selector b ≡ give (err why) b)
        × (wait_for_selector api equals_int socket selector timeout clocks b
            ≡ give (err (text "Timeout waiting for '" ++ selector ++ text "'")) b)
  unfolding navigate capture_screenshot type_into type_when_focused click_selector click_quoted
      point_at wait_for_selector waited
  disconnected_untouched url js selector quoted content get_int pointer timeout clocks b h q p = (
    rw (send_cdp_command-disconnected _ _ b h) refl,
    eval_js-disconnected js b h,
    rw (send_cdp_command-disconnected _ _ b h) refl,
    rw (q, eval_js-disconnected _ b h) refl,
    rw (q, eval_js-disconnected _ b h) (eval_js-disconnected _ b h),
    rw (q, poll-disconnected timeout _ clocks b h p) refl,
  )
