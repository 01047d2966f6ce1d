-- ===== src/Browser/Commands.antt =====
-- src/platform/browser/BrowserAutomation.cpp: what the program asks of a page. A script is a text
-- that the browser runs; `set_cursor_pos` is SetCursorPos, a parameter.
use win_bot.Base.{
  ℕ, Text, text, text_eq, is_empty, Bool, true, false, Option, none, some, List, [], ◌∷◌, ◌++◌, ℤ,
  pos, negsuc, Outcome, returned, threw, threw_unknown, ◌>>=◌, ToolResult, ok, err, leb,
  if◌then◌else◌,
}
use win_bot.Base.Exec.{Exec}
use win_bot.Json.{JsonApi}
use win_bot.Browser.{
  BrowserAutomation, Socket, Reply, result, failure, Awaited, and_then, give, send_cdp_command,
}

-- s_mouseMoveHandler and SetCursorPos
pub record Pointer (W : Type 0) : Type 0 where
  pub handler : Option (ℤ → ℤ → Exec W (Unit {0}))
  pub set_cursor_pos : ℤ → ℤ → W → W

module _ {W A : Type 0} where
  -- An expression that may throw.
  abbrev pub attempt : Outcome A → BrowserAutomation W → Awaited W A
  attempt o b = (some o, b)

-- `if (!result) return err(result.error());`
abbrev pub or_error :
    {J W : Type 0}
    → (J → BrowserAutomation W → Awaited W ToolResult)
    → Reply J
    → BrowserAutomation W
    → Awaited W ToolResult
or_error f (result r) b = f r b
or_error f (failure why) b = give (err why) b

unfoldable pub or_braces : Outcome Text → Outcome ToolResult
or_braces (returned s) = returned (ok s)
or_braces (threw what) = returned (ok (text "{}"))
or_braces threw_unknown = threw_unknown

unfoldable pub typed : Text → Text → ToolResult
typed selector content = ok (text "Typed '" ++ content ++ text "' into '" ++ selector ++ text "'")

unfoldable pub focus_js : Text → Text
focus_js quoted = text "document.querySelector(" ++ quoted ++ text ")?.focus()"

unfoldable pub shot : Text → ToolResult
shot base64 =
    if is_empty base64
    then err (text "Screenshot returned empty data")
    else ok (text "screenshot:base64:" ++ base64)

-- The deadline of waitForSelector, in milliseconds since its start.
unfoldable pub is_past : ℤ → ℕ → Bool
is_past (pos timeout) clock = leb timeout clock
is_past (negsuc timeout) clock = true

abbrev pub is_found : ToolResult → Bool
is_found (ok s) = text_eq s (text "true")
is_found (err why) = false

unfoldable pub waited : Text → Bool → ToolResult
waited selector true = ok (text "Element '" ++ selector ++ text "' found")
waited selector false = err (text "Timeout waiting for '" ++ selector ++ text "'")

unfoldable pub key_event : {J : Type 0} → JsonApi J → ℕ → J
key_event api c =
    api.object ((text "type", api.string (text "char")) ∷ (text "text", api.string (c ∷ [])) ∷ [])

module _ {J W : Type 0} (api : JsonApi J) (equals_int : J → ℤ → Bool) (socket : Socket W) where
  unfoldable pub navigate : Text → BrowserAutomation W → Awaited W ToolResult
  unfolding send_cdp_command
  navigate url b =
      and_then
        (send_cdp_command api equals_int socket (text "Page.navigate")
          (api.object ((text "url", api.string url) ∷ [])) b)
        (or_error (λ r. give (ok (text "Navigated to " ++ url))))

  unfoldable pub value_of : J → Outcome Text
  value_of r = api.at r (text "result") >>= λ rv.
      if api.contains rv (text "value")
      then (api.at rv (text "value") >>= api.dump)
      else api.dump rv

  -- evalJs
  unfoldable pub eval_js : Text → BrowserAutomation W → Awaited W ToolResult
  unfolding send_cdp_command value_of or_braces
  eval_js js b =
      and_then
        (send_cdp_command api equals_int socket (text "Runtime.evaluate")
          (api.object
            ((text "expression", api.string js) ∷ (text "returnByValue", api.bool true) ∷ []))
          b)
        (or_error (λ r. attempt (or_braces (value_of r))))

  -- Sends one byte of a text as a key.
  unfoldable pub type_char : ℕ → BrowserAutomation W → Awaited W (Reply J)
  unfolding send_cdp_command key_event
  type_char c b =
      send_cdp_command api equals_int socket (text "Input.dispatchKeyEvent") (key_event api c) b

  unfoldable pub type_chars : ToolResult → Text → BrowserAutomation W → Awaited W ToolResult
  unfolding type_char
  type_chars done [] b = give done b
  type_chars done (c ∷ cs) b = and_then (type_char c b) (or_error (λ r b'. type_chars done cs b'))

  unfoldable pub type_when_focused :
      Text → Text → ToolResult → BrowserAutomation W → Awaited W ToolResult
  unfolding type_chars typed
  type_when_focused selector content (err why) b = give (err why) b
  type_when_focused selector content (ok focused) b = type_chars (typed selector content) content b

  -- typeInto
  unfoldable pub type_into : Text → Text → BrowserAutomation W → Awaited W ToolResult
  unfolding eval_js type_when_focused focus_js
  type_into selector content b =
      and_then (attempt (api.dump (api.string selector)) b)
        (λ quoted b'. and_then (eval_js (focus_js quoted) b') (type_when_focused selector content))

  -- getPageText
  get_page_text : BrowserAutomation W → Awaited W ToolResult
  unfolding eval_js
  get_page_text = eval_js (text "document.body.innerText.substring(0, 16384)")

  shot_of : J → Outcome ToolResult
  unfolding shot
  shot_of r = api.value_text r (text "data") [] >>= λ base64. returned (shot base64)

  -- captureScreenshot
  unfoldable pub capture_screenshot : BrowserAutomation W → Awaited W ToolResult
  unfolding send_cdp_command shot_of
  capture_screenshot b =
      and_then
        (send_cdp_command api equals_int socket (text "Page.captureScreenshot")
          (api.object
            ((text "format", api.string (text "png")) ∷ (text "quality", api.int (pos 80)) ∷ []))
          b)
        (or_error (λ r. attempt (shot_of r)))

  unfoldable pub on_polled :
      ℤ
      → ℕ
      → (BrowserAutomation W → Awaited W Bool)
      → ToolResult
      → BrowserAutomation W
      → Awaited W Bool
  unfolding is_past
  on_polled timeout clock again r b =
      if is_found r then give true b else (if is_past timeout clock then give false b else again b)

  -- poll_until with the script as its attempt; `clocks` are what it reads after each.
  unfoldable pub poll : ℤ → Text → List ℕ → BrowserAutomation W → Awaited W Bool
  unfolding on_polled eval_js
  poll timeout js [] b = (none, b)
  poll timeout js (clock ∷ clocks) b =
      and_then (eval_js js b) (on_polled timeout clock (poll timeout js clocks))

  -- waitForSelector
  unfoldable pub wait_for_selector : Text → ℤ → List ℕ → BrowserAutomation W → Awaited W ToolResult
  unfolding poll waited
  wait_for_selector selector timeout clocks b =
      and_then (attempt (api.dump (api.string selector)) b) (λ quoted b'.
        and_then (poll timeout (text "!!document.querySelector(" ++ quoted ++ text ")") clocks b')
          (λ found. give (waited selector found)))
