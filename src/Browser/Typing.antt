-- ===== src/Browser/Typing.antt =====
-- src/platform/browser/BrowserAutomation.cpp, typeInto: a text is sent byte by byte.
use win_bot.Base.{
  ℕ, Text, text, Bool, true, none, some, [], ◌∷◌, ℤ, returned, threw, threw_unknown, ◌≡◌, ◌≢◌,
  arith, any, leb, Bool-cases, inl, inr, ToolResult, ok, err,
}
use win_bot.Json.{JsonApi}
use win_bot.Browser.{
  BrowserAutomation, Socket, Reply, result, failure, Awaited, and_then, send_command, command_of,
  send_cdp_command,
}
use win_bot.Browser.Commands.{
  attempt, or_error, key_event, eval_js, type_char, type_chars, type_when_focused, type_into,
  focus_js, typed,
}

-- What is no success.
abbrev NotOk : {W : Type 0} → Awaited W ToolResult → Type 0
NotOk (some (returned (ok s)), b) = ⊥
NotOk (some (returned (err why)), b) = Unit
NotOk (some (threw what), b) = Unit
NotOk (some threw_unknown, b) = Unit
NotOk (none, b) = Unit

and_then-NotOk :
    {W A : Type 0} (m : Awaited W A) (f : A → BrowserAutomation W → Awaited W ToolResult)
    → ((a : A) (b : BrowserAutomation W) → NotOk (f a b))
    → NotOk (and_then m f)
and_then-NotOk (none, b) f h = tt
and_then-NotOk (some (returned a), b) f h = h a b
and_then-NotOk (some (threw what), b) f h = tt
and_then-NotOk (some threw_unknown, b) f h = tt

or_error-NotOk :
    {J W : Type 0} (f : J → BrowserAutomation W → Awaited W ToolResult)
    → ((r : J) (b : BrowserAutomation W) → NotOk (f r b))
    → (r : Reply J) (b : BrowserAutomation W) → NotOk (or_error f r b)
or_error-NotOk f h (result r) b = h r b
or_error-NotOk f h (failure why) b = tt

NotOk→≢ :
    {W : Type 0} (m : Awaited W ToolResult) (s : Text) (b : BrowserAutomation W)
    → NotOk m
    → m ≢ (some (returned (ok s)), b)
NotOk→≢ m s b h e = let q = rw e at h in q

module _ {J W : Type 0} (api : JsonApi J) (equals_int : J → ℤ → Bool) (socket : Socket W) where
  module _
      (rejects : (id c : ℕ)
        → leb 128 c ≡ true
        → (what : Text) × (api.dump (
              command_of api equals_int socket id (text "Input.dispatchKeyEvent") (key_event api c))
            ≡ threw what)) where
    type_char-NotOk :
        (c : ℕ) (f : J → BrowserAutomation W → Awaited W ToolResult) (b : BrowserAutomation W)
        → leb 128 c ≡ true
        → NotOk (and_then (type_char api equals_int socket c b) (or_error f))
    unfolding type_char send_cdp_command send_command
    type_char-NotOk c f b h = elim (Bool-cases b.connected) [
      | inl e ↦ let (what, d) = rejects b.msg_id c h in rw (e, d) tt
      | inr e ↦ rw e tt
    ]

    type_chars-NotOk :
        (done : ToolResult) (content : Text) (b : BrowserAutomation W)
        → any (leb 128) content ≡ true
        → NotOk (type_chars api equals_int socket done content b)
    unfolding type_chars
    type_chars-NotOk done [] b h = ground (arith, h)
    type_chars-NotOk done (c ∷ cs) b h = elim (Bool-cases (leb 128 c)) [
      | inl e ↦ type_char-NotOk c (λ r b'. type_chars api equals_int socket done cs b') b e
      | inr e ↦ and_then-NotOk (type_char api equals_int socket c b) _ (
          or_error-NotOk (λ r b'. type_chars api equals_int socket done cs b')
            (λ r b'. type_chars-NotOk done cs b' (ground (arith, h, e))))
    ]

    type_when_focused-NotOk :
        (selector content : Text) (focused : ToolResult) (b : BrowserAutomation W)
        → any (leb 128) content ≡ true
        → NotOk (type_when_focused api equals_int socket selector content focused b)
    unfolding type_when_focused
    type_when_focused-NotOk selector content (err why) b h = tt
    type_when_focused-NotOk selector content (ok focused) b h =
        type_chars-NotOk (typed selector content) content b h

    -- A text with a byte beyond ASCII is never typed: a character of several bytes is sent a byte at
    -- a time, and the JSON library refuses to print a text that is no UTF-8. Whatever the browser
    -- answers, typeInto does not report success.
    pub non_ascii_not_typed :
        (selector content s : Text) (b b' : BrowserAutomation W)
        → any (leb 128) content ≡ true
        → type_into api equals_int socket selector content b ≢ (some (returned (ok s)), b')
    unfolding type_into
    non_ascii_not_typed selector content s b b' h =
        NotOk→≢ (type_into api equals_int socket selector content b) s b' (
          and_then-NotOk (attempt (api.dump (api.string selector)) b) _ (λ quoted b''.
            and_then-NotOk (eval_js api equals_int socket (focus_js quoted) b'') _
              (λ focused b'''. type_when_focused-NotOk selector content focused b''' h)))
