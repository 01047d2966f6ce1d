-- ===== src/Mcp/Calls.antt =====
-- src/core/McpServer.cpp: a queued call is answered exactly once, and its cancellation is heeded.
use win_bot.Base.{
  ◌≡◌, refl, Text, text, true, false, List, [], ◌∷◌, ◌++◌, Outcome, returned, threw, threw_unknown,
  ToolResult, ok, err,
}
use win_bot.Base.Exec.{lift, ◌>>=◌}
use win_bot.Json.{JsonApi}
use win_bot.Registry.{StopToken}
use win_bot.Registry.Dispatch.{dispatch}
use win_bot.Mcp.{
  Call, Server, is_cancelled, write, send, send_result, send_error, result_message, error_message,
  request_cancelled, internal_error,
}
use win_bot.Mcp.Execution.{
  respond, call_body, release, run_call, content_of, send_tool_result, send_cancelled, finish_call,
  handle_exception, answer,
}
use win_bot.Mcp.Reliable.{Reliable}
use win_bot.Mcp.Replies.{IsReply, result, error}

-- The server after one reply to a call and the end of the call.
abbrev pub after_reply : {J : Type 0} → Call J → J → Server J → Server J
after_reply call reply s = release call.key (record s { output = s.output ++ reply ∷ [] })

module _ {J : Type 0} (api : JsonApi J) where
  -- The answer to a cancelled call.
  abbrev pub cancelled_reply : J → J
  cancelled_reply id = error_message api id request_cancelled (text "Request cancelled by client")

  send_cancelled_lem :
      (id : J) (line : Text) (s : Server J)
      → api.dump (cancelled_reply id) ≡ returned line
      → send_cancelled api id s
        ≡ (returned tt, record s { output = s.output ++ cancelled_reply id ∷ [] })
  unfolding send_cancelled send_error send write
  send_cancelled_lem id line s d = rw d refl

  -- A call that is cancelled before its tool is started is answered with "request cancelled", and
  -- with nothing else; its tool is not run. That one answer can be dumped.
  pub cancelled_before :
      (during : Server J → Server J) (token : StopToken) (call : Call J) (line : Text)
      (s : Server J)
      → api.dump (cancelled_reply call.id) ≡ returned line
      → is_cancelled call.object s ≡ true
      → run_call api during token call s
        ≡ (returned tt, after_reply call (cancelled_reply call.id) s)
  unfolding run_call call_body finish_call
  cancelled_before during token call line s l c =
      rw (c, run_call, call_body) (rw (send_cancelled_lem call.id line s l) refl)

  -- A call that is cancelled while its tool runs is answered with "request cancelled", whatever the
  -- tool gives, and with nothing else. That one answer can be dumped.
  pub cancelled_during :
      (during : Server J → Server J) (token : StopToken) (call : Call J) (line : Text)
      (s : Server J)
      → api.dump (cancelled_reply call.id) ≡ returned line
      → is_cancelled call.object s ≡ false
      → is_cancelled call.object (during s) ≡ true
      → run_call api during token call s
        ≡ (returned tt, after_reply call (cancelled_reply call.id) (during s))
  unfolding run_call call_body respond finish_call
  cancelled_during during token call line s l c d =
      rw (c, d, run_call, call_body, respond)
        (rw (send_cancelled_lem call.id line (during s) l) refl)

  -- What becomes of a call whose tool has given `r`: one reply, or, where the sending of the result
  -- has thrown and the report of that cannot be dumped, none.
  pub data CallEnds (call : Call J) (r : ToolResult) (s : Server J)
      : Outcome (Unit {0}) × Server J → Type 0 where
    replied :
        (reply : J)
        → IsReply api call.id reply
        → CallEnds call r s (returned tt, after_reply call reply s)
    unreported :
        (what w : Text)
        → send_tool_result api call.id r s ≡ (threw what, s)
        → api.dump (error_message api call.id internal_error (text "Internal error: " ++ what))
          ≡ threw w
        → CallEnds call r s (threw w, release call.key s)
    unreported_unknown :
        (w : Text)
        → send_tool_result api call.id r s ≡ (threw_unknown, s)
        → api.dump (error_message api call.id internal_error (text "Unknown internal error"))
          ≡ threw w
        → CallEnds call r s (threw w, release call.key s)

module _ {J : Type 0} {api : JsonApi J} (good : Reliable api) where
  -- What an action that answers a call may do: write one reply, or throw before it wrote any.
  data Answers (id : J) (s : Server J) : Outcome (Unit {0}) × Server J → Type 0 where
    wrote :
        (reply : J)
        → IsReply api id reply
        → Answers id s (returned tt, record s { output = s.output ++ reply ∷ [] })
    failed : (what : Text) → Answers id s (threw what, s)
    failed_unknown : Answers id s (threw_unknown, s)

  Answers-result : (id r : J) (s : Server J) → Answers id s (send_result api id r s)
  unfolding send_result send write
  Answers-result id r s = go (api.dump (result_message api id r))
    where
      go : (o : Outcome Text) → Answers id s (write api (result_message api id r) o s)
      go (returned line) = wrote _ (result r)
      go (threw what) = failed what
      go threw_unknown = failed_unknown

  Answers-tool_result :
      (id : J) (r : ToolResult) (s : Server J) → Answers id s (send_tool_result api id r s)
  unfolding send_tool_result
  Answers-tool_result id (err e) s = Answers-result id _ s
  Answers-tool_result id (ok t) s = go (content_of api t)
    where
      go :
          (o : Outcome (List J))
          → Answers id s ((lift o >>= (λ items. send_result api id (answer api items false))) s)
      go (returned items) = Answers-result id _ s
      go (threw what) = failed what
      go threw_unknown = failed_unknown

  module _ (call : Call J) (r : ToolResult) (s : Server J) where
    -- The report of an exception is the one reply, or its dump throws.
    report-CallEnds :
        (message : Text)
        → ((w : Text)
            → api.dump (error_message api call.id internal_error message) ≡ threw w
            → CallEnds api call r s (threw w, release call.key s))
        → CallEnds api call r s (send_error api call.id internal_error message (release call.key s))
    unfolding send_error send write release
    report-CallEnds message else_none = go (api.dump reply) refl
      where
        reply : J
        reply = error_message api call.id internal_error message

        go :
            (o : Outcome Text)
            → api.dump reply ≡ o
            → CallEnds api call r s (write api reply o (release call.key s))
        go (returned line) e = replied reply (error internal_error message)
        go (threw w) e = else_none w e
        go threw_unknown e = absurd (good.dump reply e)

    finish-CallEnds :
        (a : Outcome (Unit {0}) × Server J)
        → send_tool_result api call.id r s ≡ a
        → Answers call.id s a
        → CallEnds api call r s (finish_call api call a)
    unfolding finish_call handle_exception
    finish-CallEnds a e (wrote reply i) = replied reply i
    finish-CallEnds a e (failed what) =
        report-CallEnds (text "Internal error: " ++ what) (λ w d. unreported what w e d)
    finish-CallEnds a e failed_unknown =
        report-CallEnds (text "Unknown internal error") (λ w d. unreported_unknown w e d)

  -- A call that nobody cancels is answered exactly once, with a response to its own id, and is no
  -- longer active: whatever the tool gives or throws, and whatever the other threads do meanwhile.
  -- The one exception is an answer that cannot be sent where the report of that cannot be dumped
  -- either: then nothing is written, and the exception of that dump leaves the call. The JSON library
  -- throws only its own exceptions.
  pub answered_once :
      (during : Server J → Server J) (token : StopToken) (call : Call J) (s : Server J)
      → is_cancelled call.object s ≡ false
      → is_cancelled call.object (during s) ≡ false
      → CallEnds api call
          (dispatch s.registry call.tool_name call.args token)
          (during s)
          (run_call api during token call s)
  unfolding run_call call_body respond
  answered_once during token call s c d =
      let r = dispatch s.registry call.tool_name call.args token in
      rw (c, d, run_call, call_body, respond)
        (finish-CallEnds call r (during s) (send_tool_result api call.id r (during s)) refl
          (Answers-tool_result call.id r (during s)))
