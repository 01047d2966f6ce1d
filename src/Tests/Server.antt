-- ===== src/Tests/Server.antt =====
-- src/core/McpServer.cpp at concrete messages: a call, its cancellation, and bad input.
use win_bot.Base.{
  Text, text, text_eq, ◌≡◌, ◌≢◌, refl, Bool, true, false, [], ◌∷◌, Outcome, returned, threw,
  threw_unknown, pos, if◌then◌else◌, lookup, some,
}
use win_bot.Json.{JsonApi}
use win_bot.Registry.{StopToken, empty}
use win_bot.ThreadPool.{new_pool}
use win_bot.Mcp.{Call, Server, is_cancelled, cancel_request}
use win_bot.Mcp.Execution.{run_call, release}
use win_bot.Mcp.Loop.{is_blank, handle_line, serve}
use win_bot.Registry.Dispatch.{dispatch}
use win_bot.Mcp.Reliable.{Reliable}
use win_bot.Mcp.Lines.{Handled, request_served_once}
use win_bot.Mcp.Survival.{Ended, serve_total}
use win_bot.Mcp.Calls.{
  CallEnds, after_reply, cancelled_reply, cancelled_before, cancelled_during, answered_once,
}
use win_bot.Mcp.Cancellation.{submitted, duplicate_not_cancellable}
use win_bot.Tests.JsonValue.{Value, null, int, string, object, end, field, value_api}
use win_bot.Tests.JsonLaws.{dump_text, value_api-Reliable}

abbrev call_message : Value
call_message = object (
    field (text "jsonrpc") (string (text "2.0"))
      (field (text "id") (int (pos 7)) (field (text "method") (string (text "ping")) end)))

abbrev cancel_message : Value
cancel_message = object (
    field (text "jsonrpc") (string (text "2.0"))
      (field (text "method") (string (text "notifications/cancelled")) end))

-- A parser that knows two lines.
abbrev parse_line : Text → Outcome Value
parse_line line =
    if text_eq line (text "request")
    then returned call_message
    else if text_eq line (text "cancel")
    then returned cancel_message
    else threw (text "syntax error")

parse_line_std : (s : Text) → parse_line s ≢ threw_unknown
parse_line_std s = go (text_eq s (text "request")) (text_eq s (text "cancel"))
  where
    go :
        (a b : Bool)
        → (if a
            then returned call_message
            else if b
            then returned cancel_message
            else threw (text "syntax error"))
          ≢ threw_unknown
    go true b = λ e. cc
    go false true = λ e. cc
    go false false = λ e. cc

abbrev api : JsonApi Value
api = value_api parse_line (λ j. returned (dump_text j))

abbrev api-Reliable : Reliable api
api-Reliable = value_api-Reliable parse_line parse_line_std

abbrev start : Server Value
start = record {
  cfg = record { server_name = text "WinBot"; server_version = text "0.2.0"; action_delay_ms = 0 };
  running = true;
  initialized = false;
  registry = empty;
  active_requests = [];
  cancelled = [];
  next_object = 0;
  pool = new_pool 1 4;
  output = [];
}

abbrev call : Call Value
call = record { object = 0; id = int (pos 7); tool_name = text "calc"; args = null; key = text "7" }

abbrev no_stop : StopToken
no_stop n = false

abbrev interrupted : Server Value
interrupted = record start { cancelled = 0 ∷ [] }

abbrev interrupt : Server Value → Server Value
interrupt s = interrupted

abbrev nothing : Server Value → Server Value
nothing s = s

request_served_once_example :
    Handled api call_message (int (pos 7)) start (handle_line api (text "request") start)
unfolding text text_eq is_blank
request_served_once_example =
    request_served_once api-Reliable call_message (int (pos 7))
      (record { contained = refl; read = refl; present = refl }) (text "request") start refl refl

serve_total_example :
    Ended api
      (text "request" ∷ text "{" ∷ text "cancel" ∷ [])
      start
      (serve api (text "request" ∷ text "{" ∷ text "cancel" ∷ []) start)
serve_total_example =
    serve_total api-Reliable (text "request" ∷ text "{" ∷ text "cancel" ∷ []) start

cancelled_before_example :
    run_call api nothing no_stop call interrupted
    ≡ (returned tt, after_reply call (cancelled_reply api (int (pos 7))) interrupted)
unfolding is_cancelled
cancelled_before_example =
    cancelled_before api nothing no_stop call (text "{}") interrupted refl refl

cancelled_during_example :
    run_call api interrupt no_stop call start
    ≡ (returned tt, after_reply call (cancelled_reply api (int (pos 7))) interrupted)
unfolding is_cancelled
cancelled_during_example =
    cancelled_during api interrupt no_stop call (text "{}") start refl refl refl

answered_once_example :
    CallEnds api call
      (dispatch start.registry call.tool_name call.args no_stop)
      start
      (run_call api nothing no_stop call start)
unfolding is_cancelled
answered_once_example = answered_once api-Reliable nothing no_stop call start refl refl

duplicate_not_cancellable_example :
    let both =
      submitted
        (int (pos 7))
        (text "ocr")
        null
        (text "7")
        (submitted (int (pos 7)) (text "calc") null (text "7") start) in
    (lookup (text "7") both.active_requests ≡ some 1)
    × (cancel_request (text "7") (release (text "7") both) ≡ (release (text "7") both, false))
duplicate_not_cancellable_example =
    duplicate_not_cancellable (int (pos 7)) (text "calc") (text "ocr") null null (text "7") start
