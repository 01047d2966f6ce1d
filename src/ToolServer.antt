-- ===== src/ToolServer.antt =====
-- src/core/ToolServer.h and .cpp: the loop that serves the line protocol.
pub mod Serving
use win_bot.Base.{
  ℕ, Text, text, Bool, true, false, Option, none, some, List, [], ◌∷◌, ◌++◌, Outcome, returned,
  threw, threw_unknown, ToolResult, ok, err, take, if◌then◌else◌,
}
use win_bot.Base.Exec.{Exec, pure, lift, modify, ◌>>=◌}
use win_bot.Json.{JsonApi}
use win_bot.Registry.{ToolRegistry, StopToken}
use win_bot.Registry.Dispatch.{dispatch}
use win_bot.AuditLog.{AuditEntry, AuditLog, record_entry}
use win_bot.Protocol.{Request, Parsed, request, unexpected, parse_request, make_ok, make_err}

-- `output` holds the lines written to stdout. The two pointers may be null.
pub record Service (J : Type 0) : Type 0 where
  pub tools : Option (ToolRegistry J)
  pub audit : Option AuditLog
  pub output : List Text

-- What one test of the loop finds: the kill switch, the next line, and the clock.
pub record Input : Type 0 where
  pub halted : Bool
  pub line : Text
  pub now : Text

-- The stop token of a call made without one.
abbrev pub never : StopToken
never n = false

module _ {J : Type 0} (api : JsonApi J) where
  -- The call that a request asks for.
  unfoldable pub call_tool : Option (ToolRegistry J) → Request J → ToolResult
  call_tool none req = err (text "No tool registry configured")
  call_tool (some tools) req = dispatch tools req.tool req.args never

  abbrev pub outcome_text : ToolResult → Text
  outcome_text (ok result) = text "ok"
  outcome_text (err error) = text "error"

  abbrev pub detail_text : ToolResult → Text
  detail_text (ok result) = take 256 result
  detail_text (err error) = error

  abbrev pub entry_of : Text → Request J → ToolResult → AuditEntry J
  entry_of now req result = record {
    timestamp = now;
    task = req.tool;
    tool = text "tool_call";
    args = api.object ((text "tool", api.string req.tool) ∷ (text "args", req.args) ∷ []);
    result = outcome_text result;
    detail = detail_text result;
  }

  -- The log after a record, put back into the service.
  keep_log : Service J → Outcome (Unit {0}) × AuditLog → Outcome (Unit {0}) × Service J
  keep_log s (o, log) = (o, record s { audit = some log })

  audit_to : Option AuditLog → AuditEntry J → Exec (Service J) (Unit {0})
  unfolding keep_log
  audit_to none entry s = (returned tt, s)
  audit_to (some log) entry s = keep_log s (record_entry api entry log)

  unfoldable pub audit_call : Text → Request J → ToolResult → Exec (Service J) (Unit {0})
  unfolding audit_to
  audit_call now req result s = audit_to s.audit (entry_of now req result) s

  unfoldable pub response_of : Request J → ToolResult → Outcome Text
  response_of req (ok result) = make_ok api req.id result
  response_of req (err error) = make_err api req.id error

  unfoldable pub send_response : Text → Exec (Service J) (Unit {0})
  send_response line = modify (λ s. record s { output = s.output ++ line ∷ [] })

  -- What is done with a request. The arguments are dumped for the log first.
  unfoldable pub answer_request : Text → Request J → Exec (Service J) (Unit {0})
  unfolding call_tool audit_call response_of send_response
  answer_request now req s =
      (do
        logged ← lift (api.dump req.args)
        done ← audit_call now req (call_tool s.tools req)
        response ← lift (response_of req (call_tool s.tools req))
        send_response response)
        s

  unfoldable pub answer_parsed : Text → Parsed J → Exec (Service J) (Unit {0})
  unfolding answer_request
  answer_parsed now (unexpected why) = pure tt
  answer_parsed now (request req) = answer_request now req

  -- One round of the loop.
  unfoldable pub serve_line : Input → Exec (Service J) (Unit {0})
  unfolding answer_parsed
  serve_line input = do parsed ← lift (parse_request api input.line); answer_parsed input.now parsed

  -- run(), over what its tests find until the input ends.
  unfoldable pub run : List Input → Exec (Service J) (Unit {0})
  unfolding serve_line
  run [] s = (returned tt, s)
  run (input ∷ inputs) s =
      if input.halted then (returned tt, s) else (serve_line input >>= (λ _. run inputs)) s
