-- ===== src/Tests/ToolServer.antt =====
-- src/core/ToolServer.cpp at concrete lines, with a log and without one.
use win_bot.Base.{
  lookup, insert, Text, text, text_eq, ends_with, replicate, Bool, true, false, Option, some, [],
  ◌∷◌, ◌++◌, Outcome, returned, threw, threw_unknown, ok, pos, if◌then◌else◌, ◌≡◌, ◌≢◌, refl,
}
use win_bot.Json.{JsonApi}
use win_bot.Registry.{Tool, ToolRegistry, empty, register_tool}
use win_bot.AuditLog.{AuditLog}
use win_bot.Protocol.{Request, err_json, parse_request, is_skipped, read_request, catch_parse}
use win_bot.ToolServer.{Service, Input, run, call_tool}
use win_bot.Registry.Dispatch.{dispatch}
use win_bot.ToolServer.Serving.{
  silence, response, no_more, then_more, run-replies, audit_failure_ends_run,
}
use win_bot.Tests.JsonValue.{Value, null, int, string, object, end, field, get, value_api}
use win_bot.Tests.JsonLaws.{dump_text}

-- A parser that knows one line.
abbrev parse_line : Text → Outcome Value
parse_line line =
    if text_eq line (text "read")
    then returned
        (object (field (text "id") (int (pos 4)) (field (text "tool") (string (text "read")) end)))
    else threw (text "syntax error")

parse_line_std : (s : Text) → parse_line s ≢ threw_unknown
parse_line_std s = go (text_eq s (text "read"))
  where
    go :
        (b : Bool)
        → (if b
            then returned (
                object (
                  field (text "id") (int (pos 4)) (field (text "tool") (string (text "read")) end)))
            else threw (text "syntax error"))
          ≢ threw_unknown
    go true = λ e. cc
    go false = λ e. cc

abbrev api : JsonApi Value
api = value_api parse_line (λ j. returned (dump_text j))

abbrev line_of : Bool → Text → Input
line_of halted line = record { halted = halted; line = line; now = text "2026" }

abbrev service : Service Value
service = record {
  tools = some empty;
  audit = some (record { enabled = true; lines = [] });
  output = [];
}

abbrev read_call : Request Value
read_call = record { id = pos 4; tool = text "read"; args = object end }

-- The response to the one request: no tool has that name.
abbrev response_line : Text
response_line = dump_text (err_json api (pos 4) (text "Unknown tool: 'read'"))

run-replies_example :
    (log : Option AuditLog) × (run api
        (line_of false (text "read") ∷ line_of false (text "#") ∷ line_of true [] ∷ [])
        service
      ≡ (returned tt, record service { audit = log; output = response_line ∷ [] }))
unfolding text text_eq parse_request is_skipped read_request catch_parse call_tool dispatch lookup
run-replies_example =
    run-replies api (line_of false (text "read") ∷ line_of false (text "#") ∷ [])
      (line_of true [] ∷ []) (response_line ∷ []) service (refl, (refl, tt)) refl
      (then_more (response read_call (text "{}") (text "{}") response_line refl refl refl refl)
        (then_more (silence [] refl) no_more))

-- A tool whose result has a character of two bytes at 255.
abbrev reader : Tool Value
reader = record {
  name = text "read";
  description = [];
  parameters_schema = null;
  execute = λ args token. returned (ok (replicate 255 b'a' ++ 195 ∷ 169 ∷ []));
}

abbrev tools : ToolRegistry Value
tools = (register_tool (some reader) empty).registry

-- A printer that refuses a "detail" which ends with the first byte of such a character.
abbrev checked : Option Value → Text → Outcome Text
checked (some (string s)) line =
    if ends_with s (195 ∷ []) then threw (text "invalid UTF-8") else returned line
checked _ line = returned line

abbrev strict : JsonApi Value
strict = value_api parse_line (λ j. checked (get j (text "detail")) (dump_text j))

abbrev with_reader : Service Value
with_reader = record service { tools = some tools }

audit_failure_ends_run_example :
    let r =
      run strict (line_of false (text "read") ∷ line_of false (text "read") ∷ []) with_reader in
    (r.0 ≡ threw (text "invalid UTF-8")) × (r.1.output ≡ [])
unfolding text text_eq parse_request is_skipped read_request catch_parse call_tool dispatch
    ends_with lookup register_tool insert
audit_failure_ends_run_example =
    audit_failure_ends_run strict (line_of false (text "read")) (line_of false (text "read") ∷ [])
      read_call (record { enabled = true; lines = [] }) (text "{}") (text "invalid UTF-8")
      with_reader refl refl refl refl refl refl
