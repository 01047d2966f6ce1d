-- ===== src/Mcp.antt =====
-- src/core/McpServer.h and .cpp: the server's state, and the messages that it sends.
pub mod Schema
pub mod Handlers
pub mod Execution
pub mod Loop
pub mod Reliable
pub mod Replies
pub mod Lines
pub mod Survival
pub mod Calls
pub mod Cancellation
use win_bot.Base.{
  ℕ, ◌+◌, Text, text, Bool, true, false, Option, none, some, List, [], ◌∷◌, ◌++◌, Outcome, returned,
  threw, threw_unknown, ℤ, negsuc, Map, lookup, any, map, ◌==◌, if◌then◌else◌,
}
use win_bot.Base.Exec.{Exec}
use win_bot.Json.{JsonApi}
use win_bot.Registry.{ToolRegistry}
use win_bot.ThreadPool.{Pool, begin_stop}

pub record Config : Type 0 where
  pub server_name : Text
  pub server_version : Text
  pub action_delay_ms : ℕ

-- What the lambda that handleToolsCall enqueues has captured. `object` stands for the shared
-- ActiveRequest: two calls with one key still have two objects.
pub record Call (J : Type 0) : Type 0 where
  pub object : ℕ
  pub id : J
  pub tool_name : Text
  pub args : J
  pub key : Text

-- `cancelled` lists the ActiveRequest objects whose flag is set and whose stop source is stopped;
-- the code always does both together. `output` holds the messages written, in order.
pub record Server (J : Type 0) : Type 0 where
  pub cfg : Config
  pub running : Bool
  pub initialized : Bool
  pub registry : ToolRegistry J
  pub active_requests : Map ℕ
  pub cancelled : List ℕ
  pub next_object : ℕ
  pub pool : Pool (Call J)
  pub output : List J

abbrev pub parse_error : ℤ
parse_error = negsuc 32699

abbrev pub invalid_request : ℤ
invalid_request = negsuc 32599

abbrev pub method_not_found : ℤ
method_not_found = negsuc 32600

abbrev pub invalid_params : ℤ
invalid_params = negsuc 32601

abbrev pub internal_error : ℤ
internal_error = negsuc 32602

abbrev pub not_initialized : ℤ
not_initialized = negsuc 32001

abbrev pub request_cancelled : ℤ
request_cancelled = negsuc 32799

module _ {J : Type 0} where
  unfoldable pub is_cancelled : ℕ → Server J → Bool
  is_cancelled object s = any (λ c. c == object) s.cancelled

  -- cancelRequest
  unfoldable pub cancel_request : Text → Server J → Server J × Bool
  cancel_request key s = elim (lookup key s.active_requests) [
    | none ↦ (s, false)
    | some object ↦ (record s { cancelled = object ∷ s.cancelled }, true)
  ]

  -- stop(): every active request is cancelled, and the pool takes no more tasks.
  unfoldable pub stop : Server J → Server J
  stop s = record s {
    running = false;
    cancelled = map (λ e. e.1) s.active_requests ++ s.cancelled;
    pool = (begin_stop s.pool).0;
  }

module _ {J : Type 0} (api : JsonApi J) where
  abbrev pub jsonrpc : Text × J
  jsonrpc = (text "jsonrpc", api.string (text "2.0"))

  abbrev pub result_message : J → J → J
  result_message id result = api.object (jsonrpc ∷ (text "id", id) ∷ (text "result", result) ∷ [])

  -- The error object has no "data": no caller gives any.
  abbrev pub error_message : J → ℤ → Text → J
  error_message id code message = api.object (
      jsonrpc
      ∷ (text "id", id)
      ∷ (
        text "error",
        api.object ((text "code", api.int code) ∷ (text "message", api.string message) ∷ []),
      )
      ∷ [])

  write : J → Outcome Text → Exec (Server J) (Unit {0})
  write msg (returned line) s = (returned tt, record s { output = s.output ++ msg ∷ [] })
  write msg (threw what) s = (threw what, s)
  write msg threw_unknown s = (threw_unknown, s)

  -- send: json::dump throws on a string that is no UTF-8, before anything is written.
  unfoldable pub send : J → Exec (Server J) (Unit {0})
  unfolding write
  send msg = write msg (api.dump msg)

  unfoldable pub send_result : J → J → Exec (Server J) (Unit {0})
  unfolding send
  send_result id result = send (result_message id result)

  unfoldable pub send_error : J → ℤ → Text → Exec (Server J) (Unit {0})
  unfolding send
  send_error id code message = send (error_message id code message)

  -- notifyToolsListChanged
  unfoldable pub notify_tools_list_changed : Exec (Server J) (Unit {0})
  unfolding send
  notify_tools_list_changed s =
      if s.initialized
      then send
          (api.object
            (jsonrpc ∷ (text "method", api.string (text "notifications/tools/list_changed")) ∷ []))
          s
      else (returned tt, s)
