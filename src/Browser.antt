-- ===== src/Browser.antt =====
-- src/platform/browser/BrowserAutomation.cpp: the commands of the DevTools protocol and what they make
-- of the answers. The connection is a parameter.
pub mod Commands
pub mod Clicking
pub mod Answering
pub mod Ending
pub mod Calls
pub mod Pointing
pub mod Typing
pub mod Dom
pub mod Connecting
pub mod Connected
pub mod Disconnected
use win_bot.Base.{
  ℕ, zero, suc, ◌+◌, ◌-◌, ◌*◌, ◌/◌, ◌^◌, Text, text, text_eq, is_empty, show_nat, Bool, true, false,
  not, ◌&&◌, ◌||◌, Option, none, some, List, [], ◌∷◌, ◌++◌, ℤ, pos, Outcome, returned, threw,
  threw_unknown, ◌>>=◌, ToolResult, ok, err, ltb, ◌==◌, if◌then◌else◌,
}
use win_bot.Json.{JsonApi}

-- What one WinHttpWebSocketReceive gives: its error, the end of the connection, or bytes with more
-- to come or without.
pub data Receipt : Type 0 where
  receive_error : ℕ → Receipt
  closed : Receipt
  fragment : Text → Receipt
  last : Text → Receipt

-- What wsReceive returns; `pending` while more is to come.
pub data Received : Type 0 where
  pending : Received
  broken : Text → Received
  message : Text → Received

-- wsReceive, on a connection.
unfoldable pub ws_receive : List Receipt → Text → Received
ws_receive [] response = pending
ws_receive (receive_error code ∷ receipts) response =
    broken (text "wsReceive error: " ++ show_nat code)
ws_receive (closed ∷ receipts) response = broken (text "WebSocket closed by remote peer")
ws_receive (fragment bytes ∷ receipts) response = ws_receive receipts (response ++ bytes)
ws_receive (last bytes ∷ receipts) response = message (response ++ bytes)

-- A turn of the loop that waits: the nanoseconds since its start, and what is then received.
pub record Turn : Type 0 where
  pub elapsed : ℕ
  pub receipts : List Receipt

-- The socket, in a world of type `W`: whether a message is sent, and what comes after it.
pub record Socket (W : Type 0) : Type 0 where
  pub send : W → Text → Bool × W
  pub turns : W → List Turn × W

-- BrowserAutomation; `has_socket` says that m_wsHandle is not null.
pub record BrowserAutomation (W : Type 0) : Type 0 where
  pub connected : Bool
  pub has_socket : Bool
  pub msg_id : ℕ
  pub world : W

-- std::expected<json, std::string>
pub data Reply (J : Type 0) : Type 0 where
  result : J → Reply J
  failure : Text → Reply J

-- The calls of a method that waits for an answer; none while it waits.
abbrev pub Awaited : Type 0 → Type 0 → Type 0
Awaited W A = Option (Outcome A) × BrowserAutomation W

module _ {W A B : Type 0} where
  abbrev pub and_then : Awaited W A → (A → BrowserAutomation W → Awaited W B) → Awaited W B
  and_then (none, b) f = (none, b)
  and_then (some (returned a), b) f = f a b
  and_then (some (threw what), b) f = (some (threw what), b)
  and_then (some threw_unknown, b) f = (some threw_unknown, b)

abbrev pub give : {W A : Type 0} → A → BrowserAutomation W → Awaited W A
give a b = (some (returned a), b)

abbrev pub second : ℕ
second = 1000000000

-- The two tests of the deadline of ten seconds: elapsed, or less than a millisecond remains.
unfoldable pub is_late : ℕ → Bool
is_late elapsed = ltb (10 * second) elapsed || (10 * second - elapsed) / 1000000 == 0

-- `equals_int` is operator== of a JSON value with an int.
module _ {J : Type 0} (api : JsonApi J) (equals_int : J → ℤ → Bool) where
  unfoldable pub answer_of : J → Outcome (Reply J)
  answer_of resp =
      if api.contains resp (text "error")
      then (api.at resp (text "error") >>= λ e.
          api.value_text e (text "message") (text "CDP error") >>= λ what. returned (failure what))
      else (api.value_json resp (text "result") (api.object []) >>= λ r. returned (result r))

  -- The reply in a response, if it is the one to the command `id`.
  unfoldable pub reply_of : ℕ → J → Outcome (Option (Reply J))
  unfolding answer_of
  reply_of id resp =
      if api.contains resp (text "id")
      then (api.at resp (text "id") >>= λ v.
          if equals_int v (pos id)
          then (answer_of resp >>= λ r. returned (some r))
          else returned none)
      else returned none

  -- The `try` around it: what throws a std::exception is ignored.
  unfoldable pub ignoring : Outcome (Option (Reply J)) → Outcome (Option (Reply J))
  ignoring (threw what) = returned none
  ignoring (returned r) = returned r
  ignoring threw_unknown = threw_unknown

  unfoldable pub examine : ℕ → Text → Outcome (Option (Reply J))
  unfolding reply_of ignoring
  examine id raw = ignoring (api.parse raw >>= reply_of id)

  module _ {W : Type 0} where
    abbrev pub disconnected : BrowserAutomation W → BrowserAutomation W
    disconnected b = record b { connected = false }

    abbrev pub on_examined :
        Outcome (Option (Reply J))
        → (BrowserAutomation W → Awaited W (Reply J))
        → BrowserAutomation W
        → Awaited W (Reply J)
    on_examined (returned none) go_on b = go_on b
    on_examined (returned (some r)) go_on b = give r b
    on_examined (threw what) go_on b = (some (threw what), b)
    on_examined threw_unknown go_on b = (some threw_unknown, b)

    unfoldable pub on_received :
        ℕ
        → Received
        → (BrowserAutomation W → Awaited W (Reply J))
        → BrowserAutomation W
        → Awaited W (Reply J)
    unfolding examine
    on_received id pending go_on b = (none, b)
    on_received id (broken why) go_on b = give (failure why) (disconnected b)
    on_received id (message raw) go_on b = on_examined (examine id raw) go_on b

    -- The loop that waits for the answer to the command `id`.
    unfoldable pub await_reply : ℕ → List Turn → BrowserAutomation W → Awaited W (Reply J)
    unfolding on_received is_late ws_receive
    await_reply id [] b = (none, b)
    await_reply id (turn ∷ turns) b =
        if is_late turn.elapsed
        then give (failure (text "CDP timeout")) b
        else on_received id (ws_receive turn.receipts []) (await_reply id turns) b

    module _ (socket : Socket W) where
      -- wsSend
      unfoldable pub ws_send : Text → BrowserAutomation W → Bool × BrowserAutomation W
      ws_send content b =
          if not b.has_socket
          then (false, b)
          else (let (sent, w) = socket.send b.world content in
              (sent, record b { connected = b.connected && sent; world = w }))

      unfoldable pub await_after : ℕ → Bool × BrowserAutomation W → Awaited W (Reply J)
      unfolding await_reply
      await_after id (false, b) = give (failure (text "WebSocket send failed")) b
      await_after id (true, b) =
          let (turns, w) = socket.turns b.world in await_reply id turns (record b { world = w })

      unfoldable pub send_command : ℕ → Outcome Text → BrowserAutomation W → Awaited W (Reply J)
      unfolding ws_send await_after
      send_command id (returned content) b = await_after id (ws_send content b)
      send_command id (threw what) b = (some (threw what), b)
      send_command id threw_unknown b = (some threw_unknown, b)

      unfoldable pub command_of : ℕ → Text → J → J
      command_of id method params = api.object (
          (text "id", api.int (pos id))
          ∷ (text "method", api.string method)
          ∷ (text "params", params)
          ∷ [])

      -- sendCdpCommand
      unfoldable pub send_cdp_command : Text → J → BrowserAutomation W → Awaited W (Reply J)
      unfolding send_command command_of
      send_cdp_command method params b =
          if not b.connected
          then give (failure (text "Not connected to browser")) b
          else send_command b.msg_id (api.dump (command_of b.msg_id method params))
              (record b { msg_id = suc b.msg_id })
