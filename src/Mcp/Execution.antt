-- ===== src/Mcp/Execution.antt =====
-- src/core/McpServer.cpp: the lambda that handleToolsCall enqueues, run by a worker of the pool.
-- `during` is what the other threads do to the server while the tool runs.
use win_bot.Base.{
  Text, text, Bool, true, false, ◌&&◌, List, [], ◌∷◌, ◌++◌, Outcome, returned, threw, threw_unknown,
  ToolResult, ok, err, pos, show_int, erase, if◌then◌else◌,
}
use win_bot.Base.Exec.{Exec, pure, lift, modify, ◌>>=◌, ◌>>◌}
use win_bot.Json.{JsonApi}
use win_bot.Registry.{StopToken}
use win_bot.Registry.Dispatch.{dispatch}
use win_bot.Mcp.{
  Call, Server, is_cancelled, request_cancelled, internal_error, send_result, send_error,
}

-- `content` and `hasImage` while the result is looked at.
pub record Content (J : Type 0) : Type 0 where
  pub items : List J
  pub has_image : Bool

-- ~ActiveGuard, run before a handler.
unfoldable pub release : {J : Type 0} → Text → Server J → Server J
release key s = record s { active_requests = erase key s.active_requests }

module _ {J : Type 0} (api : JsonApi J) where
  unfoldable pub text_item : Text → J
  text_item t =
      api.object ((text "type", api.string (text "text")) ∷ (text "text", api.string t) ∷ [])

  push : J → Exec (Content J) (Unit {0})
  push item = modify (λ c. record c { items = c.items ++ item ∷ [] })

  is_png : J → Exec (Content J) Bool
  is_png parsed =
      if api.is_object parsed
        && (api.contains parsed (text "data") && api.contains parsed (text "format"))
      then (do
        format ← lift (api.at parsed (text "format"))
        pure (api.equals_text format (text "png")))
      else pure false

  -- The conversion of a screenshot: the text that names its size, then the image.
  push_image : J → Exec (Content J) (Unit {0})
  unfolding push text_item
  push_image parsed = do
    modify (λ c. record c { has_image = true })
    width ← lift (api.value_int parsed (text "width") (pos 0))
    height ← lift (api.value_int parsed (text "height") (pos 0))
    push (
        text_item (
          text "Screenshot captured: "
          ++ show_int width
          ++ text "x"
          ++ show_int height
          ++ text " px"))
    image ← lift (api.at parsed (text "data"))
    push (
        api.object (
          (text "type", api.string (text "image"))
          ∷ (text "data", image)
          ∷ (text "mimeType", api.string (text "image/png"))
          ∷ []))

  -- The body of the inner `try`.
  read_image : Text → Exec (Content J) (Unit {0})
  unfolding is_png push_image
  read_image result = do
    parsed ← lift (api.parse result)
    image ← is_png parsed
    if image then push_image parsed else pure tt

  -- Its handler drops what derives from std::exception, and keeps what the body had done; then a
  -- result that is no image becomes one item of text.
  finish_content : Text → Outcome (Unit {0}) × Content J → Outcome (List J)
  unfolding text_item
  finish_content result (threw_unknown, c) = threw_unknown
  finish_content result (returned _, c) =
      returned (if c.has_image then c.items else c.items ++ text_item result ∷ [])
  finish_content result (threw what, c) =
      returned (if c.has_image then c.items else c.items ++ text_item result ∷ [])

  unfoldable pub content_of : Text → Outcome (List J)
  unfolding read_image finish_content
  content_of result =
      finish_content result (read_image result (record { items = []; has_image = false }))

  unfoldable pub answer : List J → Bool → J
  answer items is_error =
      api.object ((text "content", api.array items) ∷ (text "isError", api.bool is_error) ∷ [])

  -- Step 4: the result of the tool, or its error as a result that is marked.
  unfoldable pub send_tool_result : J → ToolResult → Exec (Server J) (Unit {0})
  unfolding content_of answer text_item
  send_tool_result id (ok result) = do
    items ← lift (content_of result)
    send_result api id (answer items false)
  send_tool_result id (err e) = send_result api id (answer (text_item e ∷ []) true)

  unfoldable pub send_cancelled : J → Exec (Server J) (Unit {0})
  send_cancelled id = send_error api id request_cancelled (text "Request cancelled by client")

  -- Steps 3 and 4, once the tool has come back.
  unfoldable pub respond : Call J → ToolResult → Exec (Server J) (Unit {0})
  unfolding send_tool_result send_cancelled
  respond call result s =
      if is_cancelled call.object s
      then send_cancelled call.id s
      else send_tool_result call.id result s

  -- Steps 1 to 4. Step 5 only waits.
  unfoldable pub call_body : (Server J → Server J) → StopToken → Call J → Exec (Server J) (Unit {0})
  unfolding respond
  call_body during token call s =
      if is_cancelled call.object s
      then send_cancelled call.id s
      else respond call (dispatch s.registry call.tool_name call.args token) (during s)

  unfoldable pub handle_exception : Call J → Outcome (Unit {0}) → Exec (Server J) (Unit {0})
  handle_exception call (returned _) = pure tt
  handle_exception call (threw what) =
      send_error api call.id internal_error (text "Internal error: " ++ what)
  handle_exception call threw_unknown =
      send_error api call.id internal_error (text "Unknown internal error")

  unfoldable pub finish_call :
      Call J → Outcome (Unit {0}) × Server J → Outcome (Unit {0}) × Server J
  unfolding release handle_exception
  finish_call call (o, s) = handle_exception call o (release call.key s)

  -- The whole lambda.
  unfoldable pub run_call : (Server J → Server J) → StopToken → Call J → Exec (Server J) (Unit {0})
  unfolding call_body finish_call
  run_call during token call s = finish_call call (call_body during token call s)
