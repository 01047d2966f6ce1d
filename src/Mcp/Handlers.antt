-- ===== src/Mcp/Handlers.antt =====
-- src/core/McpServer.cpp: processMessage and the handlers that it calls.
use win_bot.Base.{
  ◌+◌, Text, text, text_eq, is_empty, true, not, [], ◌∷◌, ◌++◌, returned, insert, if◌then◌else◌,
}
use win_bot.Base.Exec.{Exec, pure, lift, gets, modify, ◌>>=◌, ◌>>◌}
use win_bot.Json.{JsonApi}
use win_bot.Registry.{snapshot}
use win_bot.ThreadPool.{enqueue}
use win_bot.Mcp.Schema.{negotiated, read_client_info, tool_schemas, is_jsonrpc}
use win_bot.Mcp.{
  Server, cancel_request, invalid_request, method_not_found, invalid_params, not_initialized,
  send_result, send_error,
}

-- What handleToolsCall does under m_requestsMutex, and the enqueue, whose answer it drops.
unfoldable pub submit : {J : Type 0} → J → Text → J → Text → Exec (Server J) (Unit {0})
submit id tool_name args key = modify (λ s. record s {
  next_object = s.next_object + 1;
  active_requests = insert key s.next_object s.active_requests;
  pool =
      (enqueue
        (record { object = s.next_object; id = id; tool_name = tool_name; args = args; key = key })
        s.pool).0;
})

module _ {J : Type 0} (api : JsonApi J) where
  -- handleInitialize
  unfoldable pub initialize_result : Text → Server J → J
  initialize_result version s = api.object (
      (text "protocolVersion", api.string version)
      ∷ (
        text "capabilities",
        api.object ((text "tools", api.object ((text "listChanged", api.bool true) ∷ [])) ∷ []),
      )
      ∷ (
        text "serverInfo",
        api.object (
            (text "name", api.string s.cfg.server_name)
            ∷ (text "version", api.string s.cfg.server_version)
            ∷ []),
      )
      ∷ [])

  unfoldable pub handle_initialize : J → J → Exec (Server J) (Unit {0})
  unfolding initialize_result
  handle_initialize id params = do
    lift (read_client_info api params)
    client ← lift (api.value_text params (text "protocolVersion") [])
    result ← gets (initialize_result (negotiated client))
    send_result api id result
    modify (λ s. record s { initialized = true })

  unfoldable pub handle_tools_list : J → Exec (Server J) (Unit {0})
  handle_tools_list id = do
    ts ← gets (λ s. snapshot s.registry)
    schemas ← lift (tool_schemas api ts)
    send_result api id (api.object ((text "tools", api.array schemas) ∷ []))

  unfoldable pub handle_tools_call : J → J → Exec (Server J) (Unit {0})
  unfolding submit
  handle_tools_call id params = do
    tool_name ← lift (api.value_text params (text "name") [])
    if is_empty tool_name
        then send_error api id invalid_params (text "Missing 'name' in tools/call params")
        else (do
          args ← lift (api.value_json params (text "arguments") (api.object []))
          key ← lift (api.dump id)
          submit id tool_name args key)

  unfoldable pub handle_ping : J → Exec (Server J) (Unit {0})
  handle_ping id = send_result api id (api.object [])

  unfoldable pub handle_cancelled : J → Exec (Server J) (Unit {0})
  handle_cancelled params = do
    req_id ← lift (api.value_json params (text "requestId") api.null)
    key ← lift (api.dump req_id)
    modify (λ s. (cancel_request key s).0)

  unfoldable pub handle_notification : Text → J → Exec (Server J) (Unit {0})
  unfolding handle_cancelled
  handle_notification method params =
      if text_eq method (text "notifications/initialized")
      then pure tt
      else if text_eq method (text "notifications/cancelled")
      then handle_cancelled params
      else pure tt

  -- The methods that want an initialized server.
  unfoldable pub handle_method : Text → J → J → Exec (Server J) (Unit {0})
  unfolding handle_tools_list handle_tools_call
  handle_method method id params =
      if text_eq method (text "tools/list")
      then handle_tools_list id
      else if text_eq method (text "tools/call")
      then handle_tools_call id params
      else if text_eq method (text "resources/list")
      then send_result api id (api.object ((text "resources", api.array []) ∷ []))
      else if text_eq method (text "resources/templates/list")
      then send_result api id (api.object ((text "resourceTemplates", api.array []) ∷ []))
      else if text_eq method (text "prompts/list")
      then send_result api id (api.object ((text "prompts", api.array []) ∷ []))
      else send_error api id method_not_found (text "Method not found: '" ++ method ++ text "'")

  -- All methods but 'initialize' and 'ping' want an initialized server.
  unfoldable pub when_initialized : J → Exec (Server J) (Unit {0}) → Exec (Server J) (Unit {0})
  when_initialized id m s =
      if not s.initialized
      then send_error api id not_initialized
          (text "Server not initialized. Send 'initialize' first.") s
      else m s

  unfoldable pub handle_request : Text → J → J → Exec (Server J) (Unit {0})
  unfolding handle_method handle_initialize handle_ping when_initialized
  handle_request method id params =
      if is_empty method
      then send_error api id invalid_request (text "Invalid request: missing 'method' field")
      else if text_eq method (text "initialize")
      then handle_initialize id params
      else if text_eq method (text "ping")
      then handle_ping id
      else when_initialized id (handle_method method id params)

  -- The answer to a message with no "jsonrpc" of "2.0".
  unfoldable pub reject_envelope : J → Exec (Server J) (Unit {0})
  reject_envelope msg =
      if api.contains msg (text "id")
      then (do
        id ← lift (api.at msg (text "id"))
        if api.is_null id
            then pure tt
            else send_error api id invalid_request
                (text "Invalid request: missing or wrong 'jsonrpc' field"))
      else pure tt

  unfoldable pub process_message : J → Exec (Server J) (Unit {0})
  unfolding reject_envelope handle_notification handle_request
  process_message msg = do
    valid ← lift (is_jsonrpc api msg)
    if not valid then reject_envelope msg else (do
      method ← lift (api.value_text msg (text "method") [])
      id ← lift (if api.contains msg (text "id") then api.at msg (text "id") else returned api.null)
      params ← lift (api.value_json msg (text "params") (api.object []))
      if api.contains msg (text "id")
          then handle_request method id params
          else handle_notification method params)
