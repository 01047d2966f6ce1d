-- ===== src/Mcp/Schema.antt =====
-- src/core/McpServer.cpp: what the handlers read from JSON, and the schema of a tool. None of it
-- touches the server; each part may throw.
use win_bot.Base.{
  Text, text, text_eq, Bool, false, ◌||◌, List, [], ◌∷◌, Outcome, returned, ◌>>=◌, if◌then◌else◌,
}
use win_bot.Json.{JsonApi}
use win_bot.Registry.{Tool}

abbrev pub negotiated : Text → Text
negotiated client =
    if text_eq client (text "2025-03-26")
      || (text_eq client (text "2025-06-18") || text_eq client (text "2025-11-25"))
    then client
    else text "2024-11-05"

module _ {J : Type 0} (api : JsonApi J) where
  -- The client's name and version, which are read to be logged.
  unfoldable pub read_client_info : J → Outcome (Unit {0})
  read_client_info params =
      if api.contains params (text "clientInfo")
      then api.at params (text "clientInfo") >>= (λ ci.
        api.value_text ci (text "name") (text "unknown")
        >>= (λ _. api.value_text ci (text "version") (text "?") >>= (λ _. returned tt)))
      else returned tt

  unfoldable pub schema_member : J → Text → J → Outcome J
  schema_member params name default =
      if api.contains params name then api.at params name else returned default

  unfoldable pub input_schema : J → Outcome J
  unfolding schema_member
  input_schema params = schema_member params (text "properties") (api.object []) >>= (λ properties.
      if api.contains params (text "required")
      then api.at params (text "required") >>= (λ required. returned (
          api.object (
            (text "type", api.string (text "object"))
            ∷ (text "properties", properties)
            ∷ (text "required", required)
            ∷ [])))
      else returned (
          api.object
            ((text "type", api.string (text "object")) ∷ (text "properties", properties) ∷ [])))

  unfoldable pub tool_to_mcp_schema : Tool J → Outcome J
  unfolding input_schema
  tool_to_mcp_schema t = input_schema t.parameters_schema >>= (λ schema. returned (
      api.object (
        (text "name", api.string t.name)
        ∷ (text "description", api.string t.description)
        ∷ (text "inputSchema", schema)
        ∷ [])))

  unfoldable pub tool_schemas : List (Tool J) → Outcome (List J)
  unfolding tool_to_mcp_schema
  tool_schemas [] = returned []
  tool_schemas (t ∷ ts) =
      tool_to_mcp_schema t
      >>= (λ schema. tool_schemas ts >>= (λ schemas. returned (schema ∷ schemas)))

  unfoldable pub is_jsonrpc : J → Outcome Bool
  is_jsonrpc msg =
      if api.contains msg (text "jsonrpc")
      then api.at msg (text "jsonrpc") >>= (λ v. returned (api.equals_text v (text "2.0")))
      else returned false
