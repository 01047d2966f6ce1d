-- ===== src/Registry/Dispatch.antt =====
-- src/core/ToolRegistry.cpp: the three ways to call a tool, and the description of the tools.
use win_bot.Base.{
  ℕ, ◌+◌, ◌-◌, ◌%◌, ◌^◌, Text, text, is_empty, find, rfind, take, drop, Option, none, some, [], ◌∷◌,
  ◌++◌, Outcome, returned, threw, threw_unknown, ◌>>=◌, ToolResult, err, lookup, if◌then◌else◌, map,
}
use win_bot.Json.{JsonApi}
use win_bot.Registry.{StopToken, Tool, ToolRegistry}

-- std::string::substr(start, count) for start <= size(); size_t wraps
abbrev pub substr : Text → ℕ → ℕ → Text
substr s start count = take count (drop start s)

abbrev pub size_t_mod : ℕ
size_t_mod = 2 ^ 64

-- The `try` around ITool::execute.
unfoldable pub catch_tool : Text → Outcome ToolResult → ToolResult
catch_tool tool_name (returned result) = result
catch_tool tool_name (threw what) = err (text "Tool '" ++ tool_name ++ text "' threw: " ++ what)
catch_tool tool_name threw_unknown =
    err (text "Tool '" ++ tool_name ++ text "' threw an unknown exception")

module _ {J : Type 0} where
  run_tool : Text → Option (Tool J) → J → StopToken → ToolResult
  unfolding catch_tool
  run_tool tool_name none args token = err (text "Unknown tool: '" ++ tool_name ++ text "'")
  run_tool tool_name (some tool) args token = catch_tool tool_name (tool.execute args token)

  -- dispatch(toolName, args, stopToken)
  unfoldable pub dispatch : ToolRegistry J → Text → J → StopToken → ToolResult
  unfolding run_tool
  dispatch r tool_name args token =
      if is_empty tool_name
      then err (text "Tool call missing 'tool' field")
      else run_tool tool_name (lookup tool_name r.index) args token

-- What is kept of a reply: from its first opening brace to its last closing one. The length is
-- a size_t, so it wraps where the last closing brace stands first.
unfoldable pub brace_span : Text → Option Text
brace_span s = elim (find s b'{') [
  | none ↦ none
  | some start ↦ elim (rfind s b'}') [
    | none ↦ none
    | some end ↦ some (substr s start ((end + size_t_mod - start + 1) % size_t_mod))
  ]
]

-- The handler of json::exception. Nothing else is thrown there, since a tool's own exceptions
-- are caught by `dispatch`.
unfoldable pub catch_json : Text → Outcome ToolResult → Outcome ToolResult
catch_json cleaned (returned result) = returned result
catch_json cleaned (threw what) =
    returned (err (text "JSON parse error: " ++ what ++ text " in: " ++ cleaned))
catch_json cleaned threw_unknown = threw_unknown

module _ {J : Type 0} (api : JsonApi J) where
  -- The member "args", when it is there and not null.
  call_args : J → Outcome J
  call_args call =
      if api.contains call (text "args")
      then api.at call (text "args")
        >>= (λ args. returned (if api.is_null args then api.object [] else args))
      else returned (api.object [])

  -- dispatch(toolCall, stopToken)
  unfoldable pub dispatch_call : ToolRegistry J → J → StopToken → Outcome ToolResult
  unfolding call_args
  dispatch_call r call token = api.value_text call (text "tool") [] >>= (λ tool_name.
      if is_empty tool_name
      then returned (err (text "Tool call missing 'tool' field"))
      else call_args call >>= (λ args. returned (dispatch r tool_name args token)))

  -- dispatchRaw
  unfoldable pub dispatch_raw : ToolRegistry J → Text → StopToken → Outcome ToolResult
  unfolding brace_span catch_json
  dispatch_raw r json_str token = elim (brace_span json_str) [
    | none ↦ returned (err (text "No JSON object found in: " ++ json_str))
    | some cleaned ↦ catch_json cleaned (api.parse cleaned >>= (λ call. dispatch_call r call token))
  ]

  tool_schema : Tool J → J
  tool_schema t = api.object (
      (text "name", api.string t.name)
      ∷ (text "description", api.string t.description)
      ∷ (text "schema", t.parameters_schema)
      ∷ [])

  -- buildToolsSchema
  unfoldable pub build_tools_schema : ToolRegistry J → J
  unfolding tool_schema
  build_tools_schema r = api.array (map tool_schema r.tools)
