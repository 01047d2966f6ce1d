-- ===== src/LuaRuntime/Loading.antt =====
-- src/services/LuaRuntime.cpp: parseToolTable and loadToolDefinitions.
use win_bot.Base.{
  ℕ, zero, suc, max, Text, text, is_empty, show_nat, Bool, true, false, ◌||◌, Option, none, some,
  List, [], ◌∷◌, ◌++◌, pos, Outcome, returned, if◌then◌else◌,
}
use win_bot.Json.{JsonApi}
use win_bot.Permission.{System}
use win_bot.FileTools.{Perms}
use win_bot.LuaLoader.{Definition, Loaded, loaded, failed}
use win_bot.LuaRuntime.{
  index, LuaValue, nil, table, function, Entries, end, entry, Node, json_null, json_array,
  json_object, LuaApi, Conversion, converted, unfinished, follow, get_index, get_field, is_string,
  to_string, value_to_json,
}
use win_bot.LuaRuntime.Running.{
  Ran, stopped, finished, LuaState, Reply, with_state, guarded, error_text,
}

-- The top of the stack; of an empty one, index -1 reads as nil.
abbrev pub top : List LuaValue → LuaValue
top [] = nil
top (v ∷ stack) = v

-- lua_istable
abbrev pub as_table : LuaValue → Option Entries
as_table (table es) = some es
as_table _ = none

abbrev pub is_function : LuaValue → Bool
is_function (function f) = true
is_function _ = false

-- The first item is a table with a function `execute` or a string `name`.
abbrev is_tool : LuaValue → Bool
is_tool (table es) =
    is_function (get_field es (text "execute")) || is_string (get_field es (text "name"))
is_tool _ = false

unfoldable pub is_array_of_tools : Entries → Bool
unfolding get_field get_index
is_array_of_tools es = is_tool (get_index es (pos 1))

-- `{}_{}`
abbrev pub numbered : Text → ℕ → Text
numbered stem i = stem ++ text "_" ++ show_nat i

-- One more than the greatest index with an entry: the loops over tools end there at the latest.
unfoldable pub end_index : Entries → ℕ
end_index end = 0
end_index (entry (index (pos i)) v es) = max (suc i) (end_index es)
end_index (entry _ v es) = end_index es

-- json::empty
abbrev empty_node : {J : Type 0} → Node J → Bool
empty_node json_null = true
empty_node (json_array []) = true
empty_node (json_object []) = true
empty_node _ = false

module _ {J : Type 0} (api : JsonApi J) (lua : LuaApi J) (fuel : ℕ) where
  -- A string field, empty where there is none.
  abbrev pub string_field : Entries → Text → Text
  string_field es name =
      let v = get_field es name in if is_string v then to_string api lua v else []

  default_parameters : J
  default_parameters =
      api.object
        ((text "type", api.string (text "object")) ∷ (text "properties", api.object []) ∷ [])

  abbrev pub or_default : Text → Text → Text
  or_default s default = if is_empty s then default else s

  -- `parameters`, or `schema`, where it is a table.
  unfoldable pub parameters_field : LuaValue → LuaValue → Conversion J
  unfolding value_to_json
  parameters_field (table es) schema = value_to_json api lua fuel (table es)
  parameters_field _ (table es) = value_to_json api lua fuel (table es)
  parameters_field _ _ = converted api.null

  -- The definition of a table, with its parameters as JSON.
  unfoldable pub definition : Text → Text → Entries → J → Definition J
  unfolding default_parameters get_field
  definition file default_name es ps = record {
    name = or_default (string_field es (text "name")) default_name;
    description =
        or_default (string_field es (text "description")) (text "Lua tool loaded from " ++ file);
    parameters = if empty_node (lua.node ps) then default_parameters else ps;
  }

  unfoldable pub parse_tool_table : Text → Text → Entries → Conversion (Definition J)
  unfolding parameters_field definition get_field
  parse_tool_table file default_name es =
      follow (parameters_field (get_field es (text "parameters")) (get_field es (text "schema")))
        (λ ps. converted (definition file default_name es ps))

  -- One turn of the loop, on what lua_istable tells of the item: a tool in front of the `rest`.
  unfoldable pub parse_step :
      Text
      → Text
      → ℕ
      → Option Entries
      → Conversion (List (Definition J))
      → Conversion (List (Definition J))
  unfolding parse_tool_table
  parse_step file stem i none rest = converted []
  parse_step file stem i (some tool) rest =
      follow (parse_tool_table file (numbered stem i) tool)
        (λ d. follow rest (λ ds. converted (d ∷ ds)))

  -- The loop over the tools from index `i`, up to the first item that is no table.
  unfoldable pub parse_tools : Text → Text → ℕ → Entries → ℕ → Conversion (List (Definition J))
  unfolding parse_step get_index
  parse_tools file stem zero es i = unfinished
  parse_tools file stem (suc n) es i =
      parse_step file stem i (as_table (get_index es (pos i))) (parse_tools file stem n es (suc i))

  pub plain_definition : Text → Text → Definition J
  unfolding default_parameters
  plain_definition file stem = record {
    name = stem;
    description = text "Lua tool loaded from " ++ file;
    parameters = default_parameters;
  }

  definitions_under : Text → Text → Entries → LuaValue → Conversion (List (Definition J))
  unfolding parse_tools end_index parse_tool_table
  definitions_under file stem es (table tools) =
      parse_tools file stem (suc (end_index tools)) tools 1
  definitions_under file stem es _ =
      follow (parse_tool_table file stem es) (λ d. converted (d ∷ []))

  unfoldable pub definitions_of : Text → Text → LuaValue → Conversion (List (Definition J))
  unfolding parse_tools definitions_under is_array_of_tools get_field end_index plain_definition
  definitions_of file stem (table es) =
      if is_array_of_tools es
      then parse_tools file stem (suc (end_index es)) es 1
      else definitions_under file stem es (get_field es (text "tools"))
  definitions_of file stem _ = converted (plain_definition file stem ∷ [])

  abbrev pub or_plain : Text → Text → List (Definition J) → List (Definition J)
  or_plain file stem [] = plain_definition file stem ∷ []
  or_plain file stem (d ∷ ds) = d ∷ ds

  unfoldable pub loaded_result : Text → Text → Ran → Conversion (Outcome (Loaded J))
  unfolding definitions_of error_text
  loaded_result file stem (stopped v) = converted (
      returned (
        failed (
          text "Failed to load script "
          ++ file
          ++ text ": "
          ++ error_text api lua fuel (text "Lua execution error") v)))
  loaded_result file stem (finished stack) =
      follow (definitions_of file stem (top stack))
        (λ ds. converted (returned (loaded (or_plain file stem ds))))

  module _ {S : Type 0} (state : LuaState S) (sys : System) (perms : Option Perms) where
    unfoldable pub load_tool_definitions : Text → Option S → Reply (Option S) (Loaded J)
    unfolding with_state guarded loaded_result
    load_tool_definitions path = with_state (failed (text "Lua state is null")) (
        guarded state sys perms failed path (λ s.
          let (ran, s') = state.run_file s path in
          (loaded_result (state.filename path) (state.stem path) ran, s')))
