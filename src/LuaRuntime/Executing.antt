-- ===== src/LuaRuntime/Executing.antt =====
-- src/services/LuaRuntime.cpp: executeTool.
pub mod Naming
pub mod Guarding
use win_bot.Base.{
  ℕ, zero, suc, ◌+◌, Text, text, text_eq, is_empty, Bool, true, false, not, ◌&&◌, ◌||◌, Option,
  none, some, List, [], ◌∷◌, ◌++◌, pos, Outcome, returned, ToolResult, ok, err, if◌then◌else◌,
}
use win_bot.Json.{JsonApi}
use win_bot.Permission.{System}
use win_bot.FileTools.{Perms}
use win_bot.LuaRuntime.{
  LuaValue, nil, boolean, table, function, Entries, LuaApi, Conversion, converted, unfinished,
  panicked, follow, get_index, get_field, is_string, to_string, push_json,
}
use win_bot.LuaRuntime.Running.{
  Ran, stopped, finished, Called, raised, gave, LuaState, Reply, with_state, guarded, error_text,
  extracted_stack,
}
use win_bot.LuaRuntime.Loading.{top, as_table, is_array_of_tools, numbered, end_index, string_field}

-- nil or false
abbrev is_falsy : LuaValue → Bool
is_falsy nil = true
is_falsy (boolean b) = not b
is_falsy _ = false

module _ {J : Type 0} (api : JsonApi J) (lua : LuaApi J) (fuel : ℕ) where
  -- What a function of a tool gave: nil or false with a string is an error.
  unfoldable pub called_result : Text → Called → Conversion (Outcome ToolResult)
  unfolding error_text extracted_stack
  called_result otherwise (raised v) =
      converted (returned (err (error_text api lua fuel otherwise v)))
  called_result otherwise (gave first second) =
      if is_falsy first && is_string second
      then converted (returned (err (to_string api lua second)))
      else extracted_stack api lua fuel (first ∷ [])

  -- The tool at index `i` is the one that is asked for.
  unfoldable pub is_asked : Text → Text → ℕ → Entries → Bool
  unfolding get_field
  is_asked stem name i tool =
      let n = string_field api lua fuel tool (text "name") in
      text_eq n name || (is_empty n && text_eq name (numbered stem i))

  -- One turn of the loop, on what lua_istable tells of the item.
  unfoldable pub find_step :
      Text → Text → ℕ → Option Entries → Conversion (Option Entries) → Conversion (Option Entries)
  unfolding is_asked
  find_step stem name i none rest = converted none
  find_step stem name i (some tool) rest =
      if is_asked stem name i tool then converted (some tool) else rest

  -- The loop over the tools from index `i`.
  unfoldable pub find_tool : Text → Text → ℕ → Entries → ℕ → Conversion (Option Entries)
  unfolding find_step get_index
  find_tool stem name zero es i = unfinished
  find_tool stem name (suc n) es i =
      find_step stem name i (as_table (get_index es (pos i))) (find_tool stem name n es (suc i))

  module _ {S : Type 0} (state : LuaState S) (args : J) where
    call_function : Text → ℕ → S → Reply S ToolResult
    unfolding called_result push_json
    call_function otherwise f s =
        let (called, s') = state.call s f (push_json api lua args) in
        (called_result otherwise called, s')

    -- executeFunctionAt; `otherwise` is for a table without a function `execute`.
    execute_function_at : Entries → (S → Reply S ToolResult) → S → Reply S ToolResult
    unfolding call_function get_field
    execute_function_at tool otherwise s = elim (get_field tool (text "execute")) [
      | function f ↦ call_function (text "Lua execution error in tool.execute") f s
      | _ ↦ otherwise s
    ]

    -- `return ok(extractReturnValue());` at the end.
    give : List LuaValue → S → Reply S ToolResult
    unfolding extracted_stack
    give stack s = (extracted_stack api lua fuel stack, s)

    -- The tool that was found, if any.
    execute_found : Text → List LuaValue → Conversion (Option Entries) → S → Reply S ToolResult
    unfolding execute_function_at give
    execute_found name stack panicked s = (panicked, s)
    execute_found name stack unfinished s = (unfinished, s)
    execute_found name stack (converted none) s = give stack s
    execute_found name stack (converted (some tool)) s =
        execute_function_at tool
          (λ s'. (
            converted (
                returned
                  (err (text "Tool '" ++ name ++ text "' does not have an execute function"))),
            s',
          ))
          s

    execute_in : Text → Text → List LuaValue → Entries → S → Reply S ToolResult
    unfolding execute_found find_tool end_index
    execute_in stem name stack es s =
        execute_found name stack (find_tool stem name (suc (end_index es)) es 1) s

    execute_under : Text → Text → List LuaValue → Entries → LuaValue → S → Reply S ToolResult
    unfolding execute_in execute_function_at give
    execute_under stem name stack es (table tools) s = execute_in stem name stack tools s
    execute_under stem name stack es _ s = execute_function_at es (give stack) s

    execute_returned : Text → Text → List LuaValue → LuaValue → S → Reply S ToolResult
    unfolding execute_in execute_under call_function give is_array_of_tools get_field
    execute_returned stem name stack (table es) s =
        if is_array_of_tools es
        then execute_in stem name stack es s
        else execute_under stem name stack es (get_field es (text "tools")) s
    execute_returned stem name stack (function f) s = call_function (text "Lua execution error") f s
    execute_returned stem name stack _ s = give stack s

    execute_ran : Text → Text → Ran × S → Reply S ToolResult
    unfolding execute_returned error_text
    execute_ran stem name (stopped v, s) =
        (converted (returned (err (error_text api lua fuel (text "Lua execution error") v))), s)
    execute_ran stem name (finished stack, s) = execute_returned stem name stack (top stack) s

    unfoldable pub execute_tool :
        System → Option Perms → Text → Text → Option S → Reply (Option S) ToolResult
    unfolding with_state guarded execute_ran push_json
    execute_tool sys perms path name = with_state (err (text "Lua state is null")) (
        guarded state sys perms err path (λ s.
          execute_ran (state.stem path) name
            (state.run_file (state.set_args s (push_json api lua args)) path)))
