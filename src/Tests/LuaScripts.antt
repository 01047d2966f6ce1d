-- ===== src/Tests/LuaScripts.antt =====
-- src/services/LuaRuntime.cpp: a script with two tools, and what scripts may not do.
use win_bot.Base.{
  String, ℕ, suc, Text, text, text_eq, true, false, Option, none, some, is_some, List, [], ◌∷◌,
  ◌++◌, any, pos, returned, threw, err, show_nat, digits_of, ◌≡◌, refl,
}
use win_bot.Permission.Checks.{check_path, check_shell_command, is_dangerous}
use win_bot.FileTools.{Perms, path_check}
use win_bot.ShellTools.{Child, shell_check, run_command_tool}
use win_bot.LuaLoader.{Definition, failed}
use win_bot.LuaRuntime.{
  c_string, named, index, function, string, table, nil, Entries, end, entry, converted, get_index,
  get_field,
}
use win_bot.LuaRuntime.Running.{finished, gave, LuaState, reply, exec_file}
use win_bot.LuaRuntime.Loading.{
  end_index, parse_tools, parse_step, parse_tool_table, parameters_field, definition,
  load_tool_definitions,
}
use win_bot.LuaRuntime.Executing.{find_tool, execute_tool}
use win_bot.LuaRuntime.Executing.Naming.{find_tool-parse_tools}
use win_bot.LuaRuntime.Executing.Guarding.{refused_not_run}
use win_bot.LuaRuntime.Bindings.{lua_shell}
use win_bot.LuaRuntime.Bindings.Gating.{refused_starts_nothing}
use win_bot.Tests.JsonValue.{Value, field, object}
use win_bot.Tests.JsonValue
use win_bot.Tests.LuaRuntime.{api, lua}
use win_bot.Tests.Permission.{windows, rules}

-- One tool with a name, and one with a function alone.
abbrev tools : Entries
tools =
    entry (index (pos 1)) (table (entry (named (text "name")) (string (text "add")) end))
      (entry (index (pos 2)) (table (entry (named (text "execute")) (function 3) end)) end)

-- The state counts the scripts that were run; each returns the tools.
abbrev counting : LuaState ℕ
counting = record {
  run_text = λ n code. (finished (table tools ∷ []), suc n);
  run_file = λ n path. (finished (table tools ∷ []), suc n);
  set_args = λ n v. n;
  call = λ n f v. (gave nil nil, n);
  exists = λ path. returned true;
  filename = λ path. path;
  stem = λ path. text "t";
}

abbrev default_parameters : Value
default_parameters = object (
    field (text "type") (JsonValue.string (text "object"))
      (field (text "properties") (object JsonValue.end) JsonValue.end))

abbrev definition_of : String → Definition Value
definition_of name = record {
  name = text name;
  description = text "Lua tool loaded from t.lua";
  parameters = default_parameters;
}

abbrev definitions : List (Definition Value)
definitions = definition_of "add" ∷ definition_of "t_2" ∷ []

tools_parsed :
    parse_tools api lua 9 (text "t.lua") (text "t") (suc (end_index tools)) tools 1
    ≡ converted definitions
unfolding c_string parse_tools end_index parse_step parse_tool_table parameters_field definition
    get_index get_field text text_eq show_nat digits_of
tools_parsed = refl

-- The second tool goes by the stem of the file and its index.
find_tool-parse_tools_example :
    (found : Option Entries) × (find_tool api lua 9
        (text "t")
        (text "t_2")
        (suc (end_index tools))
        tools
        1
      ≡ converted found)
    × (is_some found ≡ any (λ d. text_eq d.name (text "t_2")) definitions)
unfolding text
find_tool-parse_tools_example =
    find_tool-parse_tools api lua 9 (text "t.lua") (text "t") (text "t_2") tools definitions refl
      tools_parsed

abbrev open_mode : Option Perms
open_mode = none

abbrev strict_mode : Option Perms
strict_mode = some (record { cfg = rules; mcp = true })

empty_refused : path_check windows strict_mode [] ≡ err (text "Path cannot be empty")
unfolding path_check check_path
empty_refused = refl

abbrev why_refused : Text
why_refused = text "Permission denied: " ++ text "Path cannot be empty"

refused_not_run_example :
    (exec_file api lua 9 counting windows strict_mode [] (some 0)
      ≡ reply (err why_refused) (some 0))
    × (load_tool_definitions api lua 9 counting windows strict_mode [] (some 0)
        ≡ reply (failed why_refused) (some 0))
    × (execute_tool api lua 9 counting
          (object JsonValue.end)
          windows
          strict_mode
          []
          (text "add")
          (some 0)
        ≡ reply (err why_refused) (some 0))
refused_not_run_example =
    refused_not_run api lua 9 counting windows strict_mode (object JsonValue.end) [] (text "add")
      (text "Path cannot be empty") 0 empty_refused

-- A world that counts the processes started.
abbrev launch : ℕ → Text → Child × ℕ
launch n line = (
  record {
    pipe = true;
    created = true;
    last_error = 0;
    started = 0;
    rounds = [];
    flushed = [];
    exit_code = 0;
  },
  suc n,
)

abbrev shell_args : Value
shell_args = object (field (text "cmd") (JsonValue.string (text "dir")) JsonValue.end)

abbrev why_rejected : Text
why_rejected =
    text "Command rejected "
    ++ (226 ∷ 128 ∷ 148 ∷ [])
    ++ text " confirmation required but unavailable in MCP mode: "
    ++ text "dir"

dir_refused : shell_check windows strict_mode (text "dir") ≡ err why_rejected
unfolding shell_check check_shell_command is_dangerous text
dir_refused = refl

refused_starts_nothing_example :
    (run_command_tool api launch windows strict_mode shell_args 0
      ≡ (some (returned (err why_rejected)), 0))
    × (lua_shell (λ x. pos x) launch windows strict_mode false (text "dir") nil 0
        ≡ (some (threw (text "Permission denied: " ++ why_rejected)), 0))
    × (lua_shell (λ x. pos x) launch windows strict_mode true (text "dir") nil 0
        ≡ (some (threw (text "Command execution blocked: KillSwitch triggered")), 0))
unfolding text text_eq
refused_starts_nothing_example =
    refused_starts_nothing api (λ x. pos x) launch windows strict_mode shell_args nil (text "dir")
      (text "cmd") why_rejected 0 refl refl dir_refused
