-- ===== src/Tests/EntryPoint.antt =====
-- src/main.cpp at a configuration that disables a group, and at one that is no JSON.
use win_bot.Base.{
  Text, text, text_eq, true, false, not, any, none, List, [], ◌∷◌, ◌++◌, lookup, Outcome, returned,
  threw, ◌>>=◌, ◌≡◌, refl,
}
use win_bot.Json.{JsonApi}
use win_bot.Permission.{Config}
use win_bot.Permission.Checks.{is_tool_enabled}
use win_bot.EntryPoint.{
  present, texts_of, text_list, permissions, build_perm_config, expand_disabled, add_names,
  tool_groups, load_config, Places,
}
use win_bot.EntryPoint.Groups.{disables, is_tool_enabled-build_perm_config}
use win_bot.EntryPoint.Defaults.{EmptyObject, unprotected, invalid_config_unprotected}
use win_bot.Tests.JsonValue.{Value, string, array, object, cons, nil, end, field, value_api}
use win_bot.Tests.JsonLaws.{dump_text}

abbrev api : JsonApi Value
api = value_api (λ s. threw s) (λ j. returned (dump_text j))

abbrev get_text : Value → Outcome Text
get_text (string s) = returned s
get_text _ = threw (text "type_error")

-- { "disabled_tools": ["files", "key"] }
abbrev config : Value
config = object (
    field (text "disabled_tools")
      (array (cons (string (text "files")) (cons (string (text "key")) nil))) end)

abbrev items : List Text
items = text "files" ∷ text "key" ∷ []

abbrev built : Config
built = record {
  allowed_paths = [];
  blocked_paths = [];
  blocked_processes = [];
  dangerous_cmd_patterns = [];
  confirm_shell_commands = true;
  confirm_file_delete = true;
  confirm_process_kill = true;
  disabled_tools =
      text "read_file"
      ∷ text "write_file"
      ∷ text "append_file"
      ∷ text "list_directory"
      ∷ text "delete_file"
      ∷ text "copy_file"
      ∷ text "key"
      ∷ [];
}

is_tool_enabled-build_perm_config_example :
    is_tool_enabled built (text "copy_file") ≡ not (any (disables (text "copy_file")) items)
unfolding text_list texts_of build_perm_config permissions expand_disabled add_names tool_groups
    lookup text text_eq
is_tool_enabled-build_perm_config_example =
    is_tool_enabled-build_perm_config api get_text config items built (text "copy_file") refl refl

abbrev no_disk : Places
no_disk = record {
  exists = λ p. text_eq p (text "C:/src/data");
  is_absolute = λ p. false;
  join = λ dir sub. dir ++ text "/" ++ sub;
  parent = λ dir. text "C:/src";
  winbot_root = none;
  current = text "D:";
}

api-EmptyObject : EmptyObject api
api-EmptyObject = record {
  no_json = λ name default. refl;
  no_bool = λ name default. refl;
  no_elements = refl;
}

invalid_config_unprotected_example :
    ((load_config api get_text (present (threw (text "parse error")))).0
      >>= build_perm_config api get_text)
    ≡ returned unprotected
invalid_config_unprotected_example =
    invalid_config_unprotected api get_text api-EmptyObject (text "parse error")
