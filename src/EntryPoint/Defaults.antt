-- ===== src/EntryPoint/Defaults.antt =====
-- src/main.cpp: what a config.json that is no JSON, and the MCP mode, do to the permissions.
use win_bot.Base.{
  String, Text, text, is_empty, Bool, true, not, ◌||◌, Bool-cases, Option, [], Outcome, returned,
  threw, ◌>>=◌, ◌≡◌, ◌↔◌, refl, inl, inr,
}
use win_bot.Json.{JsonApi}
use win_bot.Permission.{Config, System}
use win_bot.Permission.Checks.{granted, check_shell_command, is_dangerous}
use win_bot.EntryPoint.{
  present, texts_of, text_list, permissions, build_perm_config, expand_disabled, load_config,
  main_config,
}

-- What the JSON library documents of `value` on an object without members, and of an empty array.
pub record EmptyObject {J : Type 0} (api : JsonApi J) : Type 0 where
  pub no_json :
      (name : Text) (default : J) → api.value_json (api.object []) name default ≡ returned default
  pub no_bool :
      (name : Text) (default : Bool)
      → api.value_bool (api.object []) name default ≡ returned default
  pub no_elements : api.elements (api.array []) ≡ []

abbrev pub unprotected : Config
unprotected = record {
  allowed_paths = [];
  blocked_paths = [];
  blocked_processes = [];
  dangerous_cmd_patterns = [];
  confirm_shell_commands = true;
  confirm_file_delete = true;
  confirm_process_kill = true;
  disabled_tools = [];
}

module _ {J : Type 0} (api : JsonApi J) (get_text : J → Outcome Text) (laws : EmptyObject api) where
  text_list_empty : (name : String) → text_list api get_text (api.object []) name ≡ returned []
  unfolding text_list texts_of
  text_list_empty name = rw (laws.no_json (text name) (api.array [])) (rw laws.no_elements refl)

  permissions_empty : permissions api get_text (api.object []) ≡ returned unprotected
  unfolding permissions
  permissions_empty =
      rw
        (
          text_list_empty "allowed_paths",
          text_list_empty "blocked_paths",
          text_list_empty "blocked_processes",
          text_list_empty "dangerous_cmd_patterns",
          laws.no_bool (text "confirm_shell_commands") true,
          laws.no_bool (text "confirm_file_delete") true,
          laws.no_bool (text "confirm_process_kill") true,
        )
        refl

  -- A config.json that does not parse gives no defaults but an empty configuration: no path and no
  -- process is blocked, no command pattern is dangerous, and no tool is disabled.
  pub invalid_config_unprotected :
      (what : Text)
      → ((load_config api get_text (present (threw what))).0 >>= build_perm_config api get_text)
        ≡ returned unprotected
  unfolding load_config build_perm_config permissions expand_disabled
  invalid_config_unprotected what =
      rw
        (
          laws.no_json (text "permission") (api.object []),
          permissions_empty,
          text_list_empty "disabled_tools",
        )
        refl

-- In MCP mode a command is allowed exactly when it is empty or no pattern finds it dangerous,
-- whatever config.json says of confirmations: no other command needs one.
pub check_shell_command-main_config :
    (sys : System) (cfg : Config) (exe_dir profiles_dir lua_dir cmd : Text) (data_dir : Option Text)
    → let config = main_config true exe_dir data_dir profiles_dir lua_dir cfg in
      (check_shell_command sys config true cmd ≡ granted)
      ↔ ((is_empty cmd || not (is_dangerous sys cfg cmd)) ≡ true)
unfolding check_shell_command main_config is_dangerous
check_shell_command-main_config sys cfg exe_dir profiles_dir lua_dir cmd data_dir =
    elim (Bool-cases (is_empty cmd)) [
      | inl e ↦ rw e ((λ h. refl), (λ h. refl))
      | inr e ↦ rw e (elim (Bool-cases (is_dangerous sys cfg cmd)) [
        | inl f ↦ rw f ((λ h. absurd cc), (λ h. absurd cc))
        | inr f ↦ rw f ((λ h. refl), (λ h. refl))
      ])
    ]
