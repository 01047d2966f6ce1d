-- ===== src/EntryPoint.antt =====
-- src/main.cpp: where the program looks for its files, what it makes of config.json, and the
-- permissions that follow.
pub mod Groups
pub mod Finding
pub mod Defaults
use win_bot.Base.{
  ℕ, zero, suc, ◌+◌, ◌*◌, min, Text, text, text_eq, is_empty, String, length, Bool, true, false,
  not, ◌&&◌, Option, none, some, List, [], ◌∷◌, ◌++◌, map, any, Map, lookup, ℤ, pos, Outcome,
  returned, threw, threw_unknown, ◌>>=◌, ◌==◌, if◌then◌else◌,
}
use win_bot.Json.{JsonApi}
use win_bot.Permission.{Config}

-- config.json: absent, or what json::parse makes of it.
pub data ConfigFile (J : Type 0) : Type 0 where
  missing : ConfigFile J
  present : Outcome J → ConfigFile J

-- The groups of disabled_tools
unfoldable pub tool_groups : Map (List Text)
tool_groups =
    (text "shell", text "run_command" ∷ [])
    ∷ (
      text "files",
      text "read_file"
          ∷ text "write_file"
          ∷ text "append_file"
          ∷ text "list_directory"
          ∷ text "delete_file"
          ∷ text "copy_file"
          ∷ [],
    )
    ∷ (
      text "browser",
      text "browser_navigate"
          ∷ text "browser_click"
          ∷ text "browser_type"
          ∷ text "browser_get_dom"
          ∷ text "browser_eval"
          ∷ [],
    )
    ∷ (
      text "input",
      text "click"
          ∷ text "double_click"
          ∷ text "drag"
          ∷ text "scroll"
          ∷ text "type"
          ∷ text "key"
          ∷ [],
    )
    ∷ (text "screen", text "screenshot" ∷ text "screenshot_window" ∷ text "screenshot_element" ∷ [])
    ∷ (
      text "windows",
      text "focus_window"
          ∷ text "close_window"
          ∷ text "get_window_list"
          ∷ text "ui_scan"
          ∷ text "ui_scan_window"
          ∷ [],
    )
    ∷ (text "process", text "kill_process" ∷ text "get_processes" ∷ [])
    ∷ (text "web", text "http_get" ∷ text "search_web" ∷ [])
    ∷ (text "system", text "get_system_info" ∷ text "get_cursor_position" ∷ [])
    ∷ []

-- std::set::emplace
abbrev pub add_name : Text → List Text → List Text
add_name name names = if any (λ t. text_eq t name) names then names else names ++ name ∷ []

unfoldable pub add_names : List Text → List Text → List Text
add_names [] names = names
add_names (name ∷ more) names = add_names more (add_name name names)

abbrev pub tools_of : Text → Option (List Text) → List Text
tools_of item none = item ∷ []
tools_of item (some tools) = tools

-- The loop over disabled_tools, with its groups expanded.
unfoldable pub expand_disabled : List Text → List Text → List Text
unfolding add_names
expand_disabled [] names = names
expand_disabled (item ∷ items) names =
    expand_disabled items (add_names (tools_of item (lookup item tool_groups)) names)

-- `get_text` is the conversion of a JSON value to a std::string.
module _ {J : Type 0} (api : JsonApi J) (get_text : J → Outcome Text) where
  unfoldable pub texts_of : List J → Outcome (List Text)
  texts_of [] = returned []
  texts_of (j ∷ js) = get_text j >>= λ t. texts_of js >>= λ ts. returned (t ∷ ts)

  -- A member that is a list of texts, empty where there is none.
  unfoldable pub text_list : J → String → Outcome (List Text)
  unfolding texts_of
  text_list j name = api.value_json j (text name) (api.array []) >>= λ v. texts_of (api.elements v)

  -- The member "permission", with no tool disabled yet.
  unfoldable pub permissions : J → Outcome Config
  unfolding text_list
  permissions p = text_list p "allowed_paths" >>= λ allowed_paths.
      text_list p "blocked_paths" >>= λ blocked_paths.
      text_list p "blocked_processes" >>= λ blocked_processes.
      text_list p "dangerous_cmd_patterns" >>= λ patterns.
      api.value_bool p (text "confirm_shell_commands") true >>= λ shell.
      api.value_bool p (text "confirm_file_delete") true >>= λ delete.
      api.value_bool p (text "confirm_process_kill") true >>= λ kill. returned (record {
        allowed_paths = allowed_paths;
        blocked_paths = blocked_paths;
        blocked_processes = blocked_processes;
        dangerous_cmd_patterns = patterns;
        confirm_shell_commands = shell;
        confirm_file_delete = delete;
        confirm_process_kill = kill;
        disabled_tools = [];
      })

  unfoldable pub build_perm_config : J → Outcome Config
  unfolding permissions text_list expand_disabled
  build_perm_config cfg = api.value_json cfg (text "permission") (api.object []) >>= λ p.
      permissions p >>= λ perm. text_list cfg "disabled_tools" >>= λ disabled.
      returned (record perm { disabled_tools = expand_disabled disabled [] })

  abbrev strings : List String → J
  strings names = api.array (map (λ name. api.string (text name)) names)

  unfoldable pub default_permission : J
  default_permission = api.object (
      (text "allowed_paths", strings ("%USERPROFILE%" ∷ "%APPDATA%" ∷ "%TEMP%" ∷ []))
      ∷ (
        text "blocked_paths",
        strings (
            "C:\\Windows\\System32" ∷ "C:\\Windows\\SysWOW64" ∷ "%USERPROFILE%\\.ssh"
            ∷ "%USERPROFILE%\\.aws" ∷ []),
      )
      ∷ (
        text "blocked_processes",
        strings ("winlogon.exe" ∷ "csrss.exe" ∷ "smss.exe" ∷ "lsass.exe" ∷ "services.exe" ∷ []),
      )
      ∷ (
        text "dangerous_cmd_patterns",
        strings (
            "rm -rf" ∷ "format " ∷ "del /f /s /q" ∷ "reg delete" ∷ "diskpart" ∷ "bcdedit"
            ∷ "shutdown" ∷ "Stop-Computer" ∷ []),
      )
      ∷ (text "confirm_shell_commands", api.bool true)
      ∷ (text "confirm_file_delete", api.bool true)
      ∷ (text "confirm_process_kill", api.bool true)
      ∷ [])

  unfoldable pub default_config : J
  unfolding default_permission
  default_config = api.object (
      (text "kill_hotkey", api.string (text "Ctrl+Alt+X"))
      ∷ (text "action_delay_ms", api.int (pos 200))
      ∷ (text "browser_cdp_port", api.int (pos 9222))
      ∷ (text "browser_exe", api.string [])
      ∷ (text "lua_tools_dir", api.string (text "data/tools"))
      ∷ (text "mcp_servers", api.array [])
      ∷ (text "scheduled_tasks", api.array [])
      ∷ (text "permission", default_permission)
      ∷ (text "disabled_tools", api.array [])
      ∷ [])

  -- The configuration, and what is written to the file, if anything. An exception of the JSON
  -- library is a std::exception.
  unfoldable pub load_config : ConfigFile J → Outcome J × Option J
  unfolding default_config
  load_config missing = (returned default_config, some default_config)
  load_config (present (returned cfg)) = (returned cfg, none)
  load_config (present (threw what)) = (returned (api.object []), none)
  load_config (present threw_unknown) = (threw_unknown, none)

-- The directories that main adds to the allowed paths, and the confirmations that it turns off in
-- MCP mode; `data_dir` is none where it does not exist.
unfoldable pub main_config : Bool → Text → Option Text → Text → Text → Config → Config
main_config mcp exe_dir data_dir profiles_dir lua_dir cfg = record cfg {
  allowed_paths =
      cfg.allowed_paths ++ exe_dir ∷ [] ++ or_nothing data_dir ++ profiles_dir ∷ lua_dir ∷ [];
  confirm_shell_commands = if mcp then false else cfg.confirm_shell_commands;
  confirm_file_delete = if mcp then false else cfg.confirm_file_delete;
  confirm_process_kill = if mcp then false else cfg.confirm_process_kill;
}
  where
    or_nothing : Option Text → List Text
    or_nothing none = []
    or_nothing (some dir) = dir ∷ []

-- std::filesystem and the environment, as resolveAppPath asks them.
pub record Places : Type 0 where
  pub exists : Text → Bool
  pub is_absolute : Text → Bool
  pub join : Text → Text → Text
  pub parent : Text → Text
  pub winbot_root : Option Text
  pub current : Text

module _ (places : Places) where
  -- The search through the parents of a directory, `n` of them.
  unfoldable pub in_parents : ℕ → Text → Text → Option Text
  in_parents zero dir sub = none
  in_parents (suc n) dir sub =
      let above = places.parent dir in
      let rest = in_parents n above sub in
      if places.exists (places.join above sub) then some (places.join above sub) else rest

  abbrev or_exe_dir : Text → Text → Option Text → Text
  or_exe_dir exe_dir sub none = places.join exe_dir sub
  or_exe_dir exe_dir sub (some path) = path

  from_current : Text → Text → Text
  unfolding in_parents
  from_current exe_dir sub =
      if places.exists (places.join places.current sub)
      then places.join places.current sub
      else or_exe_dir exe_dir sub (in_parents 3 exe_dir sub)

  from_root : Text → Text → Option Text → Text
  unfolding from_current
  from_root exe_dir sub none = from_current exe_dir sub
  from_root exe_dir sub (some root) =
      if not (is_empty root) && places.exists (places.join root sub)
      then places.join root sub
      else from_current exe_dir sub

  unfoldable pub resolve_app_path : Text → Text → Text
  unfolding from_root
  resolve_app_path exe_dir sub =
      if places.is_absolute sub && places.exists sub
      then sub
      else if places.exists (places.join exe_dir sub)
      then places.join exe_dir sub
      else from_root exe_dir sub places.winbot_root

-- The loop of getExecutableDir, which doubles the buffer until the name fits with its end; `fuel`
-- bounds the calls of GetModuleFileNameW.
unfoldable pub module_file_name : ℕ → ℕ → Text → Option Text
module_file_name zero size name = none
module_file_name (suc fuel) size name =
    let rest = module_file_name fuel (size * 2) name in
    if min (length name) size == size then rest else some name

-- getExecutableDir; an empty name is the failure of the call, for which the current directory
-- stands in. The buffer starts with MAX_PATH characters.
unfoldable pub get_executable_dir : Places → ℕ → Text → Option Text
unfolding module_file_name
get_executable_dir places fuel name = dir_of (module_file_name fuel 260 name)
  where
    dir_of : Option Text → Option Text
    dir_of none = none
    dir_of (some found) = some (if is_empty found then places.current else places.parent found)
