-- ===== src/Permission/Checks.antt =====
-- src/security/PermissionSystem.cpp: the checks themselves. `mcp` is g_mcpMode.
use win_bot.Base.{
  ℕ, ◌+◌, ◌-◌, ◌*◌, ◌^◌, Text, text, text_eq, ends_with, is_empty, take, length, any, Bool, true,
  false, ◌&&◌, ◌||◌, not, Option, none, some, List, [], ◌∷◌, ◌++◌, returned, ToolResult, ok, err,
  leb, ltb, ◌==◌, if◌then◌else◌,
}
use win_bot.Common.{to_lower}
use win_bot.Permission.{Config, System}
use win_bot.Permission.Paths.{expand_env, is_subpath_or_equal}

-- The dash of the messages, in UTF-8.
abbrev em_dash : Text
em_dash = 226 ∷ 128 ∷ 148 ∷ []

-- The consent of a check: ok("").
abbrev pub granted : ToolResult
granted = ok []

-- std::from_chars into a DWORD: decimal digits and nothing else, the value below 2^32.
from_digits : ℕ → Text → Option ℕ
from_digits n [] = some n
from_digits n (c ∷ s) =
    let rest = from_digits (n * 10 + (c - b'0')) s in
    if leb b'0' c && leb c b'9' then rest else none

unfoldable pub parse_pid : Text → Option ℕ
unfolding from_digits
parse_pid s =
    if is_empty s
    then none
    else elim (from_digits 0 s) [ none ↦ none | some n ↦ if ltb n (2 ^ 32) then some n else none ]

abbrev pub dot_exe : Text
dot_exe = text ".exe"

abbrev parse_pid_is_zero : Text → Bool
parse_pid_is_zero s = elim (parse_pid s) [ none ↦ false | some n ↦ n == 0 ]

unfoldable pub matches_process : Text → Text → Bool
matches_process target blocked =
    if is_empty target || is_empty blocked
    then false
    else if text_eq target blocked
    then true
    else if not (ends_with target dot_exe) && text_eq (target ++ dot_exe) blocked
    then true
    else if ends_with target dot_exe && text_eq (take (length target - 4) target) blocked
    then true
    else false

-- The built-in patterns of checkShellCommand.
abbrev pub built_in_patterns : List Text
built_in_patterns =
    text "\\brm\\s+-rf\\b"
    ∷ text "\\bformat\\s+[a-zA-Z]:"
    ∷ text "\\bformat\\s+"
    ∷ text "\\bdel\\s+.*(/s|/f)\\b"
    ∷ text "\\b(rmdir|rd)\\s+.*(/s|/q)\\b"
    ∷ text "\\breg\\s+delete\\b"
    ∷ text "\\bRemove-Item\\b.*(-Recurse|-Force)"
    ∷ text "\\bdiskpart\\b"
    ∷ text "\\bbcdedit\\b"
    ∷ text "\\bvssadmin\\s+delete\\b"
    ∷ text "\\b(shutdown|Stop-Computer|Restart-Computer)\\b"
    ∷ text "\\bpowershell.*(-enc|-encodedcommand)\\b"
    ∷ []

module _ (sys : System) where
  -- promptUser
  unfoldable pub prompt_user : Bool → Text → ToolResult
  prompt_user mcp prompt =
      if mcp
      then err (
          text "Action denied "
          ++ em_dash
          ++ text " interactive confirmation unavailable in non-interactive/MCP mode")
      else let response = to_lower (sys.answer prompt) in
        if text_eq response (text "yes") || text_eq response (text "y")
        then granted
        else err (text "User denied permission")

  -- A path with its variables expanded, made canonical, or normalised if that throws.
  unfoldable pub resolve : Text → Text
  resolve path = elim (sys.weakly_canonical (sys.to_wide (expand_env sys path))) [
    | returned p ↦ p
    | _ ↦ sys.lexically_normal (sys.to_wide (expand_env sys path))
  ]

  -- Some listed directory holds the path.
  unfoldable pub is_within : List Text → Text → Bool
  unfolding resolve
  is_within dirs target = any (λ dir. is_subpath_or_equal sys (resolve dir) target) dirs

  unfoldable pub check_path : Config → Bool → Text → ToolResult
  unfolding is_within prompt_user
  check_path cfg mcp raw_path =
      if is_empty raw_path
      then err (text "Path cannot be empty")
      else let target = resolve raw_path in
        if is_within cfg.blocked_paths target
        then err (
            text "Access denied "
            ++ em_dash
            ++ text " path '"
            ++ raw_path
            ++ text "' is in a blocked directory")
        else elim cfg.allowed_paths [
          | [] ↦ granted
          | dir ∷ dirs ↦
              if is_within (dir ∷ dirs) target
              then granted
              else if mcp
              then err (
                  text "Access denied "
                  ++ em_dash
                  ++ text " path '"
                  ++ raw_path
                  ++ text "' is outside configured allowed paths (MCP non-interactive mode)")
              else prompt_user mcp (
                  text "WinBot wants to access '"
                  ++ raw_path
                  ++ text "' which is outside configured allowed paths. Allow?")
        ]

  -- The question about a deletion, once the path has passed.
  confirm_delete : Config → Bool → Text → ToolResult
  confirm_delete cfg mcp path =
      if cfg.confirm_file_delete
      then if mcp
        then err (
            text "File deletion rejected for '"
            ++ path
            ++ text "' "
            ++ em_dash
            ++ text " interactive confirmation unavailable in MCP mode")
        else prompt_user mcp (text "Delete file '" ++ path ++ text "'?")
      else granted

  unfoldable pub check_file_delete : Config → Bool → Text → ToolResult
  unfolding confirm_delete prompt_user
  check_file_delete cfg mcp path = elim (check_path cfg mcp path) [
    | ok _ ↦ confirm_delete cfg mcp path
    | err e ↦ err e
  ]

  -- The executable of a process: the first entry of the snapshot with its identifier.
  unfoldable pub find_process : ℕ → List (ℕ × Text) → Text
  find_process pid [] = []
  find_process pid ((id, exe) ∷ entries) =
      if id == pid then to_lower (sys.to_utf8 exe) else find_process pid entries

  unfoldable pub process_exe : Option ℕ → Text
  unfolding find_process
  process_exe none = []
  process_exe (some pid) = elim sys.processes [
    | none ↦ []
    | some entries ↦ find_process pid entries
  ]

  -- The process is one of those protected, by the name given or by the one of its executable.
  unfoldable pub is_protected : Config → Text → Bool
  unfolding matches_process process_exe
  is_protected cfg name =
      let exe = process_exe (parse_pid name) in
      any
        (λ blocked.
          matches_process (to_lower name) (to_lower blocked)
          || (not (is_empty exe) && matches_process exe (to_lower blocked)))
        cfg.blocked_processes

  abbrev pub is_kernel_pid : Option ℕ → Bool
  is_kernel_pid none = false
  is_kernel_pid (some pid) = pid == 0 || pid == 4

  unfoldable pub check_process : Config → Bool → Text → ToolResult
  unfolding prompt_user
  check_process cfg mcp name =
      if is_empty name
      then err (text "Process name or PID cannot be empty")
      else if is_kernel_pid (parse_pid name)
      then err (
          text "Cannot kill critical system process (PID "
          ++ (if parse_pid_is_zero name then text "0" else text "4")
          ++ text ")")
      else if is_protected cfg name
      then err (text "Cannot kill protected process '" ++ name ++ text "'")
      else if cfg.confirm_process_kill
      then if mcp
        then err (
            text "Killing process '"
            ++ name
            ++ text "' rejected "
            ++ em_dash
            ++ text " confirmation unavailable in MCP mode")
        else prompt_user mcp (text "WinBot wants to kill process '" ++ name ++ text "'. Allow?")
      else granted

  -- std::regex_search with a pattern; one that does not compile was dropped with a warning.
  unfoldable pub found_in : Text → Text → Bool
  found_in cmd pattern = elim (sys.compile pattern) [
    | none ↦ false
    | some search_in ↦ search_in cmd
  ]

  unfoldable pub is_dangerous : Config → Text → Bool
  unfolding found_in
  is_dangerous cfg cmd =
      any (found_in cmd) cfg.dangerous_cmd_patterns || any (found_in cmd) built_in_patterns

  unfoldable pub check_shell_command : Config → Bool → Text → ToolResult
  unfolding prompt_user
  check_shell_command cfg mcp cmd =
      if is_empty cmd
      then granted
      else if is_dangerous cfg cmd
      then if mcp
        then err (
            text "Command rejected "
            ++ em_dash
            ++ text " dangerous command pattern detected in non-interactive/MCP mode: "
            ++ cmd)
        else prompt_user mcp (
            text "WinBot wants to run a potentially dangerous command:\n  "
            ++ cmd
            ++ text "\nAllow?")
      else if cfg.confirm_shell_commands
      then if mcp
        then err (
            text "Command rejected "
            ++ em_dash
            ++ text " confirmation required but unavailable in MCP mode: "
            ++ cmd)
        else prompt_user mcp (text "WinBot wants to run:\n  " ++ cmd ++ text "\nAllow?")
      else granted

-- isToolEnabled
unfoldable pub is_tool_enabled : Config → Text → Bool
is_tool_enabled cfg name = not (any (λ t. text_eq t name) cfg.disabled_tools)
