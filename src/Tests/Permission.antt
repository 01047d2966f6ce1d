-- ===== src/Tests/Permission.antt =====
-- src/security/PermissionSystem.cpp at concrete paths and processes.
use win_bot.Base.{
  text, text_eq, is_empty, starts_with, ends_with, ◌≡◌, ◌≢◌, ◌↔◌, ◌⊎◌, refl, inl, inr, true, false,
  [], ◌∷◌, none, some, returned, Any,
}
use win_bot.Common.{ascii_lower, to_lower}
use win_bot.Permission.{Config, System}
use win_bot.Permission.Paths.{normal_form, is_subpath_or_equal}
use win_bot.Permission.Checks.{granted, check_path, check_process, process_exe, parse_pid}
use win_bot.Permission.Subpath.{Below, is_subpath_or_equal_iff}
use win_bot.Permission.Policy.{Inside, check_path_mcp}
use win_bot.Permission.Protected.{with_exe, Names, protected_refused}

-- A small Windows: one variable, one process, paths that are canonical as they stand.
abbrev pub windows : System
windows = record {
  to_wide = λ s. s;
  to_utf8 = λ s. s;
  env_var = λ name. some (text "C:\\Users\\me");
  weakly_canonical = λ p. returned p;
  lexically_normal = λ p. p;
  towlower = ascii_lower;
  processes = some ((812, text "LSASS.exe") ∷ []);
  compile = λ pattern. none;
  answer = λ prompt. text "yes";
}

abbrev pub rules : Config
rules = record {
  allowed_paths = text "C:\\Users\\me" ∷ [];
  blocked_paths = text "C:\\Windows" ∷ [];
  blocked_processes = text "lsass" ∷ [];
  dangerous_cmd_patterns = [];
  confirm_shell_commands = true;
  confirm_file_delete = true;
  confirm_process_kill = false;
  disabled_tools = [];
}

is_subpath_or_equal_iff_example :
    (is_subpath_or_equal windows (text "C:\\Users") (text "c:/users/me") ≡ true) ↔ (
      (is_empty (text "C:\\Users") ≡ false)
      × (is_empty (text "c:/users/me") ≡ false)
      × Below (normal_form windows (text "C:\\Users")) (normal_form windows (text "c:/users/me")))
is_subpath_or_equal_iff_example =
    is_subpath_or_equal_iff windows (text "C:\\Users") (text "c:/users/me")

-- Case and slashes do not matter, and a sibling with a longer name is no subdirectory.
subpath_runs :
    (is_subpath_or_equal windows (text "C:\\Users") (text "c:/users/me/") ≡ true)
    × (is_subpath_or_equal windows (text "C:\\Users") (text "C:\\Users2") ≡ false)
    × (is_subpath_or_equal windows (text "C:") (text "c:\\any") ≡ true)
unfolding is_subpath_or_equal normal_form text ascii_lower text_eq starts_with ends_with
subpath_runs = (refl, refl, refl)

check_path_mcp_example : (check_path windows rules true (text "C:\\Users\\me\\a.txt") ≡ granted) ↔ (
    (is_empty (text "C:\\Users\\me\\a.txt") ≡ false)
    × (¬ Any (Inside windows (text "C:\\Users\\me\\a.txt")) rules.blocked_paths)
    × ((rules.allowed_paths ≡ [])
        ⊎ Any (Inside windows (text "C:\\Users\\me\\a.txt")) rules.allowed_paths))
check_path_mcp_example = check_path_mcp windows rules (text "C:\\Users\\me\\a.txt")

-- The process 812 runs a protected executable.
lsass_named : Names windows (text "812") (text "lsass")
unfolding process_exe parse_pid to_lower ascii_lower text
lsass_named = record { listed = refl; meant = inr (refl, with_exe refl) }

protected_refused_example : check_process windows rules false (text "812") ≢ granted
protected_refused_example = protected_refused windows rules false (text "812") (inl lsass_named)
