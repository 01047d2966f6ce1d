-- ===== src/Permission.antt =====
-- src/security/PermissionSystem.h and .cpp: the checks that run before a tool acts.
-- What Windows, std::filesystem, std::regex and the console do is the parameter `System`.
pub mod Paths
pub mod Checks
pub mod Subpath
pub mod Expand
pub mod Policy
pub mod Asking
pub mod Protected
use win_bot.Base.{Text, Bool, Option, List, Outcome, ℕ}

pub record Config : Type 0 where
  pub allowed_paths : List Text
  pub blocked_paths : List Text
  pub blocked_processes : List Text
  pub dangerous_cmd_patterns : List Text
  pub confirm_shell_commands : Bool
  pub confirm_file_delete : Bool
  pub confirm_process_kill : Bool
  pub disabled_tools : List Text

-- `env_var` is GetEnvironmentVariableW, `processes` a snapshot of the process table (`none` when it
-- cannot be taken), `compile` the constructor of std::regex with icase (`none` when it throws) and
-- what std::regex_search then answers, `answer` the line that the user types at a prompt.
pub record System : Type 0 where
  pub to_wide : Text → Text
  pub to_utf8 : Text → Text
  pub env_var : Text → Option Text
  pub weakly_canonical : Text → Outcome Text
  pub lexically_normal : Text → Text
  pub towlower : ℕ → ℕ
  pub processes : Option (List (ℕ × Text))
  pub compile : Text → Option (Text → Bool)
  pub answer : Text → Text
