-- ===== src/Permission/Asking.antt =====
-- src/security/PermissionSystem.cpp: in MCP mode no check asks the user.
use win_bot.Base.{
  ℕ, zero, suc, ◌+◌, Text, find, drop, length, ◌≡◌, refl, true, Option, none, some, List, [], ◌∷◌,
  arith, ◌==◌, if◌then◌else◌, Option-cases, inl, inr,
}
use win_bot.Permission.{Config, System}
use win_bot.Permission.Paths.{
  percent, placeholder, expand_from, expand_env, normal_form, is_subpath_or_equal,
}
use win_bot.Permission.Checks.{
  resolve, is_within, check_path, check_file_delete, find_process, process_exe, is_protected,
  check_process, parse_pid, is_dangerous, check_shell_command,
}

module _ (sys : System) (typed : Text → Text) where
  -- The same system, where the user types something else.
  abbrev other : System
  other = record sys { answer = typed }

  expand_from-other : (f : ℕ) (s : Text) → expand_from other f s ≡ expand_from sys f s
  unfolding expand_from placeholder
  expand_from-other zero s = refl
  expand_from-other (suc f) [] = refl
  expand_from-other (suc f) (c ∷ s) =
      elim (Option-cases (if c == percent then find s percent else none)) [
        | inl e ↦ rw (e, expand_from, expand_from-other f s)
        | inr (end, e) ↦ rw (e, expand_from, expand_from-other f (drop (end + 1) s))
      ]

  resolve-other : (p : Text) → resolve other p ≡ resolve sys p
  unfolding resolve expand_env
  resolve-other p = rw (expand_from-other (length p) p, resolve)

  is_within-other : (dirs : List Text) (t : Text) → is_within other dirs t ≡ is_within sys dirs t
  unfolding is_within is_subpath_or_equal normal_form
  is_within-other [] t = refl
  is_within-other (d ∷ dirs) t = rw (resolve-other d, is_within-other dirs t)

  find_process-other :
      (pid : ℕ) (l : List (ℕ × Text)) → find_process other pid l ≡ find_process sys pid l
  unfolding find_process
  find_process-other pid [] = refl
  find_process-other pid ((i, exe) ∷ l) = rw (find_process-other pid l)

  process_exe-other : (o : Option ℕ) → process_exe other o ≡ process_exe sys o
  unfolding process_exe
  process_exe-other none = refl
  process_exe-other (some pid) = elim (Option-cases sys.processes) [
    | inl e ↦ rw (e, process_exe)
    | inr (l, e) ↦ rw (e, process_exe, find_process-other pid l)
  ]

  check_path-other :
      (cfg : Config) (p : Text) → check_path other cfg true p ≡ check_path sys cfg true p
  unfolding check_path
  check_path-other cfg p = ground (
    arith,
    resolve-other p,
    is_within-other cfg.blocked_paths (resolve sys p),
    is_within-other cfg.allowed_paths (resolve sys p),
  )

-- In MCP mode nobody is asked: what the user would have typed at a prompt changes no check.
pub mcp_ignores_user :
    (sys : System) (typed : Text → Text) (cfg : Config) (subject : Text)
    → let other = record sys { answer = typed } in
      (check_path other cfg true subject ≡ check_path sys cfg true subject)
      × (check_file_delete other cfg true subject ≡ check_file_delete sys cfg true subject)
      × (check_process other cfg true subject ≡ check_process sys cfg true subject)
      × (check_shell_command other cfg true subject ≡ check_shell_command sys cfg true subject)
unfolding check_file_delete check_process check_shell_command is_protected is_dangerous
mcp_ignores_user sys typed cfg subject = (
  check_path-other sys typed cfg subject,
  rw (check_path-other sys typed cfg subject, check_file_delete),
  rw (process_exe-other sys typed (parse_pid subject), check_process),
  refl,
)
