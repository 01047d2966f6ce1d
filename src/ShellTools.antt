-- ===== src/ShellTools.antt =====
-- src/tools/ShellTools.cpp, runCommand: the command line, the wait for the process, the cap on its
-- output, and the result. What Windows does with the command is a parameter.
pub mod Draining
pub mod Web
pub mod Encoding
pub mod Extracting
use win_bot.Base.{
  ℕ, ◌+◌, ◌-◌, ◌*◌, min, Text, text, text_eq, is_empty, show_nat, length, take, Bool, true, false,
  ◌||◌, not, Option, none, some, List, [], ◌∷◌, ◌++◌, ℤ, pos, negsuc, Outcome, returned, threw,
  threw_unknown, ToolResult, ok, err, ltb, leb, ◌==◌, if◌then◌else◌,
}
use win_bot.Json.{JsonApi}
use win_bot.Permission.{System}
use win_bot.Permission.Checks.{granted, check_shell_command}
use win_bot.FileTools.{Perms}

-- What one turn of the wait loop finds: a stop request, whether the process has ended, what the
-- reads of the pipe give, and the clock at the end of the turn.
pub record Round : Type 0 where
  pub stop : Bool
  pub signaled : Bool
  pub chunks : List Text
  pub clock : ℕ

-- `output` and `truncated`
pub record Drained : Type 0 where
  pub output : Text
  pub truncated : Bool

pub data Ending : Type 0 where
  exited : Ending
  cancelled : Ending
  timed_out : Ending

-- What becomes of a command line: whether the pipe and the process could be made, when the wait
-- starts, its turns, what is flushed after the process was ended by force, and the exit code.
pub record Child : Type 0 where
  pub pipe : Bool
  pub created : Bool
  pub last_error : ℕ
  pub started : ℕ
  pub rounds : List Round
  pub flushed : List Text
  pub exit_code : ℕ

abbrev pub clamp : ℤ → ℕ
clamp (pos n) = n
clamp (negsuc n) = 30000

unfoldable pub full_cmd : Text → Text → Text
full_cmd cmd shell =
    if text_eq shell (text "powershell")
    then text "powershell.exe -NoProfile -ExecutionPolicy Bypass -Command " ++ cmd ++ text " 2>&1"
    else if text_eq shell (text "pwsh")
    then text "pwsh.exe -NoProfile -ExecutionPolicy Bypass -Command " ++ cmd ++ text " 2>&1"
    else text "cmd.exe /C " ++ cmd ++ text " 2>&1"

-- What one successful read adds to the output, of which `cap` bytes are kept.
unfoldable pub add_chunk : ℕ → Text → Drained → Drained
add_chunk cap bytes d =
    if ltb (length d.output) cap
    then (let taken = min (length bytes) (cap - length d.output) in
        record {
          output = d.output ++ take taken bytes;
          truncated = d.truncated || ltb taken (length bytes);
        })
    else record { output = d.output; truncated = true }

-- drainPipe; a read of no bytes ends it.
unfoldable pub drain : ℕ → List Text → Drained → Drained
unfolding add_chunk
drain cap [] d = d
drain cap (bytes ∷ chunks) d =
    if is_empty bytes then d else drain cap chunks (add_chunk cap bytes d)

-- The wait loop; none while it goes on at the end of the turns.
unfoldable pub wait_loop : ℕ → ℕ → List Round → Drained → Option (Ending × Drained)
unfolding drain
wait_loop cap deadline [] d = none
wait_loop cap deadline (r ∷ rounds) d =
    if r.stop
    then some (cancelled, d)
    else if r.signaled
    then some (exited, drain cap r.chunks d)
    else if leb deadline r.clock
    then some (timed_out, drain cap r.chunks d)
    else wait_loop cap deadline rounds (drain cap r.chunks d)

abbrev pub or_no_output : Text → Text
or_no_output output = if is_empty output then text "(no output)" else output

abbrev pub noted : Drained → Text
noted d = if d.truncated then d.output ++ text "\n[WinBot: output truncated at 4 MiB]" else d.output

-- The result; what is flushed on death is read where the process was ended by force.
unfoldable pub report : ℕ → ℕ → Child → Ending × Drained → ToolResult
unfolding drain
report cap timeout child (cancelled, d) = err (
    text "Command cancelled (process terminated)\n"
    ++ or_no_output (noted (drain cap child.flushed d)))
report cap timeout child (timed_out, d) = err (
    text "Command timed out after "
    ++ show_nat timeout
    ++ text " ms (process terminated)\n"
    ++ or_no_output (noted (drain cap child.flushed d)))
report cap timeout child (exited, d) =
    if child.exit_code == 0
    then ok (or_no_output (noted d))
    else ok (text "Exit " ++ show_nat child.exit_code ++ text "\n" ++ noted d)

abbrev pub reported : ℕ → ℕ → Child → Option (Ending × Drained) → Option ToolResult
reported cap timeout child none = none
reported cap timeout child (some ended) = some (report cap timeout child ended)

abbrev pub max_output_bytes : ℕ
max_output_bytes = 4 * 1024 * 1024

unfoldable pub run_child : ℕ → ℕ → Child → Option ToolResult
unfolding wait_loop report
run_child cap timeout child =
    if not child.pipe
    then some (err (text "CreatePipe failed"))
    else if not child.created
    then some (err (text "CreateProcess failed: " ++ show_nat child.last_error))
    else reported cap timeout child (
        wait_loop cap (child.started + timeout) child.rounds
          (record { output = []; truncated = false }))

-- runCommand in a world of type `W`, where `launch` starts the process of a command line.
unfoldable pub run_command :
    {W : Type 0} → (W → Text → Child × W) → Text → Text → ℤ → W → Option ToolResult × W
unfolding run_child full_cmd
run_command launch cmd shell timeout_ms w =
    let (child, w') = launch w (full_cmd cmd shell) in
    (run_child max_output_bytes (clamp timeout_ms) child, w')

module _ (sys : System) (perms : Option Perms) where
  -- The check, which a tool without a permission system passes.
  unfoldable pub shell_check : Text → ToolResult
  shell_check cmd = elim perms [
    | none ↦ granted
    | some perms ↦ check_shell_command sys perms.cfg perms.mcp cmd
  ]

module _ {J W : Type 0} (api : JsonApi J) (launch : W → Text → Child × W) (sys : System)
    (perms : Option Perms) where
  -- What throws starts nothing; none is a command that has not ended.
  abbrev attempt :
      {A : Type 0}
      → Outcome A
      → (A → W → Option (Outcome ToolResult) × W)
      → W
      → Option (Outcome ToolResult) × W
  attempt (returned a) f w = f a w
  attempt (threw what) f w = (some (threw what), w)
  attempt threw_unknown f w = (some threw_unknown, w)

  abbrev ended : Option ToolResult → Option (Outcome ToolResult)
  ended none = none
  ended (some r) = some (returned r)

  abbrev if_granted :
      ToolResult → (W → Option (Outcome ToolResult) × W) → W → Option (Outcome ToolResult) × W
  if_granted (ok allowed) f w = f w
  if_granted (err why) f w = (some (returned (err why)), w)

  -- RunCommandTool::execute
  unfoldable pub run_command_tool : J → W → Option (Outcome ToolResult) × W
  unfolding run_command shell_check
  run_command_tool args = attempt (api.value_text args (text "cmd") []) (λ cmd.
      attempt (api.value_text args (text "shell") (text "cmd")) (λ shell.
        if_granted (shell_check sys perms cmd) (
          attempt (api.value_int args (text "timeout_ms") (pos 30000))
            (λ timeout w. let (r, w') = run_command launch cmd shell timeout w in (ended r, w')))))
