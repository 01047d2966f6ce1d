-- ===== src/LuaRuntime/Bindings/Gating.antt =====
-- src/services/LuaRuntime.cpp: what a script may not do is not done, and reading a page.
use win_bot.Base.{
  ℕ, Text, text, true, false, Option, some, [], ℤ, returned, threw, err, ◌≡◌, ◌++◌, refl,
}
use win_bot.Json.{JsonApi}
use win_bot.Permission.{System}
use win_bot.FileTools.{FileApi, Perms, path_check}
use win_bot.ShellTools.{Child, shell_check, run_command_tool}
use win_bot.LuaRuntime.{LuaValue}
use win_bot.LuaRuntime.Bindings.{lua_shell, lua_read_file, lua_write_file}

module _ {J W : Type 0} (api : JsonApi J) (int_of_double : ℕ → ℤ) (launch : W → Text → Child × W)
    (sys : System) (perms : Option Perms) where
  -- A command that the permission system refuses starts no process, neither by the tool run_command
  -- nor by winbot.shell, and while the kill switch is triggered winbot.shell starts none either;
  -- each reports why.
  pub refused_starts_nothing :
      (args : J) (opt_timeout : LuaValue) (cmd shell why : Text) (w : W)
      → api.value_text args (text "cmd") [] ≡ returned cmd
      → api.value_text args (text "shell") (text "cmd") ≡ returned shell
      → shell_check sys perms cmd ≡ err why
      → (run_command_tool api launch sys perms args w ≡ (some (returned (err why)), w))
        × (lua_shell int_of_double launch sys perms false cmd opt_timeout w
            ≡ (some (threw (text "Permission denied: " ++ why)), w))
        × (lua_shell int_of_double launch sys perms true cmd opt_timeout w
            ≡ (some (threw (text "Command execution blocked: KillSwitch triggered")), w))
  unfolding run_command_tool lua_shell
  refused_starts_nothing args opt_timeout cmd shell why w c s h =
      (rw (c, s, h) refl, rw h refl, refl)

module _ {D : Type 0} (files : FileApi D) (sys : System) (perms : Option Perms) where
  -- A script reads and writes no file that the permission system refuses it: the call raises an
  -- error with the reason, and the disk is as it was.
  pub script_file_refused :
      (path content why : Text) (d : D)
      → path_check sys perms path ≡ err why
      → (lua_read_file files sys perms path d ≡ (threw (text "Permission denied: " ++ why), d))
        × (lua_write_file files sys perms path content d
            ≡ (threw (text "Permission denied: " ++ why), d))
  unfolding lua_read_file lua_write_file
  script_file_refused path content why d h = (rw h refl, rw h refl)
