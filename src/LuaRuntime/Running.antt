-- ===== src/LuaRuntime/Running.antt =====
-- src/services/LuaRuntime.cpp: execString and execFile, and what they share with the tools of a
-- script: a Lua state, the permission check, the file. What a script does is a parameter.
use win_bot.Base.{
  ℕ, Text, text, Option, none, some, List, ◌++◌, Outcome, returned, threw, threw_unknown, true,
  false, ToolResult, ok, err, Bool, if◌then◌else◌,
}
use win_bot.Json.{JsonApi}
use win_bot.Permission.{System}
use win_bot.FileTools.{Perms, path_check}
use win_bot.LuaRuntime.{
  LuaValue, LuaApi, Conversion, converted, follow, is_string, to_string, extract_return_value,
  extracted,
}

-- luaL_dostring and luaL_dofile: the error value, or the results, the last first.
pub data Ran : Type 0 where
  stopped : LuaValue → Ran
  finished : List LuaValue → Ran

-- lua_pcall of one argument for two results.
pub data Called : Type 0 where
  raised : LuaValue → Called
  gave : LuaValue → LuaValue → Called

-- The Lua state, of type `S`, with the hook that execString and the others set around it, and the
-- parts of std::filesystem that they use.
pub record LuaState (S : Type 0) : Type 0 where
  pub run_text : S → Text → Ran × S
  pub run_file : S → Text → Ran × S
  pub set_args : S → LuaValue → S
  pub call : S → ℕ → LuaValue → Called × S
  pub exists : Text → Outcome Bool
  pub filename : Text → Text
  pub stem : Text → Text

-- What a call makes of a Lua state.
abbrev pub Reply : Type 0 → Type 0 → Type 0
Reply S A = Conversion (Outcome A) × S

abbrev pub reply : {S A : Type 0} → A → S → Reply S A
reply a s = (converted (returned a), s)

-- `if (L == nullptr)`
unfoldable pub with_state : {S A : Type 0} → A → (S → Reply S A) → Option S → Reply (Option S) A
with_state missing f none = reply missing none
with_state missing f (some s) = let (a, s') = f s in (a, some s')

module _ {S A : Type 0} (state : LuaState S) (sys : System) (perms : Option Perms) where
  abbrev pub if_exists : (Text → A) → Text → (S → Reply S A) → Outcome Bool → S → Reply S A
  if_exists refuse path f (returned true) s = f s
  if_exists refuse path f (returned false) s =
      reply (refuse (text "Script file not found: " ++ path)) s
  if_exists refuse path f (threw what) s = (converted (threw what), s)
  if_exists refuse path f threw_unknown s = (converted threw_unknown, s)

  abbrev pub if_allowed : (Text → A) → Text → (S → Reply S A) → ToolResult → S → Reply S A
  if_allowed refuse path f (err why) s = reply (refuse (text "Permission denied: " ++ why)) s
  if_allowed refuse path f (ok allowed) s = if_exists refuse path f (state.exists path) s

  -- The guards in front of a script file.
  unfoldable pub guarded : (Text → A) → Text → (S → Reply S A) → S → Reply S A
  unfolding path_check
  guarded refuse path f s = if_allowed refuse path f (path_check sys perms path) s

module _ {J : Type 0} (api : JsonApi J) (lua : LuaApi J) (fuel : ℕ) where
  -- `lua_isstring(L, -1) ? lua_tostring(L, -1) : otherwise`
  unfoldable pub error_text : Text → LuaValue → Text
  error_text otherwise v = if is_string v then to_string api lua v else otherwise

  -- `return ok(extractReturnValue());`
  unfoldable pub extracted_stack : List LuaValue → Conversion (Outcome ToolResult)
  unfolding extract_return_value extracted
  extracted_stack stack =
      follow (extract_return_value api lua fuel stack)
        (λ o. converted (returned (extracted api lua o)))

  unfoldable pub ran_result : Ran → Conversion (Outcome ToolResult)
  unfolding error_text extracted_stack
  ran_result (stopped v) = converted (returned (err (error_text (text "Lua execution error") v)))
  ran_result (finished stack) = extracted_stack stack

  module _ {S : Type 0} (state : LuaState S) where
    unfoldable pub exec_string : Text → Option S → Reply (Option S) ToolResult
    unfolding with_state ran_result
    exec_string code =
        with_state (err (text "Lua state is null"))
          (λ s. let (ran, s') = state.run_text s code in (ran_result ran, s'))

    unfoldable pub exec_file : System → Option Perms → Text → Option S → Reply (Option S) ToolResult
    unfolding with_state guarded ran_result
    exec_file sys perms path = with_state (err (text "Lua state is null")) (
        guarded state sys perms err path
          (λ s. let (ran, s') = state.run_file s path in (ran_result ran, s')))
