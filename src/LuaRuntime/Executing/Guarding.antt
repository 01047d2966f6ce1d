-- ===== src/LuaRuntime/Executing/Guarding.antt =====
-- src/services/LuaRuntime.cpp: what the guards in front of a script promise, that a file always
-- gives a definition, and what becomes of a tool that the script does not have.
use win_bot.Base.{
  ℕ, suc, Text, text, text_eq, is_empty, Bool, true, false, Option, none, some, is_some, any, List,
  [], ◌∷◌, ◌++◌, Outcome, returned, threw, threw_unknown, ToolResult, ok, err, ◌≡◌, ◌≢◌, refl,
}
use win_bot.Json.{JsonApi}
use win_bot.Permission.{System}
use win_bot.FileTools.{Perms, path_check}
use win_bot.LuaLoader.{Definition, Loaded, loaded, failed}
use win_bot.LuaRuntime.{
  LuaValue, table, Entries, LuaApi, Conversion, converted, panicked, unfinished, follow, push_json,
}
use win_bot.LuaRuntime.Running.{
  Ran, stopped, finished, LuaState, Reply, reply, with_state, guarded, if_allowed, if_exists,
  extracted_stack, exec_file,
}
use win_bot.LuaRuntime.Loading.{
  top, is_array_of_tools, end_index, parse_tools, definitions_of, or_plain, loaded_result,
  load_tool_definitions,
}
use win_bot.LuaRuntime.Executing.{
  execute_found, execute_in, execute_returned, execute_ran, give, execute_tool,
}
use win_bot.LuaRuntime.Executing.Naming.{find_tool-parse_tools}

abbrev reopened : {S A : Type 0} → Reply S A → Reply (Option S) A
reopened (o, s) = (o, some s)

module _ {J S : Type 0} (api : JsonApi J) (lua : LuaApi J) (fuel : ℕ) (state : LuaState S)
    (sys : System) (perms : Option Perms) where
  -- A script at a path that the permission system refuses is not run: execFile, loadToolDefinitions
  -- and executeTool report the refusal with its reason, and the Lua state is as it was.
  pub refused_not_run :
      (args : J) (path name why : Text) (s : S)
      → path_check sys perms path ≡ err why
      → (exec_file api lua fuel state sys perms path (some s)
          ≡ reply (err (text "Permission denied: " ++ why)) (some s))
        × (load_tool_definitions api lua fuel state sys perms path (some s)
            ≡ reply (failed (text "Permission denied: " ++ why)) (some s))
        × (execute_tool api lua fuel state args sys perms path name (some s)
            ≡ reply (err (text "Permission denied: " ++ why)) (some s))
  unfolding exec_file load_tool_definitions execute_tool with_state guarded
  refused_not_run args path name why s h = (rw h refl, rw h refl, rw h refl)

  -- A name that is not empty and that no loaded definition has is no error to executeTool: where the
  -- script may be run, exists and returns an array of tools, which loads as `ds`, the result is what
  -- extractReturnValue makes of the returned array.
  pub execute_tool_unknown :
      (args : J) (path name allowed : Text) (s s' : S) (es : Entries) (stack : List LuaValue)
      (ds : List (Definition J))
      → path_check sys perms path ≡ ok allowed
      → state.exists path ≡ returned true
      → state.run_file (state.set_args s (push_json api lua args)) path
        ≡ (finished (table es ∷ stack), s')
      → is_array_of_tools es ≡ true
      → parse_tools api lua fuel (state.filename path) (state.stem path) (suc (end_index es)) es 1
        ≡ converted ds
      → is_empty name ≡ false
      → any (λ d. text_eq d.name name) ds ≡ false
      → execute_tool api lua fuel state args sys perms path name (some s)
        ≡ (extracted_stack api lua fuel (table es ∷ stack), some s')
  unfolding execute_tool with_state guarded execute_ran execute_returned execute_in execute_found
      give
  execute_tool_unknown args path name allowed s s' es stack ds c x r a p e u =
      let (found, f, g) =
        find_tool-parse_tools api lua fuel (state.filename path) (state.stem path) name es ds e p in
      rw (c, x, r, a, f) (go found (rw u at g))
    where
      go :
          (found : Option Entries)
          → is_some found ≡ false
          → reopened
              (execute_found api lua fuel state args name (table es ∷ stack) (converted found) s')
            ≡ (extracted_stack api lua fuel (table es ∷ stack), some s')
      go none h = refl
      go (some tool) h = absurd cc

abbrev has_some : {J : Type 0} → Conversion (Outcome (Loaded J)) → Bool
has_some (converted (returned (loaded []))) = false
has_some _ = true

module _ {J : Type 0} (api : JsonApi J) (lua : LuaApi J) (fuel : ℕ) where
  has_some-loaded_result :
      (file stem : Text) (ran : Ran) → has_some (loaded_result api lua fuel file stem ran) ≡ true
  unfolding loaded_result
  has_some-loaded_result file stem (stopped v) = refl
  has_some-loaded_result file stem (finished stack) =
      go (definitions_of api lua fuel file stem (top stack))
    where
      go :
          (m : Conversion (List (Definition J)))
          → has_some
              (follow m (λ ds. converted (returned (loaded (or_plain api lua fuel file stem ds)))))
            ≡ true
      go (converted []) = refl
      go (converted (d ∷ ds)) = refl
      go panicked = refl
      go unfinished = refl

  has_some-guarded :
      {S : Type 0} (state : LuaState S) (sys : System) (perms : Option Perms) (path : Text) (s : S)
      (f : S → Reply S (Loaded J))
      → ((t : S) → has_some (f t).0 ≡ true)
      → has_some (guarded state sys perms failed path f s).0 ≡ true
  unfolding guarded
  has_some-guarded state sys perms path s f h = allowed (path_check sys perms path)
    where
      existing :
          (o : Outcome Bool) → has_some (if_exists state sys perms failed path f o s).0 ≡ true
      existing (returned true) = h s
      existing (returned false) = refl
      existing (threw what) = refl
      existing threw_unknown = refl

      allowed : (r : ToolResult) → has_some (if_allowed state sys perms failed path f r s).0 ≡ true
      allowed (ok a) = existing (state.exists path)
      allowed (err why) = refl

  has_some-load_tool_definitions :
      {S : Type 0} (state : LuaState S) (sys : System) (perms : Option Perms) (path : Text)
      (runtime : Option S)
      → has_some (load_tool_definitions api lua fuel state sys perms path runtime).0 ≡ true
  unfolding load_tool_definitions with_state
  has_some-load_tool_definitions state sys perms path none = refl
  has_some-load_tool_definitions state sys perms path (some s) =
      has_some-guarded state sys perms path s _ (λ t.
        has_some-loaded_result (state.filename path) (state.stem path) (state.run_file t path).0)

  -- A script that loads gives at least one definition, whatever it returns.
  pub load_tool_definitions_some :
      {S : Type 0} (state : LuaState S) (sys : System) (perms : Option Perms) (path : Text)
      (runtime : Option S) (ds : List (Definition J))
      → (load_tool_definitions api lua fuel state sys perms path runtime).0
        ≡ converted (returned (loaded ds))
      → ds ≢ []
  load_tool_definitions_some state sys perms path runtime ds h e =
      let g = has_some-load_tool_definitions state sys perms path runtime in
      absurd (let k = rw (h, e) at g in cc)
