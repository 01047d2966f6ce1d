-- ===== src/LuaRuntime/Sandbox.antt =====
-- src/services/LuaRuntime.cpp, sandboxEnvironment: what a script can reach. Tables are shared, so
-- they are numbers that the environment gives the fields of.
use win_bot.Base.{
  ℕ, Text, text, text_eq, Bool, false, ◌&&◌, ◌||◌, ◌∙◌, List, [], ◌∷◌, any, ◌==◌, if◌then◌else◌,
  ◌≡◌, ◌≢◌, refl, ap, arith,
}

-- nil, a value that is no table, or a table
pub data Slot : Type 0 where
  absent : Slot
  native : ℕ → Slot
  library : ℕ → Slot

-- The globals are the fields of one table, which _G names too.
pub record LuaEnv : Type 0 where
  pub global_table : ℕ
  pub fields : ℕ → Text → Slot

abbrev pub globals : LuaEnv → Text → Slot
globals env = env.fields env.global_table

unfoldable pub clear_field : ℕ → Text → LuaEnv → LuaEnv
clear_field t name env = record {
  global_table = env.global_table;
  fields = λ u n. if u == t && text_eq n name then absent else env.fields u n;
}

-- lua_pushnil and lua_setglobal
unfoldable pub clear_global : Text → LuaEnv → LuaEnv
unfolding clear_field
clear_global name env = clear_field env.global_table name env

clear_fields : ℕ → List Text → LuaEnv → LuaEnv
unfolding clear_field
clear_fields t [] env = env
clear_fields t (name ∷ names) env = clear_fields t names (clear_field t name env)

-- `if (lua_istable(L, -1))`
clear_in : Slot → List Text → LuaEnv → LuaEnv
unfolding clear_fields
clear_in (library t) names env = clear_fields t names env
clear_in _ names env = env

abbrev pub package_fields : List Text
package_fields = text "loadlib" ∷ text "cpath" ∷ []

abbrev pub os_fields : List Text
os_fields = text "execute" ∷ text "exit" ∷ text "remove" ∷ text "rename" ∷ text "tmpname" ∷ []

sanitize : Text → List Text → LuaEnv → LuaEnv
unfolding clear_in
sanitize name names env = clear_in (globals env name) names env

unfoldable pub sandbox_environment : LuaEnv → LuaEnv
unfolding clear_global sanitize
sandbox_environment env = clear_global (text "loadfile") (
    clear_global (text "dofile") (
      sanitize (text "os") os_fields (
        sanitize (text "package") package_fields
          (clear_global (text "io") (clear_global (text "debug") env)))))

clear_fields_lem :
    (t : ℕ) (names : List Text) (env : LuaEnv) (u : ℕ) (n : Text)
    → (clear_fields t names env).fields u n
      ≡ (if u == t && any (λ name. text_eq n name) names then absent else env.fields u n)
unfolding clear_fields clear_field
clear_fields_lem t [] env u n = ground arith
clear_fields_lem t (name ∷ names) env u n =
    ground (arith, clear_fields_lem t names (clear_field t name env) u n)

abbrev pub removed_globals : List Text
removed_globals = text "debug" ∷ text "io" ∷ text "dofile" ∷ text "loadfile" ∷ []

abbrev pub among : Text → List Text → Bool
among n names = any (λ name. text_eq n name) names

clear_fields-global_table :
    (t : ℕ) (names : List Text) (env : LuaEnv)
    → (clear_fields t names env).global_table ≡ env.global_table
unfolding clear_fields clear_field
clear_fields-global_table t [] env = refl
clear_fields-global_table t (name ∷ names) env =
    clear_fields-global_table t names (clear_field t name env)

sanitize-global_table :
    (name : Text) (names : List Text) (env : LuaEnv)
    → (sanitize name names env).global_table ≡ env.global_table
unfolding sanitize
sanitize-global_table name names env = go (globals env name)
  where
    go : (slot : Slot) → (clear_in slot names env).global_table ≡ env.global_table
    go absent = refl
    go (native x) = refl
    go (library t) = clear_fields-global_table t names env

sanitize-fields :
    (name : Text) (names : List Text) (env : LuaEnv) (t u : ℕ) (n : Text)
    → globals env name ≡ library t
    → (sanitize name names env).fields u n
      ≡ (if u == t && among n names then absent else env.fields u n)
unfolding sanitize clear_in
sanitize-fields name names env t u n h = rw h (clear_fields_lem t names env u n)

clear_global_lem :
    (name : Text) (env : LuaEnv) (u : ℕ) (n : Text)
    → (clear_global name env).fields u n
      ≡ (if u == env.global_table && text_eq n name then absent else env.fields u n)
unfolding clear_global
clear_global_lem name env u n = refl

-- What six removals, one after the other, take away.
removals :
    (g p o d1 i d2 l : Bool) (ps os : Bool) (slot : Slot)
    → (if g && l
        then absent
        else if g && d2
        then absent
        else if o && os
        then absent
        else if p && ps
        then absent
        else if g && i
        then absent
        else if g && d1
        then absent
        else slot)
      ≡ (if (o && os) || (p && ps) || (g && (d1 || (i || (d2 || (l || false)))))
          then absent
          else slot)
removals g p o d1 i d2 l ps os slot = ground arith

unharmed : (b : Bool) (slot : Slot) → (if b && false then absent else slot) ≡ slot
unharmed b slot = ground arith

module _ (env : LuaEnv) (package_table os_table : ℕ)
    (package_lib : globals env (text "package") ≡ library package_table)
    (os_lib : globals env (text "os") ≡ library os_table) where
  abbrev first : LuaEnv
  first = clear_global (text "io") (clear_global (text "debug") env)

  abbrev second : LuaEnv
  second = sanitize (text "package") package_fields first

  abbrev third : LuaEnv
  third = sanitize (text "os") os_fields second

  package_first : globals first (text "package") ≡ library package_table
  unfolding clear_global clear_field text text_eq
  package_first = unharmed _ _ ∙ (unharmed _ _ ∙ package_lib)

  os_first : globals first (text "os") ≡ library os_table
  unfolding clear_global clear_field text text_eq
  os_first = unharmed _ _ ∙ (unharmed _ _ ∙ os_lib)

  os_second : globals second (text "os") ≡ library os_table
  unfolding clear_global clear_field text text_eq
  os_second =
      ap (λ u. second.fields u (text "os"))
        (sanitize-global_table (text "package") package_fields first)
      ∙ (sanitize-fields (text "package") package_fields first package_table env.global_table
            (text "os") package_first
          ∙ (unharmed _ _ ∙ os_first))

  same_table : third.global_table ≡ env.global_table
  unfolding clear_global clear_field
  same_table =
      sanitize-global_table (text "os") os_fields second
      ∙ sanitize-global_table (text "package") package_fields first

  pub sandbox_environment_lem :
      (t : ℕ) (n : Text)
      → (sandbox_environment env).fields t n ≡ (
          if (t == os_table && among n os_fields)
            || (t == package_table && among n package_fields)
            || (t == env.global_table && among n removed_globals)
          then absent
          else env.fields t n)
  unfolding sandbox_environment clear_global clear_field
  sandbox_environment_lem t n =
      rw
        (
          same_table,
          sanitize-fields (text "os") os_fields second os_table t n os_second,
          sanitize-fields (text "package") package_fields first package_table t n package_first,
        )
        (removals (t == env.global_table) (t == package_table) (t == os_table)
          (text_eq n (text "debug")) (text_eq n (text "io")) (text_eq n (text "dofile"))
          (text_eq n (text "loadfile")) (among n package_fields) (among n os_fields)
          (env.fields t n))

-- What a script reaches by a path of names from a global.
pub reach : LuaEnv → Slot → List Text → Slot
reach env slot [] = slot
reach env (library t) (name ∷ names) = reach env (env.fields t name) names
reach env _ (name ∷ names) = absent

module _ (env : LuaEnv) (package_table os_table loaded_table io_table : ℕ)
    (package_lib : globals env (text "package") ≡ library package_table)
    (os_lib : globals env (text "os") ≡ library os_table)
    (loaded_lib : env.fields package_table (text "loaded") ≡ library loaded_table)
    (io_lib : env.fields loaded_table (text "io") ≡ library io_table) where
  abbrev sandboxed : LuaEnv
  sandboxed = sandbox_environment env

  same_globals : sandboxed.global_table ≡ env.global_table
  unfolding sandbox_environment clear_global clear_field
  same_globals = same_table env package_table os_table package_lib os_lib

  global_removed : globals sandboxed (text "io") ≡ absent
  unfolding text text_eq
  global_removed =
      ap (λ u. sandboxed.fields u (text "io")) same_globals
      ∙ (sandbox_environment_lem env package_table os_table package_lib os_lib env.global_table
            (text "io")
          ∙ ground arith)

  package_kept : globals sandboxed (text "package") ≡ library package_table
  unfolding text text_eq
  package_kept =
      ap (λ u. sandboxed.fields u (text "package")) same_globals
      ∙ (sandbox_environment_lem env package_table os_table package_lib os_lib env.global_table
            (text "package")
          ∙ ground arith)

  loaded_kept :
      os_table ≢ package_table
      → sandboxed.fields package_table (text "loaded") ≡ library loaded_table
  unfolding text text_eq
  loaded_kept a =
      sandbox_environment_lem env package_table os_table package_lib os_lib package_table
        (text "loaded")
      ∙ ground arith

  untouched :
      (t : ℕ) (n : Text)
      → t ≢ package_table
      → t ≢ os_table
      → t ≢ env.global_table
      → sandboxed.fields t n ≡ env.fields t n
  untouched t n a b c =
      sandbox_environment_lem env package_table os_table package_lib os_lib t n ∙ ground arith

  -- Where package.loaded.io is the library io, as luaL_openlibs leaves it, the tables package and os
  -- are two, and neither package.loaded nor io is one of these or the table of the globals, the
  -- sandbox takes the global io away, but every function of the library is still reached by
  -- package.loaded.io.
  pub io_still_reached :
      (name : Text)
      → os_table ≢ package_table
      → loaded_table ≢ package_table
      → loaded_table ≢ os_table
      → loaded_table ≢ env.global_table
      → io_table ≢ package_table
      → io_table ≢ os_table
      → io_table ≢ env.global_table
      → (globals (sandbox_environment env) (text "io") ≡ absent)
        × (reach
              (sandbox_environment env)
              (globals (sandbox_environment env) (text "package"))
              (text "loaded" ∷ text "io" ∷ name ∷ [])
            ≡ env.fields io_table name)
  unfolding reach
  io_still_reached name a b c c' d e e' =
      let l = untouched loaded_table (text "io") b c c' in
      let i = untouched io_table name d e e' in
      (global_removed, rw (package_kept, reach, loaded_kept a, reach, l, io_lib, reach, i) refl)
