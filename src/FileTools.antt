-- ===== src/FileTools.antt =====
-- src/tools/FileTools.cpp: the tools on files, each behind its permission check.
pub mod Guarding
use win_bot.Base.{
  ℕ, ◌+◌, Text, text, is_empty, show_nat, length, take, Bool, true, false, not, ◌||◌, Option, none,
  some, List, [], ◌∷◌, ◌++◌, Outcome, returned, threw, threw_unknown, ToolResult, ok, err, ltb,
  if◌then◌else◌,
}
use win_bot.Base.Exec.{Exec, pure, lift, gets, modify, ◌>>=◌}
use win_bot.Json.{JsonApi}
use win_bot.Permission.{Config, System}
use win_bot.Permission.Checks.{granted, check_path, check_file_delete}

-- An entry of a directory, with what file_size gives for it.
pub record Listed : Type 0 where
  pub name : Text
  pub is_directory : Bool
  pub size : ℕ

-- What std::filesystem::remove gives, and its error code.
pub record Removal : Type 0 where
  pub removed : Bool
  pub failed : Bool
  pub message : Text

-- The file streams and std::filesystem, on a disk of type `D`; `none` is a file that does not open.
pub record FileApi (D : Type 0) : Type 0 where
  pub read : D → Text → Option Text
  pub create_parents : D → Text → Outcome D
  pub write : D → Text → Text → Option D
  pub append : D → Text → Text → Option D
  pub exists : D → Text → Outcome Bool
  pub entries : D → Text → List Listed
  pub remove : D → Text → D × Removal
  pub copy : D → Text → Text → D × Option Text

-- A PermissionSystem: its configuration and its MCP mode.
pub record Perms : Type 0 where
  pub cfg : Config
  pub mcp : Bool

abbrev pub max_read : ℕ
max_read = 32768

-- What readFile makes of the bytes of a file; at most one more than the limit is read.
unfoldable pub truncated : ℕ → Text → Text
truncated limit bytes =
    let content = take (limit + 1) bytes in
    if ltb limit (length content)
    then take limit content ++ text "\n... (truncated at 32KB)"
    else content

-- The arrow of a message, in UTF-8.
abbrev arrow : Text
arrow = 226 ∷ 134 ∷ 146 ∷ []

module _ (sys : System) where
  -- The checks, which a tool without a permission system passes.
  unfoldable pub path_check : Option Perms → Text → ToolResult
  path_check none path = granted
  path_check (some perms) path = check_path sys perms.cfg perms.mcp path

  unfoldable pub delete_check : Option Perms → Text → ToolResult
  delete_check none path = granted
  delete_check (some perms) path = check_file_delete sys perms.cfg perms.mcp path

-- `if (!check) { return check; }`
unfoldable pub guard : {D : Type 0} → ToolResult → Exec D ToolResult → Exec D ToolResult
guard (ok allowed) rest = rest
guard (err why) rest = pure (err why)

module _ {D : Type 0} (files : FileApi D) (sys : System) where
  read_result : Text → Option Text → ToolResult
  unfolding truncated
  read_result path none = err (text "Cannot open file: " ++ path)
  read_result path (some bytes) = ok (truncated max_read bytes)

  unfoldable pub read_file : Text → Exec D ToolResult
  unfolding read_result
  read_file path d = (returned (read_result path (files.read d (sys.to_wide path))), d)

  -- The disk after a stream was written, or as it was when the stream did not open.
  after_open : Text → Text → D → Option D → Outcome ToolResult × D
  after_open failure success d none = (returned (err failure), d)
  after_open failure success d (some d') = (returned (ok success), d')

  unfoldable pub write_file : Text → Text → Exec D ToolResult
  unfolding after_open
  write_file path content =
      (λ d. make_parents d (files.create_parents d (sys.to_wide path))) >>= (λ made d.
        after_open (text "Cannot write file: " ++ path)
          (text "Wrote " ++ show_nat (length content) ++ text " bytes to " ++ path) d
          (files.write d (sys.to_wide path) content))
    where
      make_parents : D → Outcome D → Outcome (Unit {0}) × D
      make_parents d (returned d') = (returned tt, d')
      make_parents d (threw what) = (threw what, d)
      make_parents d threw_unknown = (threw_unknown, d)

  unfoldable pub append_file : Text → Text → Exec D ToolResult
  unfolding after_open
  append_file path content d =
      after_open (text "Cannot append to file: " ++ path)
        (text "Appended " ++ show_nat (length content) ++ text " bytes to " ++ path) d
        (files.append d (sys.to_wide path) content)

  abbrev listed_line : Listed → Text
  listed_line entry =
      if entry.is_directory
      then text "[DIR]  " ++ sys.to_utf8 entry.name ++ text "\n"
      else text "[FILE] "
        ++ sys.to_utf8 entry.name
        ++ text "  ("
        ++ show_nat entry.size
        ++ text " bytes)\n"

  abbrev listed_lines : List Listed → Text
  listed_lines [] = []
  listed_lines (entry ∷ entries) = listed_line entry ++ listed_lines entries

  unfoldable pub list_directory : Text → Exec D ToolResult
  list_directory path = do
    d ← gets (λ d. d)
    found ← lift (files.exists d (sys.to_wide path))
    let lines = listed_lines (files.entries d (sys.to_wide path))
    pure (
        if not found
        then err (text "Path not found: " ++ path)
        else ok (if is_empty lines then text "(empty directory)" else lines))

  unfoldable pub delete_file : Text → Exec D ToolResult
  delete_file path d =
      let (d', r) = files.remove d (sys.to_wide path) in
      (
        returned (
            if not r.removed || r.failed
            then err (text "Failed to delete '" ++ path ++ text "': " ++ r.message)
            else ok (text "Deleted: " ++ path)),
        d',
      )

  copy_result : Text → Text → Option Text → ToolResult
  copy_result src dst (some message) = err (text "Copy failed: " ++ message)
  copy_result src dst none = ok (text "Copied " ++ src ++ text " " ++ arrow ++ text " " ++ dst)

  unfoldable pub copy_file : Text → Text → Exec D ToolResult
  unfolding copy_result
  copy_file src dst d =
      let (d', r) = files.copy d (sys.to_wide src) (sys.to_wide dst) in
      (returned (copy_result src dst r), d')

  module _ {J : Type 0} (api : JsonApi J) (perms : Option Perms) (args : J) where
    unfoldable pub read_file_tool : Exec D ToolResult
    unfolding guard path_check
    read_file_tool = do
      path ← lift (api.value_text args (text "path") [])
      guard (path_check sys perms path) (read_file path)

    unfoldable pub write_file_tool : Exec D ToolResult
    unfolding guard path_check
    write_file_tool = do
      path ← lift (api.value_text args (text "path") [])
      guard (path_check sys perms path)
          (do content ← lift (api.value_text args (text "content") []); write_file path content)

    unfoldable pub append_file_tool : Exec D ToolResult
    unfolding guard path_check
    append_file_tool = do
      path ← lift (api.value_text args (text "path") [])
      guard (path_check sys perms path)
          (do content ← lift (api.value_text args (text "content") []); append_file path content)

    unfoldable pub list_directory_tool : Exec D ToolResult
    unfolding guard path_check
    list_directory_tool = do
      path ← lift (api.value_text args (text "path") (text "."))
      guard (path_check sys perms path) (list_directory path)

    unfoldable pub delete_file_tool : Exec D ToolResult
    unfolding guard delete_check
    delete_file_tool = do
      path ← lift (api.value_text args (text "path") [])
      guard (delete_check sys perms path) (delete_file path)

    unfoldable pub copy_file_tool : Exec D ToolResult
    unfolding guard path_check
    copy_file_tool = do
      src ← lift (api.value_text args (text "src") [])
      dst ← lift (api.value_text args (text "dst") [])
      guard (path_check sys perms src) (guard (path_check sys perms dst) (copy_file src dst))
