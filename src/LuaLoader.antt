-- ===== src/LuaLoader.antt =====
-- src/services/LuaToolLoader.cpp and src/tools/LuaScriptTool.cpp: the tools that scripts define,
-- kept in step with a directory. The Lua runtime is a parameter.
pub mod Keys
pub mod Scanning
pub mod Times
pub mod Settling
pub mod Sharing
use win_bot.Base.{
  ℕ, ◌+◌, Text, text, text_eq, Bool, true, false, not, ◌&&◌, Option, none, some, is_some, List, [],
  ◌∷◌, ◌++◌, map, length, Map, lookup, insert, erase, Outcome, returned, threw, ToolResult, err,
  ltb, ◌==◌, if◌then◌else◌,
}
use win_bot.Registry.{Tool, ToolRegistry, StopToken, register_or_replace_tool, unregister_tool}

-- An entry of the directory; `write_time` is none when it cannot be read.
pub record ScriptFile : Type 0 where
  pub path : Text
  pub is_regular : Bool
  pub extension : Text
  pub write_time : Option ℕ

pub record Definition (J : Type 0) : Type 0 where
  pub name : Text
  pub description : Text
  pub parameters : J

-- std::expected<std::vector<LuaToolDefinition>, std::string>
pub data Loaded (J : Type 0) : Type 0 where
  loaded : List (Definition J) → Loaded J
  failed : Text → Loaded J

-- The calls of LuaRuntime that the loader and its tools make.
pub record Runtime (J : Type 0) : Type 0 where
  pub load_tool_definitions : Text → Loaded J
  pub execute_tool : Text → Text → J → Outcome ToolResult

pub record Loader (J : Type 0) : Type 0 where
  pub registry : ToolRegistry J
  pub file_times : Map ℕ
  pub path_to_tool_names : Map (List Text)

abbrev pub is_script : ScriptFile → Bool
is_script file = file.is_regular && text_eq file.extension (text ".lua")

-- What is known of a file is older than its write time, or nothing is known.
abbrev pub is_outdated : Option ℕ → ℕ → Bool
is_outdated none time = true
is_outdated (some known) time = ltb known time

abbrev pub note_time : Text → Option ℕ → Map ℕ → Map ℕ
note_time path none times = times
note_time path (some time) times = insert path time times

-- The scan of the directory.
unfoldable pub current_files : List ScriptFile → Map ℕ → Map ℕ
current_files [] times = times
current_files (file ∷ files) times =
    current_files files
      (if is_script file then note_time file.path file.write_time times else times)

abbrev pub or_empty : Option (List Text) → List Text
or_empty none = []
or_empty (some names) = names

module _ {J : Type 0} where
  unfoldable pub unregister_all : List Text → ToolRegistry J → ToolRegistry J
  unregister_all [] r = r
  unregister_all (name ∷ names) r = unregister_all names (unregister_tool name r).0.registry

  -- A file that is gone: its tools are unregistered, and it is forgotten.
  unfoldable pub forget_file : Text → Loader J → Loader J
  unfolding unregister_all
  forget_file path l = record {
    registry = unregister_all (or_empty (lookup path l.path_to_tool_names)) l.registry;
    file_times = erase path l.file_times;
    path_to_tool_names = erase path l.path_to_tool_names;
  }

  -- The loop over m_fileTimes, whose entries stand in the second argument.
  unfoldable pub forget_deleted : Map ℕ → Map ℕ → Loader J → Loader J
  unfolding forget_file
  forget_deleted current [] l = l
  forget_deleted current ((path, time) ∷ rest) l =
      forget_deleted current rest (if is_some (lookup path current) then l else forget_file path l)

module _ {J : Type 0} (runtime : Runtime J) where
  -- LuaScriptTool, whose execute asks the stop token once.
  abbrev pub script_tool : Text → Definition J → Tool J
  script_tool path def = record {
    name = def.name;
    description = def.description;
    parameters_schema = def.parameters;
    execute = λ args token.
        if token 0
        then returned (err (text "Tool execution cancelled"))
        else runtime.execute_tool path def.name args;
  }

  unfoldable pub register_all : Text → List (Definition J) → ToolRegistry J → ToolRegistry J
  register_all path [] r = r
  register_all path (def ∷ defs) r =
      register_all path defs (register_or_replace_tool (some (script_tool path def)) r).registry

  unfoldable pub load_file : Text → ℕ → Loaded J → Loader J → Loader J
  unfolding register_all
  load_file path time (failed why) l = l
  load_file path time (loaded defs) l = record {
    registry =
        register_all path defs
          (unregister_all (or_empty (lookup path l.path_to_tool_names)) l.registry);
    file_times = insert path time l.file_times;
    path_to_tool_names = insert path (map (λ def. def.name) defs) l.path_to_tool_names;
  }

  -- The loop over currentFiles.
  unfoldable pub load_changed : Map ℕ → Loader J → Loader J
  unfolding load_file
  load_changed [] l = l
  load_changed ((path, time) ∷ rest) l = load_changed rest (
      if is_outdated (lookup path l.file_times) time
      then load_file path time (runtime.load_tool_definitions path) l
      else l)

  abbrev pub total_tools : Map (List Text) → ℕ
  total_tools [] = 0
  total_tools ((path, names) ∷ rest) = length names + total_tools rest

  -- reload(), with its result; `none` is a directory that did not exist.
  unfoldable pub reload : Option (List ScriptFile) → Loader J → Loader J × ℕ
  unfolding load_changed
  reload none l = (l, 0)
  reload (some files) l =
      let current = current_files files [] in
      let l' = load_changed current (forget_deleted current l.file_times l) in
      (l', total_tools l'.path_to_tool_names)

-- One script of hasChanges' loop: what the rest finds, unless this one is new or newer.
abbrev pub changed_or : Option ℕ → Option ℕ → Bool → Bool
changed_or none known rest = rest
changed_or (some time) known rest = if is_outdated known time then true else rest

-- The loop of hasChanges and what stands behind it.
unfoldable pub scan : List ScriptFile → ℕ → Map ℕ → Bool
scan [] count times = not (count == length times)
scan (file ∷ files) count times =
    if is_script file
    then changed_or file.write_time (lookup file.path times) (scan files (count + 1) times)
    else scan files count times

unfoldable pub has_changes : {J : Type 0} → Option (List ScriptFile) → Loader J → Bool
unfolding scan
has_changes none l = false
has_changes (some files) l = scan files 0 l.file_times
