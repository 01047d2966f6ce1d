-- ===== src/Tests/LuaLoader.antt =====
-- src/services/LuaToolLoader.cpp over a directory of two scripts.
use win_bot.Base.{
  Text, text, text_eq, lookup, true, false, none, some, List, [], ◌∷◌, returned, ok, ◌≡◌, refl, inl,
  inr,
}
use win_bot.Registry.{empty}
use win_bot.LuaLoader.{ScriptFile, loaded, Runtime, Loader, reload, has_changes}
use win_bot.LuaLoader.Settling.{reload_settles}
use win_bot.LuaLoader.Times.{LoadsAll}
use win_bot.LuaLoader.Scanning.{Readable}
use win_bot.LuaLoader.Sharing.{two_scripts, lua_file}

-- Every script defines one tool, named "ocr".
abbrev one_tool : Runtime Text
one_tool = record {
  load_tool_definitions =
      λ path. loaded (record { name = text "ocr"; description = []; parameters = [] } ∷ []);
  execute_tool = λ path name args. returned (ok path);
}

loads : LoadsAll one_tool
loads path = (record { name = text "ocr"; description = []; parameters = [] } ∷ [], refl)

abbrev readme : ScriptFile
readme = record {
  path = text "readme";
  is_regular = true;
  extension = text ".md";
  write_time = none;
}

abbrev files : List ScriptFile
files = lua_file (text "a") 7 ∷ readme ∷ lua_file (text "b") 9 ∷ []

files-Readable : Readable files
unfolding text text_eq
files-Readable =
    (inr (7, refl), ((refl, (refl, tt)), (inl refl, ((refl, tt), (inr (9, refl), (tt, tt))))))

-- One script is known in an older version, and one that is gone.
abbrev stale : Loader Text
stale = two_scripts (text "a") (text "gone") (text "ocr") 3 5 empty

reload_settles_example : has_changes (some files) (reload one_tool (some files) stale).0 ≡ false
unfolding text text_eq lookup
reload_settles_example = reload_settles one_tool files stale loads files-Readable (refl, (refl, tt))
