-- ===== src/LuaLoader/Sharing.antt =====
-- src/services/LuaToolLoader.cpp: two scripts that define a tool of one name.
use win_bot.Base.{
  ℕ, Text, text, text_eq, text_eq_refl, text_eq_sym, true, false, Option-cases, none, some, [], ◌∷◌,
  lookup, insert, erase, lookup-erase, ltb, ◌≡◌, refl, arith, inl, inr, ◌∙◌,
}
use win_bot.Registry.{ToolRegistry, unregister_tool}
use win_bot.LuaLoader.{
  ScriptFile, Runtime, Loader, current_files, unregister_all, forget_file, forget_deleted,
  load_changed, reload,
}

abbrev pub lua_file : Text → ℕ → ScriptFile
lua_file path time = record {
  path = path;
  is_regular = true;
  extension = text ".lua";
  write_time = some time;
}

current-lua_file : (b : Text) (time : ℕ) → current_files (lua_file b time ∷ []) [] ≡ (b, time) ∷ []
unfolding current_files text text_eq insert
current-lua_file b time = refl

module _ {J : Type 0} where
  -- The registry does not know a name that has been unregistered.
  lookup-unregister_tool :
      (n : Text) (r : ToolRegistry J) → lookup n (unregister_tool n r).0.registry.index ≡ none
  unfolding unregister_tool
  lookup-unregister_tool n r = elim (Option-cases (lookup n r.index)) [
    | inl e ↦ let p : (unregister_tool n r).0.registry ≡ r = simp e refl in rw p e
    | inr (t, e) ↦ simp e (lookup-erase n n r.index ∙ rw (text_eq_refl n) refl)
  ]

  -- A loader that has read two scripts, each of which defines the tool `n`.
  abbrev pub two_scripts : Text → Text → Text → ℕ → ℕ → ToolRegistry J → Loader J
  two_scripts a b n time_a time_b r = record {
    registry = r;
    file_times = (a, time_a) ∷ (b, time_b) ∷ [];
    path_to_tool_names = (a, n ∷ []) ∷ (b, n ∷ []) ∷ [];
  }

  -- When one of two scripts that define a tool of the same name is deleted, the tool is
  -- unregistered, although the other script is still there and the loader still lists the tool as
  -- that script's.
  pub shared_name_lost :
      (runtime : Runtime J) (a b n : Text) (time_a time_b : ℕ) (r : ToolRegistry J)
      → text_eq a b ≡ false
      → let l =
          (reload runtime (some (lua_file b time_b ∷ [])) (two_scripts a b n time_a time_b r)).0 in
        (lookup n l.registry.index ≡ none) × (lookup b l.path_to_tool_names ≡ some (n ∷ []))
  unfolding reload current_files forget_deleted forget_file unregister_all load_changed lookup erase
  shared_name_lost runtime a b n time_a time_b r h =
      let k = text_eq_sym b a ∙ h in
      let s = text_eq_refl b in
      let t = text_eq_refl a in
      let u : ltb time_b time_b ≡ false = ground arith in
      rw (current-lua_file b time_b)
        (simp (k, s, t) (simp (s, u) (lookup-unregister_tool n r, refl)))
