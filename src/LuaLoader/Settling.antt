-- ===== src/LuaLoader/Settling.antt =====
-- src/services/LuaToolLoader.cpp: after a reload hasChanges has nothing to report.
use win_bot.Base.{
  ℕ, ◌+◌, Text, true, false, not, Bool-cases, Option-cases, Option, none, some, is_some, List, [],
  ◌∷◌, length, All, Map, lookup, ◌==◌, ◌≡◌, ◌⊎◌, refl, ◌∙◌, ap, arith, inl, inr,
}
use win_bot.LuaLoader.{
  ScriptFile, Runtime, Loader, is_script, is_outdated, current_files, forget_deleted, reload, scan,
  has_changes,
}
use win_bot.LuaLoader.Keys.{Distinct, length_same}
use win_bot.LuaLoader.Scanning.{
  Readable, Found, Unnoted, scripts, current-Distinct, current-Found, current-length,
}
use win_bot.LuaLoader.Times.{
  newer, newer-settled, prune, refresh, forget-times, LoadsAll, load-times, prune-Distinct,
  refresh-Distinct, kept, lookup-prune, lookup-refresh,
}

-- What the scan of hasChanges meets: an entry that is no script, or one whose time is known.
abbrev Fresh : Map ℕ → ScriptFile → Type 0
Fresh m file =
    (is_script file ≡ false)
    ⊎ ((time : ℕ) × (file.write_time ≡ some time) × (is_outdated (lookup file.path m) time ≡ false))

scan-Fresh :
    (files : List ScriptFile) (n total : ℕ) (m : Map ℕ)
    → n + scripts files ≡ total
    → All (Fresh m) files
    → scan files n m ≡ not (total == length m)
unfolding scan
scan-Fresh [] n total m e h = ground arith
scan-Fresh (file ∷ files) n total m e h = go h.0 (λ k q. scan-Fresh files k total m q h.1)
  where
    skipped :
        n + scripts (file ∷ files) ≡ total → is_script file ≡ false → n + scripts files ≡ total
    skipped e s = let q = rw s at e in omega (arith, q)

    counted :
        n + scripts (file ∷ files) ≡ total → is_script file ≡ true → n + 1 + scripts files ≡ total
    counted e s = let q = rw s at e in omega (arith, q)

    go :
        Fresh m file
        → ((k : ℕ) → k + scripts files ≡ total → scan files k m ≡ not (total == length m))
        → scan (file ∷ files) n m ≡ not (total == length m)
    go (inl s) rest = simp s (rest n (skipped e s))
    go (inr (time, w, o)) rest = elim (Bool-cases (is_script file)) [
      | inl s ↦ simp (s, w, o) (rest (n + 1) (counted e s))
      | inr s ↦ simp s (rest n (skipped e s))
    ]

kept_self : (known : Option ℕ) → kept false (is_some known) known ≡ none
kept_self none = refl
kept_self (some time) = refl

module _ (current known : Map ℕ) (d : Distinct current) where
  abbrev after : Map ℕ
  after = refresh current (prune current known known)

  lookup-after :
      (j : Text)
      → lookup j after
        ≡ newer
            (lookup j current)
            (kept (is_some (lookup j current)) (is_some (lookup j known)) (lookup j known))
  lookup-after j =
      lookup-refresh j current (prune current known known) d
      ∙ ap (newer (lookup j current)) (lookup-prune j current known known)

  same_keys : (j : Text) → is_some (lookup j after) ≡ is_some (lookup j current)
  same_keys j = ap is_some (lookup-after j) ∙ elim (Option-cases (lookup j current)) [
    | inl e ↦ rw e (ap is_some (kept_self (lookup j known)))
    | inr (time, e) ↦
        let (t, p, q) =
          newer-settled time (kept true (is_some (lookup j known)) (lookup j known)) in
        rw e (ap is_some p)
  ]

  Found→Fresh : (files : List ScriptFile) → All (Found current) files → All (Fresh after) files
  Found→Fresh [] h = tt
  Found→Fresh (file ∷ files) h = (fresh h.0, Found→Fresh files h.1)
    where
      fresh : Found current file → Fresh after file
      fresh (inl s) = inl s
      fresh (inr (time, w, f)) =
          let (t, p, q) =
            newer-settled time
              (kept true (is_some (lookup file.path known)) (lookup file.path known)) in
          let e : lookup file.path after ≡ some t = lookup-after file.path ∙ rw f p in
          inr (time, w, rw e q)

nil-Unnoted : (files : List ScriptFile) → All (Unnoted []) files
unfolding lookup
nil-Unnoted [] = tt
nil-Unnoted (file ∷ files) = (refl, nil-Unnoted files)

-- After a reload in which every script could be loaded hasChanges reports nothing, as long as the
-- directory is the same, its write times can be read and no two of its entries have one path. The
-- loader's own map has no key twice.
pub reload_settles :
    {J : Type 0} (runtime : Runtime J) (files : List ScriptFile) (l : Loader J)
    → LoadsAll runtime
    → Readable files
    → Distinct l.file_times
    → has_changes (some files) (reload runtime (some files) l).0 ≡ false
unfolding has_changes reload
reload_settles runtime files l ok readable distinct =
    let current = current_files files [] in
    let d = current-Distinct files [] tt in
    let e =
      load-times runtime ok current (forget_deleted current l.file_times l)
      ∙ ap (refresh current) (forget-times current l.file_times l) in
    let own =
      refresh-Distinct current _ (prune-Distinct current l.file_times l.file_times distinct) in
    let count =
      length_same (after current l.file_times d) current own d (same_keys current l.file_times d)
      ∙ current-length files [] readable (nil-Unnoted files) in
    let fresh = Found→Fresh current l.file_times d files (current-Found files [] readable) in
    rw e (scan-Fresh files 0 (scripts files) _ (omega arith) fresh ∙ rw count (ground arith))
