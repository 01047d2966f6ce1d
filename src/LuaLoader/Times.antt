-- ===== src/LuaLoader/Times.antt =====
-- src/services/LuaToolLoader.cpp: what reload makes of the write times that it knows.
use win_bot.Base.{
  ℕ, Text, text_eq, text_eq_iff, Bool, true, false, Bool-cases, Option, none, some, is_some, List,
  [], ◌∷◌, Map, lookup, insert, erase, lookup-insert, lookup-erase, ltb, if◌then◌else◌, ◌≡◌, refl,
  ◌∙◌, arith, inl, inr,
}
use win_bot.LuaLoader.{
  Definition, loaded, Runtime, Loader, is_outdated, forget_file, forget_deleted, load_file,
  load_changed,
}
use win_bot.LuaLoader.Keys.{Distinct, insert-Distinct, erase-Distinct}

-- What the scan's time of a file leads to, given what was known of the file.
abbrev pub newer : Option ℕ → Option ℕ → Option ℕ
newer none known = known
newer (some time) known = if is_outdated known time then some time else known

pub newer-settled :
    (time : ℕ) (known : Option ℕ)
    → (t : ℕ) × (newer (some time) known ≡ some t) × (is_outdated (some t) time ≡ false)
newer-settled time none = (time, refl, ground arith)
newer-settled time (some t) = elim (Bool-cases (ltb t time)) [
  | inl e ↦ (time, rw e refl, ground arith)
  | inr e ↦ (t, rw e refl, e)
]

-- What the two loops of reload make of m_fileTimes.
abbrev pub prune : Map ℕ → Map ℕ → Map ℕ → Map ℕ
prune current [] m = m
prune current ((path, time) ∷ rest) m =
    prune current rest (if is_some (lookup path current) then m else erase path m)

abbrev pub refresh : Map ℕ → Map ℕ → Map ℕ
refresh [] m = m
refresh ((path, time) ∷ rest) m =
    refresh rest (if is_outdated (lookup path m) time then insert path time m else m)

pub forget-times :
    {J : Type 0} (current rest : Map ℕ) (l : Loader J)
    → (forget_deleted current rest l).file_times ≡ prune current rest l.file_times
unfolding forget_deleted forget_file
forget-times current [] l = refl
forget-times current ((path, time) ∷ rest) l = elim (Bool-cases (is_some (lookup path current))) [
  | inl e ↦ simp e (forget-times current rest l)
  | inr e ↦ simp e (forget-times current rest (forget_file path l))
]

abbrev pub LoadsAll : {J : Type 0} → Runtime J → Type 0
LoadsAll {J} runtime =
    (path : Text)
    → (defs : List (Definition J)) × (runtime.load_tool_definitions path ≡ loaded defs)

pub load-times :
    {J : Type 0} (runtime : Runtime J)
    → LoadsAll runtime
    → (current : Map ℕ) (l : Loader J)
    → (load_changed runtime current l).file_times ≡ refresh current l.file_times
unfolding load_changed load_file
load-times runtime ok [] l = refl
load-times runtime ok ((path, time) ∷ rest) l =
    elim (Bool-cases (is_outdated (lookup path l.file_times) time)) [
      | inl e ↦
          let (defs, q) = ok path in
          let p = load-times runtime ok rest (load_file runtime path time (loaded defs) l) in
          simp (e, q) p
      | inr e ↦ simp e (load-times runtime ok rest l)
    ]

pub prune-Distinct : (current rest m : Map ℕ) → Distinct m → Distinct (prune current rest m)
prune-Distinct current [] m h = h
prune-Distinct current ((path, time) ∷ rest) m h =
    elim (Bool-cases (is_some (lookup path current))) [
      | inl e ↦ rw e (prune-Distinct current rest m h)
      | inr e ↦ rw e (prune-Distinct current rest (erase path m) (erase-Distinct path m h))
    ]

pub refresh-Distinct : (current m : Map ℕ) → Distinct m → Distinct (refresh current m)
refresh-Distinct [] m h = h
refresh-Distinct ((path, time) ∷ rest) m h = elim (Bool-cases (is_outdated (lookup path m) time)) [
  | inl e ↦ rw e (refresh-Distinct rest (insert path time m) (insert-Distinct path time m h))
  | inr e ↦ rw e (refresh-Distinct rest m h)
]

abbrev pub kept : Bool → Bool → Option ℕ → Option ℕ
kept true listed known = known
kept false true known = none
kept false false known = known

kept-unlisted : (current : Bool) (known : Option ℕ) → known ≡ kept current false known
kept-unlisted true known = refl
kept-unlisted false known = refl

pub kept-none : (listed : Bool) → kept false listed none ≡ none
kept-none true = refl
kept-none false = refl

pub lookup-prune :
    (j : Text) (current rest m : Map ℕ)
    → lookup j (prune current rest m)
      ≡ kept (is_some (lookup j current)) (is_some (lookup j rest)) (lookup j m)
unfolding lookup
lookup-prune j current [] m = kept-unlisted (is_some (lookup j current)) (lookup j m)
lookup-prune j current ((path, time) ∷ rest) m = elim (Bool-cases (is_some (lookup path current))) [
  | inl e ↦ simp e (lookup-prune j current rest m ∙ same e)
  | inr e ↦ simp e (lookup-prune j current rest (erase path m) ∙ gone e)
]
  where
    same :
        is_some (lookup path current) ≡ true
        → kept (is_some (lookup j current)) (is_some (lookup j rest)) (lookup j m)
          ≡ kept
              (is_some (lookup j current))
              (is_some (if text_eq path j then some time else lookup j rest))
              (lookup j m)
    same e = elim (Bool-cases (text_eq path j)) [
      | inl s ↦ let f = rw ((text_eq_iff path j).0 s) at e in rw (s, f) refl
      | inr s ↦ rw s refl
    ]

    gone :
        is_some (lookup path current) ≡ false
        → kept (is_some (lookup j current)) (is_some (lookup j rest)) (lookup j (erase path m))
          ≡ kept
              (is_some (lookup j current))
              (is_some (if text_eq path j then some time else lookup j rest))
              (lookup j m)
    gone e = elim (Bool-cases (text_eq path j)) [
      | inl s ↦
          let f = rw ((text_eq_iff path j).0 s) at e in
          rw (lookup-erase path j m, s, f) (kept-none (is_some (lookup j rest)))
      | inr s ↦ rw (lookup-erase path j m, s) refl
    ]

pub lookup-refresh :
    (j : Text) (current m : Map ℕ)
    → Distinct current
    → lookup j (refresh current m) ≡ newer (lookup j current) (lookup j m)
unfolding lookup
lookup-refresh j [] m d = refl
lookup-refresh j ((path, time) ∷ rest) m d = elim (Bool-cases (is_outdated (lookup path m) time)) [
  | inl e ↦ simp e (lookup-refresh j rest (insert path time m) d.1 ∙ outdated e)
  | inr e ↦ simp e (lookup-refresh j rest m d.1 ∙ settled e)
]
  where
    outdated :
        is_outdated (lookup path m) time ≡ true
        → newer (lookup j rest) (lookup j (insert path time m))
          ≡ newer (if text_eq path j then some time else lookup j rest) (lookup j m)
    outdated e = elim (Bool-cases (text_eq path j)) [
      | inl s ↦
          let p = (text_eq_iff path j).0 s in
          rw (lookup-insert path j time m, s) (rw (rw p at d.0, rw p at e) refl)
      | inr s ↦ rw (lookup-insert path j time m, s) refl
    ]

    settled :
        is_outdated (lookup path m) time ≡ false
        → newer (lookup j rest) (lookup j m)
          ≡ newer (if text_eq path j then some time else lookup j rest) (lookup j m)
    settled e = elim (Bool-cases (text_eq path j)) [
      | inl s ↦ let p = (text_eq_iff path j).0 s in rw s (rw (rw p at d.0, rw p at e) refl)
      | inr s ↦ rw s refl
    ]
