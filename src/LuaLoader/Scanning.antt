-- ===== src/LuaLoader/Scanning.antt =====
-- src/services/LuaToolLoader.cpp: what the scan of a directory finds.
use win_bot.Base.{
  ℕ, ◌+◌, Text, text_eq, text_eq_refl, text_eq_sym, false, Bool-cases, Option, none, some, List, [],
  ◌∷◌, length, All, Map, lookup, lookup-insert, if◌then◌else◌, ◌≡◌, ◌⊎◌, refl, ◌∙◌, arith, inl, inr,
}
use win_bot.LuaLoader.{ScriptFile, is_script, note_time, current_files}
use win_bot.LuaLoader.Keys.{Distinct, insert-Distinct, length-insert_fresh}

-- The entry is no script, or its write time can be read.
abbrev pub HasTime : ScriptFile → Type 0
HasTime file = (is_script file ≡ false) ⊎ ((time : ℕ) × (file.write_time ≡ some time))

abbrev pub Apart : Text → List ScriptFile → Type 0
Apart path = All (λ file. text_eq path file.path ≡ false)

-- The write times of a directory's scripts can be read, and no two entries have one path.
abbrev pub Readable : List ScriptFile → Type 0
Readable [] = Unit
Readable (file ∷ files) = HasTime file × (Apart file.path files × Readable files)

abbrev noted : ScriptFile → Map ℕ → Map ℕ
noted file times = if is_script file then note_time file.path file.write_time times else times

note_time-other :
    (p path : Text) (time : Option ℕ) (m : Map ℕ)
    → text_eq path p ≡ false
    → lookup p (note_time path time m) ≡ lookup p m
note_time-other p path none m h = refl
note_time-other p path (some time) m h = rw (lookup-insert path p time m, h) refl

noted-other :
    (p : Text) (file : ScriptFile) (m : Map ℕ)
    → text_eq p file.path ≡ false
    → lookup p (noted file m) ≡ lookup p m
noted-other p file m h = elim (Bool-cases (is_script file)) [
  | inl e ↦ simp e (note_time-other p file.path file.write_time m (text_eq_sym file.path p ∙ h))
  | inr e ↦ simp e refl
]

current-other :
    (p : Text) (files : List ScriptFile) (m : Map ℕ)
    → Apart p files
    → lookup p (current_files files m) ≡ lookup p m
unfolding current_files
current-other p [] m h = refl
current-other p (file ∷ files) m h =
    current-other p files (noted file m) h.1 ∙ noted-other p file m h.0

note_time-Distinct :
    (path : Text) (time : Option ℕ) (m : Map ℕ) → Distinct m → Distinct (note_time path time m)
note_time-Distinct path none m h = h
note_time-Distinct path (some time) m h = insert-Distinct path time m h

pub current-Distinct :
    (files : List ScriptFile) (m : Map ℕ) → Distinct m → Distinct (current_files files m)
unfolding current_files
current-Distinct [] m h = h
current-Distinct (file ∷ files) m h =
    current-Distinct files (noted file m) (elim (Bool-cases (is_script file)) [
      | inl e ↦ simp e (note_time-Distinct file.path file.write_time m h)
      | inr e ↦ simp e h
    ])

-- The scan has found the entry's time, if it is a script.
abbrev pub Found : Map ℕ → ScriptFile → Type 0
Found current file =
    (is_script file ≡ false)
    ⊎ ((time : ℕ) × (file.write_time ≡ some time) × (lookup file.path current ≡ some time))

pub current-Found :
    (files : List ScriptFile) (m : Map ℕ)
    → Readable files
    → All (Found (current_files files m)) files
unfolding current_files
current-Found [] m h = tt
current-Found (file ∷ files) m h = (first h.0, current-Found files (noted file m) h.1.1)
  where
    first : HasTime file → Found (current_files files (noted file m)) file
    first (inl e) = inl e
    first (inr (time, e)) = elim (Bool-cases (is_script file)) [
      | inr s ↦ inl s
      | inl s ↦ inr (
        time,
        e,
        current-other file.path files (noted file m) h.1.0
            ∙ simp (s, e)
                (lookup-insert file.path file.path time m ∙ rw (text_eq_refl file.path) refl),
      )
    ]

abbrev pub scripts : List ScriptFile → ℕ
scripts [] = 0
scripts (file ∷ files) = (if is_script file then 1 else 0) + scripts files

abbrev pub Unnoted : Map ℕ → ScriptFile → Type 0
Unnoted m file = lookup file.path m ≡ none

noted-Unnoted :
    (file : ScriptFile) (files : List ScriptFile) (m : Map ℕ)
    → Apart file.path files
    → All (Unnoted m) files
    → All (Unnoted (noted file m)) files
noted-Unnoted file [] m a u = tt
noted-Unnoted file (g ∷ files) m a u = (
  noted-other g.path file m (text_eq_sym g.path file.path ∙ a.0) ∙ u.0,
  noted-Unnoted file files m a.1 u.1,
)

noted-length :
    (file : ScriptFile) (m : Map ℕ)
    → HasTime file
    → Unnoted m file
    → length (noted file m) ≡ length m + (if is_script file then 1 else 0)
noted-length file m (inl e) u = simp e (omega arith)
noted-length file m (inr (time, e)) u = elim (Bool-cases (is_script file)) [
  | inl s ↦ simp (s, e) (length-insert_fresh file.path time m u)
  | inr s ↦ simp s (omega arith)
]

pub current-length :
    (files : List ScriptFile) (m : Map ℕ)
    → Readable files
    → All (Unnoted m) files
    → length (current_files files m) ≡ length m + scripts files
unfolding current_files
current-length [] m h u = omega arith
current-length (file ∷ files) m h u =
    let p = current-length files (noted file m) h.1.1 (noted-Unnoted file files m h.1.0 u.1) in
    let q = noted-length file m h.0 u.0 in omega (arith, p, q)
