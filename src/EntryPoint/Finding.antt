-- ===== src/EntryPoint/Finding.antt =====
-- src/main.cpp, resolveAppPath and getExecutableDir: what they find.
use win_bot.Base.{
  ℕ, zero, suc, ◌+◌, ◌*◌, ◌<◌, min, Text, is_empty, length, Bool, false, ◌||◌, ◌==◌, Bool-cases,
  Option, none, some, List, [], ◌∷◌, ◌++◌, any, if◌then◌else◌, ◌≡◌, refl, inl, inr, arith,
}
use win_bot.EntryPoint.{
  Places, in_parents, from_current, from_root, or_exe_dir, resolve_app_path, module_file_name,
  get_executable_dir,
}

pub first_existing : (Text → Bool) → Text → List Text → Text
first_existing exists default [] = default
first_existing exists default (path ∷ paths) =
    let rest = first_existing exists default paths in if exists path then path else rest

module _ (places : Places) where
  parents_of : ℕ → Text → Text → List Text
  parents_of zero dir sub = []
  parents_of (suc n) dir sub =
      places.join (places.parent dir) sub ∷ parents_of n (places.parent dir) sub

  root_candidates : Text → Option Text → List Text
  root_candidates sub none = []
  root_candidates sub (some root) = if is_empty root then [] else places.join root sub ∷ []

  -- The places in the order of the search: the path itself where it is absolute, the directory of
  -- the program, WINBOT_ROOT where it is set, the current directory, and three parents.
  pub candidates : Text → Text → List Text
  unfolding root_candidates parents_of
  candidates exe_dir sub =
      (if places.is_absolute sub then sub ∷ [] else [])
      ++ (places.join exe_dir sub
          ∷ (root_candidates sub places.winbot_root
              ++ places.join places.current sub ∷ parents_of 3 exe_dir sub))

  in_parents_lem :
      (n : ℕ) (dir sub default : Text)
      → or_exe_dir places default sub (in_parents places n dir sub)
        ≡ first_existing places.exists (places.join default sub) (parents_of n dir sub)
  unfolding in_parents first_existing parents_of
  in_parents_lem zero dir sub default = refl
  in_parents_lem (suc n) dir sub default =
      elim (Bool-cases (places.exists (places.join (places.parent dir) sub))) [
        | inl e ↦ rw e refl
        | inr e ↦ rw e (in_parents_lem n (places.parent dir) sub default)
      ]

  from_current_lem :
      (exe_dir sub : Text)
      → from_current places exe_dir sub
        ≡ first_existing places.exists
            (places.join exe_dir sub)
            (places.join places.current sub ∷ parents_of 3 exe_dir sub)
  unfolding from_current first_existing
  from_current_lem exe_dir sub =
      elim (Bool-cases (places.exists (places.join places.current sub))) [
        | inl e ↦ rw e refl
        | inr e ↦ rw e (in_parents_lem 3 exe_dir sub exe_dir)
      ]

  from_root_lem :
      (exe_dir sub : Text) (root : Option Text)
      → from_root places exe_dir sub root
        ≡ first_existing places.exists
            (places.join exe_dir sub)
            (root_candidates sub root ++ places.join places.current sub ∷ parents_of 3 exe_dir sub)
  unfolding from_root first_existing root_candidates
  from_root_lem exe_dir sub none = from_current_lem exe_dir sub
  from_root_lem exe_dir sub (some root) = elim (Bool-cases (is_empty root)) [
    | inl e ↦ rw e (from_current_lem exe_dir sub)
    | inr e ↦ rw e (elim (Bool-cases (places.exists (places.join root sub))) [
      | inl f ↦ rw f refl
      | inr f ↦ rw f (from_current_lem exe_dir sub)
    ])
  ]

  resolve_first :
      (exe_dir sub : Text)
      → resolve_app_path places exe_dir sub
        ≡ first_existing places.exists (places.join exe_dir sub) (candidates exe_dir sub)
  unfolding resolve_app_path candidates first_existing
  resolve_first exe_dir sub = elim (Bool-cases (places.is_absolute sub)) [
    | inl a ↦ rw a (elim (Bool-cases (places.exists sub)) [
      | inl e ↦ rw e refl
      | inr e ↦ rw e (behind exe_dir sub)
    ])
    | inr a ↦ rw a (behind exe_dir sub)
  ]
    where
      behind :
          (exe_dir sub : Text)
          → (if places.exists (places.join exe_dir sub)
              then places.join exe_dir sub
              else from_root places exe_dir sub places.winbot_root)
            ≡ first_existing places.exists (places.join exe_dir sub) (
                places.join exe_dir sub
                ∷ (root_candidates sub places.winbot_root
                    ++ places.join places.current sub ∷ parents_of 3 exe_dir sub))
      behind exe_dir sub = elim (Bool-cases (places.exists (places.join exe_dir sub))) [
        | inl f ↦ rw f refl
        | inr f ↦ rw f (from_root_lem exe_dir sub places.winbot_root)
      ]

exists-first_existing :
    (exists : Text → Bool) (default : Text) (paths : List Text)
    → exists (first_existing exists default paths) ≡ (any exists paths || exists default)
unfolding first_existing
exists-first_existing exists default [] = refl
exists-first_existing exists default (path ∷ paths) = elim (Bool-cases (exists path)) [
  | inl e ↦ rw (e, e) refl
  | inr e ↦ rw e (exists-first_existing exists default paths)
]

-- resolveAppPath gives the first of its candidates that exists, in the order of the search, and the
-- path in the directory of the program where none does: it exists exactly when a candidate does.
pub resolve_app_path_lem :
    (places : Places) (exe_dir sub : Text)
    → (resolve_app_path places exe_dir sub
        ≡ first_existing places.exists (places.join exe_dir sub) (candidates places exe_dir sub))
      × (places.exists (resolve_app_path places exe_dir sub) ≡ (
          any places.exists (candidates places exe_dir sub)
          || places.exists (places.join exe_dir sub)))
resolve_app_path_lem places exe_dir sub = (
  resolve_first places exe_dir sub,
  rw (resolve_first places exe_dir sub) (
      exists-first_existing places.exists (places.join exe_dir sub)
        (candidates places exe_dir sub)),
)

module_file_name_ends :
    (fuel size : ℕ) (name : Text)
    → 0 < size
    → length name < size + fuel
    → module_file_name (suc fuel) size name ≡ some name
unfolding module_file_name
module_file_name_ends zero size name p h =
    let e : (min (length name) size == size) ≡ false = ground arith in rw e refl
module_file_name_ends (suc fuel) size name p h =
    elim (Bool-cases (min (length name) size == size)) [
      | inr e ↦ rw e refl
      | inl e ↦ rw e (module_file_name_ends fuel (size * 2) name (omega arith) (omega arith))
    ]

-- getExecutableDir ends for a path of the program of any length, with no more calls than the path has
-- characters and one, and has the whole path: its result is the directory that the path stands in.
pub get_executable_dir_ends :
    (places : Places) (name : Text)
    → get_executable_dir places (suc (length name)) name
      ≡ some (if is_empty name then places.current else places.parent name)
unfolding get_executable_dir
get_executable_dir_ends places name =
    rw (module_file_name_ends (length name) 260 name (omega arith) (omega arith)) refl
