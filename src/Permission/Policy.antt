-- ===== src/Permission/Policy.antt =====
-- src/security/PermissionSystem.cpp: what the checks grant in MCP mode, where nobody can be asked.
use win_bot.Base.{
  Text, is_empty, Any, ◌≡◌, refl, ◌↔◌, ◌⊎◌, inl, inr, true, false, List, [], ◌∷◌, arith, Bool-cases,
}
use win_bot.Permission.{Config, System}
use win_bot.Permission.Paths.{normal_form, is_subpath_or_equal}
use win_bot.Permission.Checks.{granted, resolve, is_within, check_path}
use win_bot.Permission.Subpath.{Below, is_subpath_or_equal_iff}

-- The path lies in the directory, both resolved.
pub record Inside (sys : System) (path dir : Text) : Type 0 where
  pub dir_given : is_empty (resolve sys dir) ≡ false
  pub path_given : is_empty (resolve sys path) ≡ false
  pub below : Below (normal_form sys (resolve sys dir)) (normal_form sys (resolve sys path))

module _ (sys : System) (path : Text) where
  is_within_sound :
      (dirs : List Text) → is_within sys dirs (resolve sys path) ≡ true → Any (Inside sys path) dirs
  unfolding is_within
  is_within_sound [] h = cc
  is_within_sound (d ∷ dirs) h =
      elim (Bool-cases (is_subpath_or_equal sys (resolve sys d) (resolve sys path))) [
        | inl e ↦
            let (p, q, r) = (is_subpath_or_equal_iff sys (resolve sys d) (resolve sys path)).0 e in
            inl (record { dir_given = p; path_given = q; below = r })
        | inr e ↦ inr (is_within_sound dirs (rw e at h))
      ]

  is_within_complete :
      (dirs : List Text) → Any (Inside sys path) dirs → is_within sys dirs (resolve sys path) ≡ true
  unfolding is_within
  is_within_complete [] h = absurd h
  is_within_complete (d ∷ dirs) (inl i) = rw (
      (is_subpath_or_equal_iff sys (resolve sys d) (resolve sys path)).1
        (i.dir_given, i.path_given, i.below))
  is_within_complete (d ∷ dirs) (inr h) = ground (arith, is_within_complete dirs h)

  not_within :
      (dirs : List Text)
      → (¬ Any (Inside sys path) dirs)
      → is_within sys dirs (resolve sys path) ≡ false
  not_within dirs h = elim (Bool-cases (is_within sys dirs (resolve sys path))) [
    | inl e ↦ absurd (h (is_within_sound dirs e))
    | inr e ↦ e
  ]

  -- The last step of checkPath: within an allowed directory, if any are listed.
  abbrev Allowed : List Text → Type 0
  Allowed dirs = (dirs ≡ []) ⊎ Any (Inside sys path) dirs

  check_path_sound :
      (cfg : Config) (dirs : List Text)
      → cfg.allowed_paths ≡ dirs
      → check_path sys cfg true path ≡ granted
      → (is_empty path ≡ false)
        × (is_within sys cfg.blocked_paths (resolve sys path) ≡ false)
        × Allowed dirs
  unfolding check_path
  check_path_sound cfg [] e h = (ground arith, ground arith, inl refl)
  check_path_sound cfg (d ∷ dirs) e h =
      (ground arith, ground arith, inr (is_within_sound (d ∷ dirs) (ground arith)))

  check_path_complete :
      (cfg : Config) (dirs : List Text)
      → cfg.allowed_paths ≡ dirs
      → is_empty path ≡ false
      → is_within sys cfg.blocked_paths (resolve sys path) ≡ false
      → Allowed dirs
      → check_path sys cfg true path ≡ granted
  unfolding check_path
  check_path_complete cfg [] e p b a = ground arith
  check_path_complete cfg (d ∷ dirs) e p b (inl a) = cc
  check_path_complete cfg (d ∷ dirs) e p b (inr a) =
      let w = is_within_complete (d ∷ dirs) a in ground arith

-- In MCP mode access to a path is granted exactly when the path is not empty, lies in no blocked
-- directory, and lies in an allowed one if any are listed.
pub check_path_mcp :
    (sys : System) (cfg : Config) (path : Text)
    → (check_path sys cfg true path ≡ granted) ↔ (
        (is_empty path ≡ false)
        × (¬ Any (Inside sys path) cfg.blocked_paths)
        × ((cfg.allowed_paths ≡ []) ⊎ Any (Inside sys path) cfg.allowed_paths))
check_path_mcp sys cfg path = (
  λ h.
      let (p, b, a) = check_path_sound sys path cfg cfg.allowed_paths refl h in
      (p, (λ i. cc (b, is_within_complete sys path cfg.blocked_paths i)), a),
  λ h.
      check_path_complete sys path cfg cfg.allowed_paths refl h.0
        (not_within sys path cfg.blocked_paths h.1) h.2,
)
