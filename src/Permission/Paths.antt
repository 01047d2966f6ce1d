-- ===== src/Permission/Paths.antt =====
-- src/security/PermissionSystem.cpp: expandEnv, and isSubpathOrEqual on normalised paths.
use mathlib.Core.List.{reverse}
use win_bot.Base.{
  ℕ, zero, suc, ◌+◌, Text, text_eq, starts_with, ends_with, is_empty, find, take, drop, length,
  Bool, false, ◌&&◌, ◌||◌, Option, none, some, [], ◌∷◌, ◌++◌, map, ltb, ◌==◌, if◌then◌else◌,
}
use win_bot.Permission.{System}

abbrev pub backslash : ℕ
backslash = b'\\'

abbrev pub percent : ℕ
percent = b'%'

unify_slash : ℕ → ℕ
unify_slash c = if c == b'/' then backslash else c

-- A drive like "c:" is made the root "c:\".
drive_root : Text → Text
drive_root (d ∷ c ∷ []) = if c == b':' then d ∷ c ∷ backslash ∷ [] else d ∷ c ∷ []
drive_root s = s

-- `while (size > 3 && back == '\\') pop_back()`, on the reversed text
trim_back : Text → Text
trim_back [] = []
trim_back (c ∷ s) =
    let rest = trim_back s in if ltb 3 (suc (length s)) && c == backslash then rest else c ∷ s

-- s.at(i) == c, for a position that may lie behind the end
unfoldable pub char_is : Text → ℕ → ℕ → Bool
char_is [] i c = false
char_is (x ∷ s) zero c = x == c
char_is (x ∷ s) (suc i) c = char_is s i c

-- The comparison at the end of isSubpathOrEqual.
unfoldable pub covers : Text → Text → Bool
unfolding char_is
covers b t =
    text_eq t b
    || (starts_with t b
        && (ends_with b (backslash ∷ [])
            || (ltb (length b) (length t) && char_is t (length b) backslash)))

module _ (sys : System) where
  -- The value of a variable in UTF-8; `none` for one that is not set, and for an empty one.
  env_value : Text → Option Text
  env_value name = elim (sys.env_var (sys.to_wide name)) [
    | none ↦ none
    | some value ↦ if is_empty value then none else some (sys.to_utf8 value)
  ]

  -- The text that stands for the variable `name`: its value, or the placeholder itself.
  unfoldable pub placeholder : Text → Text
  unfolding env_value
  placeholder name = elim (env_value name) [
    | none ↦ percent ∷ (name ++ percent ∷ [])
    | some value ↦ value
  ]

  -- The loop of expandEnv over what is left of the path, a round for each unit of fuel.
  unfoldable pub expand_from : ℕ → Text → Text
  unfolding placeholder
  expand_from zero s = []
  expand_from (suc fuel) [] = []
  expand_from (suc fuel) (c ∷ s) = elim (if c == percent then find s percent else none) [
    | none ↦ c ∷ expand_from fuel s
    | some end ↦ placeholder (take end s) ++ expand_from fuel (drop (end + 1) s)
  ]

  -- expandEnv
  unfoldable pub expand_env : Text → Text
  unfolding expand_from
  expand_env s = expand_from (length s) s

  -- The form in which two paths are compared.
  unfoldable pub normal_form : Text → Text
  unfolding unify_slash drive_root trim_back
  normal_form p = reverse (
      trim_back
        (reverse (drive_root (map sys.towlower (map unify_slash (sys.lexically_normal p))))))

  unfoldable pub is_subpath_or_equal : Text → Text → Bool
  unfolding covers
  is_subpath_or_equal base target =
      if is_empty base || is_empty target
      then false
      else covers (normal_form base) (normal_form target)
