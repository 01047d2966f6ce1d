-- ===== src/Permission/Subpath.antt =====
-- src/security/PermissionSystem.cpp: isSubpathOrEqual respects the borders of path components.
use win_bot.Base.{
  Text, text_eq, text_eq_iff, text_eq_refl, ends_with, length, ◌≡◌, refl, ap, ◌↔◌, inl, inr, true,
  false, [], ◌∷◌, ◌++◌, arith, starts_with→append, ends_with→append, ends_with-append,
  starts_with-append, length-append, Bool-cases, is_empty, ◌∙◌,
}
use win_bot.Permission.{System}
use win_bot.Permission.Paths.{backslash, char_is, covers, normal_form, is_subpath_or_equal}

-- `t` is `b` itself, or goes on behind `b` with a new path component: a text that ends with a
-- separator is followed by anything, any other text by a separator.
pub data Below (b t : Text) : Type 0 where
  same : t ≡ b → Below b t
  behind_separator : (stem rest : Text) → b ≡ stem ++ backslash ∷ [] → t ≡ b ++ rest → Below b t
  new_component : (rest : Text) → t ≡ b ++ backslash ∷ rest → Below b t

char_is-append : (b rest : Text) → char_is (b ++ backslash ∷ rest) (length b) backslash ≡ true
unfolding char_is
char_is-append [] rest = refl
char_is-append (c ∷ b) rest = char_is-append b rest

char_is→append :
    (b rest : Text)
    → char_is (b ++ rest) (length b) backslash ≡ true
    → (rest' : Text) × (rest ≡ backslash ∷ rest')
unfolding char_is
char_is→append [] [] h = ([], ground arith)
char_is→append [] (c ∷ rest) h = (rest, ground arith)
char_is→append (c ∷ b) rest h = char_is→append b rest h

covers→Below : (b t : Text) → covers b t ≡ true → Below b t
unfolding covers
covers→Below b t h = elim (Bool-cases (text_eq t b)) [
  | inl e ↦ same ((text_eq_iff t b).0 e)
  | inr e ↦
      let (rest, p) = starts_with→append t b (ground arith) in
      elim (Bool-cases (ends_with b (backslash ∷ []))) [
        | inl sep ↦
            let (stem, q) = ends_with→append b (backslash ∷ []) sep in
            behind_separator stem rest q p
        | inr no_sep ↦
            let at_end : char_is t (length b) backslash ≡ true = ground arith in
            let (rest', q) = char_is→append b rest (rw p at at_end) in
            new_component rest' (p ∙ ap (λ l. b ++ l) q)
      ]
]

covers_same : (b : Text) → covers b b ≡ true
unfolding covers
covers_same b = rw (text_eq_refl b)

covers_behind :
    (stem rest : Text) → covers (stem ++ backslash ∷ []) ((stem ++ backslash ∷ []) ++ rest) ≡ true
unfolding covers
covers_behind stem rest = ground (
  arith,
  starts_with-append (stem ++ backslash ∷ []) rest,
  ends_with-append stem (backslash ∷ []),
)

covers_new : (b rest : Text) → covers b (b ++ backslash ∷ rest) ≡ true
unfolding covers
covers_new b rest = ground (
  arith,
  starts_with-append b (backslash ∷ rest),
  char_is-append b rest,
  length-append b (backslash ∷ rest),
)

Below→covers : (b t : Text) → Below b t → covers b t ≡ true
Below→covers b t (same e) = rw e (covers_same b)
Below→covers b t (behind_separator stem rest q p) = rw (p, q) (covers_behind stem rest)
Below→covers b t (new_component rest p) = rw p (covers_new b rest)

-- A path is taken for one inside a directory exactly when neither is empty and, in normal form, it
-- is that directory or goes on behind it with a new path component.
pub is_subpath_or_equal_iff :
    (sys : System) (base target : Text)
    → (is_subpath_or_equal sys base target ≡ true) ↔ (
        (is_empty base ≡ false)
        × (is_empty target ≡ false)
        × Below (normal_form sys base) (normal_form sys target))
unfolding is_subpath_or_equal
is_subpath_or_equal_iff sys base target = (
  λ h. (
    ground arith,
    ground arith,
    covers→Below (normal_form sys base) (normal_form sys target) (ground arith),
  ),
  λ h. ground (arith, Below→covers (normal_form sys base) (normal_form sys target) h.2),
)
