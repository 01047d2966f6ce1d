-- ===== src/Permission/Expand.antt =====
-- src/security/PermissionSystem.cpp: what expandEnv makes of a path.
use win_bot.Base.{
  ℕ, zero, suc, ◌+◌, ◌≤◌, Text, find, take, drop, length, ◌≡◌, refl, ap, ◌∙◌, none, some, [], ◌∷◌,
  ◌++◌, arith, length-drop_le, length-append, find-append, take-append, drop_past, ◌==◌, Option,
  if◌then◌else◌,
}
use win_bot.Permission.{System}
use win_bot.Permission.Paths.{percent, placeholder, expand_from, expand_env}

module _ (sys : System) where
  -- Two amounts of fuel that cover the text give one result: the loop ends by itself.
  expand_from_fuel :
      (f g : ℕ) (s : Text) → length s ≤ f → length s ≤ g → expand_from sys f s ≡ expand_from sys g s
  unfolding expand_from
  expand_from_fuel zero zero s p q = refl
  expand_from_fuel zero (suc g) [] p q = refl
  expand_from_fuel zero (suc g) (c ∷ s) p q = absurd (omega arith)
  expand_from_fuel (suc f) zero [] p q = refl
  expand_from_fuel (suc f) zero (c ∷ s) p q = absurd (omega arith)
  expand_from_fuel (suc f) (suc g) [] p q = refl
  expand_from_fuel (suc f) (suc g) (c ∷ s) p q =
      go (λ t h. expand_from_fuel f g t (omega arith) (omega arith))
        (if c == percent then find s percent else none)
    where
      go :
          ((t : Text) → length t ≤ length s → expand_from sys f t ≡ expand_from sys g t)
          → (o : Option ℕ)
          → (elim o [
            | none ↦ c ∷ expand_from sys f s
            | some end ↦ placeholder sys (take end s) ++ expand_from sys f (drop (end + 1) s)
          ])
            ≡ (elim o [
              | none ↦ c ∷ expand_from sys g s
              | some end ↦ placeholder sys (take end s) ++ expand_from sys g (drop (end + 1) s)
            ])
      go ih none = ap (λ l. c ∷ l) (ih s (omega arith))
      go ih (some end) =
          ap (λ l. placeholder sys (take end s) ++ l)
            (ih (drop (end + 1) s) (length-drop_le (end + 1) s))

  -- A text without a percent sign is left as it is.
  expand_plain : (f : ℕ) (s : Text) → length s ≤ f → find s percent ≡ none → expand_from sys f s ≡ s
  unfolding expand_from find
  expand_plain zero [] p h = refl
  expand_plain zero (c ∷ s) p h = absurd (omega arith)
  expand_plain (suc f) [] p h = refl
  expand_plain (suc f) (c ∷ s) p h = ground (arith, expand_plain f s)

  -- A placeholder at the front is replaced, and the loop goes on behind it.
  expand_front :
      (f : ℕ) (name post : Text)
      → find name percent ≡ none
      → expand_from sys (suc f) (percent ∷ (name ++ percent ∷ post))
        ≡ placeholder sys name ++ expand_from sys f post
  unfolding expand_from
  expand_front f name post h =
      rw (find-append percent name post h, expand_from)
        (rw (take-append name (percent ∷ post), drop_past name percent post) refl)

  -- What stands before the first percent sign is copied; `n` rounds cover it and leave `f`.
  expand_before :
      (f n : ℕ) (pre rest : Text)
      → n ≡ length pre + f
      → find pre percent ≡ none
      → expand_from sys n (pre ++ percent ∷ rest) ≡ pre ++ expand_from sys f (percent ∷ rest)
  unfolding expand_from find
  expand_before f n [] rest e h = let e' : n ≡ f = omega arith in rw e'
  expand_before f zero (c ∷ pre) rest e h = absurd (omega arith)
  expand_before f (suc n) (c ∷ pre) rest e h =
      ground (arith, expand_before f n pre rest (omega arith))

  -- A text with no percent sign is left as it is.
  pub expand_env_plain : (s : Text) → find s percent ≡ none → expand_env sys s ≡ s
  unfolding expand_env
  expand_env_plain s h = expand_plain (length s) s (omega arith) h

  -- The first placeholder of a path is replaced by what stands for it, the text before it is
  -- copied, and the text behind it is expanded in turn.
  pub expand_env_variable :
      (pre name post : Text)
      → find pre percent ≡ none
      → find name percent ≡ none
      → expand_env sys (pre ++ percent ∷ (name ++ percent ∷ post))
        ≡ pre ++ (placeholder sys name ++ expand_env sys post)
  unfolding expand_env
  expand_env_variable pre name post h k =
      expand_before (suc rounds) _ pre (name ++ percent ∷ post) count h
      ∙ ap (λ l. pre ++ l)
          (expand_front rounds name post k
            ∙ ap (λ l. placeholder sys name ++ l)
                (expand_from_fuel rounds (length post) post covered (omega arith)))
    where
      rounds : ℕ
      rounds = length (name ++ percent ∷ post)

      count : length (pre ++ percent ∷ (name ++ percent ∷ post)) ≡ length pre + suc rounds
      count = length-append pre (percent ∷ (name ++ percent ∷ post))

      covered : length post ≤ rounds
      covered = omega (arith, length-append name (percent ∷ post))
