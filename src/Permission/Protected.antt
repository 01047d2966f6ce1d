-- ===== src/Permission/Protected.antt =====
-- src/security/PermissionSystem.cpp: which processes checkProcess never lets be killed.
use win_bot.Base.{
  ◌-◌, Text, text, text_eq, text_eq_iff, ends_with, ends_with→append, ends_with-append, take,
  take-append, length, length-append, is_empty, any, Any, ◌≡◌, ◌≢◌, sym, ap, ◌∙◌, ◌⊎◌, inl, inr,
  Bool, true, false, List, [], ◌∷◌, ◌++◌, arith, Bool-cases, ◌||◌, ◌&&◌, not,
}
use win_bot.Common.{to_lower}
use win_bot.Permission.{Config, System}
use win_bot.Permission.Checks.{
  granted, dot_exe, parse_pid, matches_process, process_exe, is_protected, check_process,
}

-- Two names of one program: equal, or one is the other with its ".exe" left out.
pub data SameProgram (target blocked : Text) : Type 0 where
  same : target ≡ blocked → SameProgram target blocked
  without_exe :
      ends_with target dot_exe ≡ false → target ++ dot_exe ≡ blocked → SameProgram target blocked
  with_exe : target ≡ blocked ++ dot_exe → SameProgram target blocked

drop_exe : (stem : Text) → take (length (stem ++ dot_exe) - 4) (stem ++ dot_exe) ≡ stem
unfolding text
drop_exe stem =
    ap (λ n. take n (stem ++ dot_exe)) (omega (arith, length-append stem dot_exe))
    ∙ take-append stem dot_exe

module _ (t b : Text) where
  matches_process_sound : matches_process t b ≡ true → SameProgram t b
  unfolding matches_process
  matches_process_sound h = elim (Bool-cases (text_eq t b)) [
    | inl e ↦ same ((text_eq_iff t b).0 e)
    | inr e ↦ elim (Bool-cases (ends_with t dot_exe)) [
      | inr no_exe ↦ without_exe no_exe ((text_eq_iff (t ++ dot_exe) b).0 (ground arith))
      | inl exe ↦
          let (stem, p) = ends_with→append t dot_exe exe in
          let q : take (length t - 4) t ≡ b = (text_eq_iff _ b).0 (ground arith) in
          with_exe (p ∙ ap (λ l. l ++ dot_exe) (sym (drop_exe stem) ∙ rw p at q))
    ]
  ]

  matches_process_complete :
      is_empty t ≡ false → is_empty b ≡ false → SameProgram t b → matches_process t b ≡ true
  unfolding matches_process
  matches_process_complete p q (same e) = ground (arith, text_eq_iff t b)
  matches_process_complete p q (without_exe n e) = ground (arith, text_eq_iff (t ++ dot_exe) b)
  matches_process_complete p q (with_exe e) =
      ground (arith, ends_with-append b dot_exe, text_eq_iff (take (length t - 4) t) b, drop_exe b)

-- A listed process is meant by a kill request: its name stands for the requested one, or for the
-- executable of the requested process, whatever the case.
pub record Names (sys : System) (name blocked : Text) : Type 0 where
  pub listed : is_empty (to_lower blocked) ≡ false
  pub meant :
      ((is_empty (to_lower name) ≡ false) × SameProgram (to_lower name) (to_lower blocked))
      ⊎ ((is_empty (process_exe sys (parse_pid name)) ≡ false)
          × SameProgram (process_exe sys (parse_pid name)) (to_lower blocked))

Names→is_protected :
    (sys : System) (cfg : Config) (name : Text)
    → Any (Names sys name) cfg.blocked_processes
    → is_protected sys cfg name ≡ true
unfolding is_protected
Names→is_protected sys cfg name = go cfg.blocked_processes
  where
    exe : Text
    exe = process_exe sys (parse_pid name)

    test : Text → Bool
    test blocked =
        matches_process (to_lower name) (to_lower blocked)
        || (not (is_empty exe) && matches_process exe (to_lower blocked))

    one : (b : Text) → Names sys name b → test b ≡ true
    one b n = elim n.meant [
      | inl (p, q) ↦ rw (matches_process_complete (to_lower name) (to_lower b) p n.listed q)
      | inr (p, q) ↦ let m = matches_process_complete exe (to_lower b) p n.listed q in ground arith
    ]

    go : (bs : List Text) → Any (Names sys name) bs → any test bs ≡ true
    go [] h = absurd h
    go (b ∷ bs) (inl n) = rw (one b n)
    go (b ∷ bs) (inr h) = let rest = go bs h in ground arith

-- A kill request that means a listed process is refused in every mode, whatever the user would
-- answer: by name with or without ".exe", in any case, or by the identifier of a process that runs it.
pub protected_refused :
    (sys : System) (cfg : Config) (mcp : Bool) (name : Text)
    → Any (Names sys name) cfg.blocked_processes
    → check_process sys cfg mcp name ≢ granted
unfolding check_process
protected_refused sys cfg mcp name h e = let p = Names→is_protected sys cfg name h in ground arith
