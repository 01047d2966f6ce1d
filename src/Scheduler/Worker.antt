-- ===== src/Scheduler/Worker.antt =====
-- src/services/Scheduler.cpp: which prompts the worker hands to the callback, and how
-- a cron expression is cut into its fields.
use win_bot.Base.{
  ℕ, ◌+◌, Text, true, false, Bool-cases, ◌&&◌, List, [], ◌∷◌, ◌++◌, append-nil, append_assoc, All,
  if◌then◌else◌, Outcome, returned, threw, threw_unknown, ◌≡◌, ◌≢◌, refl, ap, inl, inr,
}
use win_bot.Base.Exec.{Exec}
use win_bot.Scheduler.{
  TaskDef, Time, cron_field_matches, is_space, begins_blank, prepend, words, fields_match,
  cron_matches, guarded, fire, worker_loop,
}

-- The prompts of the tasks that are due at a time, in the order of the list.
abbrev pub due : Time → List TaskDef → List Text
due t [] = []
due t (task ∷ tasks) =
    let rest = due t tasks in if cron_matches task.cron_expr t then task.prompt ∷ rest else rest

abbrev pub due_all : List TaskDef → List Time → List Text
due_all tasks [] = []
due_all tasks (t ∷ times) = due t tasks ++ due_all tasks times

-- A callback that keeps the prompts it was given, and returns or throws as `outcome` says.
abbrev pub recording : (Text → Outcome (Unit {0})) → Text → Exec (List Text) (Unit {0})
recording outcome prompt fired = (outcome prompt, fired ++ prompt ∷ [])

module _ (outcome : Text → Outcome (Unit {0})) (std : (p : Text) → outcome p ≢ threw_unknown) where
  guarded-recording :
      (p : Text) (fired : List Text)
      → guarded (recording outcome) (recording outcome p fired) ≡ (returned tt, fired ++ p ∷ [])
  guarded-recording p fired = go (outcome p) (std p)
    where
      go :
          (o : Outcome (Unit {0}))
          → o ≢ threw_unknown
          → guarded (recording outcome) (o, fired ++ p ∷ []) ≡ (returned tt, fired ++ p ∷ [])
      go (returned a) h = refl
      go (threw what) h = refl
      go threw_unknown h = absurd (h refl)

  fire-due :
      (t : Time) (tasks : List TaskDef) (fired : List Text)
      → fire (recording outcome) t tasks fired ≡ (returned tt, fired ++ due t tasks)
  unfolding fire
  fire-due t [] fired = rw (append-nil fired) refl
  fire-due t (task ∷ tasks) fired = elim (Bool-cases (cron_matches task.cron_expr t)) [
    | inl e ↦ rw e (
        rw (guarded-recording task.prompt fired) (
          rw (fire-due t tasks (fired ++ task.prompt ∷ []))
            (ap (λ l. (returned tt, l)) (append_assoc fired (task.prompt ∷ []) (due t tasks)))))
    | inr e ↦ rw e (fire-due t tasks fired)
  ]

  -- Each wake-up of the worker hands the callback exactly the prompts of the tasks whose cron
  -- expression matches the local time, in the order of the list, whether or not an earlier wake-up
  -- of the same minute did so too. A callback that throws a std::exception stops none of the others.
  pub worker_fires :
      (tasks : List TaskDef) (times : List Time) (fired : List Text)
      → worker_loop (recording outcome) tasks times fired
        ≡ (returned tt, fired ++ due_all tasks times)
  unfolding worker_loop
  worker_fires tasks [] fired = rw (append-nil fired) refl
  worker_fires tasks (t ∷ times) fired = rw (fire-due t tasks fired) (
      rw (worker_fires tasks times (fired ++ due t tasks))
        (ap (λ l. (returned tt, l)) (append_assoc fired (due t tasks) (due_all tasks times))))

abbrev pub InWord : ℕ → Type 0
InWord c = is_space c ≡ false

-- The last character before a blank, and a character before another of its word.
words-end :
    (c : ℕ) (s : Text) → InWord c → begins_blank s ≡ true → words (c ∷ s) ≡ (c ∷ []) ∷ words s
unfolding words
words-end c s h b = rw (h, b) refl

words-inner :
    (c d : ℕ) (s : Text) → InWord c → InWord d → words (c ∷ d ∷ s) ≡ prepend c (words (d ∷ s))
unfolding words
words-inner c d s h k = rw (h, k) refl

words-blank : (s : Text) → words (b' ' ∷ s) ≡ words s
unfolding words
words-blank s = refl

words-append :
    (c : ℕ) (w rest : Text)
    → All InWord (c ∷ w)
    → words (c ∷ (w ++ b' ' ∷ rest)) ≡ (c ∷ w) ∷ words rest
words-append c [] rest h = rw (words-end c (b' ' ∷ rest) h.0 refl, words-blank rest) refl
words-append c (d ∷ w) rest h =
    rw (words-inner c d (w ++ b' ' ∷ rest) h.0 h.1.0, words-append d w rest h.1) refl

words-nil : words [] ≡ []
unfolding words
words-nil = refl

words-last : (c : ℕ) (w : Text) → All InWord (c ∷ w) → words (c ∷ w) ≡ (c ∷ w) ∷ []
words-last c [] h = rw (words-end c [] h.0 refl, words-nil) refl
words-last c (d ∷ w) h = rw (words-inner c d w h.0 h.1.0, words-last d w h.1) refl

-- A field of a cron expression: not empty, and without white space.
pub record IsField (f : Text) : Type 0 where
  pub first : ℕ
  pub others : Text
  pub whole : f ≡ first ∷ others
  pub in_word : All InWord (first ∷ others)

words-field : (f rest : Text) → IsField f → words (f ++ b' ' ∷ rest) ≡ f ∷ words rest
words-field f rest h = rw h.whole (words-append h.first h.others rest h.in_word)

-- An expression of five fields with a space between them matches a time exactly when each field
-- matches its part of the time, months counted from 1.
pub five_fields :
    (a b c d e : Text) (t : Time)
    → IsField a
    → IsField b
    → IsField c
    → IsField d
    → IsField e
    → cron_matches (a ++ b' ' ∷ (b ++ b' ' ∷ (c ++ b' ' ∷ (d ++ b' ' ∷ e)))) t ≡ (
        cron_field_matches a t.minute 0 59
        && cron_field_matches b t.hour 0 23
        && cron_field_matches c t.day 1 31
        && cron_field_matches d (t.month + 1) 1 12
        && cron_field_matches e t.weekday 0 6)
unfolding cron_matches fields_match
five_fields a b c d e t ia ib ic id ie =
    let last : words e ≡ e ∷ [] = rw ie.whole (words-last ie.first ie.others ie.in_word) in
    rw (words-field a _ ia, words-field b _ ib, words-field c _ ic, words-field d _ id, last) refl
