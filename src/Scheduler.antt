-- ===== src/Scheduler.antt =====
-- src/services/Scheduler.h and .cpp: the list of tasks, and when a cron expression matches.
pub mod Fields
pub mod Worker
pub mod Tasks
use win_bot.Base.{
  ℕ, zero, suc, ◌+◌, ◌-◌, ◌%◌, ◌^◌, Text, text, text_eq, starts_with, find, value_from, Bool, true,
  false, ◌&&◌, ◌||◌, Option, none, some, is_some, List, [], ◌∷◌, ◌++◌, ℤ, pos, negsuc, lebℤ, take,
  drop, any, erase_if, ltb, leb, ◌==◌, if◌then◌else◌, Outcome, returned, threw, threw_unknown,
}
use win_bot.Base.Exec.{Exec, ◌>>=◌}

pub record TaskDef : Type 0 where
  pub name : Text
  pub cron_expr : Text
  pub prompt : Text

-- The members of std::tm that are read; `month` counts from 0.
pub record Time : Type 0 where
  pub minute : ℕ
  pub hour : ℕ
  pub day : ℕ
  pub month : ℕ
  pub weekday : ℕ

-- addTask: the first task of that name is overwritten.
unfoldable pub add_task : TaskDef → List TaskDef → List TaskDef
add_task task [] = task ∷ []
add_task task (t ∷ tasks) =
    if text_eq t.name task.name then task ∷ tasks else t ∷ add_task task tasks

unfoldable pub remove_task : Text → List TaskDef → List TaskDef
remove_task name tasks = erase_if (λ t. text_eq t.name name) tasks

-- One digit at least, and nothing but digits.
unfoldable pub numeral : Text → Option ℕ
numeral [] = none
numeral (c ∷ s) = value_from 0 (c ∷ s)

abbrev pub negative : ℕ → ℤ
negative zero = pos 0
negative (suc n) = negsuc n

-- std::from_chars refuses a value that does not fit an int.
abbrev pub bounded : ℕ → (ℕ → ℤ) → Option ℕ → Option ℤ
bounded limit sign none = none
bounded limit sign (some n) = if ltb n limit then some (sign n) else none

unfoldable pub parse_cron_int : Text → Option ℤ
unfolding numeral
parse_cron_int s =
    if starts_with s (b'-' ∷ [])
    then bounded (2 ^ 31 + 1) negative (numeral (drop 1 s))
    else bounded (2 ^ 31) pos (numeral s)

-- operator== of std::optional<int> and a value that is not negative
abbrev pub int_is : Option ℤ → ℕ → Bool
int_is none value = false
int_is (some (pos n)) value = n == value
int_is (some (negsuc n)) value = false

-- The remainder of an int is 0 for a difference of either sign when it is for its absolute value.
abbrev pub step_matches : Option ℤ → ℕ → ℕ → Bool
step_matches none value least = false
step_matches (some (pos step)) value least =
    ltb 0 step && ((value - least) + (least - value)) % step == 0
step_matches (some (negsuc n)) value least = false

abbrev pub in_range : Option ℤ → Option ℤ → ℕ → Bool
in_range (some a) (some b) value = lebℤ a (pos value) && lebℤ (pos value) b
in_range (some a) none value = false
in_range none b value = false

abbrev pub prepend : ℕ → List Text → List Text
prepend c [] = (c ∷ []) ∷ []
prepend c (w ∷ ws) = (c ∷ w) ∷ ws

-- std::views::split at one character, of a range that is not empty
unfoldable pub split : ℕ → Text → List Text
split c [] = [] ∷ []
split c (x ∷ s) = let rest = split c s in if x == c then [] ∷ rest else prepend x rest

unfoldable pub cron_field_matches : Text → ℕ → ℕ → ℕ → Bool
cron_field_matches field value least greatest =
    if text_eq field (b'*' ∷ [])
    then true
    else if starts_with field (b'*' ∷ b'/' ∷ [])
    then step_matches (parse_cron_int (drop 2 field)) value least
    else elim (find field b'-') [
      | some dash ↦
          in_range (parse_cron_int (take dash field)) (parse_cron_int (drop (dash + 1) field)) value
      | none ↦
          if is_some (find field b',')
          then any (λ token. int_is (parse_cron_int token) value) (split b',' field)
          else int_is (parse_cron_int field) value
    ]

-- std::isspace in the classic locale
abbrev pub is_space : ℕ → Bool
is_space c = c == b' ' || (leb 9 c && leb c 13)

abbrev pub begins_blank : Text → Bool
begins_blank [] = true
begins_blank (c ∷ s) = is_space c

-- What operator>> into a std::string takes from a stream, until it fails.
unfoldable pub words : Text → List Text
words [] = []
words (c ∷ s) =
    let rest = words s in
    if is_space c then rest else if begins_blank s then (c ∷ []) ∷ rest else prepend c rest

unfoldable pub fields_match : List Text → Time → Bool
fields_match (minute ∷ hour ∷ day ∷ month ∷ weekday ∷ rest) t =
    cron_field_matches minute t.minute 0 59
    && cron_field_matches hour t.hour 0 23
    && cron_field_matches day t.day 1 31
    && cron_field_matches month (t.month + 1) 1 12
    && cron_field_matches weekday t.weekday 0 6
fields_match _ t = false

unfoldable pub cron_matches : Text → Time → Bool
unfolding words fields_match
cron_matches expr t = fields_match (words expr) t

-- The callback as the program calls it, with the state `W` that it changes.
module _ {W : Type 0} (callback : Text → Exec W (Unit {0})) where
  -- The handler around one call: a std::exception is dropped, anything else ends the program.
  abbrev pub guarded : Outcome (Unit {0}) × W → Outcome (Unit {0}) × W
  guarded (returned _, w) = (returned tt, w)
  guarded (threw what, w) = (returned tt, w)
  guarded (threw_unknown, w) = (threw_unknown, w)

  -- The loop over the tasks after one wake-up, at the local time `t`.
  unfoldable pub fire : Time → List TaskDef → Exec W (Unit {0})
  fire t [] w = (returned tt, w)
  fire t (task ∷ tasks) w =
      if cron_matches task.cron_expr t
      then ((λ v. guarded (callback task.prompt v)) >>= (λ _. fire t tasks)) w
      else fire t tasks w

  -- workerLoop, over the local times of its wake-ups until a stop is requested.
  unfoldable pub worker_loop : List TaskDef → List Time → Exec W (Unit {0})
  unfolding fire
  worker_loop tasks [] w = (returned tt, w)
  worker_loop tasks (t ∷ times) w = (fire t tasks >>= (λ _. worker_loop tasks times)) w
