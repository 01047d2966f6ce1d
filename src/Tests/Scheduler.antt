-- ===== src/Tests/Scheduler.antt =====
-- src/services/Scheduler.cpp at concrete expressions, times and tasks.
use win_bot.Base.{
  text, false, [], ◌∷◌, returned, threw, ◌≡◌, refl, find, starts_with, text_eq, value_from,
}
use win_bot.Scheduler.{TaskDef, Time, cron_field_matches, parse_cron_int, numeral, worker_loop}
use win_bot.Scheduler.Worker.{recording, due_all, worker_fires, IsField}

abbrev noon : Time
noon = record { minute = 0; hour = 12; day = 31; month = 11; weekday = 5 }

abbrev backup : TaskDef
backup = record { name = text "backup"; cron_expr = text "0 */4 31 12 *"; prompt = text "save" }

abbrev report : TaskDef
report = record { name = text "report"; cron_expr = text "30 8-18 * * 1,3,5"; prompt = text "send" }

-- A range inside a list is no number, so the field matches nothing.
range_in_list : cron_field_matches (text "1-3,5") 5 0 6 ≡ false
unfolding cron_field_matches text find starts_with text_eq parse_cron_int numeral value_from
range_in_list = refl

-- Both wake-ups of one minute fire the task, although the callback throws.
worker_fires_example :
    worker_loop (recording (λ p. threw (text "busy"))) (backup ∷ report ∷ []) (noon ∷ noon ∷ []) []
    ≡ (returned tt, due_all (backup ∷ report ∷ []) (noon ∷ noon ∷ []))
worker_fires_example =
    worker_fires (λ p. threw (text "busy")) (λ p e. cc) (backup ∷ report ∷ []) (noon ∷ noon ∷ []) []

star : IsField (text "*")
unfolding text
star = record { first = b'*'; others = []; whole = refl; in_word = (refl, tt) }
