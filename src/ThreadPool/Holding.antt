-- ===== src/ThreadPool/Holding.antt =====
-- src/core/ThreadPool.h: the tasks that are with the workers, and how a task passes to and from one.
use mathlib.Core.List.{Perm, perm_middle, perm_append_singleton}
use mathlib.Core.List.Perm
use win_bot.Base.{ℕ, ◌+◌, ◌≡◌, refl, sym, ap, ◌∙◌, List, [], ◌∷◌, ◌++◌, arith, append_assoc}
use win_bot.ThreadPool.{Place, holding, done, Worker}

module _ {Task : Type 0} where
  abbrev pub busy_at : Place Task → ℕ
  busy_at (holding t) = 1
  busy_at done = 1
  busy_at _ = 0

  abbrev pub held_at : Place Task → List Task
  held_at (holding t) = t ∷ []
  held_at _ = []

  -- The workers between taking a task and the end of its accounting.
  abbrev pub busy : List (Worker Task) → ℕ
  busy [] = 0
  busy (w ∷ ws) = busy_at w.place + busy ws

  -- The tasks that are running.
  abbrev pub held : List (Worker Task) → List Task
  held [] = []
  held (w ∷ ws) = held_at w.place ++ held ws

  pub busy-append :
      (before : List (Worker Task)) (w : Worker Task) (after : List (Worker Task))
      → busy (before ++ w ∷ after) ≡ busy before + busy_at w.place + busy after
  busy-append [] w after = omega arith
  busy-append (x ∷ before) w after = omega (arith, busy-append before w after)

  pub held-append :
      (before : List (Worker Task)) (w : Worker Task) (after : List (Worker Task))
      → held (before ++ w ∷ after) ≡ held before ++ (held_at w.place ++ held after)
  held-append [] w after = refl
  held-append (x ∷ before) w after =
      ap (λ l. held_at x.place ++ l) (held-append before w after)
      ∙ sym (append_assoc (held_at x.place) (held before) (held_at w.place ++ held after))

  pub perm_of_eq : {xs ys : List Task} → xs ≡ ys → Perm xs ys
  perm_of_eq {xs} e = rw (← e) (Perm.refl xs)

  -- A task goes from the queue to a worker.
  pub perm_take :
      (t : Task) {started : List Task} (hb ha fin : List Task)
      → Perm started ((hb ++ ha) ++ fin)
      → Perm (started ++ t ∷ []) ((hb ++ t ∷ ha) ++ fin)
  perm_take t {started} hb ha fin h =
      Perm.trans (perm_append_singleton t started)
        (Perm.trans (Perm.cons t h) (Perm.symm (Perm.append_right fin (perm_middle hb ha))))

  -- A task goes from a worker to the finished ones.
  pub perm_finish :
      (t : Task) {started : List Task} (hb ha fin : List Task)
      → Perm started ((hb ++ t ∷ ha) ++ fin)
      → Perm started ((hb ++ ha) ++ (fin ++ t ∷ []))
  perm_finish t hb ha fin h = Perm.trans h (
      Perm.trans (Perm.append_right fin (perm_middle hb ha)) (
        Perm.trans (Perm.symm (perm_append_singleton t ((hb ++ ha) ++ fin)))
          (perm_of_eq (append_assoc (hb ++ ha) fin (t ∷ [])))))
