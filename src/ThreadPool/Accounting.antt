-- ===== src/ThreadPool/Accounting.antt =====
-- src/core/ThreadPool.h: m_activeTasks counts what is queued or running, tasks start in the order
-- in which they were accepted, and none is lost or run twice.
use mathlib.Core.List.{Perm}
use mathlib.Core.List.Perm
use win_bot.Base.{
  ℕ, zero, suc, ◌+◌, ◌≡◌, refl, sym, ap, ◌∙◌, Bool, true, false, Option, none, some, ◌||◌, List, [],
  ◌∷◌, ◌++◌, arith, Bool-cases, inl, inr, length, replicate, append-nil, append_assoc,
  length-append, if◌then◌else◌,
}
use win_bot.ThreadPool.{
  Place, at_test, waiting, holding, done, exited, Worker, Pool, fresh_worker, new_pool,
  thread_count, enqueue, begin_stop, is_idle, advance, advance_from, leave_wait, Step, enqueues,
  begins_stop, requests_stop, works, Reach, here, next,
}
use win_bot.ThreadPool.Holding.{
  busy_at, held_at, busy, held, busy-append, held-append, perm_of_eq, perm_take, perm_finish,
}

module _ {Task : Type 0} where
  pub record Accounts (p : Pool Task) : Type 0 where
    pub counted : p.active_tasks ≡ length p.tasks + busy p.workers
    pub in_order : p.submitted ≡ p.started ++ p.tasks
    pub each_once : Perm p.started (held p.workers ++ p.finished)

  -- The accounts of a pool in which one worker stands at `place`, the others hold `hb` and `ha` and
  -- `k` of them are busy.
  record Split (hb ha : List Task) (k : ℕ) (place : Place Task) (p : Pool Task) : Type 0 where
    counted : p.active_tasks ≡ length p.tasks + (busy_at place + k)
    in_order : p.submitted ≡ p.started ++ p.tasks
    each_once : Perm p.started ((hb ++ (held_at place ++ ha)) ++ p.finished)

  module _ (hb ha : List Task) (k : ℕ) where
    -- A step that is made keeps the accounts; there may be none.
    abbrev KeepsSplit : Option (Worker Task × Pool Task) → Type 0
    KeepsSplit none = Unit
    KeepsSplit (some (w, p)) = Split hb ha k w.place p

    leave_wait-Split :
        (ends : Bool) (tasks : List Task) (w : Worker Task) (p : Pool Task)
        → p.tasks ≡ tasks
        → Split hb ha k waiting p
        → KeepsSplit (leave_wait ends tasks w p)
    unfolding leave_wait
    leave_wait-Split true [] w p e s = record {
      counted = s.counted;
      in_order = s.in_order;
      each_once = s.each_once;
    }
    leave_wait-Split false [] w p e s = tt
    leave_wait-Split ends (t ∷ rest) w p e s = record {
      counted = ground (arith, s.counted);
      in_order =
          s.in_order ∙ (ap (λ l. p.started ++ l) e ∙ sym (append_assoc p.started (t ∷ []) rest));
      each_once = perm_take t hb ha p.finished s.each_once;
    }

    advance_from-Split :
        (place : Place Task) (w : Worker Task) (p : Pool Task)
        → Split hb ha k place p
        → KeepsSplit (advance_from place w p)
    unfolding advance_from
    advance_from-Split at_test w p s = moved (w.stop_requested) s
      where
        moved :
            (b : Bool) → Split hb ha k at_test p → Split hb ha k (if b then exited else waiting) p
        moved true s' = record {
          counted = s'.counted;
          in_order = s'.in_order;
          each_once = s'.each_once;
        }
        moved false s' = record {
          counted = s'.counted;
          in_order = s'.in_order;
          each_once = s'.each_once;
        }
    advance_from-Split waiting w p s =
        leave_wait-Split (p.stopping || w.stop_requested) p.tasks w p refl s
    advance_from-Split (holding t) w p s = record {
      counted = s.counted;
      in_order = s.in_order;
      each_once = perm_finish t hb ha p.finished s.each_once;
    }
    advance_from-Split done w p s = record {
      counted = omega (arith, s.counted);
      in_order = s.in_order;
      each_once = s.each_once;
    }
    advance_from-Split exited w p s = tt

  Split-of :
      (p : Pool Task) (before : List (Worker Task)) (w : Worker Task) (after : List (Worker Task))
      → p.workers ≡ before ++ w ∷ after
      → Accounts p
      → Split (held before) (held after) (busy before + busy after) w.place p
  Split-of p before w after e h = record {
    counted = omega (arith, h.counted, ap busy e, busy-append before w after);
    in_order = h.in_order;
    each_once =
        Perm.trans h.each_once
          (perm_of_eq (ap (λ l. l ++ p.finished) (ap held e ∙ held-append before w after)));
  }

  of_Split :
      (p : Pool Task) (before : List (Worker Task)) (w : Worker Task) (after : List (Worker Task))
      → Split (held before) (held after) (busy before + busy after) w.place p
      → Accounts (record p { workers = before ++ w ∷ after })
  of_Split p before w after s = record {
    counted = omega (arith, s.counted, busy-append before w after);
    in_order = s.in_order;
    each_once =
        Perm.trans s.each_once
          (perm_of_eq (ap (λ l. l ++ p.finished) (sym (held-append before w after))));
  }

  KeepsSplit-some :
      (hb ha : List Task) (k : ℕ) (o : Option (Worker Task × Pool Task)) (w : Worker Task)
      (p : Pool Task)
      → o ≡ some (w, p)
      → KeepsSplit hb ha k o
      → Split hb ha k w.place p
  KeepsSplit-some hb ha k o w p e s = rw e at s

  enqueue-Accounts : (t : Task) (p : Pool Task) → Accounts p → Accounts (enqueue t p).0
  unfolding enqueue
  enqueue-Accounts t p h = elim (Bool-cases p.stopping) [
    | inl e ↦ simp e h
    | inr e ↦ simp e (record {
      counted = omega (arith, h.counted, length-append p.tasks (t ∷ []));
      in_order = ap (λ l. l ++ t ∷ []) h.in_order ∙ append_assoc p.started p.tasks (t ∷ []);
      each_once = h.each_once;
    })
  ]

  begin_stop-Accounts : (p : Pool Task) → Accounts p → Accounts (begin_stop p).0
  unfolding begin_stop
  begin_stop-Accounts p h = elim (Bool-cases p.stopping) [
    | inl e ↦ simp e h
    | inr e ↦
        simp e (record { counted = h.counted; in_order = h.in_order; each_once = h.each_once })
  ]

  Step-Accounts : {p q : Pool Task} → Step p q → Accounts p → Accounts q
  unfolding advance
  Step-Accounts {p} (enqueues t) h = enqueue-Accounts t p h
  Step-Accounts {p} begins_stop h = begin_stop-Accounts p h
  Step-Accounts {p} (requests_stop before w after s e) h =
      let s : Split (held before) (held after) (busy before + busy after) w.place p =
        Split-of p before w after e h in
      of_Split p before (record w { stop_requested = true }) after
        (record { counted = s.counted; in_order = s.in_order; each_once = s.each_once })
  Step-Accounts {p} (works before w after w' q e a) h = of_Split q before w' after (
      KeepsSplit-some (held before) (held after) (busy before + busy after) (advance w p) w' q a (
        advance_from-Split (held before) (held after) (busy before + busy after) w.place w p
          (Split-of p before w after e h)))

  idle_workers :
      (n : ℕ)
      → (busy (replicate n (fresh_worker {Task = Task})) ≡ 0)
        × (held (replicate n (fresh_worker {Task = Task})) ≡ [])
  idle_workers zero = (refl, refl)
  idle_workers (suc n) = let (b, h) = idle_workers n in (omega arith, h)

  new_pool-Accounts : (n hardware : ℕ) → Accounts (new_pool {Task = Task} n hardware)
  unfolding new_pool
  new_pool-Accounts n hardware =
      let (b, h) = idle_workers (thread_count n hardware) in
      record { counted = omega arith; in_order = refl; each_once = rw h (Perm.refl []) }

  -- Whatever the threads do, the counter of active tasks is the number of tasks queued or still
  -- with a worker, tasks leave the queue in the order in which they were accepted, and the tasks
  -- that have left it are, each once, those running and those finished.
  pub Reach-Accounts : (n hardware : ℕ) {p : Pool Task} → Reach (new_pool n hardware) p → Accounts p
  Reach-Accounts n hardware here = new_pool-Accounts n hardware
  Reach-Accounts n hardware (next r s) = Step-Accounts s (Reach-Accounts n hardware r)

  held_at_none : (place : Place Task) → busy_at place ≡ 0 → held_at place ≡ []
  held_at_none at_test h = refl
  held_at_none waiting h = refl
  held_at_none (holding t) h = absurd (omega arith)
  held_at_none done h = refl
  held_at_none exited h = refl

  held_none : (ws : List (Worker Task)) → busy ws ≡ 0 → held ws ≡ []
  held_none [] h = refl
  held_none (w ∷ ws) h =
      ap (λ l. l ++ held ws) (held_at_none w.place (omega arith)) ∙ held_none ws (omega arith)

  -- When the predicate of waitIdle holds, every task that was ever accepted has been run to its
  -- end, each exactly once.
  pub idle_all_finished :
      (n hardware : ℕ) {p : Pool Task}
      → Reach (new_pool n hardware) p
      → is_idle p ≡ true
      → Perm p.submitted p.finished
  unfolding is_idle
  idle_all_finished n hardware {p} r h =
      let a = Reach-Accounts n hardware r in
      let empty : p.tasks ≡ [] = ground arith in
      let quiet : busy p.workers ≡ 0 = ground (arith, a.counted) in
      Perm.trans (perm_of_eq (a.in_order ∙ (ap (λ l. p.started ++ l) empty ∙ append-nil p.started)))
        (Perm.trans a.each_once
          (perm_of_eq (ap (λ l. l ++ p.finished) (held_none p.workers quiet))))
