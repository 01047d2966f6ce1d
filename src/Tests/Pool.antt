-- ===== src/Tests/Pool.antt =====
-- src/core/ThreadPool.h: a run of one worker, and one in which a task is left behind.
use win_bot.Base.{ℕ, ◌≡◌, refl, Bool, true, false, List, [], ◌∷◌}
use win_bot.ThreadPool.{
  Pool, Worker, Place, at_test, waiting, holding, done, exited, new_pool, thread_count, enqueue,
  begin_stop, advance, is_idle, Reach, here, next, enqueues, begins_stop, requests_stop, works,
  fresh_worker,
}
use win_bot.ThreadPool.Accounting.{Accounts, Reach-Accounts}
use win_bot.ThreadPool.Abandoned.{IsAbandoned, abandoned_never_idle}

abbrev pool0 : Pool ℕ
pool0 = new_pool 1 8

abbrev worker_at : Bool → Place ℕ → List (Worker ℕ)
worker_at stop place = record { stop_requested = stop; place = place } ∷ []

-- The pool with one task queued.
abbrev queued : Pool ℕ
queued = record {
  tasks = 5 ∷ [];
  active_tasks = 1;
  stopping = false;
  workers = worker_at false at_test;
  submitted = 5 ∷ [];
  started = [];
  finished = [];
}

Reach-queued : Reach pool0 queued
unfolding new_pool thread_count enqueue
Reach-queued = next here (enqueues 5)

-- The same after stop(): the worker sees the request at the loop's test and leaves.
abbrev left_behind : Pool ℕ
left_behind = record queued { stopping = true; workers = worker_at true exited }

Reach-left_behind : Reach pool0 left_behind
unfolding begin_stop advance
Reach-left_behind =
    next (next (next Reach-queued begins_stop) (requests_stop [] fresh_worker [] refl refl)) (
      works [] (record { stop_requested = true; place = at_test }) []
        (record { stop_requested = true; place = exited })
        (record queued { stopping = true; workers = worker_at true at_test }) refl refl)

Reach-Accounts_example : Accounts queued
Reach-Accounts_example = Reach-Accounts 1 8 Reach-queued

-- The worker takes the task, runs it and accounts for it.
abbrev finished_pool : Pool ℕ
finished_pool = record {
  tasks = [];
  active_tasks = 0;
  stopping = false;
  workers = worker_at false at_test;
  submitted = 5 ∷ [];
  started = 5 ∷ [];
  finished = 5 ∷ [];
}

abbrev worker_of : Place ℕ → Worker ℕ
worker_of place = record { stop_requested = false; place = place }

Reach-finished : Reach pool0 finished_pool
unfolding advance
Reach-finished =
    next
      (next
        (next
          (next Reach-queued (works [] (worker_of at_test) [] (worker_of waiting) queued refl refl))
          (works [] (worker_of waiting) [] (worker_of (holding 5))
            (record queued { tasks = []; started = 5 ∷ []; workers = worker_at false waiting }) refl
            refl))
        (works [] (worker_of (holding 5)) [] (worker_of done)
          (record queued {
            tasks = [];
            started = 5 ∷ [];
            finished = 5 ∷ [];
            workers = worker_at false (holding 5);
          })
          refl refl))
      (works [] (worker_of done) [] (worker_of at_test)
        (record finished_pool { workers = worker_at false done }) refl refl)

left_behind-IsAbandoned : IsAbandoned left_behind
left_behind-IsAbandoned = record { all_exited = (refl, tt); queued = refl }

abandoned_never_idle_example : is_idle left_behind ≡ false
abandoned_never_idle_example = abandoned_never_idle left_behind-IsAbandoned here

-- That state is reached from a new pool, by one enqueue and one stop.
IsAbandoned-reachable : (p : Pool ℕ) × Reach pool0 p × IsAbandoned p
IsAbandoned-reachable = (left_behind, Reach-left_behind, left_behind-IsAbandoned)
