-- ===== src/ThreadPool.antt =====
-- src/core/ThreadPool.h: the task queue and its workers, as a step relation. A step is what one
-- thread does under m_mutex, or one task's run; which thread steps next is open.
pub mod Holding
pub mod Accounting
pub mod Abandoned
use win_bot.Base.{
  ℕ, ◌+◌, ◌-◌, ◌≡◌, Bool, true, false, Option, none, some, List, [], ◌∷◌, ◌++◌, replicate, max,
  if◌then◌else◌, ◌&&◌, ◌||◌, ◌==◌,
}

-- Where a worker stands in workerLoop: at the loop's test, at the wait, with a task moved out of
-- the queue, behind that task's run, or out of the loop.
pub data Place (Task : Type 0) : Type 0 where
  at_test waiting : Place Task
  holding : Task → Place Task
  done : Place Task
  exited : Place Task

-- A jthread with its own stop token.
pub record Worker (Task : Type 0) : Type 0 where
  pub stop_requested : Bool
  pub place : Place Task

-- The members of the class, and three histories that the proofs speak of: the tasks accepted, the
-- tasks moved out of the queue and the tasks whose run has ended, each in its order.
pub record Pool (Task : Type 0) : Type 0 where
  pub tasks : List Task
  pub active_tasks : ℕ
  pub stopping : Bool
  pub workers : List (Worker Task)
  pub submitted : List Task
  pub started : List Task
  pub finished : List Task

abbrev pub is_nil {ℓ} : {A : Type ℓ} → List A → Bool
is_nil [] = true
is_nil (x ∷ xs) = false

-- The constructor's thread count: 0 asks for one per hardware thread, and for one at least.
unfoldable pub thread_count : ℕ → ℕ → ℕ
thread_count num_threads hardware = if num_threads == 0 then max 1 hardware else num_threads

module _ {Task : Type 0} where
  abbrev pub fresh_worker : Worker Task
  fresh_worker = record { stop_requested = false; place = at_test }

  -- The constructor.
  unfoldable pub new_pool : ℕ → ℕ → Pool Task
  new_pool num_threads hardware = record {
    tasks = [];
    active_tasks = 0;
    stopping = false;
    workers = replicate (thread_count num_threads hardware) fresh_worker;
    submitted = [];
    started = [];
    finished = [];
  }

  -- enqueue, with its result
  unfoldable pub enqueue : Task → Pool Task → Pool Task × Bool
  enqueue task p = if p.stopping then (p, false) else (
    record p {
      tasks = p.tasks ++ task ∷ [];
      active_tasks = p.active_tasks + 1;
      submitted = p.submitted ++ task ∷ [];
    },
    true,
  )

  -- The part of stop() under the lock, with whether this call goes on to stop and join the workers.
  unfoldable pub begin_stop : Pool Task → Pool Task × Bool
  begin_stop p = if p.stopping then (p, false) else (record p { stopping = true }, true)

  -- The predicate that waitIdle waits for.
  unfoldable pub is_idle : Pool Task → Bool
  is_idle p = p.active_tasks == 0 && is_nil p.tasks

  -- The part of workerLoop under the lock: `none` while the wait's predicate is false.
  leave_wait : Bool → List Task → Worker Task → Pool Task → Option (Worker Task × Pool Task)
  leave_wait ends [] w p = if ends then some (record w { place = exited }, p) else none
  leave_wait ends (task ∷ rest) w p = some (
    record w { place = holding task },
    record p { tasks = rest; started = p.started ++ task ∷ [] },
  )

  -- One step of workerLoop, from each place; `none` where the worker cannot go on.
  advance_from : Place Task → Worker Task → Pool Task → Option (Worker Task × Pool Task)
  unfolding leave_wait
  advance_from at_test w p =
      some (record w { place = if w.stop_requested then exited else waiting }, p)
  advance_from waiting w p = leave_wait (p.stopping || w.stop_requested) p.tasks w p
  advance_from (holding task) w p =
      some (record w { place = done }, record p { finished = p.finished ++ task ∷ [] })
  advance_from done w p =
      some (record w { place = at_test }, record p { active_tasks = p.active_tasks - 1 })
  advance_from exited w p = none

  unfoldable pub advance : Worker Task → Pool Task → Option (Worker Task × Pool Task)
  unfolding advance_from
  advance w p = advance_from w.place w p

  -- What the threads of the program can do to a pool.
  pub data Step (p : Pool Task) : Pool Task → Type 0 where
    enqueues : (task : Task) → Step p (enqueue task p).0
    begins_stop : Step p (begin_stop p).0
    requests_stop :
        (before : List (Worker Task)) (w : Worker Task) (after : List (Worker Task))
        → p.stopping ≡ true
        → p.workers ≡ before ++ w ∷ after
        → Step p (record p { workers = before ++ record w { stop_requested = true } ∷ after })
    works :
        (before : List (Worker Task)) (w : Worker Task) (after : List (Worker Task))
        (w' : Worker Task) (q : Pool Task)
        → p.workers ≡ before ++ w ∷ after
        → advance w p ≡ some (w', q)
        → Step p (record q { workers = before ++ w' ∷ after })

  pub data Reach (p : Pool Task) : Pool Task → Type 0 where
    here : Reach p p
    next : {q r : Pool Task} → Reach p q → Step q r → Reach p r
