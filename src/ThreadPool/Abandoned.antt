-- ===== src/ThreadPool/Abandoned.antt =====
-- src/core/ThreadPool.h: what happens to tasks that are queued when the last worker leaves.
use win_bot.Base.{◌≡◌, refl, true, false, List, [], ◌∷◌, ◌++◌, arith, All}
use win_bot.ThreadPool.{
  exited, Worker, Pool, is_nil, enqueue, begin_stop, is_idle, advance, Step, enqueues, begins_stop,
  requests_stop, works, Reach, here, next,
}

module _ {Task : Type 0} where
  abbrev pub HasExited : Worker Task → Type 0
  HasExited w = w.place ≡ exited

  -- Every worker has left its loop, and a task is still in the queue.
  pub record IsAbandoned (p : Pool Task) : Type 0 where
    pub all_exited : All HasExited p.workers
    pub queued : is_nil p.tasks ≡ false

  exited_middle :
      (before : List (Worker Task)) (w : Worker Task) (after : List (Worker Task))
      → All HasExited (before ++ w ∷ after)
      → HasExited w
  exited_middle [] w after h = h.0
  exited_middle (x ∷ before) w after h = exited_middle before w after h.1

  exited_request :
      (before : List (Worker Task)) (w : Worker Task) (after : List (Worker Task))
      → All HasExited (before ++ w ∷ after)
      → All HasExited (before ++ record w { stop_requested = true } ∷ after)
  exited_request [] w after h = h
  exited_request (x ∷ before) w after h = (h.0, exited_request before w after h.1)

  is_nil-append : (l : List Task) (t : Task) → is_nil (l ++ t ∷ []) ≡ false
  is_nil-append [] t = refl
  is_nil-append (x ∷ l) t = refl

  Step-IsAbandoned : {p q : Pool Task} → Step p q → IsAbandoned p → IsAbandoned q
  unfolding enqueue begin_stop advance
  Step-IsAbandoned {p} (enqueues t) h = record {
    all_exited = ground arith;
    queued = ground (arith, is_nil-append p.tasks t);
  }
  Step-IsAbandoned begins_stop h = record { all_exited = ground arith; queued = ground arith }
  Step-IsAbandoned (requests_stop before w after s e) h = record {
    all_exited = exited_request before w after (rw e at h.all_exited);
    queued = h.queued;
  }
  Step-IsAbandoned (works before w after w' q e a) h =
      let x = exited_middle before w after (rw e at h.all_exited) in absurd (ground arith)

  Reach-IsAbandoned : {p q : Pool Task} → IsAbandoned p → Reach p q → IsAbandoned q
  Reach-IsAbandoned h here = h
  Reach-IsAbandoned h (next r s) = Step-IsAbandoned s (Reach-IsAbandoned h r)

  -- Once every worker has left with a task still queued, whatever the threads do next the
  -- predicate of waitIdle stays false: a call of it never returns.
  pub abandoned_never_idle : {p q : Pool Task} → IsAbandoned p → Reach p q → is_idle q ≡ false
  unfolding is_idle
  abandoned_never_idle h r = let g = Reach-IsAbandoned h r in ground arith
