-- ===== src/Common/Polling.antt =====
-- src/Common.h: when poll_until gives up, and with what.
use win_bot.Base.{ℕ, ◌≤◌, ◌<◌, ◌≡◌, ◌⊎◌, true, false, List, [], ◌∷◌, ◌++◌, some, arith, All}
use win_bot.Common.{Round, poll_until}

module _ {A : Type 0} (deadline : ℕ) where
  -- The round succeeds, or a stop is requested after it, or the clock has reached the deadline.
  abbrev pub Ends : Round A → Type 0
  Ends r = (r.succeeded ≡ true) ⊎ ((r.stop ≡ true) ⊎ (deadline ≤ r.clock))

  abbrev pub GoesOn : Round A → Type 0
  GoesOn r = (r.succeeded ≡ false) × (r.stop ≡ false) × (r.clock < deadline)

  -- Polling stops at the first round that succeeds, meets a stop request or has reached the
  -- deadline, and gives what that round gave.
  pub poll_until_first :
      (before : List (Round A)) (r : Round A) (after : List (Round A))
      → All GoesOn before
      → Ends r
      → poll_until deadline (before ++ r ∷ after) ≡ some r.result
  unfolding poll_until
  poll_until_first [] r after h e = ground arith
  poll_until_first (x ∷ before) r after h e = ground (arith, poll_until_first before r after h.1 e)
