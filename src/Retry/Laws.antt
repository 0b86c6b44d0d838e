-- ===== src/Retry/Laws.antt =====
-- How often the operation runs.
use redxt.Common.{
  ℕ, ℤ, suc, ◌+◌, ◌≤◌, ◌≡◌, Bool, true, List, [], ◌∷◌, length, Option, none, some, Result, ok, err,
  arith,
}
use redxt.Retry.{
  schedule, capped_wait, answered, waited, later_attempts, attempts_on, do_with_policy,
}

-- `count` tells how often the operation ran: each run adds one, and waits add nothing.
module _ {W E : Type 0} (fn : W → Result E (Unit {0}) × W) (wait_for : ℤ → W → Option E × W)
    (retryable : E → Bool) (max : ℤ) (count : W → ℕ)
    (runs : (w : W) → count (fn w).1 ≡ suc (count w))
    (rests : (t : ℤ) (w : W) → count (wait_for t w).1 ≡ count w) where
  answered_at_most :
      (again : E → W → Result E (Unit {0}) × W) (n : ℕ) (r : Result E (Unit {0}) × W)
      → ((e : E) (w : W) → count (again e w).1 ≤ count w + n)
      → count (answered fn wait_for retryable max again r).1 ≤ count r.1 + n
  answered_at_most again n (ok tt, w) h = omega arith
  answered_at_most again n (err e, w) h = ground (arith, h e w)

  waited_at_most :
      (again : E → W → Result E (Unit {0}) × W) (n : ℕ) (r : Option E × W)
      → ((e : E) (w : W) → count (again e w).1 ≤ count w + n)
      → count (waited fn wait_for retryable max again r).1 ≤ count r.1 + suc n
  waited_at_most again n (some e, w) h = omega arith
  waited_at_most again n (none, w) h = ground (arith, answered_at_most again n (fn w) h, runs w)

  later_at_most :
      (waits : List ℤ) (e : E) (w : W)
      → count (later_attempts fn wait_for retryable max waits e w).1 ≤ count w + length waits
  unfolding later_attempts
  later_at_most [] e w = omega arith
  later_at_most (t ∷ waits) e w = ground (
    arith,
    waited_at_most (later_attempts fn wait_for retryable max waits) (length waits)
        (wait_for (capped_wait max t) w) (later_at_most waits),
    rests (capped_wait max t) w,
  )

  on_at_most :
      (waits : List ℤ) (w : W)
      → count (attempts_on fn wait_for retryable max waits w).1 ≤ count w + length waits
  on_at_most [] w = omega arith
  on_at_most (t ∷ waits) w = ground (
    arith,
    answered_at_most (later_attempts fn wait_for retryable max waits) (length waits) (fn w)
        (later_at_most waits),
    runs w,
  )

  -- Whatever the operation answers and however waits end, it runs at most as often as the
  -- schedule has entries, five times where the given schedule is empty, for any count that each
  -- run raises by one and no wait changes.
  pub do_with_policy_at_most :
      (backoff : List ℤ) (w : W)
      → count (do_with_policy fn wait_for retryable max backoff w).1
        ≤ count w + length (schedule backoff)
  unfolding do_with_policy
  do_with_policy_at_most backoff w = on_at_most (schedule backoff) w

  -- An operation that never gets over a transient error, with waits that are not cut short.
  module _ (fails : (w : W) → (e : E) × ((fn w).0 ≡ err e) × (retryable e ≡ true))
      (fires : (t : ℤ) (w : W) → (wait_for t w).0 ≡ none) where
    answered_exact :
        (again : E → W → Result E (Unit {0}) × W) (n : ℕ) (e : E) (r : Result E (Unit {0}) × W)
        → r.0 ≡ err e
        → retryable e ≡ true
        → ((e : E) (w : W) → count (again e w).1 ≡ count w + n)
        → count (answered fn wait_for retryable max again r).1 ≡ count r.1 + n
    answered_exact again n e (ok tt, w) k transient h = cc
    answered_exact again n e (err f, w) k transient h = ground (arith, h f w)

    waited_exact :
        (again : E → W → Result E (Unit {0}) × W) (n : ℕ) (r : Option E × W)
        → r.0 ≡ none
        → ((e : E) (w : W) → count (again e w).1 ≡ count w + n)
        → count (waited fn wait_for retryable max again r).1 ≡ count r.1 + suc n
    waited_exact again n (some e, w) k h = cc
    waited_exact again n (none, w) k h =
        let (e, failed, transient) = fails w in
        ground (arith, answered_exact again n e (fn w) failed transient h, runs w)

    later_exact :
        (waits : List ℤ) (e : E) (w : W)
        → count (later_attempts fn wait_for retryable max waits e w).1 ≡ count w + length waits
    unfolding later_attempts
    later_exact [] e w = omega arith
    later_exact (t ∷ waits) e w = ground (
      arith,
      waited_exact (later_attempts fn wait_for retryable max waits) (length waits)
          (wait_for (capped_wait max t) w) (fires (capped_wait max t) w) (later_exact waits),
      rests (capped_wait max t) w,
    )

    on_exact :
        (waits : List ℤ) (w : W)
        → count (attempts_on fn wait_for retryable max waits w).1 ≡ count w + length waits
    on_exact [] w = omega arith
    on_exact (t ∷ waits) w =
        let (e, failed, transient) = fails w in
        ground (
          arith,
          answered_exact (later_attempts fn wait_for retryable max waits) (length waits) e (fn w)
              failed transient (later_exact waits),
          runs w,
        )

    -- An operation that always fails with a retryable error, under waits that always end by the
    -- timer, runs exactly as often as the schedule has entries before the retries give up.
    pub do_with_policy_exhausts :
        (backoff : List ℤ) (w : W)
        → count (do_with_policy fn wait_for retryable max backoff w).1
          ≡ count w + length (schedule backoff)
    unfolding do_with_policy
    do_with_policy_exhausts backoff w = on_exact (schedule backoff) w
