-- ===== src/Retry.antt =====
-- src/retry/retry.go: retries on a schedule of waits. The operation and the world that it changes are
-- parameters, as is the answer of a wait: `none` when the timer fires, or the context's error. What
-- counts as transient is a parameter too (Policy.Retryable; IsRetryable inspects Go's error values).
pub mod Laws
use redxt.Common.{
  ℤ, pos, ltb_ℤ, Bool, true, false, ◌&&◌, List, [], ◌∷◌, Option, none, some, Result, ok, err,
  if◌then◌else◌,
}

abbrev second : ℤ
second = pos 1000000000

abbrev pub default_backoff : List ℤ
default_backoff = pos 0 ∷ second ∷ pos 2000000000 ∷ pos 4000000000 ∷ pos 8000000000 ∷ []

abbrev pub max_backoff : ℤ
max_backoff = pos 30000000000

-- An empty schedule falls back to the default one.
unfoldable pub schedule : List ℤ → List ℤ
schedule [] = default_backoff
schedule (w ∷ ws) = w ∷ ws

-- One wait, capped where the policy has a cap.
unfoldable pub capped_wait : ℤ → ℤ → ℤ
capped_wait max wait = if ltb_ℤ (pos 0) max && ltb_ℤ max wait then max else wait

module _ {W E : Type 0} (fn : W → Result E (Unit {0}) × W) (wait_for : ℤ → W → Option E × W)
    (retryable : E → Bool) (max : ℤ) where
  abbrev Attempt : Type 0
  Attempt = W → Result E (Unit {0}) × W

  -- One answer: a transient error goes on to the attempts that are left.
  abbrev answered : (E → Attempt) → Result E (Unit {0}) × W → Result E (Unit {0}) × W
  answered again (ok tt, w) = (ok tt, w)
  answered again (err e, w) = if retryable e then again e w else (err e, w)

  abbrev waited : (E → Attempt) → Option E × W → Result E (Unit {0}) × W
  waited again (some cancelled, w) = (err cancelled, w)
  waited again (none, w) = answered again (fn w)

  -- The attempts from the second on: a wait before each, the last error in hand.
  unfoldable pub later_attempts : List ℤ → E → Attempt
  later_attempts [] last w = (err last, w)
  later_attempts (wait ∷ waits) last w =
      waited (later_attempts waits) (wait_for (capped_wait max wait) w)

  abbrev attempts_on : List ℤ → Attempt
  attempts_on [] w = (ok tt, w)
  attempts_on (_ ∷ waits) w = answered (later_attempts waits) (fn w)

  -- DoWithPolicy: the first attempt runs at once.
  unfoldable pub do_with_policy : List ℤ → Attempt
  do_with_policy backoff w = attempts_on (schedule backoff) w
