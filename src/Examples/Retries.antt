-- ===== src/Examples/Retries.antt =====
-- An operation that always times out, under the default schedule.
use redxt.Common.{ℕ, ℤ, suc, ◌+◌, ◌≤◌, ◌≡◌, refl, true, Bool, [], Option, none, Result, err, length}
use redxt.Retry.{schedule, do_with_policy, max_backoff}
use redxt.Retry.Laws.{do_with_policy_at_most, do_with_policy_exhausts}

-- The world counts the runs.
abbrev time_out : ℕ → Result (Unit {0}) (Unit {0}) × ℕ
time_out n = (err tt, suc n)

abbrev timer : ℤ → ℕ → Option (Unit {0}) × ℕ
timer t n = (none, n)

abbrev always : Unit {0} → Bool
always e = true

abbrev runs_of : ℕ → ℕ
runs_of n = n

runs_within_schedule :
    (do_with_policy time_out timer always max_backoff [] 0).1 ≤ 0 + length (schedule [])
runs_within_schedule =
    do_with_policy_at_most time_out timer always max_backoff runs_of (λ n. refl) (λ t n. refl) [] 0

runs_out : (do_with_policy time_out timer always max_backoff [] 0).1 ≡ 0 + length (schedule [])
runs_out =
    do_with_policy_exhausts time_out timer always max_backoff runs_of (λ n. refl) (λ t n. refl)
      (λ n. (tt, refl, refl)) (λ t n. refl) [] 0
