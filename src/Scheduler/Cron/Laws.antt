-- ===== src/Scheduler/Cron/Laws.antt =====
-- The next run is the first matching minute, and the loop always finds it or ends.
use redxt.Common.{
  ℕ, zero, suc, ◌+◌, ◌*◌, ◌/◌, ◌<◌, ◌≤◌, ◌≡◌, refl, ◌∙◌, Bool, true, false, Option, none, some,
  arith, ltb, ltb→lt, ltb→ge, Bool-cases, inl, inr, ap,
}
use redxt.Scheduler.Cron.{
  FieldMatcher, Civil, cron, fires, one_minute, lookahead_minutes, scan, truncate, next,
}

-- An answer for the whole minutes between `after` and `deadline`.
pub data FirstRun (hit : ℕ → Bool) (after deadline : ℕ) : Option ℕ → Type 0 where
  first_at :
      (m : ℕ)
      → after < m * one_minute
      → m * one_minute < deadline
      → hit (m * one_minute) ≡ true
      → ((j : ℕ) → after < j * one_minute → j < m → hit (j * one_minute) ≡ false)
      → FirstRun hit after deadline (some (m * one_minute))
  no_run :
      ((j : ℕ) → after < j * one_minute → j * one_minute < deadline → hit (j * one_minute) ≡ false)
      → FirstRun hit after deadline none

module _ (hit : ℕ → Bool) (after deadline : ℕ) where
  -- The two tests of the loop.
  tested-FirstRun :
      (b c : Bool) (t : ℕ) (rest : Option ℕ)
      → (b ≡ false → FirstRun hit after deadline none)
      → (b ≡ true → c ≡ true → FirstRun hit after deadline (some t))
      → (c ≡ false → FirstRun hit after deadline rest)
      → FirstRun hit after deadline
          (elim b [ false ↦ none | true ↦ elim c [ true ↦ some t | false ↦ rest ] ])
  tested-FirstRun false c t rest over found more = over refl
  tested-FirstRun true true t rest over found more = found refl refl
  tested-FirstRun true false t rest over found more = more refl

  scan-FirstRun :
      (fuel m t : ℕ)
      → t ≡ m * one_minute
      → after < t
      → deadline ≤ t + fuel * one_minute
      → ((j : ℕ) → after < j * one_minute → j < m → hit (j * one_minute) ≡ false)
      → FirstRun hit after deadline (scan hit fuel t deadline)
  unfolding scan
  scan-FirstRun zero m t e later enough before = no_run (λ j a b. before j a (omega arith))
  scan-FirstRun (suc fuel) m t e later enough before =
      tested-FirstRun (ltb t deadline) (hit t) t _
        (λ over. no_run (λ j a b. before j a (omega (arith, ltb→ge t deadline over))))
        (λ soon found.
          rw e (
            first_at m (rw (← e) later) (rw (← e) (ltb→lt t deadline soon)) (rw (← e) found)
              before))
        (λ missed.
          scan-FirstRun fuel (suc m) (t + one_minute) (omega arith) (omega arith) (omega arith)
            (λ j a b. passed j a (omega arith) missed))
    where
      passed :
          (j : ℕ) → after < j * one_minute → j ≤ m → hit t ≡ false → hit (j * one_minute) ≡ false
      passed j a b missed = elim (Bool-cases (ltb j m)) [
        | inl sooner ↦ before j a (ltb→lt j m sooner)
        | inr not_sooner ↦ ap hit (at_t (ltb→ge j m not_sooner) b) ∙ missed
      ]
        where
          at_t : m ≤ j → j ≤ m → j * one_minute ≡ t
          at_t c d = omega arith

-- The first whole minute after an instant, and none before it.
truncate_bounds :
    (t : ℕ)
    → (t < truncate t + one_minute)
      × (truncate t ≤ t)
      × (truncate t + one_minute ≡ suc (t / one_minute) * one_minute)
truncate_bounds t = (omega arith, omega arith, omega arith)

-- For a cron schedule the search ends within its fuel with the right answer: the first whole
-- minute after the given instant and before the deadline whose fields match, no earlier one
-- matching, or none if no whole minute between the two matches.
pub next-FirstRun :
    (civil : ℕ → Civil) (minute hour dom month dow : FieldMatcher) (after : ℕ)
    → FirstRun
        (λ t. fires minute hour dom month dow (civil t))
        after
        (after + lookahead_minutes * one_minute)
        (next civil (cron minute hour dom month dow) after)
unfolding next
next-FirstRun civil minute hour dom month dow after =
    let (above, below, whole) = truncate_bounds after in
    scan-FirstRun _ after _ lookahead_minutes (suc (after / one_minute)) _ whole above (omega arith)
      (λ j a b. absurd (omega arith))
