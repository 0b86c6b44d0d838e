-- ===== src/Examples/Schedules.antt =====
-- A daily schedule, a cluster lock and a node with one task.
use redxt.Common.{
  text_apart, ℕ, ◌+◌, ◌*◌, ◌/◌, ◌%◌, ◌≤◌, ◌<◌, ◌≡◌, refl, List, [], ◌∷◌, some, true, false, Text,
  bytes, ◌=ᵗ◌, arith, inl, inr, ℤ, pos, trim_space, trim_left, trim_prefix, split_on, has_prefix,
  Option, All, Bool, none, ltb, if◌then◌else◌, ◌-◌,
}
use redxt.Scheduler.Cron.{
  Schedule, cron, any_value, one_of, every, Civil, next, one_minute, lookahead_minutes, fires,
  parse_schedule, parse_cron, parse_field, parse_values, fields,
}
use redxt.Scheduler.Cron.Atoi.{atoi}
use redxt.Scheduler.Cron.Laws.{FirstRun, next-FirstRun}
use redxt.Scheduler.Cron.Parsing.{IsUsable, parse_schedule-IsUsable, next_is_later}
use redxt.Scheduler.Locks.{
  LockCall, acquires, releases, acquire_lock, release_lock, lock_run, LockRow, KeepsOrder, IsTimely,
}
use redxt.Scheduler.Locks.Leases.{Leases, itself, lease_run}
use redxt.Scheduler.Locks.Refinement.{Shows, run-refines}
use redxt.Scheduler.Locks.Exclusion.{lease_excludes, released_is_free}
use redxt.Scheduler.Tasks.{Task, Node, tick, resume_next}
use redxt.Scheduler.Tasks.Laws.{
  NodeRun, stays, moves, polled, runs_of, never_overlaps, resume_is_recent,
}

-- Days of 24 hours from a Monday on, without months.
abbrev plain_civil : ℕ → Civil
plain_civil t = record {
  month = 1;
  day = 1;
  weekday = (t / (1440 * one_minute) + 1) % 7;
  hour = t / (60 * one_minute) % 24;
  minute = t / one_minute % 60;
}

abbrev no_duration : Text → Option ℤ
no_duration s = some (pos 900)

abbrev hourly : Schedule
hourly = cron (one_of (0 ∷ [])) any_value any_value any_value any_value

next-FirstRun_example :
    FirstRun
      (λ t. fires (one_of (0 ∷ [])) any_value any_value any_value any_value (plain_civil t))
      7
      (7 + lookahead_minutes * one_minute)
      (next plain_civil hourly 7)
next-FirstRun_example =
    next-FirstRun plain_civil (one_of (0 ∷ [])) any_value any_value any_value any_value 7

parsed : parse_schedule no_duration (bytes " @every 15m") ≡ some (every 900)
unfolding parse_schedule trim_space trim_left trim_prefix has_prefix
parsed = refl

parsed_hourly : parse_schedule no_duration (bytes "@hourly") ≡ some hourly
unfolding parse_schedule parse_cron parse_field parse_values fields atoi trim_space trim_left
    has_prefix trim_prefix split_on ◌=ᵗ◌
parsed_hourly = refl

parse_schedule-IsUsable_example : IsUsable hourly
parse_schedule-IsUsable_example =
    parse_schedule-IsUsable no_duration (bytes "@hourly") hourly parsed_hourly

quarter : next plain_civil (every 900) 7 ≡ some 907
unfolding next
quarter = refl

later_than_asked : 7 < 907
later_than_asked =
    next_is_later no_duration (bytes " @every 15m") (every 900) plain_civil 7 907 parsed quarter

resumed : resume_next plain_civil (every 900) (some 950) 100 1000 ≡ some 950
unfolding resume_next
resumed = refl

late_run_resumes : 1000 ≤ 950 + 100
late_run_resumes =
    resume_is_recent no_duration plain_civil (bytes " @every 15m") (every 900) (some 950) 100 1000
      950 parsed resumed

-- Locks.
abbrev rows : List LockRow
rows = []

abbrev others : List LockCall
others =
    acquires (bytes "backup") (bytes "b") 5
    ∷ releases (bytes "backup") (bytes "b")
    ∷ acquires (bytes "prune") (bytes "b") 7
    ∷ []

-- Local times, as texts of one number, which go back by an hour at an instant.
abbrev fall_back : ℕ
fall_back = 7200000000000

abbrev local_time : Text → ℕ → Text
local_time holder t = (if ltb t fall_back then t else t - 3600000000000) ∷ []

abbrev first_less : Text → Text → Bool
first_less (x ∷ s) (y ∷ t) = ltb x y
first_less s t = false

abbrev BeforeChange : ℕ → Type 0
BeforeChange t = t < fall_back

-- Until then they keep the order.
ordered : KeepsOrder BeforeChange local_time first_less
ordered a b x y p q = ground arith

no_leases : Leases ℕ
no_leases name = none

nothing_shown : Shows BeforeChange local_time first_less rows no_leases
unfolding no_leases
nothing_shown n = tt

timely : All (IsTimely BeforeChange) others
timely = ((omega arith, omega arith), (tt, ((omega arith, omega arith), tt)))

run-refines_example :
    ((lock_run local_time first_less others rows).0 ≡ (lease_run itself ltb others no_leases).0)
    × Shows BeforeChange local_time first_less
        (lock_run local_time first_less others rows).1
        (lease_run itself ltb others no_leases).1
run-refines_example =
    run-refines BeforeChange local_time first_less ordered others rows no_leases timely refl
      nothing_shown

won : (acquire_lock local_time first_less (bytes "backup") (bytes "a") 1 rows).0 ≡ true
unfolding acquire_lock
won = refl

not_a : bytes "b" ≡ bytes "a" → ⊥
unfolding ◌=ᵗ◌
not_a = text_apart (bytes "b") (bytes "a") refl

not_backup : bytes "prune" ≡ bytes "backup" → ⊥
unfolding ◌=ᵗ◌
not_backup = text_apart (bytes "prune") (bytes "backup") refl

lease_excludes_example :
    (acquire_lock local_time first_less
      (bytes "backup")
      (bytes "b")
      9
      (lock_run local_time first_less others
        (acquire_lock local_time first_less (bytes "backup") (bytes "a") 1 rows).1).1).0
    ≡ false
lease_excludes_example =
    lease_excludes BeforeChange local_time first_less ordered (bytes "backup") (bytes "a")
      (bytes "b") 1 9 rows others refl (omega arith) (omega arith) timely won
      (inr (inr (not_a, omega arith)), (inr not_a, (inl not_backup, tt))) not_a (omega arith)

-- A lock that is taken three minutes before the change is taken over a minute later.
taken_over_early :
    (acquire_lock local_time first_less
      (bytes "backup")
      (bytes "b")
      7080000000000
      (acquire_lock local_time first_less (bytes "backup") (bytes "a") 7020000000000 rows).1).0
    ≡ true
unfolding acquire_lock ◌=ᵗ◌
taken_over_early = refl

released_is_free_example :
    (acquire_lock local_time first_less (bytes "backup") (bytes "b") 2 (
      release_lock
        (bytes "backup")
        (bytes "a")
        (acquire_lock local_time first_less (bytes "backup") (bytes "a") 1 rows).1)).0
    ≡ true
released_is_free_example =
    released_is_free local_time first_less (bytes "backup") (bytes "a") (bytes "b") 1 2 rows refl
      won

-- A node.
abbrev backup_task : Task
backup_task = record {
  name = bytes "backup";
  schedule = bytes "@every 15m";
  enabled = true;
  cluster_aware = true;
  retry_on_fail = false;
}

abbrev node : Node
node = record {
  entries = record { task = backup_task; sched = every 900; next_at = 10; running = false } ∷ [];
  in_flight = [];
}

two_polls : NodeRun plain_civil node (tick 20 (tick 15 node))
two_polls =
    moves node (tick 15 node) _ (moves node node _ (stays node) (polled 15 node))
      (polled 20 (tick 15 node))

never_overlaps_example : runs_of (bytes "backup") (tick 20 (tick 15 node)).in_flight ≤ 1
never_overlaps_example = never_overlaps plain_civil node _ (bytes "backup") refl refl refl two_polls
