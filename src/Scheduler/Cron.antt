-- ===== src/Scheduler/Cron.antt =====
-- src/scheduler/cron.go: schedules, and the next time that one fires. Instants and durations are counts
-- of nanoseconds, instants from Go's zero time on. What a time zone makes of an instant is `civil`,
-- and time.ParseDuration is `parse_duration`; both are parameters.
pub mod Atoi
pub mod Laws
pub mod Parsing
use redxt.Scheduler.Cron.Atoi.{atoi}
use redxt.Common.{
  ℕ, zero, suc, ◌+◌, ◌-◌, ◌*◌, ◌/◌, ◌%◌, ◌==◌, ◌&&◌, ◌||◌, not, Bool, true, false, List, [], ◌∷◌,
  any, all, length, ltb, leb, Option, none, some, Text, bytes, ◌=ᵗ◌, trim_space, trim_prefix,
  has_prefix, split_on, is_space, keep, ℤ, pos, negsuc, if◌then◌else◌,
}

-- A fieldMatcher: any value, every step from the least value on, or one of a set.
pub data FieldMatcher : Type 0 where
  any_value : FieldMatcher
  every_step : ℕ → ℕ → FieldMatcher
  one_of : List ℕ → FieldMatcher

-- The values that are asked for are not below the least one.
unfoldable pub matches_field : FieldMatcher → ℕ → Bool
matches_field any_value v = true
matches_field (every_step min step) v = (v - min) % step == 0
matches_field (one_of values) v = any (λ n. n == v) values

pub data Schedule : Type 0 where
  every : ℕ → Schedule
  cron : FieldMatcher → FieldMatcher → FieldMatcher → FieldMatcher → FieldMatcher → Schedule

-- What time.Time's Month, Day, Weekday, Hour and Minute give in a location.
pub record Civil : Type 0 where
  pub month : ℕ
  pub day : ℕ
  pub weekday : ℕ
  pub hour : ℕ
  pub minute : ℕ

abbrev value_within : ℕ → ℕ → Option ℤ → Option ℕ
value_within min max none = none
value_within min max (some (negsuc n)) = none
value_within min max (some (pos n)) = if ltb n min || ltb max n then none else some n

abbrev with_value : Option ℕ → Option (List ℕ) → Option (List ℕ)
with_value (some n) (some ns) = some (n ∷ ns)
with_value _ _ = none

unfoldable pub parse_values : ℕ → ℕ → List Text → Option (List ℕ)
parse_values min max [] = some []
parse_values min max (p ∷ ps) =
    with_value (value_within min max (atoi (trim_space p))) (parse_values min max ps)

abbrev step_of : ℕ → Option ℤ → Option FieldMatcher
step_of min (some (pos (suc n))) = some (every_step min (suc n))
step_of min _ = none

abbrev set_of : Option (List ℕ) → Option FieldMatcher
set_of none = none
set_of (some ns) = some (one_of ns)

-- parseField
unfoldable pub parse_field : Text → ℕ → ℕ → Option FieldMatcher
parse_field field min max =
    if field =ᵗ bytes "*"
    then some any_value
    else if has_prefix field (bytes "*/")
    then step_of min (atoi (trim_prefix field (bytes "*/")))
    else set_of (parse_values min max (split_on b',' field))

abbrev spaces_to_one : Text → Text
spaces_to_one [] = []
spaces_to_one (c ∷ s) = (if is_space c then b' ' else c) ∷ spaces_to_one s

-- strings.Fields
unfoldable pub fields : Text → List Text
fields s = keep (λ w. not (w =ᵗ [])) (split_on b' ' (spaces_to_one s))

abbrev cron_of :
    Option FieldMatcher
    → Option FieldMatcher
    → Option FieldMatcher
    → Option FieldMatcher
    → Option FieldMatcher
    → Option Schedule
cron_of (some minute) (some hour) (some dom) (some month) (some dow) =
    some (cron minute hour dom month dow)
cron_of _ _ _ _ _ = none

abbrev parse_fields : List Text → Option Schedule
parse_fields (minute ∷ hour ∷ dom ∷ month ∷ dow ∷ []) =
    cron_of (parse_field minute 0 59) (parse_field hour 0 23) (parse_field dom 1 31)
      (parse_field month 1 12) (parse_field dow 0 7)
parse_fields _ = none

-- parseCron
unfoldable pub parse_cron : Text → Option Schedule
parse_cron expr = parse_fields (fields expr)

abbrev every_of : Option ℤ → Option Schedule
every_of (some (pos (suc n))) = some (every (suc n))
every_of _ = none

unfoldable pub parse_schedule : (Text → Option ℤ) → Text → Option Schedule
parse_schedule parse_duration raw =
    let expr = trim_space raw in
    if has_prefix expr (bytes "@every ")
    then every_of (parse_duration (trim_space (trim_prefix expr (bytes "@every "))))
    else if expr =ᵗ bytes "@hourly"
    then parse_cron (bytes "0 * * * *")
    else if expr =ᵗ bytes "@daily" || expr =ᵗ bytes "@midnight"
    then parse_cron (bytes "0 0 * * *")
    else if expr =ᵗ bytes "@weekly"
    then parse_cron (bytes "0 0 * * 0")
    else if expr =ᵗ bytes "@monthly"
    then parse_cron (bytes "0 0 1 * *")
    else parse_cron expr

-- dowMatches
unfoldable pub dow_matches : FieldMatcher → ℕ → Bool
dow_matches m d = if matches_field m d then true else if d == 0 then matches_field m 7 else false

-- The condition of the loop in Next, on the fields of an instant.
unfoldable pub fires :
    FieldMatcher → FieldMatcher → FieldMatcher → FieldMatcher → FieldMatcher → Civil → Bool
fires minute hour dom month dow c =
    matches_field month c.month
    && matches_field dom c.day
    && dow_matches dow c.weekday
    && matches_field hour c.hour
    && matches_field minute c.minute

abbrev pub one_minute : ℕ
one_minute = 60000000000

-- 4 * 366 * 24 hours, in minutes.
abbrev pub lookahead_minutes : ℕ
lookahead_minutes = 2108160

-- The loop of Next from `t` on.
unfoldable pub scan : (ℕ → Bool) → ℕ → ℕ → ℕ → Option ℕ
scan hit zero t deadline = none
scan hit (suc fuel) t deadline = elim (ltb t deadline) [
  | false ↦ none
  | true ↦ elim (hit t) [ true ↦ some t | false ↦ scan hit fuel (t + one_minute) deadline ]
]

-- Time.Truncate(time.Minute)
abbrev pub truncate : ℕ → ℕ
truncate t = t / one_minute * one_minute

unfoldable pub next : (ℕ → Civil) → Schedule → ℕ → Option ℕ
next civil (every d) after = some (after + d)
next civil (cron minute hour dom month dow) after =
    scan (λ t. fires minute hour dom month dow (civil t)) lookahead_minutes
      (truncate after + one_minute) (after + lookahead_minutes * one_minute)
