-- ===== src/Scheduler/Cron/Parsing.antt =====
-- What a schedule that parses can hold, and that it moves on.
use redxt.Common.{
  ℕ, zero, suc, ◌<◌, ◌≤◌, ◌≡◌, refl, Bool, true, false, List, [], ◌∷◌, All, Option, none, some,
  Text, ℤ, pos, negsuc, arith, ltb, ltb→ge, ◌||◌, if◌then◌else◌, bytes, ◌=ᵗ◌, has_prefix,
  trim_space, split_on,
}
use redxt.Scheduler.Cron.{
  FieldMatcher, any_value, every_step, one_of, Schedule, every, cron, Civil, value_within,
  with_value, parse_values, step_of, set_of, parse_field, fields, cron_of, parse_fields, parse_cron,
  every_of, parse_schedule, next,
}
use redxt.Scheduler.Cron.Atoi.{atoi}
use redxt.Scheduler.Cron.Laws.{FirstRun, first_at, no_run, next-FirstRun}

-- A matcher for values from `min` to `max`.
abbrev pub IsRanged : ℕ → ℕ → FieldMatcher → Type 0
IsRanged min max any_value = Unit
IsRanged min max (every_step from step) = (from ≡ min) × (0 < step)
IsRanged min max (one_of ns) = All (λ n. (min ≤ n) × (n ≤ max)) ns

abbrev pub IsUsable : Schedule → Type 0
IsUsable (every d) = 0 < d
IsUsable (cron minute hour dom month dow) =
    IsRanged 0 59 minute
    × IsRanged 0 23 hour
    × IsRanged 1 31 dom
    × IsRanged 1 12 month
    × IsRanged 0 7 dow

-- Of an answer, if there is one.
abbrev OnSome {ℓ} : {A : Type ℓ} → (A → Type 0) → Option A → Type 0
OnSome P none = Unit
OnSome P (some a) = P a

module _ {A : Type 0} (P : A → Type 0) where
  OnSome-if : (b : Bool) (x y : Option A) → OnSome P x → OnSome P y → OnSome P (if b then x else y)
  OnSome-if true x y p q = p
  OnSome-if false x y p q = q

  at_some : (o : Option A) (a : A) → OnSome P o → o ≡ some a → P a
  at_some none a p h = cc
  at_some (some b) a p h = rw (← same h) p
    where
      same : some b ≡ some a → b ≡ a
      same e = cc

module _ (min max : ℕ) where
  abbrev IsWithin : ℕ → Type 0
  IsWithin n = (min ≤ n) × (n ≤ max)

  value_within-IsWithin : (z : Option ℤ) → OnSome IsWithin (value_within min max z)
  value_within-IsWithin none = tt
  value_within-IsWithin (some (negsuc k)) = tt
  value_within-IsWithin (some (pos k)) = ranged (ltb k min) (ltb max k) refl refl
    where
      ranged :
          (b c : Bool)
          → ltb k min ≡ b
          → ltb max k ≡ c
          → OnSome IsWithin (if b || c then none else some k)
      ranged true c e f = tt
      ranged false true e f = tt
      ranged false false e f = (ltb→ge k min e, ltb→ge max k f)

  with_value-All :
      (o : Option ℕ) (os : Option (List ℕ))
      → OnSome IsWithin o
      → OnSome (All IsWithin) os
      → OnSome (All IsWithin) (with_value o os)
  with_value-All none os f g = tt
  with_value-All (some n) none f g = tt
  with_value-All (some n) (some ms) f g = (f, g)

  parse_values-All : (ps : List Text) → OnSome (All IsWithin) (parse_values min max ps)
  unfolding parse_values
  parse_values-All [] = tt
  parse_values-All (p ∷ ps) =
      with_value-All _ _ (value_within-IsWithin (atoi (trim_space p))) (parse_values-All ps)

  step_of-IsRanged : (z : Option ℤ) → OnSome (IsRanged min max) (step_of min z)
  step_of-IsRanged none = tt
  step_of-IsRanged (some (negsuc k)) = tt
  step_of-IsRanged (some (pos zero)) = tt
  step_of-IsRanged (some (pos (suc k))) = (refl, omega arith)

  set_of-IsRanged :
      (o : Option (List ℕ)) → OnSome (All IsWithin) o → OnSome (IsRanged min max) (set_of o)
  set_of-IsRanged none f = tt
  set_of-IsRanged (some ns) f = f

  parse_field-IsRanged : (field : Text) → OnSome (IsRanged min max) (parse_field field min max)
  unfolding parse_field
  parse_field-IsRanged field = OnSome-if _ (field =ᵗ bytes "*") _ _ tt (
      OnSome-if _ (has_prefix field (bytes "*/")) _ _ (step_of-IsRanged _)
        (set_of-IsRanged _ (parse_values-All (split_on b',' field))))

cron_of-IsUsable :
    (a b c d e : Option FieldMatcher)
    → OnSome (IsRanged 0 59) a
    → OnSome (IsRanged 0 23) b
    → OnSome (IsRanged 1 31) c
    → OnSome (IsRanged 1 12) d
    → OnSome (IsRanged 0 7) e
    → OnSome IsUsable (cron_of a b c d e)
cron_of-IsUsable none b c d e pa pb pc pd pe = tt
cron_of-IsUsable (some _) none c d e pa pb pc pd pe = tt
cron_of-IsUsable (some _) (some _) none d e pa pb pc pd pe = tt
cron_of-IsUsable (some _) (some _) (some _) none e pa pb pc pd pe = tt
cron_of-IsUsable (some _) (some _) (some _) (some _) none pa pb pc pd pe = tt
cron_of-IsUsable (some _) (some _) (some _) (some _) (some _) pa pb pc pd pe = (pa, pb, pc, pd, pe)

parse_fields-IsUsable : (fs : List Text) → OnSome IsUsable (parse_fields fs)
parse_fields-IsUsable [] = tt
parse_fields-IsUsable (a ∷ []) = tt
parse_fields-IsUsable (a ∷ b ∷ []) = tt
parse_fields-IsUsable (a ∷ b ∷ c ∷ []) = tt
parse_fields-IsUsable (a ∷ b ∷ c ∷ d ∷ []) = tt
parse_fields-IsUsable (a ∷ b ∷ c ∷ d ∷ e ∷ []) =
    cron_of-IsUsable _ _ _ _ _ (parse_field-IsRanged 0 59 a) (parse_field-IsRanged 0 23 b)
      (parse_field-IsRanged 1 31 c) (parse_field-IsRanged 1 12 d) (parse_field-IsRanged 0 7 e)
parse_fields-IsUsable (a ∷ b ∷ c ∷ d ∷ e ∷ f ∷ fs) = tt

parse_cron-IsUsable : (expr : Text) → OnSome IsUsable (parse_cron expr)
unfolding parse_cron
parse_cron-IsUsable expr = parse_fields-IsUsable (fields expr)

every_of-IsUsable : (z : Option ℤ) → OnSome IsUsable (every_of z)
every_of-IsUsable none = tt
every_of-IsUsable (some (negsuc k)) = tt
every_of-IsUsable (some (pos zero)) = tt
every_of-IsUsable (some (pos (suc k))) = omega arith

every_later :
    (civil : ℕ → Civil) (d after t : ℕ) → 0 < d → next civil (every d) after ≡ some t → after < t
unfolding next
every_later civil d after t u e = ground arith

FirstRun-later :
    (hit : ℕ → Bool) (after deadline : ℕ) (o : Option ℕ) (t : ℕ)
    → FirstRun hit after deadline o
    → o ≡ some t
    → after < t
FirstRun-later hit after deadline _ t (first_at m later soon found before) e = ground arith
FirstRun-later hit after deadline _ t (no_run none_there) e = cc

module _ (parse_duration : Text → Option ℤ) where
  parsed-IsUsable : (raw : Text) → OnSome IsUsable (parse_schedule parse_duration raw)
  unfolding parse_schedule
  parsed-IsUsable raw =
      let expr = trim_space raw in
      let standard = parse_cron-IsUsable in
      OnSome-if IsUsable (has_prefix expr (bytes "@every ")) _ _ (every_of-IsUsable _) (
        OnSome-if IsUsable (expr =ᵗ bytes "@hourly") _ _ (standard _) (
          OnSome-if IsUsable (expr =ᵗ bytes "@daily" || expr =ᵗ bytes "@midnight") _ _ (standard _)
            (OnSome-if IsUsable (expr =ᵗ bytes "@weekly") _ _ (standard _)
              (OnSome-if IsUsable (expr =ᵗ bytes "@monthly") _ _ (standard _) (standard expr)))))

  -- A schedule that parses has a positive interval, or five fields each of which is any value, a
  -- positive step from the least value of the field, or values between the field's least and
  -- greatest.
  pub parse_schedule-IsUsable :
      (raw : Text) (s : Schedule) → parse_schedule parse_duration raw ≡ some s → IsUsable s
  parse_schedule-IsUsable raw s h =
      at_some IsUsable (parse_schedule parse_duration raw) s (parsed-IsUsable raw) h

  -- For every expression that parses, whatever time.ParseDuration and the time zone say, the next
  -- run is later than the instant it is asked for.
  pub next_is_later :
      (raw : Text) (s : Schedule) (civil : ℕ → Civil) (after t : ℕ)
      → parse_schedule parse_duration raw ≡ some s
      → next civil s after ≡ some t
      → after < t
  next_is_later raw s civil after t parsed h = moves s (parse_schedule-IsUsable raw s parsed) h
    where
      moves : (s : Schedule) → IsUsable s → next civil s after ≡ some t → after < t
      moves (every d) u e = every_later civil d after t u e
      moves (cron a b c d e) u f =
          FirstRun-later _ after _ _ t (next-FirstRun civil a b c d e after) f
