-- ===== src/RateLimit/Gate.antt =====
-- src/server/middleware/ratelimit.go: the middleware and its 429 answer. The store is a parameter of
-- the stage, as it is an interface in the source: a call may fail, and changes the store's state.
pub mod Laws
use redxt.Common.{
  ℕ, ℤ, pos, negsuc, ◌/◌, ◌%◌, ◌+◌, ◌+ℤ◌, suc, sub_ℕ, ltb_ℤ, is_zero, Bool, true, false, ◌&&◌, not,
  List, [], ◌∷◌, Option, none, some, Text, Result, ok, err, if◌then◌else◌,
}
use redxt.RateLimit.Window.{Decision, MemoryStore, allow}
use redxt.RateLimit.Policy.{
  RateBucket, RateLimitConfig, AuthRateRule, Request, bucket_global, default_health_paths,
  global_bucket, Class, classify,
}

abbrev pub second : ℕ
second = 1000000000

-- Go's integer division and remainder by a positive number, which truncate toward zero.
unfoldable pub quot : ℤ → ℕ → ℤ
quot (pos n) d = pos (n / d)
quot (negsuc n) d = sub_ℕ 0 (suc n / d)

abbrev pub rem_is_zero : ℤ → ℕ → Bool
rem_is_zero (pos n) d = is_zero (pos (n % d))
rem_is_zero (negsuc n) d = is_zero (pos (suc n % d))

-- The seconds of Retry-After: rounded up, and one at least.
unfoldable pub retry_seconds : ℤ → ℤ
retry_seconds retry_after =
    let seconds =
      if rem_is_zero retry_after second
      then quot retry_after second
      else quot retry_after second +ℤ pos 1 in
    if ltb_ℤ seconds (pos 1) then pos 1 else seconds

-- What a request gets: the next handler, or a 429 with its Retry-After and X-RateLimit-Limit.
pub data Outcome (E : Type 0) : Type 0 where
  served : Outcome E
  served_reporting : E → Outcome E
  too_many : ℤ → ℤ → Outcome E

abbrev pub rejection : {E : Type 0} → Decision → Outcome E
rejection d = too_many (retry_seconds d.retry_after) d.limit

abbrev pub AllowCall : Type 0 → Type 0 → Type 0
AllowCall S E = Text → Text → ℤ → ℤ → ℤ → S → Result E Decision × S

abbrev health_paths_of : List Text → List Text
health_paths_of [] = default_health_paths
health_paths_of (p ∷ ps) = p ∷ ps

-- One store call: an error lets the request through, a refusal answers it, and otherwise the stage
-- goes on.
abbrev after_verdict : {S E : Type 0} → Result E Decision × S → (S → Outcome E × S) → Outcome E × S
after_verdict (err e, s) next = (served_reporting e, s)
after_verdict (ok d, s) next = if not (d.allowed) then (rejection d, s) else next s

module _ (glob : Text → Text → Bool) {S E : Type 0} where
  module _ (cfg : RateLimitConfig) (rules : List AuthRateRule) (health_paths : List Text) where
    -- The ceiling over all classes, from which authentication paths are exempt.
    abbrev global_stage : AllowCall S E → Class → Text → ℤ → S → Outcome E × S
    global_stage call c identifier now s =
        if not c.is_auth && ltb_ℤ (pos 0) ((global_bucket cfg).requests)
        then after_verdict
            (call identifier bucket_global (global_bucket cfg).requests (global_bucket cfg).window
              now s)
            (λ s'. (served, s'))
        else (served, s)

    abbrev limited_stage : AllowCall S E → Class → Text → ℤ → S → Outcome E × S
    limited_stage call c identifier now s =
        after_verdict (call identifier c.bucket (c.budget.requests) (c.budget.window) now s)
          (global_stage call c identifier now)

    -- RateLimit: `allowlisted` is what the allow-list stage marked; without a store, or switched off,
    -- the stage is not there.
    unfoldable pub rate_limit :
        Option (AllowCall S E) → Bool → Text → Request → ℤ → S → Outcome E × S
    rate_limit none allowlisted identifier req now s = (served, s)
    rate_limit (some call) allowlisted identifier req now s =
        if not cfg.enabled
        then (served, s)
        else if allowlisted
        then (served, s)
        else limited_stage call (classify glob cfg rules (health_paths_of health_paths) req)
            identifier now s

-- MemoryStore as the store of the stage.
abbrev pub memory_call : {E : Type 0} → AllowCall MemoryStore E
memory_call identifier bucket limit window now s = (
  ok (allow identifier bucket limit window now s).0,
  (allow identifier bucket limit window now s).1,
)
