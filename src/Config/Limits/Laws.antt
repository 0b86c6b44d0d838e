-- ===== src/Config/Limits/Laws.antt =====
-- Sessions end, and the rate limiter works with the budgets of the checked document.
use redxt.Common.{
  ℤ, pos, ◌≤ℤ◌, ◌≡◌, Bool, true, false, ◌||◌, List, [], ◌∷◌, Text, bytes, ◌=ᵗ◌, if◌then◌else◌,
  arith, Bool-cases, inl, inr,
}
use redxt.RateLimit.Paths.{matches_path_prefix, matches_any_path}
use redxt.RateLimit.Policy.{
  RateBucket, RateLimitConfig, AuthRateRule, Request, resolve_bucket, auth_bucket, classify,
}
use redxt.Config.Checks.Laws.{at_least_valid, positive_valid}
use redxt.Config.Limits.{
  SessionScope, Session, validate_session_scope, validate_session, validate_bucket,
  validate_rate_limit, default_session, default_rate_limit,
}

-- A session of this scope ends, and ends sooner when nothing happens.
pub record IsBoundedScope (s : SessionScope) : Type 0 where
  pub idle : pos 1 ≤ℤ s.idle_timeout
  pub within : s.idle_timeout ≤ℤ s.max_age

pub validate_session_scope-IsBoundedScope :
    (s d : SessionScope)
    → pos 1 ≤ℤ d.max_age
    → pos 1 ≤ℤ d.idle_timeout
    → IsBoundedScope (validate_session_scope s d)
unfolding validate_session_scope
validate_session_scope-IsBoundedScope s d h k =
    let age = positive_valid s.max_age d.max_age h in
    let idle = positive_valid s.idle_timeout d.idle_timeout k in
    record { idle = ground (arith, age, idle); within = ground (arith, age, idle) }

-- After the checks a session of either scope has a lifetime, and an idle timeout that is within it.
pub checked_sessions_end :
    (s : Session)
    → IsBoundedScope (validate_session s default_session).admin
      × IsBoundedScope (validate_session s default_session).user
unfolding validate_session
checked_sessions_end s = (
  validate_session_scope-IsBoundedScope s.admin default_session.admin (omega arith) (omega arith),
  validate_session_scope-IsBoundedScope s.user default_session.user (omega arith) (omega arith),
)

record IsPositive (b : RateBucket) : Type 0 where
  some_requests : pos 1 ≤ℤ b.requests
  some_window : pos 1 ≤ℤ b.window

validate_bucket-IsPositive : (b d : RateBucket) → IsPositive d → IsPositive (validate_bucket b d)
unfolding validate_bucket
validate_bucket-IsPositive b d h = record {
  some_requests = at_least_valid (pos 1) b.requests d.requests h.some_requests;
  some_window = positive_valid b.window d.window h.some_window;
}

-- The limiter's own defaults never replace a positive budget.
resolve_bucket_keeps :
    (b : RateBucket) (requests window : ℤ) → IsPositive b → resolve_bucket b requests window ≡ b
unfolding resolve_bucket
resolve_bucket_keeps b requests window h = ground (arith, h.some_requests, h.some_window)

record ArePositive (c : RateLimitConfig) : Type 0 where
  read : IsPositive c.read
  write : IsPositive c.write
  health : IsPositive c.health
  login : IsPositive c.auth.login
  password_reset : IsPositive c.auth.password_reset
  registration : IsPositive c.auth.registration

validate_rate_limit-ArePositive :
    (r : RateLimitConfig) → ArePositive (validate_rate_limit r default_rate_limit)
unfolding validate_rate_limit
validate_rate_limit-ArePositive r =
    let d = default_rate_limit in
    record {
      read = kept r.read d.read (omega arith) (omega arith);
      write = kept r.write d.write (omega arith) (omega arith);
      health = kept r.health d.health (omega arith) (omega arith);
      login = kept r.auth.login d.auth.login (omega arith) (omega arith);
      password_reset = kept r.auth.password_reset d.auth.password_reset (omega arith) (omega arith);
      registration = kept r.auth.registration d.auth.registration (omega arith) (omega arith);
    }
  where
    kept :
        (b d : RateBucket)
        → pos 1 ≤ℤ d.requests
        → pos 1 ≤ℤ d.window
        → IsPositive (validate_bucket b d)
    kept b d h k = validate_bucket-IsPositive b d (record { some_requests = h; some_window = k })

-- A budget that the document itself gives.
pub data IsOwn (c : RateLimitConfig) (b : RateBucket) : Type 0 where
  of_read : b ≡ c.read → IsOwn c b
  of_write : b ≡ c.write → IsOwn c b
  of_health : b ≡ c.health → IsOwn c b
  of_login : b ≡ c.auth.login → IsOwn c b
  of_password_reset : b ≡ c.auth.password_reset → IsOwn c b
  of_registration : b ≡ c.auth.registration → IsOwn c b

module _ (c : RateLimitConfig) (h : ArePositive c) where
  auth_bucket-IsOwn : (bucket : Text) → IsOwn c (auth_bucket c.auth bucket)
  unfolding auth_bucket
  auth_bucket-IsOwn bucket =
      chosen (bucket =ᵗ bytes "password_reset") (bucket =ᵗ bytes "registration")
    where
      chosen :
          (p q : Bool)
          → IsOwn c (
              if p
              then resolve_bucket c.auth.password_reset (pos 3) (pos 3600000000000)
              else if q
              then resolve_bucket c.auth.registration (pos 5) (pos 3600000000000)
              else resolve_bucket c.auth.login (pos 5) (pos 900000000000))
      chosen true q =
          of_password_reset (resolve_bucket_keeps c.auth.password_reset _ _ h.password_reset)
      chosen false true =
          of_registration (resolve_bucket_keeps c.auth.registration _ _ h.registration)
      chosen false false = of_login (resolve_bucket_keeps c.auth.login _ _ h.login)

  module _ (glob : Text → Text → Bool) (health_paths : List Text) (req : Request) where
    classify-IsOwn :
        (rules : List AuthRateRule) → IsOwn c (classify glob c rules health_paths req).budget
    unfolding classify
    classify-IsOwn [] = elim (Bool-cases (matches_any_path glob req.path health_paths)) [
      | inl e ↦ rw e (of_health (resolve_bucket_keeps c.health _ _ h.health))
      | inr e ↦ elim (Bool-cases (req.method =ᵗ bytes "GET" || req.method =ᵗ bytes "HEAD")) [
        | inl g ↦ rw (e, g) (of_read (resolve_bucket_keeps c.read _ _ h.read))
        | inr g ↦ rw (e, g) (of_write (resolve_bucket_keeps c.write _ _ h.write))
      ]
    ]
    classify-IsOwn (rule ∷ rules) =
        elim (Bool-cases (matches_path_prefix glob req.path rule.prefix)) [
          | inl e ↦ rw e (auth_bucket-IsOwn rule.bucket)
          | inr e ↦ rw e (classify-IsOwn rules)
        ]

-- Whatever the document says of rate limits, after the checks against the built-in defaults every
-- request is billed to a budget of the checked document itself, and none to the limiter's own
-- fallback.
pub checked_budget_is_configured :
    (glob : Text → Text → Bool) (r : RateLimitConfig) (rules : List AuthRateRule)
    (health_paths : List Text) (req : Request)
    → IsOwn
        (validate_rate_limit r default_rate_limit)
        (classify glob (validate_rate_limit r default_rate_limit) rules health_paths req).budget
checked_budget_is_configured glob r rules health_paths req =
    classify-IsOwn (validate_rate_limit r default_rate_limit) (validate_rate_limit-ArePositive r)
      glob health_paths req rules
