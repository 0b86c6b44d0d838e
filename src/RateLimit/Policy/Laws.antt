-- ===== src/RateLimit/Policy/Laws.antt =====
-- Every class has a budget that is in force.
use redxt.Common.{ℤ, pos, ◌<ℤ◌, Bool, List, [], ◌∷◌, Text, arith, inl, inr, Bool-cases}
use redxt.RateLimit.Paths.{matches_path_prefix}
use redxt.RateLimit.Policy.{
  RateBucket, AuthRateLimit, RateLimitConfig, AuthRateRule, Request, resolve_bucket, auth_bucket,
  global_bucket, classify,
}

-- A budget that is in force.
pub record IsInForce (b : RateBucket) : Type 0 where
  pub some_requests : pos 0 <ℤ b.requests
  pub some_window : pos 0 <ℤ b.window

resolve_bucket-IsInForce :
    (b : RateBucket) (requests window : ℤ)
    → pos 0 <ℤ requests
    → pos 0 <ℤ window
    → IsInForce (resolve_bucket b requests window)
unfolding resolve_bucket
resolve_bucket-IsInForce b requests window hr hw = record {
  some_requests = ground arith;
  some_window = ground arith;
}

auth_bucket-IsInForce : (cfg : AuthRateLimit) (bucket : Text) → IsInForce (auth_bucket cfg bucket)
unfolding auth_bucket resolve_bucket
auth_bucket-IsInForce cfg bucket = record {
  some_requests = ground arith;
  some_window = ground arith;
}

pub global_bucket-IsInForce : (cfg : RateLimitConfig) → IsInForce (global_bucket cfg)
unfolding global_bucket
global_bucket-IsInForce cfg = record { some_requests = ground arith; some_window = ground arith }

-- Whatever the settings, the budget that a request is billed to has a positive number of requests
-- and a positive window.
pub classify-IsInForce :
    (glob : Text → Text → Bool) (cfg : RateLimitConfig) (rules : List AuthRateRule)
    (health_paths : List Text) (req : Request)
    → IsInForce ((classify glob cfg rules health_paths req).budget)
unfolding classify resolve_bucket
classify-IsInForce glob cfg [] health_paths req = record {
  some_requests = ground arith;
  some_window = ground arith;
}
classify-IsInForce glob cfg (rule ∷ rules) health_paths req =
    elim (Bool-cases (matches_path_prefix glob req.path rule.prefix)) [
      | inl e ↦ rw e (auth_bucket-IsInForce cfg.auth rule.bucket)
      | inr e ↦ rw e (classify-IsInForce glob cfg rules health_paths req)
    ]
