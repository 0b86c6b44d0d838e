-- ===== src/RateLimit/Policy.antt =====
-- src/server/middleware/ratelimit.go and the settings server.rate_limit.* of src/config/config.go:
-- which bucket a request is billed to, and that bucket's budget. Windows count nanoseconds.
pub mod Laws
use redxt.Common.{
  ℕ, ℤ, pos, leb_ℤ, Bool, true, false, ◌||◌, List, [], ◌∷◌, Text, bytes, ◌=ᵗ◌, if◌then◌else◌,
}
use redxt.RateLimit.Paths.{matches_path_prefix, matches_any_path}

pub record RateBucket : Type 0 where
  pub requests : ℤ
  pub window : ℤ

pub record AuthRateLimit : Type 0 where
  pub login : RateBucket
  pub password_reset : RateBucket
  pub registration : RateBucket

pub record RateLimitConfig : Type 0 where
  pub enabled : Bool
  pub read : RateBucket
  pub write : RateBucket
  pub health : RateBucket
  pub global_burst : ℤ
  pub auth : AuthRateLimit

pub record AuthRateRule : Type 0 where
  pub prefix : Text
  pub bucket : Text

pub record Request : Type 0 where
  pub path : Text
  pub method : Text

abbrev pub bucket_global : Text
bucket_global = bytes "global"

abbrev bucket_password_reset : Text
bucket_password_reset = bytes "password_reset"

abbrev bucket_registration : Text
bucket_registration = bytes "registration"

abbrev default_window : ℤ
default_window = pos 60000000000

abbrev default_login_window : ℤ
default_login_window = pos 900000000000

abbrev default_auth_long_window : ℤ
default_auth_long_window = pos 3600000000000

abbrev pub default_health_paths : List Text
default_health_paths =
    bytes "/healthz"
    ∷ bytes "/readyz"
    ∷ bytes "/livez"
    ∷ bytes "/server/healthz"
    ∷ bytes "/server/status"
    ∷ []

abbrev or_default : ℤ → ℤ → ℤ
or_default n default_value = if leb_ℤ n (pos 0) then default_value else n

unfoldable pub resolve_bucket : RateBucket → ℤ → ℤ → RateBucket
resolve_bucket b requests window = record {
  requests = or_default b.requests requests;
  window = or_default b.window window;
}

-- Any other name is billed as a login.
unfoldable pub auth_bucket : AuthRateLimit → Text → RateBucket
auth_bucket cfg bucket =
    if bucket =ᵗ bucket_password_reset
    then resolve_bucket cfg.password_reset (pos 3) default_auth_long_window
    else if bucket =ᵗ bucket_registration
    then resolve_bucket cfg.registration (pos 5) default_auth_long_window
    else resolve_bucket cfg.login (pos 5) default_login_window

unfoldable pub global_bucket : RateLimitConfig → RateBucket
global_bucket cfg = record {
  requests = or_default cfg.global_burst (pos 240);
  window = default_window;
}

-- What `classify` returns.
pub record Class : Type 0 where
  pub bucket : Text
  pub budget : RateBucket
  pub is_auth : Bool

module _ (glob : Text → Text → Bool) where
  abbrev by_method : RateLimitConfig → List Text → Request → Class
  by_method cfg health_paths req =
      if matches_any_path glob req.path health_paths
      then record {
        bucket = bytes "health";
        budget = resolve_bucket cfg.health (pos 120) default_window;
        is_auth = false;
      }
      else if req.method =ᵗ bytes "GET" || req.method =ᵗ bytes "HEAD"
      then record {
        bucket = bytes "read";
        budget = resolve_bucket cfg.read (pos 120) default_window;
        is_auth = false;
      }
      else record {
        bucket = bytes "write";
        budget = resolve_bucket cfg.write (pos 10) default_window;
        is_auth = false;
      }

  -- The first authentication rule that matches wins over the classes by path and method.
  unfoldable pub classify : RateLimitConfig → List AuthRateRule → List Text → Request → Class
  classify cfg [] health_paths req = by_method cfg health_paths req
  classify cfg (rule ∷ rules) health_paths req =
      if matches_path_prefix glob req.path rule.prefix
      then record {
        bucket = rule.bucket;
        budget = auth_bucket cfg.auth rule.bucket;
        is_auth = true;
      }
      else classify cfg rules health_paths req
