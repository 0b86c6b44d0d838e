-- ===== src/Config/Limits.antt =====
-- src/config/config.go and validate.go: the settings of sessions, requests and rate limits, with
-- their defaults. Durations are counts of nanoseconds.
pub mod Laws
use redxt.Common.{
  ℕ, ℤ, pos, ◌*◌, Bool, true, false, ◌&&◌, ◌||◌, not, List, [], ◌∷◌, ◌++◌, Text, bytes, ◌=ᵗ◌, ltb_ℤ,
  trim_space, to_lower, if◌then◌else◌,
}
use redxt.RateLimit.Policy.{RateBucket, AuthRateLimit, RateLimitConfig}
use redxt.Config.Checks.{
  Warnings, warn_unless, is_blank, contains_text, at_least, is_low, require_positive_duration,
}

pub record SessionScope : Type 0 where
  pub cookie_name : Text
  pub max_age : ℤ
  pub idle_timeout : ℤ

pub record Session : Type 0 where
  pub admin : SessionScope
  pub user : SessionScope
  pub extend_on_activity : Bool
  pub secure : Text
  pub http_only : Bool
  pub same_site : Text

pub record Limits : Type 0 where
  pub max_body_size : ℤ
  pub read_timeout : ℤ
  pub write_timeout : ℤ
  pub idle_timeout : ℤ

abbrev second : ℕ
second = 1000000000

abbrev pub valid_same_site : List Text
valid_same_site = bytes "strict" ∷ bytes "lax" ∷ bytes "none" ∷ []

abbrev pub valid_secure : List Text
valid_secure = bytes "auto" ∷ bytes "true" ∷ bytes "false" ∷ []

-- validateSessionScope: an idle timeout above the lifetime is cut to it.
unfoldable pub validate_session_scope : SessionScope → SessionScope → SessionScope
validate_session_scope s d =
    let max_age = require_positive_duration s.max_age d.max_age in
    let idle = require_positive_duration s.idle_timeout d.idle_timeout in
    record {
      cookie_name = if is_blank s.cookie_name then d.cookie_name else s.cookie_name;
      max_age = max_age;
      idle_timeout = if ltb_ℤ max_age idle then max_age else idle;
    }

unfoldable pub session_scope_warnings : SessionScope → SessionScope → Warnings
session_scope_warnings s d =
    let max_age = require_positive_duration s.max_age d.max_age in
    let idle = require_positive_duration s.idle_timeout d.idle_timeout in
    warn_unless (ltb_ℤ (pos 0) s.max_age) (bytes "max_age")
    ++ warn_unless (ltb_ℤ (pos 0) s.idle_timeout) (bytes "idle_timeout")
    ++ warn_unless (not (ltb_ℤ max_age idle)) (bytes "idle_timeout")

-- A value outside the list is replaced; these settings are not trimmed.
abbrev pub lower_choice : List Text → Text → Text → Text
lower_choice list v d = if contains_text list (to_lower v) then to_lower v else d

-- validateSession
unfoldable pub validate_session : Session → Session → Session
validate_session s d = record s {
  admin = validate_session_scope s.admin d.admin;
  user = validate_session_scope s.user d.user;
  secure = lower_choice valid_secure s.secure d.secure;
  same_site = lower_choice valid_same_site s.same_site d.same_site;
}

-- SessionSecure
unfoldable pub session_secure : Session → Bool → Bool
session_secure s over_tls =
    if s.secure =ᵗ bytes "true" then true else if s.secure =ᵗ bytes "false" then false else over_tls

-- validateLimits
unfoldable pub validate_limits : Limits → Limits → Limits
validate_limits l d = record {
  max_body_size = at_least (pos 1) l.max_body_size d.max_body_size;
  read_timeout = require_positive_duration l.read_timeout d.read_timeout;
  write_timeout = require_positive_duration l.write_timeout d.write_timeout;
  idle_timeout = require_positive_duration l.idle_timeout d.idle_timeout;
}

-- validateBucket
unfoldable pub validate_bucket : RateBucket → RateBucket → RateBucket
validate_bucket b d = record {
  requests = at_least (pos 1) b.requests d.requests;
  window = require_positive_duration b.window d.window;
}

-- validateRateLimit
unfoldable pub validate_rate_limit : RateLimitConfig → RateLimitConfig → RateLimitConfig
validate_rate_limit r d = record r {
  read = validate_bucket r.read d.read;
  write = validate_bucket r.write d.write;
  health = validate_bucket r.health d.health;
  auth = record {
    login = validate_bucket r.auth.login d.auth.login;
    password_reset = validate_bucket r.auth.password_reset d.auth.password_reset;
    registration = validate_bucket r.auth.registration d.auth.registration;
  };
  global_burst = at_least (pos 1) r.global_burst d.global_burst;
}

abbrev bucket_of : ℕ → ℕ → RateBucket
bucket_of requests seconds = record { requests = pos requests; window = pos (seconds * second) }

abbrev pub default_session : Session
default_session = record {
  admin = record {
    cookie_name = bytes "admin_session";
    max_age = pos (2592000 * second);
    idle_timeout = pos (86400 * second);
  };
  user = record {
    cookie_name = bytes "user_session";
    max_age = pos (604800 * second);
    idle_timeout = pos (86400 * second);
  };
  extend_on_activity = true;
  secure = bytes "auto";
  http_only = true;
  same_site = bytes "strict";
}

abbrev pub default_limits : Limits
default_limits = record {
  max_body_size = pos 10485760;
  read_timeout = pos (30 * second);
  write_timeout = pos (30 * second);
  idle_timeout = pos (120 * second);
}

abbrev pub default_rate_limit : RateLimitConfig
default_rate_limit = record {
  enabled = true;
  read = bucket_of 120 60;
  write = bucket_of 10 60;
  health = bucket_of 120 60;
  global_burst = pos 240;
  auth = record {
    login = bucket_of 5 900;
    password_reset = bucket_of 3 3600;
    registration = bucket_of 5 3600;
  };
}
