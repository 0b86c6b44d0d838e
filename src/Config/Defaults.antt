-- ===== src/Config/Defaults.antt =====
-- src/config/defaults.go: the documented defaults of users, organizations and custom domains.
-- Durations are counts of nanoseconds.
use redxt.Common.{ℕ, pos, ◌*◌, true, false, [], ◌∷◌, bytes}
use redxt.Config.Accounts.{Users, Orgs, CustomDomains}

abbrev hour : ℕ
hour = 3600000000000

abbrev pub default_users : Users
default_users = record {
  enabled = true;
  registration = record {
    mode = bytes "invite";
    require_email_verification = true;
    allowed_domains = [];
    blocked_domains = [];
    invite_expiration_days = pos 7;
  };
  auth = record {
    session_duration = pos (168 * hour);
    allow_2fa = true;
    require_2fa = false;
    password_min_length = pos 8;
    password_require_uppercase = true;
    password_require_lowercase = true;
    password_require_number = true;
    password_require_special = false;
    max_failed_logins = pos 5;
    lockout_duration = pos 900000000000;
  };
  tokens = record { enabled = true; max_per_user = pos 10; expiration_days = pos 90 };
  profile = record {
    default_visibility = bytes "public";
    allow_bio = true;
    allow_website = true;
    allow_location = true;
    allow_avatar = true;
  };
}

abbrev pub default_orgs : Orgs
default_orgs = record {
  enabled = true;
  creation_mode = bytes "open";
  max_per_user = pos 0;
  default_visibility = bytes "public";
  default_role = bytes "viewer";
  allow_invites = true;
  require_2fa = false;
}

abbrev pub default_custom_domains : CustomDomains
default_custom_domains = record {
  enabled = false;
  max_domains_per_user = pos 5;
  max_domains_per_org = pos 20;
  require_ssl = true;
  allow_apex = true;
  allow_subdomain = true;
  allow_wildcard = false;
  verification_ttl = pos (24 * hour);
  ssl_renewal_days = pos 7;
  reserved =
      bytes "localhost"
      ∷ bytes "*.local"
      ∷ bytes "*.test"
      ∷ bytes "*.example"
      ∷ bytes "*.invalid"
      ∷ [];
  blocked_patterns = bytes ".*\\.(gov|mil|edu)$" ∷ [];
}
