-- ===== src/Config/Accounts.antt =====
-- src/config/config.go and validate.go: the settings of users, organizations and custom domains.
-- `compiles` stands for regexp.Compile.
pub mod Valid
pub mod Laws
mod Quiet
pub mod Kept
use redxt.Common.{
  ℕ, ℤ, pos, Bool, true, false, ◌&&◌, ◌||◌, not, List, [], ◌∷◌, ◌++◌, Text, bytes, ◌=ᵗ◌, ltb_ℤ,
  trim_space, to_lower, any, keep, map, if◌then◌else◌,
}
use redxt.Config.Checks.{
  Warnings, warn_unless, is_blank, contains_fold, choice, at_least, is_low,
  require_positive_duration, normalize_domain_list,
}

pub record Registration : Type 0 where
  pub mode : Text
  pub require_email_verification : Bool
  pub allowed_domains : List Text
  pub blocked_domains : List Text
  pub invite_expiration_days : ℤ

pub record UserAuth : Type 0 where
  pub session_duration : ℤ
  pub allow_2fa : Bool
  pub require_2fa : Bool
  pub password_min_length : ℤ
  pub password_require_uppercase : Bool
  pub password_require_lowercase : Bool
  pub password_require_number : Bool
  pub password_require_special : Bool
  pub max_failed_logins : ℤ
  pub lockout_duration : ℤ

pub record UserTokens : Type 0 where
  pub enabled : Bool
  pub max_per_user : ℤ
  pub expiration_days : ℤ

pub record UserProfile : Type 0 where
  pub default_visibility : Text
  pub allow_bio : Bool
  pub allow_website : Bool
  pub allow_location : Bool
  pub allow_avatar : Bool

pub record Users : Type 0 where
  pub enabled : Bool
  pub registration : Registration
  pub auth : UserAuth
  pub tokens : UserTokens
  pub profile : UserProfile

pub record Orgs : Type 0 where
  pub enabled : Bool
  pub creation_mode : Text
  pub max_per_user : ℤ
  pub default_visibility : Text
  pub default_role : Text
  pub allow_invites : Bool
  pub require_2fa : Bool

pub record CustomDomains : Type 0 where
  pub enabled : Bool
  pub max_domains_per_user : ℤ
  pub max_domains_per_org : ℤ
  pub require_ssl : Bool
  pub allow_apex : Bool
  pub allow_subdomain : Bool
  pub allow_wildcard : Bool
  pub verification_ttl : ℤ
  pub ssl_renewal_days : ℤ
  pub reserved : List Text
  pub blocked_patterns : List Text

abbrev pub account_modes : List Text
account_modes = bytes "open" ∷ bytes "invite" ∷ bytes "admin_only" ∷ bytes "disabled" ∷ []

abbrev pub profile_visibilities : List Text
profile_visibilities = bytes "public" ∷ bytes "private" ∷ []

abbrev pub org_roles : List Text
org_roles = bytes "owner" ∷ bytes "admin" ∷ bytes "editor" ∷ bytes "viewer" ∷ []

abbrev pub min_password_length : ℤ
min_password_length = pos 8

-- validateUsers
unfoldable pub check_registration : Registration → Registration → Registration
check_registration r d = record r {
  mode = choice account_modes r.mode d.mode;
  invite_expiration_days = at_least (pos 1) r.invite_expiration_days d.invite_expiration_days;
  allowed_domains = normalize_domain_list r.allowed_domains;
  blocked_domains = normalize_domain_list r.blocked_domains;
}

unfoldable pub check_auth : UserAuth → UserAuth → UserAuth
check_auth a d = record a {
  session_duration = require_positive_duration a.session_duration d.session_duration;
  lockout_duration = require_positive_duration a.lockout_duration d.lockout_duration;
  password_min_length = at_least min_password_length a.password_min_length d.password_min_length;
  max_failed_logins = at_least (pos 1) a.max_failed_logins d.max_failed_logins;
  allow_2fa = a.allow_2fa || a.require_2fa;
}

unfoldable pub validate_users : Users → Users → Users
validate_users u d = record u {
  registration = check_registration u.registration d.registration;
  auth = check_auth u.auth d.auth;
  tokens = record u.tokens {
    max_per_user = at_least (pos 0) u.tokens.max_per_user d.tokens.max_per_user;
    expiration_days = at_least (pos 0) u.tokens.expiration_days d.tokens.expiration_days;
  };
  profile = record u.profile {
    default_visibility =
        choice profile_visibilities u.profile.default_visibility d.profile.default_visibility;
  };
}

-- The settings that validateUsers warns of.
unfoldable pub users_warnings : Users → Warnings
users_warnings u =
    warn_unless (contains_fold account_modes u.registration.mode) (bytes "registration.mode")
    ++ warn_unless (not (is_low (pos 1) u.registration.invite_expiration_days))
        (bytes "registration.invite_expiration_days")
    ++ warn_unless (ltb_ℤ (pos 0) u.auth.session_duration) (bytes "auth.session_duration")
    ++ warn_unless (ltb_ℤ (pos 0) u.auth.lockout_duration) (bytes "auth.lockout_duration")
    ++ warn_unless (not (is_low min_password_length u.auth.password_min_length))
        (bytes "auth.password_min_length")
    ++ warn_unless (not (is_low (pos 1) u.auth.max_failed_logins)) (bytes "auth.max_failed_logins")
    ++ warn_unless (not u.auth.require_2fa || u.auth.allow_2fa) (bytes "auth.require_2fa")
    ++ warn_unless (not (is_low (pos 0) u.tokens.max_per_user)) (bytes "tokens.max_per_user")
    ++ warn_unless (not (is_low (pos 0) u.tokens.expiration_days)) (bytes "tokens.expiration_days")
    ++ warn_unless (contains_fold profile_visibilities u.profile.default_visibility)
        (bytes "profile.default_visibility")

-- A new member never becomes the owner.
abbrev pub not_owner : Text → Text → Text
not_owner role d = if role =ᵗ bytes "owner" then d else role

-- validateOrgs, given whether users are enabled.
unfoldable pub validate_orgs : Bool → Orgs → Orgs → Orgs
validate_orgs users_enabled o d = record o {
  enabled = o.enabled && users_enabled;
  creation_mode = choice account_modes o.creation_mode d.creation_mode;
  max_per_user = at_least (pos 0) o.max_per_user d.max_per_user;
  default_visibility = choice profile_visibilities o.default_visibility d.default_visibility;
  default_role = not_owner (choice org_roles o.default_role d.default_role) d.default_role;
}

unfoldable pub orgs_warnings : Bool → Orgs → Orgs → Warnings
orgs_warnings users_enabled o d =
    warn_unless (not o.enabled || users_enabled) (bytes "orgs.enabled")
    ++ warn_unless (contains_fold account_modes o.creation_mode) (bytes "creation.mode")
    ++ warn_unless (not (is_low (pos 0) o.max_per_user)) (bytes "creation.max_per_user")
    ++ warn_unless (contains_fold profile_visibilities o.default_visibility)
        (bytes "profile.default_visibility")
    ++ warn_unless (contains_fold org_roles o.default_role) (bytes "members.default_role")
    ++ warn_unless (not (choice org_roles o.default_role d.default_role =ᵗ bytes "owner"))
        (bytes "members.default_role")

module _ (compiles : Text → Bool) where
  -- The patterns that are kept, and the ones that are warned of.
  unfoldable pub kept_patterns : List Text → List Text
  kept_patterns patterns = keep (λ p. not (p =ᵗ []) && compiles p) (map trim_space patterns)

  -- validateCustomDomains, given whether organizations are enabled.
  unfoldable pub validate_custom_domains : Bool → CustomDomains → CustomDomains → CustomDomains
  validate_custom_domains orgs_enabled c d =
      let some_shape = c.allow_apex || c.allow_subdomain || c.allow_wildcard in
      record c {
        enabled = c.enabled && orgs_enabled;
        max_domains_per_user = at_least (pos 0) c.max_domains_per_user d.max_domains_per_user;
        max_domains_per_org = at_least (pos 0) c.max_domains_per_org d.max_domains_per_org;
        allow_apex = c.allow_apex || not some_shape;
        allow_subdomain = c.allow_subdomain || not some_shape;
        verification_ttl = require_positive_duration c.verification_ttl d.verification_ttl;
        ssl_renewal_days = at_least (pos 1) c.ssl_renewal_days d.ssl_renewal_days;
        reserved = normalize_domain_list c.reserved;
        blocked_patterns = kept_patterns c.blocked_patterns;
      }

  unfoldable pub custom_domains_warnings : Bool → CustomDomains → Warnings
  custom_domains_warnings orgs_enabled c =
      warn_unless (not c.enabled || orgs_enabled) (bytes "custom_domains.enabled")
      ++ warn_unless (not (is_low (pos 0) c.max_domains_per_user)) (bytes "max_domains_per_user")
      ++ warn_unless (not (is_low (pos 0) c.max_domains_per_org)) (bytes "max_domains_per_org")
      ++ warn_unless (c.allow_apex || c.allow_subdomain || c.allow_wildcard)
          (bytes "custom_domains")
      ++ warn_unless (ltb_ℤ (pos 0) c.verification_ttl) (bytes "verification_ttl")
      ++ warn_unless (not (is_low (pos 1) c.ssl_renewal_days)) (bytes "ssl_renewal_days")
      ++ keep (λ p. not (p =ᵗ []) && not (compiles p)) (map trim_space c.blocked_patterns)
