-- ===== src/Config/Accounts/Valid.antt =====
-- Which settings of accounts are valid, and the words that the enumerated ones may hold.
use redxt.Common.{
  pos, ◌≤ℤ◌, ◌≡◌, refl, Bool, true, ◌||◌, Text, bytes, ◌=ᵗ◌, trim_space, trim_left, to_lower,
  has_prefix, All, ◌≢◌,
}
use redxt.Config.Checks.{fold_text, contains_text, normalize_domain_list}
use redxt.Config.Checks.Ascii.{IsAscii}
use redxt.Config.Checks.Laws.{IsPlainWord}
use redxt.Config.Accounts.{
  Users, Orgs, CustomDomains, account_modes, profile_visibilities, org_roles, kept_patterns,
}

pub record IsValidUsers (u : Users) : Type 0 where
  pub mode : contains_text account_modes u.registration.mode ≡ true
  pub invites : pos 1 ≤ℤ u.registration.invite_expiration_days
  pub allowed :
      normalize_domain_list u.registration.allowed_domains ≡ u.registration.allowed_domains
  pub refused :
      normalize_domain_list u.registration.blocked_domains ≡ u.registration.blocked_domains
  pub session : pos 1 ≤ℤ u.auth.session_duration
  pub lockout : pos 1 ≤ℤ u.auth.lockout_duration
  pub password : pos 8 ≤ℤ u.auth.password_min_length
  pub failures : pos 1 ≤ℤ u.auth.max_failed_logins
  pub second_factor : u.auth.require_2fa ≡ true → u.auth.allow_2fa ≡ true
  pub tokens : pos 0 ≤ℤ u.tokens.max_per_user
  pub expiry : pos 0 ≤ℤ u.tokens.expiration_days
  pub visibility : contains_text profile_visibilities u.profile.default_visibility ≡ true

pub record IsValidOrgs (o : Orgs) : Type 0 where
  pub mode : contains_text account_modes o.creation_mode ≡ true
  pub quota : pos 0 ≤ℤ o.max_per_user
  pub visibility : contains_text profile_visibilities o.default_visibility ≡ true
  pub role : contains_text org_roles o.default_role ≡ true
  pub role_below_owner : o.default_role ≢ bytes "owner"

pub record IsValidDomains (compiles : Text → Bool) (c : CustomDomains) : Type 0 where
  pub user_quota : pos 0 ≤ℤ c.max_domains_per_user
  pub org_quota : pos 0 ≤ℤ c.max_domains_per_org
  pub shape : (c.allow_apex || c.allow_subdomain || c.allow_wildcard) ≡ true
  pub ttl : pos 1 ≤ℤ c.verification_ttl
  pub renewal : pos 1 ≤ℤ c.ssl_renewal_days
  pub reserved : normalize_domain_list c.reserved ≡ c.reserved
  pub patterns : kept_patterns compiles c.blocked_patterns ≡ c.blocked_patterns

-- Settings whose texts are in ASCII.
pub record IsAsciiUsers (u : Users) : Type 0 where
  pub mode : IsAscii u.registration.mode
  pub allowed : All IsAscii u.registration.allowed_domains
  pub refused : All IsAscii u.registration.blocked_domains
  pub visibility : IsAscii u.profile.default_visibility

pub record IsAsciiOrgs (o : Orgs) : Type 0 where
  pub mode : IsAscii o.creation_mode
  pub visibility : IsAscii o.default_visibility
  pub role : IsAscii o.default_role

pub record IsAsciiDomains (c : CustomDomains) : Type 0 where
  pub reserved : All IsAscii c.reserved
  pub patterns : All IsAscii c.blocked_patterns

pub record IsConsistent (compiles : Text → Bool) (u : Users) (o : Orgs) (c : CustomDomains)
    : Type 0 where
  pub users : IsValidUsers u
  pub orgs : IsValidOrgs o
  pub domains : IsValidDomains compiles c
  pub orgs_need_users : o.enabled ≡ true → u.enabled ≡ true
  pub domains_need_orgs : c.enabled ≡ true → o.enabled ≡ true

IsPlainWord-intro : (w : Text) → trim_space w ≡ w → to_lower w ≡ w → fold_text w ≡ w → IsPlainWord w
IsPlainWord-intro w t l f = record { trimmed = t; lowered = l; folded = f }

pub plain_modes : All IsPlainWord account_modes
unfolding trim_space trim_left to_lower fold_text has_prefix
plain_modes = (
  IsPlainWord-intro (bytes "open") refl refl refl,
  (
    IsPlainWord-intro (bytes "invite") refl refl refl,
    (
      IsPlainWord-intro (bytes "admin_only") refl refl refl,
      (IsPlainWord-intro (bytes "disabled") refl refl refl, tt),
    ),
  ),
)

pub plain_visibilities : All IsPlainWord profile_visibilities
unfolding trim_space trim_left to_lower fold_text has_prefix
plain_visibilities = (
  IsPlainWord-intro (bytes "public") refl refl refl,
  (IsPlainWord-intro (bytes "private") refl refl refl, tt),
)

pub plain_roles : All IsPlainWord org_roles
unfolding trim_space trim_left to_lower fold_text has_prefix
plain_roles = (
  IsPlainWord-intro (bytes "owner") refl refl refl,
  (
    IsPlainWord-intro (bytes "admin") refl refl refl,
    (
      IsPlainWord-intro (bytes "editor") refl refl refl,
      (IsPlainWord-intro (bytes "viewer") refl refl refl, tt),
    ),
  ),
)

-- The defaults of the enumerated settings are among the values allowed.
pub default_modes :
    (contains_text account_modes (bytes "invite") ≡ true)
    × (contains_text account_modes (bytes "open") ≡ true)
    × (contains_text profile_visibilities (bytes "public") ≡ true)
    × (contains_text org_roles (bytes "viewer") ≡ true)
unfolding contains_text ◌=ᵗ◌
default_modes = (refl, refl, refl, refl)
