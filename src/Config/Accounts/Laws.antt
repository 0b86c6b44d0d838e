-- ===== src/Config/Accounts/Laws.antt =====
-- What the settings of accounts satisfy once they are checked.
use redxt.Common.{
  pos, ◌≡◌, refl, ap, Bool, true, ◌&&◌, not, List, [], ◌∷◌, Text, bytes, ◌=ᵗ◌, trim_space, arith,
  Bool-cases, inl, inr, ◌≢◌, text_apart, trim_space-twice,
}
use redxt.Config.Checks.{contains_text, choice}
use redxt.Config.Checks.Laws.{
  choice_valid, at_least_valid, positive_valid, normalize_domain_list-twice,
}
use redxt.Config.Accounts.{
  Users, Orgs, CustomDomains, account_modes, profile_visibilities, org_roles, check_registration,
  check_auth, not_owner, validate_users, validate_orgs, validate_custom_domains, kept_patterns,
}
use redxt.Config.Defaults.{default_users, default_orgs, default_custom_domains}
use redxt.Config.Accounts.Valid.{
  IsAsciiUsers, IsAsciiOrgs, IsAsciiDomains, IsValidUsers, IsValidOrgs, IsValidDomains,
  IsConsistent, plain_modes, plain_visibilities, plain_roles, default_modes,
}

validate_users-IsValidUsers :
    (u : Users) → IsAsciiUsers u → IsValidUsers (validate_users u default_users)
unfolding validate_users check_registration check_auth
validate_users-IsValidUsers u ascii =
    let (invite, opened, public, viewer) = default_modes in
    record {
      mode =
          choice_valid account_modes plain_modes u.registration.mode (bytes "invite") ascii.mode
            invite;
      invites = at_least_valid (pos 1) u.registration.invite_expiration_days (pos 7) (omega arith);
      allowed = normalize_domain_list-twice u.registration.allowed_domains;
      refused = normalize_domain_list-twice u.registration.blocked_domains;
      session =
          positive_valid u.auth.session_duration default_users.auth.session_duration (omega arith);
      lockout =
          positive_valid u.auth.lockout_duration default_users.auth.lockout_duration (omega arith);
      password = at_least_valid (pos 8) u.auth.password_min_length (pos 8) (omega arith);
      failures = at_least_valid (pos 1) u.auth.max_failed_logins (pos 5) (omega arith);
      second_factor = λ r. ground arith;
      tokens = at_least_valid (pos 0) u.tokens.max_per_user (pos 10) (omega arith);
      expiry = at_least_valid (pos 0) u.tokens.expiration_days (pos 90) (omega arith);
      visibility =
          choice_valid profile_visibilities plain_visibilities u.profile.default_visibility
            (bytes "public") ascii.visibility public;
    }

not_owner-viewer :
    (role : Text)
    → contains_text org_roles role ≡ true
    → (contains_text org_roles (not_owner role (bytes "viewer")) ≡ true)
      × (not_owner role (bytes "viewer") ≢ bytes "owner")
unfolding contains_text ◌=ᵗ◌
not_owner-viewer role h = elim (Bool-cases (role =ᵗ bytes "owner")) [
  | inl e ↦ rw e (refl, text_apart (bytes "viewer") (bytes "owner") refl)
  | inr e ↦ rw e (h, text_apart role (bytes "owner") e)
]

validate_orgs-IsValidOrgs :
    (users_enabled : Bool) (o : Orgs)
    → IsAsciiOrgs o
    → IsValidOrgs (validate_orgs users_enabled o default_orgs)
unfolding validate_orgs
validate_orgs-IsValidOrgs users_enabled o ascii =
    let (invite, opened, public, viewer) = default_modes in
    let (known, below) =
      not_owner-viewer (choice org_roles o.default_role (bytes "viewer"))
        (choice_valid org_roles plain_roles o.default_role (bytes "viewer") ascii.role viewer) in
    record {
      mode =
          choice_valid account_modes plain_modes o.creation_mode (bytes "open") ascii.mode opened;
      quota = at_least_valid (pos 0) o.max_per_user (pos 0) (omega arith);
      visibility =
          choice_valid profile_visibilities plain_visibilities o.default_visibility (bytes "public")
            ascii.visibility public;
      role = known;
      role_below_owner = below;
    }

module _ (compiles : Text → Bool) where
  kept_patterns-twice :
      (patterns : List Text)
      → kept_patterns compiles (kept_patterns compiles patterns) ≡ kept_patterns compiles patterns
  unfolding kept_patterns
  kept_patterns-twice [] = refl
  kept_patterns-twice (p ∷ patterns) =
      elim (Bool-cases (not (trim_space p =ᵗ []) && compiles (trim_space p))) [
        | inl e ↦
            rw e
              (rw (trim_space-twice p, e) (ap (◌∷◌ (trim_space p)) (kept_patterns-twice patterns)))
        | inr e ↦ rw e (kept_patterns-twice patterns)
      ]

  validate_custom_domains-IsValidDomains :
      (orgs_enabled : Bool) (c : CustomDomains)
      → IsValidDomains compiles
          (validate_custom_domains compiles orgs_enabled c default_custom_domains)
  unfolding validate_custom_domains
  validate_custom_domains-IsValidDomains orgs_enabled c = record {
    user_quota = at_least_valid (pos 0) c.max_domains_per_user (pos 5) (omega arith);
    org_quota = at_least_valid (pos 0) c.max_domains_per_org (pos 20) (omega arith);
    shape = ground arith;
    ttl = positive_valid c.verification_ttl default_custom_domains.verification_ttl (omega arith);
    renewal = at_least_valid (pos 1) c.ssl_renewal_days (pos 7) (omega arith);
    reserved = normalize_domain_list-twice c.reserved;
    patterns = kept_patterns-twice c.blocked_patterns;
  }

  abbrev pub checked_users : Users → Users
  checked_users u = validate_users u default_users

  abbrev pub checked_orgs : Users → Orgs → Orgs
  checked_orgs u o = validate_orgs (checked_users u).enabled o default_orgs

  abbrev pub checked_domains : Users → Orgs → CustomDomains → CustomDomains
  checked_domains u o c =
      validate_custom_domains compiles (checked_orgs u o).enabled c default_custom_domains

  -- Whatever a document whose settings of accounts are ASCII texts says, after the checks against
  -- the built-in defaults custom domains are on only with organizations and these only with
  -- users; modes, visibilities and roles are among those allowed, new members do not become
  -- owners, required second factors are allowed, quotas are not negative, durations are positive,
  -- passwords have eight characters at least, some shape of domain is allowed, and lists are
  -- normal.
  pub checked_accounts_agree :
      (u : Users) (o : Orgs) (c : CustomDomains)
      → IsAsciiUsers u
      → IsAsciiOrgs o
      → IsAsciiDomains c
      → IsConsistent compiles (checked_users u) (checked_orgs u o) (checked_domains u o c)
  unfolding validate_users validate_orgs validate_custom_domains
  checked_accounts_agree u o c au ao ac = record {
    users = validate_users-IsValidUsers u au;
    orgs = validate_orgs-IsValidOrgs (checked_users u).enabled o ao;
    domains = validate_custom_domains-IsValidDomains (checked_orgs u o).enabled c;
    orgs_need_users = λ e. ground arith;
    domains_need_orgs = λ e. ground arith;
  }
