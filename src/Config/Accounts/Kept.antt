-- ===== src/Config/Accounts/Kept.antt =====
-- Valid settings of accounts are kept as they are, with no warning.
use redxt.Common.{
  pos, ◌≡◌, refl, ap, Bool, true, false, ◌&&◌, ◌||◌, not, List, [], ◌∷◌, ◌++◌, Text, ◌=ᵗ◌,
  trim_space, keep, map, arith, Bool-cases, inl, inr, ◌≢◌, length, drop, ◌≤◌,
}
use redxt.Config.Checks.{Warnings}
use redxt.Config.Checks.Laws.{at_least_kept, positive_kept}
use redxt.Config.Accounts.{
  Users, Orgs, CustomDomains, users_warnings, orgs_warnings, validate_custom_domains,
  custom_domains_warnings, kept_patterns,
}
use redxt.Config.Defaults.{default_orgs, default_custom_domains}
use redxt.Config.Accounts.Laws.{checked_users, checked_orgs, checked_domains}
use redxt.Config.Accounts.Valid.{IsValidDomains, IsConsistent}
use redxt.Config.Accounts.Quiet.{
  validate_users-kept, at_least_quiet, positive_quiet, needs_quiet, users_quiet, needs_kept,
  validate_orgs-kept, orgs_quiet,
}

module _ (compiles : Text → Bool) where
  abbrev compiling : Text → Bool
  compiling p = not (p =ᵗ []) && compiles p

  kept_patterns_short :
      (patterns : List Text) → length (kept_patterns compiles patterns) ≤ length patterns
  unfolding kept_patterns
  kept_patterns_short [] = omega arith
  kept_patterns_short (p ∷ patterns) = ground (arith, kept_patterns_short patterns)

  all_compile :
      (p : Text) (patterns : List Text)
      → kept_patterns compiles (p ∷ patterns) ≡ p ∷ patterns
      → (compiling (trim_space p) ≡ true) × (kept_patterns compiles patterns ≡ patterns)
  unfolding kept_patterns
  all_compile p patterns h = elim (Bool-cases (compiling (trim_space p))) [
    | inl e ↦ (e, tail_eq (rw e at h))
    | inr e ↦ absurd (too_short (rw e at h))
  ]
    where
      tail_eq :
          trim_space p ∷ kept_patterns compiles patterns ≡ p ∷ patterns
          → kept_patterns compiles patterns ≡ patterns
      tail_eq x = ap (drop 1) x

      too_short : kept_patterns compiles patterns ≢ p ∷ patterns
      too_short x = omega (arith, ap length x, kept_patterns_short patterns)

  abbrev failing : Text → Bool
  failing p = not (p =ᵗ []) && not (compiles p)

  patterns_quiet :
      (patterns : List Text)
      → kept_patterns compiles patterns ≡ patterns
      → keep failing (map trim_space patterns) ≡ []
  patterns_quiet [] h = refl
  patterns_quiet (p ∷ patterns) h =
      let (e, rest) = all_compile p patterns h in
      rw (quiet (trim_space p) e) (patterns_quiet patterns rest)
    where
      quiet : (q : Text) → compiling q ≡ true → failing q ≡ false
      quiet q e = ground arith

  module _ (orgs_enabled : Bool) (c : CustomDomains) (v : IsValidDomains compiles c)
      (needs : c.enabled ≡ true → orgs_enabled ≡ true) where
    shape_kept : (b : Bool) → (b || not (c.allow_apex || c.allow_subdomain || c.allow_wildcard)) ≡ b
    shape_kept true = refl
    shape_kept false = rw v.shape refl

    validate_custom_domains-kept :
        validate_custom_domains compiles orgs_enabled c default_custom_domains ≡ c
    unfolding validate_custom_domains
    validate_custom_domains-kept =
        rw
          (
            needs_kept c.enabled orgs_enabled needs,
            at_least_kept (pos 0) c.max_domains_per_user (pos 5) v.user_quota,
            at_least_kept (pos 0) c.max_domains_per_org (pos 20) v.org_quota,
            shape_kept c.allow_apex,
            shape_kept c.allow_subdomain,
            positive_kept c.verification_ttl default_custom_domains.verification_ttl v.ttl,
            at_least_kept (pos 1) c.ssl_renewal_days (pos 7) v.renewal,
            v.reserved,
            v.patterns,
          )
          refl

    custom_domains_quiet : custom_domains_warnings compiles orgs_enabled c ≡ []
    unfolding custom_domains_warnings
    custom_domains_quiet =
        rw
          (
            needs_quiet c.enabled orgs_enabled needs,
            at_least_quiet (pos 0) c.max_domains_per_user v.user_quota,
            at_least_quiet (pos 0) c.max_domains_per_org v.org_quota,
            v.shape,
            positive_quiet c.verification_ttl v.ttl,
            at_least_quiet (pos 1) c.ssl_renewal_days v.renewal,
            patterns_quiet c.blocked_patterns v.patterns,
          )
          refl

  -- The warnings of all three sections.
  abbrev pub accounts_warnings : Users → Orgs → CustomDomains → Warnings
  accounts_warnings u o c =
      users_warnings u
      ++ orgs_warnings (checked_users compiles u).enabled o default_orgs
      ++ custom_domains_warnings compiles (checked_orgs compiles u o).enabled c

  -- Settings of users, organizations and custom domains that are consistent in that sense are
  -- left exactly as they are by the checks, with no warning.
  pub consistent_accounts_are_kept :
      (u : Users) (o : Orgs) (c : CustomDomains)
      → IsConsistent compiles u o c
      → (checked_users compiles u ≡ u)
        × (checked_orgs compiles u o ≡ o)
        × (checked_domains compiles u o c ≡ c)
        × (accounts_warnings u o c ≡ [])
  consistent_accounts_are_kept u o c x =
      let users = validate_users-kept u x.users in
      let orgs = validate_orgs-kept u.enabled o x.orgs x.orgs_need_users in
      let domains = validate_custom_domains-kept o.enabled c x.domains x.domains_need_orgs in
      (
        users,
        rw users orgs,
        rw (users, orgs) domains,
        rw
            (
              users,
              orgs,
              users_quiet u x.users,
              orgs_quiet u.enabled o x.orgs x.orgs_need_users,
              custom_domains_quiet o.enabled c x.domains x.domains_need_orgs,
            )
            refl,
      )
