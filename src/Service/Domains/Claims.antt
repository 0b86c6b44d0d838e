-- ===== src/Service/Domains/Claims.antt =====
-- src/server/service/domain.go: claiming a custom domain, and who may see one.
use redxt.Common.{
  ℕ, ◌==◌, ◌||◌, ◌&&◌, not, Bool, false, [], ◌++◌, any, Option, none, some, Text, bytes, ◌=ᵗ◌,
  to_lower, trim_space, trim_prefix, trim_suffix, has_suffix, Result, ok, err, pos, leb_ℤ, ltb_ℤ,
  if◌then◌else◌,
}
use redxt.User.Role.{Permission, org_settings}
use redxt.User.Domain.{validate_domain, is_wildcard_domain, is_apex_domain, wildcard_prefix}
use redxt.Store.Tables.{Domain, domain_added}
use redxt.Store.Domains.{valid_purpose, domain_by_id, count_org_domains, create_domain}
use redxt.Service.Base.{
  ServiceError, not_found, disabled, quota_exceeded, validation, unknown_domain_purpose,
  wildcard_not_accepted, apex_not_accepted, subdomain_not_accepted, domain_reserved,
  domain_not_accepted, domain_format, Call, Service, ◌>>=◌, ◌>>◌, return, refuse_if, lift, ask,
  or_error, write, audit, audit_domain,
}
use redxt.Service.Access.{require}
use redxt.Service.Domains.Environment.{Outside, DomainPolicy}

abbrev is_reserved : Text → Text → Bool
is_reserved bare entry =
    let reserved = to_lower (trim_space entry) in
    if reserved =ᵗ [] then false else bare =ᵗ reserved || has_suffix bare (bytes "." ++ reserved)

-- A pattern that does not compile is passed over.
abbrev matched : Option Bool → Bool
matched none = false
matched (some b) = b

abbrev claim : Outside → DomainPolicy → Bool → Option Text → Result ServiceError (Text × Bool)
claim out policy wildcard none = err (validation domain_format)
claim out policy wildcard (some name) =
    let apex = is_apex_domain name in
    let bare = trim_prefix name wildcard_prefix in
    if apex && not policy.allow_apex
    then err (validation apex_not_accepted)
    else if not apex && not wildcard && not policy.allow_subdomain
    then err (validation subdomain_not_accepted)
    else if any (is_reserved bare) policy.reserved
    then err (validation domain_reserved)
    else if any (λ p. matched (out.match_pattern p bare)) policy.blocked_patterns
    then err (validation domain_not_accepted)
    else ok (name, wildcard)

unfoldable pub normalize_claim : Outside → DomainPolicy → Text → Result ServiceError (Text × Bool)
normalize_claim out policy raw =
    let candidate = trim_suffix (to_lower (trim_space raw)) (bytes ".") in
    let wildcard = is_wildcard_domain candidate in
    if wildcard && not policy.allow_wildcard
    then err (validation wildcard_not_accepted)
    else claim out policy wildcard (validate_domain candidate)

unfoldable pub domain_for_org : ℕ → ℕ → ℕ → Permission → Service Domain
domain_for_org org_id actor_id domain_id perm = do
  a ← ask (λ db. require db org_id actor_id perm)
  d ← ask (λ db. or_error not_found (domain_by_id db domain_id))
  refuse_if (not (d.org_id == org_id)) not_found
  return d

unfoldable pub reload_domain : ℕ → Service Domain
reload_domain id = ask (λ db. or_error not_found (domain_by_id db id))

abbrev purpose_or_ui : Text → Text
purpose_or_ui purpose =
    let trimmed = trim_space purpose in if trimmed =ᵗ [] then bytes "ui" else trimmed

-- The row that AddDomain asks for; what CreateDomain sets itself is left at Go's zero values.
abbrev claimed : DomainPolicy → Call → ℕ → Text → Bool → Text → Domain
claimed policy call org_id name wildcard purpose = record {
  id = call.fresh_id;
  org_id = org_id;
  name = name;
  purpose = purpose;
  is_apex = is_apex_domain name;
  is_wildcard = wildcard;
  verification_status = [];
  verification_token = call.random;
  verified_at = pos 0;
  last_check_at = pos 0;
  check_count = 0;
  ssl_enabled = policy.require_ssl;
  ssl_status = [];
  ssl_challenge = [];
  ssl_issued_at = pos 0;
  ssl_expires_at = pos 0;
  ssl_last_error = [];
  status = [];
  suspend_reason = [];
}

unfoldable pub add_domain : Outside → DomainPolicy → Call → ℕ → ℕ → Text → Text → Service Domain
add_domain out policy call org_id actor_id raw purpose = do
  refuse_if (not policy.enabled) disabled
  a ← ask (λ db. require db org_id actor_id org_settings)
  named ← lift (normalize_claim out policy raw)
  refuse_if (not (valid_purpose (purpose_or_ui purpose))) (validation unknown_domain_purpose)
  held ← ask (λ db. ok (count_org_domains db org_id))
  refuse_if (ltb_ℤ (pos 0) policy.max_per_org && leb_ℤ policy.max_per_org (pos held)) quota_exceeded
  write (create_domain (claimed policy call org_id named.0 named.1 (purpose_or_ui purpose)))
  d ← reload_domain call.fresh_id
  audit_domain d.id domain_added actor_id
  audit org_id domain_added actor_id 0
  return d
