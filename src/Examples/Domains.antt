-- ===== src/Examples/Domains.antt =====
-- The custom domain of the example is verified, served, and hidden from another organization.
use redxt.Common.{
  ℕ, pos, ◌≡◌, ◌≤◌, refl, List, [], ◌∷◌, ◌++◌, some, none, ok, err, true, false, Text, bytes, any,
  ◌=ᵗ◌, text_eq_iff, trim_space, trim_left, to_lower, trim_prefix, trim_suffix, has_prefix, arith,
  inl, if◌then◌else◌, Result, sym, ap, Bool,
}
use redxt.User.Role.{parse_role, to_role, can}
use redxt.User.Name.{normalize_name}
use redxt.User.Email.{split_last}
use redxt.Store.Orgs.{org_by_id}
use redxt.Store.Members.{membership}
use redxt.Store.Domains.{
  verified, servable, domain_by_id, domain_by_name, normalize_domain, count_org_domains,
  record_verification_attempt, activate_domain,
}
use redxt.Service.Base.{◌>>=◌}
use redxt.Service.Access.{access, require, member_role}
use redxt.Service.Domains.Environment.{Outside, DomainPolicy, DnsError, no_such_host}
use redxt.Service.Domains.Hosts.{split_host_port}
use redxt.Service.Domains.Claims.{domain_for_org, reload_domain}
use redxt.Service.Domains.Verify.{
  check_ownership, verify_domain, verification_outcome, with_certificate, issue_noting,
  issue_certificate,
}
use redxt.Service.Domains.Serving.{resolve_servable_domain, host_name}
use redxt.Service.Domains.Commands.{DomainCommand, verify, remove, perform_domain, run_domains}
use redxt.Service.Domains.Proofs.{Proven, resolved_is_proven}
use redxt.Service.Domains.Quota.{domains_within_quota}
use redxt.Service.Domains.Isolation.{AsAbsent, foreign_domain_hidden}
use redxt.Examples.Data.{db, at, acme_domain}

abbrev policy : DomainPolicy
policy = record {
  enabled = true;
  max_per_org = pos 2;
  require_ssl = true;
  allow_apex = true;
  allow_subdomain = true;
  allow_wildcard = false;
  reserved = [];
  blocked_patterns = [];
  renewal_days = pos 30;
}

-- Only the record of www.acme.com is published.
abbrev lookup : Text → Result DnsError (List Text)
lookup name =
    if name =ᵗ bytes "_verify.www.acme.com" then ok (bytes "proof" ∷ []) else err no_such_host

abbrev internet : Outside
internet = record { lookup_txt = lookup; certs = none; match_pattern = λ _ _. none }

abbrev commands : List DomainCommand
commands =
    record { actor = 1; org_id = 1; call = at 10; outside = internet; action = verify 6 } ∷ []

abbrev IsProof : Text → Text → Type 0
IsProof name value = value ≡ bytes "proof"

only :
    (b : Bool) (values : List Text)
    → (if b then ok (bytes "proof" ∷ []) else err no_such_host) ≡ ok values
    → values ≡ bytes "proof" ∷ []
only true values h = cc
only false values h = cc

published :
    (name value : Text) (values : List Text)
    → lookup (bytes "_verify." ++ name) ≡ ok values
    → any (λ v. trim_space v =ᵗ value) values ≡ true
    → IsProof name value
unfolding trim_space trim_left
published name value values found held =
    sym ((text_eq_iff (bytes "proof") value).0 (is_proof (only _ values found) held))
  where
    is_proof :
        values ≡ bytes "proof" ∷ []
        → any (λ v. trim_space v =ᵗ value) values ≡ true
        → (bytes "proof" =ᵗ value) ≡ true
    is_proof e h = ground (arith, ap (any (λ v. trim_space v =ᵗ value)) e)

resolved :
    resolve_servable_domain (run_domains policy commands db) (bytes "www.acme.com:443")
    ≡ ok (record acme_domain {
      verification_status = bytes "verified";
      verified_at = pos 10;
      last_check_at = pos 10;
      check_count = 1;
      status = bytes "active";
    })
unfolding resolve_servable_domain host_name domain_by_name normalize_domain servable verified
    run_domains perform_domain verify_domain domain_for_org reload_domain ◌>>=◌ require access
    org_by_id member_role membership parse_role to_role normalize_name ◌=ᵗ◌ trim_space trim_left
    to_lower trim_prefix trim_suffix has_prefix can domain_by_id verification_outcome
    check_ownership record_verification_attempt activate_domain with_certificate issue_noting
    issue_certificate split_host_port split_last
resolved = refl

proven : Proven IsProof db
unfolding verified ◌=ᵗ◌
proven = record { ids = refl; rows = ((inl refl, inl refl), tt) }

resolved_is_proven_example : IsProof (bytes "www.acme.com") (bytes "proof")
unfolding trim_prefix has_prefix
resolved_is_proven_example =
    resolved_is_proven IsProof policy commands db (bytes "www.acme.com:443") _ (published, tt)
      proven resolved

counted : (o : ℕ) → count_org_domains db o ≤ 2
unfolding count_org_domains
counted o = ground arith

domains_within_quota_example : count_org_domains (run_domains policy commands db) 1 ≤ 2
domains_within_quota_example =
    domains_within_quota 2 policy (omega arith) refl commands db 1 counted

stored : domain_by_id db 6 ≡ some acme_domain
unfolding domain_by_id
stored = refl

foreign_domain_hidden_example :
    AsAbsent (perform_domain policy internet (at 10) 2 7 (remove 6)) 6 db
foreign_domain_hidden_example =
    foreign_domain_hidden policy internet (at 10) 2 7 6 (remove 6) db acme_domain refl stored
      (λ e. cc)
