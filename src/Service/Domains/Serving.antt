-- ===== src/Service/Domains/Serving.antt =====
-- src/server/service/domain.go: the use of claimed domains, and the renewal of certificates.
use redxt.Common.{
  ℕ, ◌||◌, not, Bool, true, false, List, [], ◌∷◌, Option, none, some, Text, bytes, ◌=ᵗ◌, to_lower,
  trim_space, trim_suffix, Result, ok, err, ℤ, pos, leb_ℤ, ◌+ℤ◌, ◌*◌, pos_part, if◌then◌else◌, suc,
}
use redxt.User.Role.{org_settings, read}
use redxt.Store.Tables.{
  Domain, Db, domain_added, domain_suspended, domain_removed, domain_ssl_failure,
}
use redxt.Store.Domains.{
  servable, valid_purpose, domain_by_name, list_org_domains, list_renewals, update_domain_purpose,
  suspend_domain_row, delete_domain,
}
use redxt.Service.Base.{
  ServiceError, not_found, validation, unknown_domain_purpose, Call, Service, ◌>>=◌, ◌>>◌, return,
  refuse_if, ask, write, audit, audit_domain, attempt,
}
use redxt.Service.Access.{require}
use redxt.Service.Domains.Environment.{Outside, DomainPolicy, CertManager}
use redxt.Service.Domains.Claims.{domain_for_org}
use redxt.Service.Domains.Verify.{issue_certificate}
use redxt.Service.Domains.Hosts.{split_host_port}

unfoldable pub list_domains : ℕ → ℕ → Service (List Domain)
list_domains org_id actor_id = do
  a ← ask (λ db. require db org_id actor_id read)
  ask (λ db. ok (list_org_domains db org_id))

unfoldable pub set_domain_purpose : ℕ → ℕ → ℕ → Text → Service (Unit {0})
set_domain_purpose org_id actor_id domain_id purpose = do
  refuse_if (not (valid_purpose purpose)) (validation unknown_domain_purpose)
  d ← domain_for_org org_id actor_id domain_id org_settings
  write (update_domain_purpose d.id purpose)
  audit_domain d.id domain_added actor_id

unfoldable pub remove_domain : ℕ → ℕ → ℕ → Service (Unit {0})
remove_domain org_id actor_id domain_id = do
  d ← domain_for_org org_id actor_id domain_id org_settings
  write (delete_domain d.id)
  audit org_id domain_removed actor_id 0

unfoldable pub suspend_domain : ℕ → ℕ → ℕ → Text → Service (Unit {0})
suspend_domain org_id actor_id domain_id reason = do
  d ← domain_for_org org_id actor_id domain_id org_settings
  write (suspend_domain_row d.id reason)
  audit_domain d.id domain_suspended actor_id

abbrev without_port : Text → Option Text → Text
without_port name none = name
without_port name (some host) = host

abbrev pub serving : Option Domain → Result ServiceError Domain
serving none = err not_found
serving (some d) = if servable d then ok d else err not_found

-- The name in a Host header.
unfoldable pub host_name : Text → Text
host_name host =
    let lowered = to_lower (trim_space host) in
    trim_suffix (without_port lowered (split_host_port lowered)) (bytes ".")

unfoldable pub resolve_servable_domain : Db → Text → Result ServiceError Domain
resolve_servable_domain db host =
    if host_name host =ᵗ [] then err not_found else serving (domain_by_name db (host_name host))

-- What follows one renewal: a failure is recorded, a success counted.
abbrev pub count_renewal : ℕ → ℕ → Result ServiceError (Unit {0}) → Service ℕ
count_renewal domain_id n (ok _) = return (suc n)
count_renewal domain_id n (err _) = do audit_domain domain_id domain_ssl_failure 0; return n

-- The loop over the domains that are due.
unfoldable pub renew_all : Option CertManager → List Domain → ℕ → Service ℕ
renew_all certs [] n = return n
renew_all certs (d ∷ ds) n = do
  outcome ← attempt (issue_certificate certs d)
  renewed ← count_renewal d.id n outcome
  renew_all certs ds renewed

abbrev day : ℕ
day = 24 * 3600 * 1000000000

abbrev renewal_window : ℤ → ℕ
renewal_window days = if leb_ℤ days (pos 0) then 30 else pos_part days

abbrev is_none : Option CertManager → Bool
is_none none = true
is_none (some _) = false

abbrev pub renew_due : Option CertManager → DomainPolicy → Call → Service ℕ
renew_due certs policy call = do
  due ←
      ask (λ db. ok (list_renewals db (call.now +ℤ pos (renewal_window policy.renewal_days * day))))
  renew_all certs due 0

unfoldable pub renew_certificates : Outside → DomainPolicy → Call → Service ℕ
renew_certificates out policy call =
    if not policy.enabled || is_none out.certs then return 0 else renew_due out.certs policy call
