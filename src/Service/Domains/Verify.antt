-- ===== src/Service/Domains/Verify.antt =====
-- src/server/service/domain.go: proof of ownership, and certificates.
use redxt.Common.{
  ℕ, not, List, [], ◌++◌, any, Option, none, some, Text, bytes, ◌=ᵗ◌, trim_space, trim_prefix,
  Result, ok, err, if◌then◌else◌,
}
use redxt.User.Role.{org_settings}
use redxt.User.Domain.{wildcard_prefix}
use redxt.Store.Tables.{
  Domain, domain_verified, domain_failed, domain_activated, domain_ssl_issued, domain_ssl_failure,
}
use redxt.Store.Domains.{
  verified, record_verification_attempt, activate_domain, set_domain_ssl, verification_verified,
  verification_failed,
}
use redxt.Service.Base.{
  ServiceError, forbidden, verification, internal, txt_record_missing, dns_lookup_failed, Call,
  Service, ◌>>=◌, ◌>>◌, return, refuse_if, lift, write, audit, audit_domain, attempt,
}
use redxt.Service.Domains.Environment.{
  Outside, DnsError, no_such_host, lookup_failed, Certificate, CertManager,
}
use redxt.Service.Domains.Claims.{domain_for_org, reload_domain}

abbrev verification_prefix : Text
verification_prefix = bytes "_verify."

-- The name that the ownership record stands under.
abbrev pub verification_name : Domain → Text
verification_name d = verification_prefix ++ trim_prefix d.name wildcard_prefix

-- The name and the value of the TXT record to publish.
unfoldable pub verification_instructions : ℕ → ℕ → ℕ → Service (Text × Text)
verification_instructions org_id actor_id domain_id = do
  d ← domain_for_org org_id actor_id domain_id org_settings
  return (verification_name d, d.verification_token)

abbrev pub owned : Text → Text → Result DnsError (List Text) → Option ServiceError
owned name token (err no_such_host) = some (verification txt_record_missing name)
owned name token (err lookup_failed) = some (verification dns_lookup_failed name)
owned name token (ok values) =
    if any (λ v. trim_space v =ᵗ token) values
    then none
    else some (verification txt_record_missing name)

-- `none` is success.
unfoldable pub check_ownership : Outside → Domain → Option ServiceError
check_ownership out d =
    owned (verification_name d) d.verification_token (out.lookup_txt (verification_name d))

-- The columns that an attempt at a certificate writes.
abbrev pub ssl_outcome : Domain → Text → Result Text Certificate → Domain
ssl_outcome d challenge (err detail) = record d {
  ssl_challenge = challenge;
  ssl_status = bytes "failed";
  ssl_last_error = detail;
}
ssl_outcome d challenge (ok cert) = record d {
  ssl_challenge = challenge;
  ssl_status = bytes "issued";
  ssl_last_error = [];
  ssl_issued_at = cert.not_before;
  ssl_expires_at = cert.not_after;
}

abbrev pub issued : Result Text Certificate → Domain → Service (Unit {0})
issued (err detail) updated = do write (set_domain_ssl updated); lift (err internal)
issued (ok cert) updated = do
  write (set_domain_ssl updated)
  audit_domain updated.id domain_ssl_issued 0

unfoldable pub issue_certificate : Option CertManager → Domain → Service (Unit {0})
issue_certificate none d = lift (err internal)
issue_certificate (some certs) d =
    let cert = certs.issue_for (trim_prefix d.name wildcard_prefix) in
    do refuse_if (not (verified d)) forbidden; issued cert (ssl_outcome d certs.challenge cert)

-- What follows an attempt at a certificate: its failure is recorded.
abbrev pub note_failure : ℕ → ℕ → Result ServiceError (Unit {0}) → Service (Unit {0})
note_failure domain_id actor_id (ok _) = return tt
note_failure domain_id actor_id (err _) = audit_domain domain_id domain_ssl_failure actor_id

unfoldable pub issue_noting : Option CertManager → ℕ → Domain → Service (Unit {0})
issue_noting certs actor_id d = do
  outcome ← attempt (issue_certificate certs d)
  note_failure d.id actor_id outcome

unfoldable pub with_certificate : Option CertManager → ℕ → Domain → Service Domain
with_certificate certs actor_id d =
    if d.ssl_enabled then issue_noting certs actor_id d >> reload_domain d.id else return d

unfoldable pub verification_outcome :
    Outside → Call → ℕ → ℕ → Domain → Option ServiceError → Service Domain
verification_outcome out call org_id actor_id d (some failure) = do
  write (record_verification_attempt d.id verification_failed call.now)
  audit_domain d.id domain_failed actor_id
  lift (err failure)
verification_outcome out call org_id actor_id d none = do
  write (record_verification_attempt d.id verification_verified call.now)
  write (activate_domain d.id)
  audit_domain d.id domain_verified actor_id
  audit org_id domain_activated actor_id 0
  now_verified ← reload_domain d.id
  with_certificate out.certs actor_id now_verified

unfoldable pub verify_domain : Outside → Call → ℕ → ℕ → ℕ → Service Domain
verify_domain out call org_id actor_id domain_id = do
  d ← domain_for_org org_id actor_id domain_id org_settings
  if verified d
      then return d
      else verification_outcome out call org_id actor_id d (check_ownership out d)
