-- ===== src/Store/Domains.antt =====
-- src/server/store/domain.go and src/server/model/domain.go: custom domains.

pub mod Laws
use redxt.Common.{
  ℕ, suc, ◌==◌, ◌&&◌, ◌||◌, not, Bool, true, false, List, [], ◌∷◌, ◌++◌, Option, keep, any, find,
  update_where, count_where, Text, bytes, ◌=ᵗ◌, to_lower, trim_space, trim_suffix, Result, ok, err,
  ℤ, pos, ltb_ℤ, is_zero, if◌then◌else◌,
}
use redxt.Store.Tables.{Domain, Db, StoreError, row_not_found, row_conflict}

abbrev pub verification_pending : Text
verification_pending = bytes "pending"

abbrev pub verification_verified : Text
verification_verified = bytes "verified"

abbrev pub verification_failed : Text
verification_failed = bytes "failed"

abbrev pub domain_pending : Text
domain_pending = bytes "pending"

abbrev pub domain_active : Text
domain_active = bytes "active"

abbrev pub domain_suspended : Text
domain_suspended = bytes "suspended"

-- Domain.Verified
unfoldable pub verified : Domain → Bool
verified d = d.verification_status =ᵗ verification_verified

abbrev pub active : Domain → Bool
active d = d.status =ᵗ domain_active

-- Domain.Servable
unfoldable pub servable : Domain → Bool
servable d = verified d && active d

abbrev domain_purposes : List Text
domain_purposes =
    bytes "ui" ∷ bytes "ddns" ∷ bytes "redirect" ∷ bytes "parking" ∷ bytes "gateway" ∷ []

unfoldable pub valid_purpose : Text → Bool
valid_purpose name = any (λ p. p =ᵗ name) domain_purposes

unfoldable pub normalize_domain : Text → Text
normalize_domain name = trim_suffix (to_lower (trim_space name)) (bytes ".")

abbrev pub has_id : ℕ → Domain → Bool
has_id id d = d.id == id

unfoldable pub domain_by_id : Db → ℕ → Option Domain
domain_by_id db id = find (has_id id) db.domains

unfoldable pub domain_by_name : Db → Text → Option Domain
domain_by_name db name =
    let wanted = normalize_domain name in find (λ d. d.name =ᵗ wanted) db.domains

unfoldable pub list_org_domains : Db → ℕ → List Domain
list_org_domains db org_id = keep (λ d. d.org_id == org_id) db.domains

unfoldable pub count_org_domains : Db → ℕ → ℕ
count_org_domains db org_id = count_where (λ d. d.org_id == org_id) db.domains

-- Without the order, which ssl_expires_at gives.
unfoldable pub list_renewals : Db → ℤ → List Domain
list_renewals db cutoff =
    keep
      (λ d.
        d.ssl_enabled
        && active d
        && not (is_zero d.ssl_expires_at)
        && not (ltb_ℤ cutoff d.ssl_expires_at))
      db.domains

-- The row that is inserted: pending and unverified, whatever the caller's has there.
abbrev pub pending_row : Domain → Domain
pending_row d = record d {
  name = normalize_domain d.name;
  verification_status = verification_pending;
  verified_at = pos 0;
  last_check_at = pos 0;
  check_count = 0;
  ssl_status = bytes "none";
  ssl_challenge = [];
  ssl_issued_at = pos 0;
  ssl_expires_at = pos 0;
  ssl_last_error = [];
  status = domain_pending;
  suspend_reason = [];
}

-- A name or a primary key that is taken is a uniqueness violation.
unfoldable pub create_domain : Domain → Db → Result StoreError Db
create_domain d db =
    if any (λ e. e.name =ᵗ normalize_domain d.name || e.id == d.id) db.domains
    then err row_conflict
    else ok (record db { domains = db.domains ++ pending_row d ∷ [] })

-- `UPDATE custom_domains SET … WHERE …`, with the error for no affected row.
abbrev pub update_domains : (Domain → Bool) → (Domain → Domain) → Db → Result StoreError Db
update_domains p f db =
    if any p db.domains
    then ok (record db { domains = update_where p f db.domains })
    else err row_not_found

unfoldable pub update_domain_purpose : ℕ → Text → Db → Result StoreError Db
update_domain_purpose id purpose = update_domains (has_id id) (λ d. record d { purpose = purpose })

abbrev pub attempted : Text → ℤ → Domain → Domain
attempted status now d = record d {
  verification_status = status;
  verified_at = if status =ᵗ verification_verified then now else pos 0;
  last_check_at = now;
  check_count = suc d.check_count;
}

unfoldable pub record_verification_attempt : ℕ → Text → ℤ → Db → Result StoreError Db
record_verification_attempt id status now = update_domains (has_id id) (attempted status now)

-- The verification is a condition of the statement.
unfoldable pub activate_domain : ℕ → Db → Result StoreError Db
activate_domain id =
    update_domains (λ d. has_id id d && verified d)
      (λ d. record d { status = domain_active; suspend_reason = [] })

unfoldable pub suspend_domain_row : ℕ → Text → Db → Result StoreError Db
suspend_domain_row id reason =
    update_domains (has_id id)
      (λ d. record d { status = domain_suspended; suspend_reason = reason })

abbrev pub with_ssl : Domain → Domain → Domain
with_ssl new d = record d {
  ssl_enabled = new.ssl_enabled;
  ssl_status = new.ssl_status;
  ssl_challenge = new.ssl_challenge;
  ssl_issued_at = new.ssl_issued_at;
  ssl_expires_at = new.ssl_expires_at;
  ssl_last_error = new.ssl_last_error;
}

unfoldable pub set_domain_ssl : Domain → Db → Result StoreError Db
set_domain_ssl d = update_domains (has_id d.id) (with_ssl d)

-- Its audit rows go with it, by ON DELETE CASCADE.
unfoldable pub delete_domain : ℕ → Db → Result StoreError Db
delete_domain id db =
    if any (has_id id) db.domains
    then ok (record db {
      domains = keep (λ d. not (has_id id d)) db.domains;
      domain_audit = keep (λ a. not (a.subject_id == id)) db.domain_audit;
    })
    else err row_not_found
