-- ===== src/Service/Base.antt =====
-- src/server/service/service.go: errors, configuration and the shape of an operation. An operation
-- takes the database and returns its result with the database that it leaves behind; what was
-- written before an error stays written, as each store call is a transaction of its own.
pub mod Laws
pub mod Keeps
pub mod Errors
use redxt.Common.{
  ℕ, ℤ, Bool, true, false, Option, none, some, List, [], ◌∷◌, ◌++◌, Text, Result, ok, err,
  if◌then◌else◌,
}
use redxt.User.Name.{NameError}
use redxt.User.Email.{EmailError}
use redxt.Store.Tables.{Db, StoreError, row_not_found, row_conflict, Event, AuditEntry}

-- The caller-facing messages of validation failures.
pub data Message : Type 0 where
  name_message : NameError → Message
  email_message : EmailError → Message
  unknown_organization_role visibility_public_or_private new_owner_same : Message
  token_name_required token_org_required unknown_token_scope unknown_token_capability : Message
  unknown_domain_purpose wildcard_not_accepted apex_not_accepted subdomain_not_accepted : Message
  domain_reserved domain_not_accepted domain_format : Message
  password_length password_composition : Message

-- src/server/service/domain.go: why a domain failed to verify.
pub data VerificationCode : Type 0 where
  txt_record_missing dns_lookup_failed : VerificationCode

-- A VerificationError also counts as a validation error; `internal` is any error outside the classes.
pub data ServiceError : Type 0 where
  invalid_credentials account_locked not_found forbidden conflict disabled quota_exceeded :
      ServiceError
  validation : Message → ServiceError
  verification : VerificationCode → Text → ServiceError
  internal : ServiceError

-- The settings that the operations read: server.users.*, server.orgs.*.
pub record Config : Type 0 where
  pub tokens_enabled : Bool
  pub tokens_max_per_user : ℤ
  pub tokens_expiration_days : ℤ
  pub invite_expiration_days : ℤ
  pub orgs_enabled : Bool
  pub creation_mode : Text
  pub max_per_user : ℤ
  pub default_visibility : Text
  pub default_role : Text
  pub allow_invites : Bool

-- What the clock, the database and the random source supply to one call: the time, the id of the row
-- that it may insert, and the secret that it may draw.
pub record Call : Type 0 where
  pub now : ℤ
  pub fresh_id : ℕ
  pub random : Text

abbrev pub Service : Type 0 → Type 0
Service A = Db → Result ServiceError A × Db

unfoldable pub return : {A : Type 0} → A → Service A
return a db = (ok a, db)

-- `if condition { return e }`
unfoldable pub refuse_if : Bool → ServiceError → Service (Unit {0})
refuse_if true e db = (err e, db)
refuse_if false e db = (ok tt, db)

unfoldable pub lift : {A : Type 0} → Result ServiceError A → Service A
lift r db = (r, db)

-- A read, whose result may fail.
unfoldable pub ask : {A : Type 0} → (Db → Result ServiceError A) → Service A
ask f db = (f db, db)

abbrev pub or_error : {A : Type 0} → ServiceError → Option A → Result ServiceError A
or_error e none = err e
or_error e (some a) = ok a

-- mapStoreErr
unfoldable pub map_store_error : StoreError → ServiceError
map_store_error row_not_found = not_found
map_store_error row_conflict = conflict

abbrev pub stored : Db → Result StoreError Db → Result ServiceError (Unit {0}) × Db
stored db (ok db') = (ok tt, db')
stored db (err e) = (err (map_store_error e), db)

-- A store call that writes; a failed one changes nothing.
unfoldable pub write : (Db → Result StoreError Db) → Service (Unit {0})
write op db = stored db (op db)

abbrev pub stored_raw : Db → Result StoreError Db → Result ServiceError (Unit {0}) × Db
stored_raw db (ok db') = (ok tt, db')
stored_raw db (err e) = (err internal, db)

-- The same where the store's error is returned as it is, outside the classes of this package.
unfoldable pub write_raw : (Db → Result StoreError Db) → Service (Unit {0})
write_raw op db = stored_raw db (op db)

-- Service.audit
unfoldable pub audit : ℕ → Event → ℕ → ℕ → Service (Unit {0})
audit org_id event actor_id target_id db = (
  ok tt,
  record db {
    audit =
        db.audit
        ++ record { subject_id = org_id; event = event; actor_id = actor_id; target_id = target_id }
          ∷ [];
  },
)

-- Service.domainAudit
unfoldable pub audit_domain : ℕ → Event → ℕ → Service (Unit {0})
audit_domain domain_id event actor_id db = (
  ok tt,
  record db {
    domain_audit =
        db.domain_audit
        ++ record { subject_id = domain_id; event = event; actor_id = actor_id; target_id = 0 }
          ∷ [];
  },
)

-- A call whose error the caller looks at instead of passing it on.
unfoldable pub attempt : {A : Type 0} → Service A → Service (Result ServiceError A)
attempt m db = (ok (m db).0, (m db).1)

abbrev pub continue :
    {A B : Type 0} → Result ServiceError A → Db → (A → Service B) → Result ServiceError B × Db
continue (ok a) db f = f a db
continue (err e) db f = (err e, db)

-- Opening this opens the steps above too.
infixl 5 ◌>>=◌ ◌>>◌
unfoldable pub ◌>>=◌ : {A B : Type 0} → Service A → (A → Service B) → Service B
unfolding return refuse_if lift ask write audit audit_domain attempt
◌>>=◌ m f db = continue (m db).0 (m db).1 f

abbrev pub ◌>>◌ : {B : Type 0} → Service (Unit {0}) → Service B → Service B
m >> k = m >>= λ _. k
