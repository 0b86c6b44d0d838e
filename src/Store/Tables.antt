-- ===== src/Store/Tables.antt =====
-- The rows of src/server/model/org.go, token.go and domain.go with the columns that the operations read or
-- write (times of creation and details of the audit trail are left out), the tables, and the errors
-- of src/server/store.
use redxt.Common.{
  ℕ, Bool, true, false, not, List, [], Text, ℤ, ltb_ℤ, ◌==◌, ◌=ᵗ◌, ◌||◌, ◌&&◌, is_zero,
  if◌then◌else◌,
}

pub record Org : Type 0 where
  pub id : ℕ
  pub slug : Text
  pub name : Text
  pub description : Text
  pub website : Text
  pub location : Text
  pub avatar_url : Text
  pub visibility : Text
  pub personal : Bool
  pub owner_id : ℕ
  pub status : Text

pub record Member : Type 0 where
  pub org_id : ℕ
  pub user_id : ℕ
  pub role : Text

pub record Invite : Type 0 where
  pub id : ℕ
  pub code_hash : Text
  pub org_id : ℕ
  pub email : Text
  pub role : Text
  pub max_uses : ℤ
  pub use_count : ℤ
  pub invited_by : ℕ
  pub accepted_at : ℤ
  pub expires_at : ℤ

-- The tokens of this store are owned by a user or by an organization.
pub data OwnerType : Type 0 where
  owner_user owner_org owner_admin : OwnerType

pub record Token : Type 0 where
  pub id : ℕ
  pub owner_type : OwnerType
  pub owner_id : ℕ
  pub name : Text
  pub hash : Text
  pub prefix : Text
  pub scope : Text
  pub role : Text
  pub org_id : ℕ
  pub zone_id : ℕ
  pub capability : Text
  pub last_used_at : ℤ
  pub revoked_at : ℤ
  pub expires_at : ℤ

pub record Grant : Type 0 where
  pub org_id : ℕ
  pub user_id : ℕ
  pub zone_id : ℕ
  pub permission : Text

pub record Zone : Type 0 where
  pub id : ℕ
  pub org_id : ℕ

pub record Domain : Type 0 where
  pub id : ℕ
  pub org_id : ℕ
  pub name : Text
  pub purpose : Text
  pub is_apex : Bool
  pub is_wildcard : Bool
  pub verification_status : Text
  pub verification_token : Text
  pub verified_at : ℤ
  pub last_check_at : ℤ
  pub check_count : ℕ
  pub ssl_enabled : Bool
  pub ssl_status : Text
  pub ssl_challenge : Text
  pub ssl_issued_at : ℤ
  pub ssl_expires_at : ℤ
  pub ssl_last_error : Text
  pub status : Text
  pub suspend_reason : Text

-- The columns that signing in reads or writes; the profile is left out.
pub record User : Type 0 where
  pub id : ℕ
  pub username : Text
  pub email : Text
  pub password_hash : Text
  pub status : Text
  pub failed_logins : ℕ
  pub locked_until : ℤ
  pub last_login_at : ℤ

pub record Session : Type 0 where
  pub id : ℕ
  pub user_id : ℕ
  pub hash : Text
  pub ip : Text
  pub user_agent : Text
  pub two_factor_ok : Bool
  pub created_at : ℤ
  pub last_active : ℤ
  pub expires_at : ℤ

-- A row of password_resets.
pub record Challenge : Type 0 where
  pub id : ℕ
  pub user_id : ℕ
  pub token_hash : Text
  pub used_at : ℤ
  pub expires_at : ℤ

-- The seed and the recovery codes are left out.
pub record Totp : Type 0 where
  pub user_id : ℕ
  pub confirmed : Bool

pub data Event : Type 0 where
  org_created org_updated org_transferred member_joined member_role_set member_removed : Event
  member_invited invite_revoked zone_granted zone_revoked token_issued token_revoked : Event
  domain_added domain_verified domain_failed domain_activated domain_suspended : Event
  domain_removed domain_ssl_issued domain_ssl_failure : Event

pub record AuditEntry : Type 0 where
  pub subject_id : ℕ
  pub event : Event
  pub actor_id : ℕ
  pub target_id : ℕ

pub record Db : Type 0 where
  pub orgs : List Org
  pub members : List Member
  pub invites : List Invite
  pub tokens : List Token
  pub grants : List Grant
  pub zones : List Zone
  pub audit : List AuditEntry
  pub domains : List Domain
  pub domain_audit : List AuditEntry
  pub users : List User
  pub sessions : List Session
  pub resets : List Challenge
  pub totps : List Totp

pub data StoreError : Type 0 where
  row_not_found row_conflict : StoreError

-- Invite.Redeemable
unfoldable pub redeemable : Invite → ℤ → Bool
redeemable i now =
    if not (is_zero i.expires_at) && not (ltb_ℤ now i.expires_at)
    then false
    else if is_zero i.max_uses
    then true
    else ltb_ℤ i.use_count i.max_uses

-- Token.Usable
unfoldable pub usable : Token → ℤ → Bool
usable t now =
    if not (is_zero t.revoked_at)
    then false
    else not (not (is_zero t.expires_at) && not (ltb_ℤ now t.expires_at))

-- Token.AllowsCapability
unfoldable pub allows_capability : Token → Text → Bool
allows_capability t name = t.capability =ᵗ [] || t.capability =ᵗ name

-- Token.AllowsZone
unfoldable pub allows_zone : Token → ℕ → Bool
allows_zone t zone_id = t.zone_id == 0 || t.zone_id == zone_id
