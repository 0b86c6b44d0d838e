-- ===== src/Service/Zones.antt =====
-- src/server/service/org.go: authority over single zones.
use redxt.Common.{
  ℕ, ◌==◌, not, Bool, true, false, Text, bytes, ◌=ᵗ◌, [], Result, ok, err, if◌then◌else◌,
}
use redxt.User.Role.{admin, members_manage, records_write, can, outranks_or_equals}
use redxt.Store.Tables.{Db, zone_granted, zone_revoked}
use redxt.Store.Members as Store
use redxt.Store.Members.{membership, zone_org_id}
use redxt.Service.Base.{
  ServiceError, not_found, forbidden, Service, ◌>>=◌, ◌>>◌, refuse_if, ask, or_error, write, audit,
}
use redxt.Service.Access.{OrgAccess, access, require}

unfoldable pub grant_zone : ℕ → ℕ → ℕ → ℕ → Text → Service (Unit {0})
grant_zone org_id actor_id target_id zone_id permission = do
  a ← ask (λ db. require db org_id actor_id members_manage)
  m ← ask (λ db. or_error not_found (membership org_id target_id db.members))
  zone_org ← ask (λ db. or_error not_found (zone_org_id db zone_id))
  refuse_if (not (zone_org == org_id)) forbidden
  write (
      Store.grant_zone org_id target_id zone_id
        (if permission =ᵗ [] then bytes "edit" else permission))
  audit org_id zone_granted actor_id target_id

unfoldable pub revoke_zone : ℕ → ℕ → ℕ → ℕ → Service (Unit {0})
revoke_zone org_id actor_id target_id zone_id = do
  a ← ask (λ db. require db org_id actor_id members_manage)
  write (Store.revoke_zone org_id target_id zone_id)
  audit org_id zone_revoked actor_id target_id

abbrev edit_allowed : Db → ℕ → ℕ → ℕ → Result ServiceError OrgAccess → Result ServiceError Bool
edit_allowed db org_id user_id zone_id (err e) = err e
edit_allowed db org_id user_id zone_id (ok a) =
    if not (can a.role records_write)
    then ok false
    else if outranks_or_equals a.role admin
    then ok true
    else ok (Store.zone_granted db org_id user_id zone_id)

unfoldable pub can_edit_zone : Db → ℕ → ℕ → ℕ → Result ServiceError Bool
can_edit_zone db org_id user_id zone_id =
    edit_allowed db org_id user_id zone_id (access db org_id user_id)
