-- ===== src/Service/Members.antt =====
-- src/server/service/org.go: changing and removing members.
pub mod Laws
pub mod Removal
use redxt.Common.{
  ℕ, ◌==◌, not, Bool, ◌||◌, Option, none, some, Text, Result, ok, err, if◌then◌else◌,
}
use redxt.User.Role.{
  Role, members_manage, parse_role, role_text, can, can_manage_member, can_grant_role,
}
use redxt.Store.Tables.{Org, Member, Db, member_role_set, member_removed}
use redxt.Store.Members as Store
use redxt.Store.Members.{membership}
use redxt.Service.Base.{
  ServiceError, not_found, forbidden, validation, Message, unknown_organization_role, Call, Service,
  ◌>>=◌, ◌>>◌, return, refuse_if, lift, ask, or_error, write, audit,
}
use redxt.Service.Access.{OrgAccess, member_role, access, require}

unfoldable pub set_member_role : ℕ → ℕ → ℕ → Text → Service (Unit {0})
set_member_role org_id actor_id target_id role = do
  a ← ask (λ db. require db org_id actor_id members_manage)
  refuse_if a.org.personal forbidden
  next ← lift (or_error (validation unknown_organization_role) (parse_role role))
  existing ← ask (λ db. or_error not_found (member_role (membership org_id target_id db.members)))
  refuse_if (not (can_manage_member a.role existing) || not (can_grant_role a.role next)) forbidden
  write (Store.set_member_role org_id target_id (role_text next))
  audit org_id member_role_set actor_id target_id

-- The rank test on the member to be removed: a missing row is not found, a role that does not parse
-- is refused.
abbrev removable : Role → Option Member → Result ServiceError (Unit {0})
removable r none = err not_found
removable r (some m) = elim (parse_role m.role) [
  | none ↦ err forbidden
  | some existing ↦ if can_manage_member r existing then ok tt else err forbidden
]

-- A member may always remove themselves.
unfoldable pub may_remove : OrgAccess → ℕ → ℕ → Option Member → Result ServiceError (Unit {0})
may_remove a actor_id target_id m =
    if target_id == actor_id
    then ok tt
    else if not (can a.role members_manage)
    then err forbidden
    else removable a.role m

unfoldable pub remove_member : Call → ℕ → ℕ → ℕ → Service (Unit {0})
remove_member call org_id actor_id target_id = do
  a ← ask (λ db. access db org_id actor_id)
  refuse_if a.org.personal forbidden
  refuse_if (a.org.owner_id == target_id) forbidden
  ask (λ db. may_remove a actor_id target_id (membership org_id target_id db.members))
  write (Store.remove_member org_id target_id call.now)
  audit org_id member_removed actor_id target_id
