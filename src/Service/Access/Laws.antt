-- ===== src/Service/Access/Laws.antt =====
-- A caller's standing is the stored membership and nothing else.
use redxt.Common.{
  ℕ, ◌≡◌, refl, inl, inr, true, Option, none, some, Result, ok, err, Bool-cases, arith,
}
use redxt.User.Role.{Role, owner, Permission, can, parse_role}
use redxt.Store.Tables.{Org, Db}
use redxt.Store.Orgs.{org_by_id}
use redxt.Store.Members.{membership}
use redxt.Service.Base.{ServiceError, not_found, Config}
use redxt.Service.Access.{
  OrgAccess, member_role, grant_access, access, permitted, require, default_member_role,
  role_or_viewer,
}

-- The role that a user has in an organization, if any.
abbrev pub role_of : Db → ℕ → ℕ → Option Role
role_of db org_id user_id = member_role (membership org_id user_id db.members)

grant_access_ok :
    (o : Option Org) (r : Option Role) (a : OrgAccess)
    → grant_access o r ≡ ok a
    → (o ≡ some a.org) × (r ≡ some a.role)
grant_access_ok none r a h = cc
grant_access_ok (some o) none a h = cc
grant_access_ok (some o) (some r) a h = (cc, cc)

pub access_ok :
    (db : Db) (org_id user_id : ℕ) (a : OrgAccess)
    → access db org_id user_id ≡ ok a
    → (org_by_id db org_id ≡ some a.org) × (role_of db org_id user_id ≡ some a.role)
unfolding access
access_ok db org_id user_id a h = grant_access_ok (org_by_id db org_id) _ a h

permitted_ok :
    (p : Permission) (r : Result ServiceError OrgAccess) (a : OrgAccess)
    → permitted p r ≡ ok a
    → (r ≡ ok a) × (can a.role p ≡ true)
permitted_ok p (err e) a h = cc
permitted_ok p (ok b) a h = elim (Bool-cases (can b.role p)) [
  | inl c ↦ ground arith
  | inr c ↦ ground arith
]

pub require_ok :
    (db : Db) (org_id user_id : ℕ) (p : Permission) (a : OrgAccess)
    → require db org_id user_id p ≡ ok a
    → (org_by_id db org_id ≡ some a.org)
      × (role_of db org_id user_id ≡ some a.role)
      × (can a.role p ≡ true)
unfolding require
require_ok db org_id user_id p a h =
    let (e, c) = permitted_ok p (access db org_id user_id) a h in
    let (o, r) = access_ok db org_id user_id a e in (o, r, c)

pub access-none :
    (db : Db) (org_id user_id : ℕ)
    → role_of db org_id user_id ≡ none
    → access db org_id user_id ≡ err not_found
unfolding access
access-none db org_id user_id h = rw h (no_role (org_by_id db org_id))
  where
    no_role : (o : Option Org) → grant_access o none ≡ err not_found
    no_role none = refl
    no_role (some o) = refl

pub require-none :
    (db : Db) (org_id user_id : ℕ) (p : Permission)
    → role_of db org_id user_id ≡ none
    → require db org_id user_id p ≡ err not_found
unfolding require
require-none db org_id user_id p h = rw (access-none db org_id user_id h)

pub default_member_role-ne-owner : (cfg : Config) → default_member_role cfg ≡ owner → ⊥
unfolding default_member_role
default_member_role-ne-owner cfg h = not_owner (parse_role cfg.default_role) h
  where
    not_owner : (o : Option Role) → role_or_viewer o ≡ owner → ⊥
    not_owner none h = cc
    not_owner (some Role.owner) h = cc
    not_owner (some _) h = cc
