-- ===== src/Service/Members/Laws.antt =====
-- Who may change whose role, and what a change leaves alone.
use mathlib.Core.Option
use redxt.Common.{
  ℕ, ◌==◌, ◌&&◌, ◌||◌, ◌<◌, not, List, ◌≡◌, ◌≢◌, sym, ap, ◌∙◌, ◌⊎◌, inl, inr, false, Option, none,
  some, Text, ok, arith, Option-cases, if◌then◌else◌,
}
use redxt.User.Role.{
  Role, owner, unknown, members_manage, parse_role, role_text, rank, can_manage_member,
  can_grant_role,
}
use redxt.User.Role.Laws.{
  grant_needs_rank, manage_needs_rank, parse_role-role_text, parse_role-ne-unknown,
}
use redxt.Store.Tables.{Member, Db}
use redxt.Store.Orgs.{write_role}
use redxt.Store.Members as Store
use redxt.Store.Members.{membership}
use redxt.Store.Members.Laws.{membership-write_role}
use redxt.Service.Base.{ServiceError, or_error}
use redxt.Service.Base.Laws.{got, passed, SameRows, ask_ok, lift_ok, refuse_ok, write_ok, audit_ok}
use redxt.Service.Access.{OrgAccess, require, member_role}
use redxt.Service.Access.Laws.{role_of, require_ok}
use redxt.Service.Members.{set_member_role}

or_error_ok :
    {A : Type 0} (e : ServiceError) (o : Option A) (a : A) → or_error e o ≡ ok a → o ≡ some a
or_error_ok e none a h = cc
or_error_ok e (some b) a h = cc

-- The role that a lookup finds after a role was written.
pub role-write_role :
    (o u o' u' : ℕ) (n : Role) (ms : List Member)
    → n ≢ unknown
    → member_role (membership o u (write_role o' u' (role_text n) ms)) ≡ (
        if o' == o && u' == u
        then Option.map (λ _. n) (membership o u ms)
        else member_role (membership o u ms))
unfolding member_role
role-write_role o u o' u' n ms h =
    rw membership-write_role (ground (arith, parse_role-role_text n h))

-- What an accepted role change did.
pub record RoleChange (db db' : Db) (org_id actor_id target_id : ℕ) (role : Text) : Type 0 where
  pub actor_role : Role
  pub old_role : Role
  pub new_role : Role
  pub actor_is : role_of db org_id actor_id ≡ some actor_role
  pub target_was : role_of db org_id target_id ≡ some old_role
  pub asked : parse_role role ≡ some new_role
  pub may_manage : (actor_role ≡ owner) ⊎ (rank old_role < rank actor_role)
  pub may_grant : (actor_role ≡ owner) ⊎ (rank new_role < rank actor_role)
  pub target_is : role_of db' org_id target_id ≡ some new_role
  pub others : (o u : ℕ) → (o ≡ org_id → u ≡ target_id → ⊥) → role_of db' o u ≡ role_of db o u

members-set_member_role :
    (org_id user_id : ℕ) (r : Text) (db db1 : Db)
    → Store.set_member_role org_id user_id r db ≡ ok db1
    → db1.members ≡ write_role org_id user_id r db.members
unfolding Store.set_member_role
members-set_member_role org_id user_id r db db1 h = ground arith

-- The roles after the members' table became one with `next` written for the target.
pub role_of-written :
    (org_id target_id : ℕ) (next : Role) (ms : List Member) (db' : Db) (o u : ℕ)
    → next ≢ unknown
    → db'.members ≡ write_role org_id target_id (role_text next) ms
    → role_of db' o u ≡ (
        if org_id == o && target_id == u
        then Option.map (λ _. next) (membership o u ms)
        else member_role (membership o u ms))
role_of-written org_id target_id next ms db' o u k e =
    rw e (role-write_role o u org_id target_id next ms k)

pub membership_of_role :
    (o u : ℕ) (ms : List Member) (r : Role)
    → member_role (membership o u ms) ≡ some r
    → (m : Member) × (membership o u ms ≡ some m)
unfolding member_role
membership_of_role o u ms r h = elim (Option-cases (membership o u ms)) [
  | inl e ↦ absurd (cc (sym h ∙ ap member_role e))
  | inr found ↦ found
]

written_self :
    (org_id target_id : ℕ) (next : Role) (ms : List Member) (db' : Db) (old : Role)
    → next ≢ unknown
    → db'.members ≡ write_role org_id target_id (role_text next) ms
    → member_role (membership org_id target_id ms) ≡ some old
    → role_of db' org_id target_id ≡ some next
written_self org_id target_id next ms db' old k e was =
    let (m, found) = membership_of_role org_id target_id ms old was in
    ground (arith, role_of-written org_id target_id next ms db' org_id target_id k e)

written_other :
    (org_id target_id : ℕ) (next : Role) (ms : List Member) (db' : Db) (o u : ℕ)
    → next ≢ unknown
    → db'.members ≡ write_role org_id target_id (role_text next) ms
    → (o ≡ org_id → u ≡ target_id → ⊥)
    → role_of db' o u ≡ member_role (membership o u ms)
written_other org_id target_id next ms db' o u k e other =
    ground (arith, role_of-written org_id target_id next ms db' o u k e)

role_change :
    (org_id actor_id target_id : ℕ) (role : Text) (db db1 db' : Db) (a : OrgAccess)
    (next old : Role)
    → require db org_id actor_id members_manage ≡ ok a
    → parse_role role ≡ some next
    → role_of db org_id target_id ≡ some old
    → (not (can_manage_member a.role old) || not (can_grant_role a.role next)) ≡ false
    → Store.set_member_role org_id target_id (role_text next) db ≡ ok db1
    → SameRows db1 db'
    → RoleChange db db' org_id actor_id target_id role
role_change org_id actor_id target_id role db db1 db' a next old req asked was ranks wrote same =
    let known = parse_role-ne-unknown role next asked in
    let after =
      same.members ∙ members-set_member_role org_id target_id (role_text next) db db1 wrote in
    record {
      actor_role = a.role;
      old_role = old;
      new_role = next;
      actor_is = (require_ok db org_id actor_id members_manage a req).1;
      target_was = was;
      asked = asked;
      may_manage = manage_needs_rank a.role old (ground arith);
      may_grant = grant_needs_rank a.role next (ground arith);
      target_is = written_self org_id target_id next db.members db' old known after was;
      others =
          λ o u other. written_other org_id target_id next db.members db' o u known after other;
    }

-- An accepted role change was asked by a caller who is an owner or ranks above both the old and
-- the new role; the target then has the role asked for, and every other role in every
-- organization is unchanged.
pub set_member_role_sound :
    (org_id actor_id target_id : ℕ) (role : Text) (db db' : Db)
    → set_member_role org_id actor_id target_id role db ≡ (ok tt, db')
    → RoleChange db db' org_id actor_id target_id role
unfolding set_member_role
set_member_role_sound org_id actor_id target_id role db db' h = elim (ask_ok _ _ _ _ _ h) [
  | got a req h1 ↦ elim (refuse_ok _ _ _ _ _ _ h1) [
    | got _ shared h2 ↦ elim (lift_ok _ _ _ _ _ h2) [
      | got next en h3 ↦ elim (ask_ok _ _ _ _ _ h3) [
        | got existing ee h4 ↦ elim (refuse_ok _ _ _ _ _ _ h4) [
          | got _ ranks h5 ↦ elim (write_ok _ _ _ _ _ h5) [
            | passed _ db1 wrote h6 ↦
                role_change org_id actor_id target_id role db db1 db' a next existing req
                  (or_error_ok _ _ _ en) (or_error_ok _ _ _ ee) ranks wrote
                  (audit_ok _ _ _ _ _ _ h6)
          ]
        ]
      ]
    ]
  ]
]
