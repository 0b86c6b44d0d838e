-- ===== src/Service/Invites.antt =====
-- src/server/service/auth.go (redeemInvite) and org.go: invitations into an organization.
pub mod Rows
pub mod Laws
use redxt.Common.{
  ℕ, ℤ, pos, ◌==◌, ◌*◌, ◌+ℤ◌, ltb_ℤ, leb_ℤ, pos_part, Bool, not, ◌&&◌, Option, none, some, List,
  any, Text, Result, ok, err, if◌then◌else◌, trim_space, ◌=ᵗ◌, [],
}
use redxt.User.Role.{Role, Permission, members_manage, parse_role, role_text, cap_role, is_owner}
use redxt.User.Email.{EmailError, validate_email}
use redxt.Store.Tables.{
  Org, Invite, Db, StoreError, row_conflict, member_joined, member_invited, invite_revoked,
  redeemable,
}
use redxt.Store.Orgs.{org_by_id}
use redxt.Store.Members.{add_member}
use redxt.Store.Invites.{
  create_invite, invite_by_hash, list_org_invites, redeem_invite_row, delete_invite,
}
use redxt.Service.Base.{
  ServiceError, not_found, forbidden, validation, unknown_organization_role, email_message, Config,
  Call, Service, ◌>>=◌, ◌>>◌, return, refuse_if, lift, ask, or_error, map_store_error, write, audit,
  Message,
}
use redxt.Service.Access.{OrgAccess, require, default_member_role}

-- Time of the days of a positive configured number.
abbrev pub day_span : ℤ → ℤ
day_span days = pos (pos_part days * 86400000000000)

module _ (hash : Text → Text) (call : Call) where
  -- Every failure to consume the use is ErrForbidden.
  abbrev pub consume : Invite → Db → Result StoreError Db → Result ServiceError Invite × Db
  consume i db (err e) = (err forbidden, db)
  consume i db (ok db') = (ok i, db')

  abbrev pub redeem_found : Option Invite → Service Invite
  redeem_found none db = (err forbidden, db)
  redeem_found (some i) db =
      if not (redeemable i call.now)
      then (err forbidden, db)
      else consume i db (redeem_invite_row i.id call.now db)

  unfoldable pub redeem_invite : Text → Service Invite
  redeem_invite code db = redeem_found (invite_by_hash db (hash code)) db

module _ (cfg : Config) where
  -- The role of an invitation: the default, or the requested one capped to the inviter's.
  unfoldable pub invited_role : Role → Text → Result ServiceError Role
  invited_role inviter [] = ok (default_member_role cfg)
  invited_role inviter requested = elim (parse_role requested) [
    | none ↦ err (validation unknown_organization_role)
    | some parsed ↦ ok (cap_role inviter parsed)
  ]

  abbrev checked_email : Result EmailError Text → Result ServiceError Text
  checked_email (ok email) = ok email
  checked_email (err e) = err (validation (email_message e))

  unfoldable pub invited_email : Text → Result ServiceError Text
  invited_email raw =
      if trim_space raw =ᵗ [] then ok [] else checked_email (validate_email (trim_space raw))

  abbrev max_uses_of : ℤ → ℤ
  max_uses_of n = if ltb_ℤ n (pos 0) then pos 1 else n

  abbrev invite_days : ℤ
  invite_days =
      if leb_ℤ cfg.invite_expiration_days (pos 0) then pos 7 else cfg.invite_expiration_days

module _ (cfg : Config) (hash : Text → Text) (call : Call) where
  -- The plaintext code is what the random source drew.
  unfoldable pub invite_member : ℕ → ℕ → Text → Text → ℤ → Service Text
  invite_member org_id actor_id email_text role_name uses = do
    access ← ask (λ db. require db org_id actor_id members_manage)
    refuse_if access.org.personal forbidden
    refuse_if (not cfg.allow_invites && not (is_owner access.role)) forbidden
    role ← lift (invited_role cfg access.role role_name)
    email ← lift (invited_email cfg email_text)
    write (
        create_invite (record {
          id = call.fresh_id;
          code_hash = hash call.random;
          org_id = org_id;
          email = email;
          role = role_text role;
          max_uses = max_uses_of cfg uses;
          use_count = pos 0;
          invited_by = actor_id;
          accepted_at = pos 0;
          expires_at = call.now +ℤ day_span (invite_days cfg);
        }))
    audit org_id member_invited actor_id 0
    return call.random

  abbrev pub joined_role : Option Role → Role
  joined_role none = default_member_role cfg
  joined_role (some r) = r

  -- The membership that an invitation grants: a conflict is passed over, without an audit row.
  abbrev pub join_row :
      ℕ → Invite → Role → Db → Result StoreError Db → Result ServiceError (Unit {0}) × Db
  join_row user_id i role db (ok db') = audit i.org_id member_joined user_id user_id db'
  join_row user_id i role db (err row_conflict) = (ok tt, db)
  join_row user_id i role db (err e) = (err (map_store_error e), db)

  unfoldable pub join : ℕ → Invite → Service (Unit {0})
  join user_id i db =
      let role = joined_role (parse_role i.role) in
      join_row user_id i role db (add_member i.org_id user_id (role_text role) db)

  unfoldable pub accept_invite : ℕ → Text → Service Org
  accept_invite user_id code = do
    i ← redeem_invite hash call code
    refuse_if (i.org_id == 0) forbidden
    join user_id i
    ask (λ db. or_error not_found (org_by_id db i.org_id))

unfoldable pub revoke_invite : ℕ → ℕ → ℕ → Service (Unit {0})
revoke_invite org_id actor_id invite_id = do
  access ← ask (λ db. require db org_id actor_id members_manage)
  listed ← ask (λ db. ok (any (λ i. i.id == invite_id) (list_org_invites db org_id)))
  refuse_if (not listed) not_found
  write (delete_invite invite_id)
  audit org_id invite_revoked actor_id 0
