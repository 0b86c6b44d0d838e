-- ===== src/Service/Commands/Strangers.antt =====
-- An organization is closed to everybody who is not a member of it.
use redxt.Common.{ℕ, ◌≡◌, Option, none, some, Text, err}
use redxt.Store.Tables.{Db}
use redxt.Service.Base.{not_found, Config, Call}
use redxt.Service.Base.Laws.{ask_refused, bind_refused}
use redxt.Service.Access.Laws.{role_of, access-none, require-none}
use redxt.Service.Members.{set_member_role, remove_member}
use redxt.Service.Orgs.{transfer_ownership, delete_shared_org}
use redxt.Service.Invites.{invite_member, revoke_invite}
use redxt.Service.Commands.{
  Action, perform, set_role, remove, transfer, delete, invite, revoke, accept,
}

-- The organization that an action names; a code names none.
abbrev pub org_of : Action → Option ℕ
org_of (set_role org target role) = some org
org_of (remove org target) = some org
org_of (transfer org to) = some org
org_of (delete org) = some org
org_of (invite org email role uses) = some org
org_of (revoke org id) = some org
org_of (accept code) = none

same_org : {a b : ℕ} → some a ≡ some b → a ≡ b
same_org e = cc

module _ (cfg : Config) (hash : Text → Text) (call : Call) where
  -- An action that names an organization in which its caller has no role (no membership, or one
  -- whose role does not parse) is answered with not found and leaves the database as it was.
  pub stranger_refused :
      (actor org_id : ℕ) (action : Action) (db : Db)
      → org_of action ≡ some org_id
      → role_of db org_id actor ≡ none
      → perform cfg hash call actor action db ≡ (err not_found, db)
  unfolding perform set_member_role remove_member transfer_ownership delete_shared_org invite_member
      revoke_invite
  stranger_refused actor org_id (set_role org target role) db e h =
      ask_refused _ _ _ db (require-none db org actor _ (rw (same_org e) h))
  stranger_refused actor org_id (remove org target) db e h =
      ask_refused _ _ _ db (access-none db org actor (rw (same_org e) h))
  stranger_refused actor org_id (transfer org to) db e h =
      ask_refused _ _ _ db (access-none db org actor (rw (same_org e) h))
  stranger_refused actor org_id (delete org) db e h =
      ask_refused _ _ _ db (require-none db org actor _ (rw (same_org e) h))
  stranger_refused actor org_id (invite org email role uses) db e h =
      bind_refused _ _ _ db (ask_refused _ _ _ db (require-none db org actor _ (rw (same_org e) h)))
  stranger_refused actor org_id (revoke org id) db e h =
      ask_refused _ _ _ db (require-none db org actor _ (rw (same_org e) h))
  stranger_refused actor org_id (accept code) db e h = cc
