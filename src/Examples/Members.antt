-- ===== src/Examples/Members.antt =====
-- Roles, removals, transfers and invitations of the example.
use redxt.Common.{
  All, ℕ, ◌≡◌, refl, List, [], ◌∷◌, some, none, ok, err, bytes, ◌=ᵗ◌, trim_space, to_lower, arith,
}
use redxt.User.Role.{owner, parse_role, to_role, can, can_grant_role, can_manage_member}
use redxt.User.Name.{normalize_name}
use redxt.Store.Tables.{redeemable}
use redxt.Store.Orgs.{org_by_id, transfer_org}
use redxt.Store.Members.{membership}
use redxt.Store.Members as Store
use redxt.Store.Invites.{invite_by_hash, redeem_invite_row}
use redxt.Service.Base.{◌>>=◌, not_found}
use redxt.Service.Access.{access, require, member_role}
use redxt.Service.Access.Laws.{role_of}
use redxt.Service.Members.{set_member_role, remove_member, may_remove}
use redxt.Service.Members.Laws.{RoleChange, set_member_role_sound}
use redxt.Service.Members.Removal.{Removal, remove_member_sound}
use redxt.Service.Orgs.{transfer_ownership}
use redxt.Service.Orgs.Laws.{Transfer, transfer_ownership_sound}
use redxt.Service.Invites.{redeem_invite}
use redxt.Common.{inr}
use redxt.Service.Invites.Laws.{
  IsWithinUses, redeem_invite-IsWithinUses, Redeemed, redeem_invite_sound,
}
use redxt.Service.Commands.{Command, set_role, remove, accept, perform, run}
use redxt.Service.Commands.Owners.{OwnersWithin}
use redxt.Service.Commands.Guard.{no_new_owners}
use redxt.Service.Commands.Strangers.{stranger_refused}
use redxt.Examples.Data.{db, config, at, plain, open_invite}

abbrev IsOne : ℕ → Type 0
IsOne u = u ≡ 1

-- The admin lowers the editor, and a stranger takes the invitation.
abbrev commands : List Command
commands =
    record { actor = 2; call = at 10; action = set_role 1 3 (bytes "viewer") }
    ∷ record { actor = 7; call = at 20; action = accept (bytes "code") }
    ∷ []

IsOne-owner : (u : ℕ) → role_of db 1 u ≡ some owner → IsOne u
unfolding member_role membership parse_role to_role normalize_name to_lower trim_space
IsOne-owner u h = ground arith

modest : parse_role (bytes "viewer") ≡ some owner → ⊥
unfolding parse_role to_role normalize_name to_lower trim_space
modest h = cc

no_new_owners_example : OwnersWithin 1 IsOne (run config plain commands db)
no_new_owners_example =
    no_new_owners 1 IsOne config plain commands db ((λ e. ground arith), ((λ e. ground arith), tt))
      (record { owners = IsOne-owner; invites = ((λ _ h. modest h), tt) })

unknown_user : role_of db 1 7 ≡ none
unfolding member_role membership
unknown_user = refl

stranger_refused_example : perform config plain (at 10) 7 (remove 1 3) db ≡ (err not_found, db)
stranger_refused_example =
    stranger_refused config plain (at 10) 7 1 (remove 1 3) db refl unknown_user

lowered :
    set_member_role 1 2 3 (bytes "viewer") db
    ≡ (ok tt, (set_member_role 1 2 3 (bytes "viewer") db).1)
unfolding set_member_role ◌>>=◌ require access org_by_id member_role membership parse_role to_role
    normalize_name ◌=ᵗ◌ trim_space to_lower can can_grant_role can_manage_member
    Store.set_member_role
lowered = refl

set_member_role_sound_example :
    RoleChange db (set_member_role 1 2 3 (bytes "viewer") db).1 1 2 3 (bytes "viewer")
set_member_role_sound_example = set_member_role_sound 1 2 3 (bytes "viewer") db _ lowered

removed : remove_member (at 10) 1 2 3 db ≡ (ok tt, (remove_member (at 10) 1 2 3 db).1)
unfolding remove_member ◌>>=◌ access org_by_id member_role membership parse_role to_role
    normalize_name ◌=ᵗ◌ trim_space to_lower can can_manage_member may_remove Store.remove_member
removed = refl

remove_member_sound_example : Removal (at 10) db (remove_member (at 10) 1 2 3 db).1 1 2 3
remove_member_sound_example = remove_member_sound (at 10) 1 2 3 db _ refl removed

transferred : transfer_ownership 1 1 2 db ≡ (ok tt, (transfer_ownership 1 1 2 db).1)
unfolding transfer_ownership ◌>>=◌ access org_by_id member_role membership parse_role to_role
    normalize_name ◌=ᵗ◌ trim_space to_lower transfer_org
transferred = refl

transfer_ownership_sound_example : Transfer db (transfer_ownership 1 1 2 db).1 1 1 2
transfer_ownership_sound_example = transfer_ownership_sound 1 1 2 db _ transferred

redeemed :
    redeem_invite plain (at 10) (bytes "code") db
    ≡ (ok open_invite, (redeem_invite plain (at 10) (bytes "code") db).1)
unfolding redeem_invite invite_by_hash ◌=ᵗ◌ redeemable redeem_invite_row
redeemed = refl

redeem_invite_sound_example :
    Redeemed plain
      (at 10)
      (bytes "code")
      db
      (redeem_invite plain (at 10) (bytes "code") db).1
      open_invite
redeem_invite_sound_example =
    redeem_invite_sound plain (at 10) (bytes "code") open_invite db _ redeemed

uses_left : All IsWithinUses (redeem_invite plain (at 10) (bytes "code") db).1.invites
uses_left =
    redeem_invite-IsWithinUses plain (at 10) (bytes "code") open_invite db _ redeemed
      (inr (omega arith), tt)
