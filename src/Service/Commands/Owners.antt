-- ===== src/Service/Commands/Owners.antt =====
-- What each store operation does to the owners of an organization and to the roles its invitations
-- grant.
use redxt.Common.{
  ℕ, ℤ, pos, ◌==◌, not, List, [], ◌∷◌, ◌++◌, ◌≡◌, ◌≢◌, refl, none, some, ok, arith, update_where,
  All, All-append, All-keep, to_lower, trim_space,
}
use redxt.User.Role.{
  Role, owner, admin, editor, viewer, unknown, parse_role, role_text, to_role, cap_role,
}
use redxt.User.Name.{normalize_name}
use redxt.User.Role.Laws.{parse_role-role_text}
use redxt.Store.Tables.{Invite, Db}
use redxt.Store.Orgs.{write_role, transfer_org, delete_org}
use redxt.Store.Members as Store
use redxt.Store.Members.{membership, add_member}
use redxt.Store.Members.Laws.{
  membership-write_role, membership-append, membership-remove, membership-drop_org,
}
use redxt.Store.Invites.{create_invite, redeem_invite_row, delete_invite, may_redeem, count_use}
use redxt.Service.Base.Laws.{SameRows}
use redxt.Service.Access.{member_role}
use redxt.Service.Access.Laws.{role_of}

parse_role-blank : parse_role [] ≡ none
unfolding parse_role to_role normalize_name to_lower trim_space
parse_role-blank = refl

pub parse_owner_text : (r : Role) → parse_role (role_text r) ≡ some owner → r ≡ owner
parse_owner_text owner h = refl
parse_owner_text admin h = absurd (cc (parse_role-role_text admin (λ e. cc), h))
parse_owner_text editor h = absurd (cc (parse_role-role_text editor (λ e. cc), h))
parse_owner_text viewer h = absurd (cc (parse_role-role_text viewer (λ e. cc), h))
parse_owner_text unknown h = absurd (cc (parse_role-blank, h))

pub cap_role-owner : (issuer r : Role) → cap_role issuer r ≡ owner → issuer ≡ owner
unfolding cap_role
cap_role-owner issuer r h = ground arith

-- An invitation into the organization that does not make its bearer an owner.
abbrev pub IsModest : ℕ → Invite → Type 0
IsModest o i = i.org_id ≡ o → parse_role i.role ≡ some owner → ⊥

-- Every owner is one of `P`, and so it stays by any invitation.
pub record OwnersWithin (o : ℕ) (P : ℕ → Type 0) (db : Db) : Type 0 where
  pub owners : (u : ℕ) → role_of db o u ≡ some owner → P u
  pub invites : All (IsModest o) db.invites

module _ (o : ℕ) (P : ℕ → Type 0) (db db1 : Db) where
  abbrev Within : Db → Type 0
  Within = OwnersWithin o P

  fewer :
      ((u : ℕ) → role_of db1 o u ≡ some owner → role_of db o u ≡ some owner)
      → All (IsModest o) db1.invites
      → Within db
      → Within db1
  fewer h invites i = record { owners = λ u e. i.owners u (h u e); invites = invites }

  pub SameRows-Within : SameRows db db1 → Within db → Within db1
  SameRows-Within same i = fewer (λ u e. rw (← same.members) e) (rw same.invites i.invites) i

  pub set_member_role-Within :
      (org_id target : ℕ) (next : Role)
      → (org_id ≡ o → next ≢ owner)
      → Store.set_member_role org_id target (role_text next) db ≡ ok db1
      → Within db
      → Within db1
  unfolding Store.set_member_role member_role
  set_member_role-Within org_id target next h e i =
      let ms : db1.members ≡ write_role org_id target (role_text next) db.members = ground arith in
      fewer (λ u owned. still_owner u (rw ms at owned)) (ground arith) i
    where
      still_owner :
          (u : ℕ)
          → member_role (membership o u (write_role org_id target (role_text next) db.members))
            ≡ some owner
          → role_of db o u ≡ some owner
      still_owner u owned = ground (
        arith,
        membership-write_role o u org_id target (role_text next) db.members,
        parse_owner_text next,
        h,
      )

  pub remove_member-Within :
      (org_id target : ℕ) (now : ℤ)
      → Store.remove_member org_id target now db ≡ ok db1
      → Within db
      → Within db1
  unfolding Store.remove_member member_role
  remove_member-Within org_id target now e i =
      fewer (λ u owned. ground (arith, membership-remove o u org_id target db.members))
        (ground arith) i

  pub transfer_org-Within :
      (org_id from to : ℕ)
      → org_id ≢ o
      → transfer_org org_id from to db ≡ ok db1
      → Within db
      → Within db1
  unfolding transfer_org member_role
  transfer_org-Within org_id from to other e i =
      fewer
        (λ u owned. ground (
          arith,
          membership-write_role o u org_id from (role_text admin)
              (write_role org_id to (role_text owner) db.members),
          membership-write_role o u org_id to (role_text owner) db.members,
        ))
        (ground arith) i

  pub delete_org-Within : (org_id : ℕ) → delete_org org_id db ≡ ok db1 → Within db → Within db1
  unfolding delete_org member_role
  delete_org-Within org_id e i =
      fewer (λ u owned. ground (arith, membership-drop_org o u org_id db.members))
        (ground (arith, All-keep (IsModest o) (λ j. not (j.org_id == org_id)) db.invites i.invites))
        i

  pub create_invite-Within :
      (j : Invite) → IsModest o j → create_invite j db ≡ ok db1 → Within db → Within db1
  unfolding create_invite
  create_invite-Within j modest e i =
      fewer (λ u owned. ground arith)
        (ground (
          arith,
          All-append (IsModest o) db.invites
              (record j { use_count = pos 0; accepted_at = pos 0 } ∷ []) i.invites (modest, tt),
        ))
        i

  pub delete_invite-Within : (id : ℕ) → delete_invite id db ≡ ok db1 → Within db → Within db1
  unfolding delete_invite
  delete_invite-Within id e i =
      fewer (λ u owned. ground arith)
        (ground (arith, All-keep (IsModest o) (λ j. not (j.id == id)) db.invites i.invites)) i

  pub redeem_invite_row-Within :
      (id : ℕ) (now : ℤ) → redeem_invite_row id now db ≡ ok db1 → Within db → Within db1
  unfolding redeem_invite_row
  redeem_invite_row-Within id now e i =
      fewer (λ u owned. ground arith) (ground (arith, All-redeemed id now db.invites i.invites)) i
    where
      All-redeemed :
          (id : ℕ) (now : ℤ) (js : List Invite)
          → All (IsModest o) js
          → All (IsModest o) (update_where (may_redeem id now) (count_use now) js)
      All-redeemed id now [] h = tt
      All-redeemed id now (j ∷ js) h = (λ a b. ground (arith, h.0), All-redeemed id now js h.1)

  pub add_member-Within :
      (org_id u : ℕ) (r : Role)
      → (org_id ≡ o → r ≢ owner)
      → add_member org_id u (role_text r) db ≡ ok db1
      → Within db
      → Within db1
  unfolding add_member member_role
  add_member-Within org_id u r h e i =
      let ms : db1.members
          ≡ db.members ++ record { org_id = org_id; user_id = u; role = role_text r } ∷ [] =
        ground arith in
      fewer (λ v owned. still_owner v (rw ms at owned)) (ground arith) i
    where
      still_owner :
          (v : ℕ)
          → member_role (
              membership o v
                (db.members ++ record { org_id = org_id; user_id = u; role = role_text r } ∷ []))
            ≡ some owner
          → role_of db o v ≡ some owner
      still_owner v owned = ground (
        arith,
        membership-append o v (record { org_id = org_id; user_id = u; role = role_text r })
            db.members,
        parse_owner_text r,
        h,
      )
