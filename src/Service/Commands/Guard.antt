-- ===== src/Service/Commands/Guard.antt =====
-- Nobody but an owner makes an owner.
use redxt.Common.{
  ℕ, ℤ, not, List, [], ◌∷◌, ◌≡◌, ◌≢◌, refl, ap, ◌∙◌, inl, inr, Bool, true, false, Option, none,
  some, Text, Result, ok, err, arith, Bool-cases, Option-cases, find, All, if◌then◌else◌, ◌=ᵗ◌,
}
use redxt.User.Role.{Role, owner, parse_role, role_text}
use redxt.Store.Tables.{Invite, Db, StoreError, row_conflict, row_not_found, redeemable}
use redxt.Store.Members.{add_member}
use redxt.Store.Invites.{invite_by_hash, redeem_invite_row}
use redxt.Service.Base.{forbidden, Config, Call}
use redxt.Service.Base.Keeps.{
  ask_keeps, lift_keeps, bind_keeps, refuse_keeps, write_keeps, return_keeps, ask_last_keeps,
}
use redxt.Service.Access.Laws.{require_ok, default_member_role-ne-owner}
use redxt.Service.Invites.{
  invite_member, accept_invite, redeem_invite, redeem_found, invited_role, joined_role, join_row,
  join, consume,
}
use redxt.Service.Commands.{
  Action, Command, perform, run, set_role, remove, transfer, delete, invite, revoke, accept,
}
use redxt.Service.Commands.Owners.{
  OwnersWithin, IsModest, cap_role-owner, parse_owner_text, create_invite-Within,
  redeem_invite_row-Within, add_member-Within,
}
use redxt.Service.Commands.Steps.{
  audit-Within, not_owner, set_member_role-keeps, remove_member-keeps, transfer_ownership-keeps,
  delete_shared_org-keeps, revoke_invite-keeps,
}

module _ (o : ℕ) (P : ℕ → Type 0) where
  abbrev Within : Db → Type 0
  Within = OwnersWithin o P

  invited_role-ne-owner :
      (cfg : Config) (inviter role : Role) (asked : Text)
      → inviter ≢ owner
      → invited_role cfg inviter asked ≡ ok role
      → role ≢ owner
  unfolding invited_role
  invited_role-ne-owner cfg inviter role [] h e =
      λ r. default_member_role-ne-owner cfg (ground arith)
  invited_role-ne-owner cfg inviter role (c ∷ s) h e = elim (Option-cases (parse_role (c ∷ s))) [
    | inl bad ↦ ground arith
    | inr (parsed, good) ↦ λ r. h (cap_role-owner inviter parsed (ground arith))
  ]

  module _ (cfg : Config) (hash : Text → Text) (call : Call) where
    invite_member-keeps :
        (org_id actor : ℕ) (email role : Text) (uses : ℤ) (db : Db)
        → (P actor → ⊥)
        → Within db
        → Within (invite_member cfg hash call org_id actor email role uses db).1
    unfolding invite_member
    invite_member-keeps org_id actor email role uses db outside i =
        ask_keeps Within _ _ _ i (λ a req. refuse_keeps Within _ _ _ _ i (λ _.
          refuse_keeps Within _ _ _ _ i (λ _. lift_keeps Within _ _ _ i (λ granted asked.
            lift_keeps Within _ _ _ i (λ address _. write_keeps Within _ _ _ i (λ db1 wrote.
              bind_keeps Within _ _ db1
                (audit-Within o P _ _ _ _ db1 (
                  create_invite-Within o P db db1 _
                    (λ same parsed.
                      invited_role-ne-owner cfg a.role granted role
                        (not_owner o P db org_id actor a.role i outside
                          (require_ok db org_id actor _ a req).1 same)
                        asked (parse_owner_text granted parsed))
                    wrote i))
                (λ _ db2 _ i2. return_keeps Within _ db2 i2)))))))

    -- The invitation that a code finds is one of the table's.
    IsModest-of :
        (wanted : Text) (js : List Invite) (j : Invite)
        → All (IsModest o) js
        → find (λ i. i.code_hash =ᵗ wanted) js ≡ some j
        → IsModest o j
    IsModest-of wanted [] j h e = cc
    IsModest-of wanted (k ∷ js) j h e = elim (Bool-cases (k.code_hash =ᵗ wanted)) [
      | inl found ↦ rw (← the_one found) (h.0)
      | inr other ↦ IsModest-of wanted js j h.1 (ground arith)
    ]
      where
        the_one : (k.code_hash =ᵗ wanted) ≡ true → k ≡ j
        the_one found = ground arith

    redeem_found-keeps :
        (m : Option Invite) (db : Db) → Within db → Within (redeem_found hash call m db).1
    redeem_found-keeps none db i = i
    redeem_found-keeps (some j) db i = gated (redeemable j call.now)
      where
        used :
            (r : Result StoreError Db)
            → redeem_invite_row j.id call.now db ≡ r
            → Within (consume hash call j db r).1
        used (ok db1) e = redeem_invite_row-Within o P db db1 j.id call.now e i
        used (err f) e = i

        gated :
            (b : Bool)
            → Within (
                (if not b
                  then (err forbidden, db)
                  else consume hash call j db (redeem_invite_row j.id call.now db)).1)
        gated true = used _ refl
        gated false = i

    redeem_found-modest :
        (m : Option Invite) (j : Invite) (db db1 : Db)
        → redeem_found hash call m db ≡ (ok j, db1)
        → m ≡ some j
    redeem_found-modest none j db db1 h = cc
    redeem_found-modest (some k) j db db1 h = gated (redeemable k call.now) h
      where
        used : (r : Result StoreError Db) → consume hash call k db r ≡ (ok j, db1) → some k ≡ some j
        used (ok db2) e = cc
        used (err f) e = cc

        gated :
            (b : Bool)
            → (if not b
                then (err forbidden, db)
                else consume hash call k db (redeem_invite_row k.id call.now db))
              ≡ (ok j, db1)
            → some k ≡ some j
        gated true e = used _ e
        gated false e = cc

    join-keeps :
        (user : ℕ) (j : Invite) (db : Db)
        → IsModest o j
        → Within db
        → Within (join cfg hash call user j db).1
    unfolding join
    join-keeps user j db modest i = added _ refl
      where
        granted : Role
        granted = joined_role cfg hash call (parse_role j.role)

        granted-ne-owner : j.org_id ≡ o → granted ≢ owner
        granted-ne-owner same = joined (parse_role j.role) refl
          where
            joined : (r : Option Role) → parse_role j.role ≡ r → joined_role cfg hash call r ≢ owner
            joined none e = default_member_role-ne-owner cfg
            joined (some r) e = λ same_role. modest same (e ∙ ap some same_role)

        added :
            (r : Result StoreError Db)
            → add_member j.org_id user (role_text granted) db ≡ r
            → Within (join_row cfg hash call user j granted db r).1
        added (ok db1) e =
            audit-Within o P _ _ _ _ db1
              (add_member-Within o P db db1 j.org_id user granted granted-ne-owner e i)
        added (err row_conflict) e = i
        added (err row_not_found) e = i

    accept_invite-keeps :
        (user : ℕ) (code : Text) (db : Db)
        → Within db
        → Within (accept_invite cfg hash call user code db).1
    unfolding accept_invite redeem_invite invite_by_hash
    accept_invite-keeps user code db i =
        bind_keeps Within _ _ db (redeem_found-keeps _ db i) (λ j db1 e i1.
          refuse_keeps Within _ _ _ db1 i1 (λ _.
            bind_keeps Within _ _ db1
              (join-keeps user j db1
                (IsModest-of (hash code) db.invites j i.invites (redeem_found-modest _ j db db1 e))
                i1)
              (λ _ db2 _ i2. ask_last_keeps Within _ db2 i2)))

  module _ (cfg : Config) (hash : Text → Text) where
    perform-keeps :
        (call : Call) (actor : ℕ) (action : Action) (db : Db)
        → (P actor → ⊥)
        → Within db
        → Within (perform cfg hash call actor action db).1
    unfolding perform
    perform-keeps call actor (set_role org target role) db outside i =
        set_member_role-keeps o P org actor target role db outside i
    perform-keeps call actor (remove org target) db outside i =
        remove_member-keeps o P call org actor target db i
    perform-keeps call actor (transfer org to) db outside i =
        transfer_ownership-keeps o P org actor to db outside i
    perform-keeps call actor (delete org) db outside i = delete_shared_org-keeps o P org actor db i
    perform-keeps call actor (invite org email role uses) db outside i =
        bind_keeps Within _ _ db
          (invite_member-keeps cfg hash call org actor email role uses db outside i)
          (λ _ db1 _ i1. return_keeps Within tt db1 i1)
    perform-keeps call actor (revoke org id) db outside i =
        revoke_invite-keeps o P org actor id db i
    perform-keeps call actor (accept code) db outside i =
        bind_keeps Within _ _ db (accept_invite-keeps cfg hash call actor code db i)
          (λ _ db1 _ i1. return_keeps Within tt db1 i1)

    -- Whatever sequence of role changes, removals, transfers, deletions, invitations, withdrawals
    -- and acceptances is attempted by callers outside a set of users P, if beforehand every owner
    -- of the organization is in P and none of its invitations grants the owner role, then the
    -- same holds afterwards.
    pub no_new_owners :
        (cs : List Command) (db : Db)
        → All (λ c. P c.actor → ⊥) cs
        → OwnersWithin o P db
        → OwnersWithin o P (run cfg hash cs db)
    unfolding run
    no_new_owners [] db outside i = i
    no_new_owners (c ∷ cs) db outside i =
        no_new_owners cs _ outside.1 (perform-keeps c.call c.actor c.action db outside.0 i)
