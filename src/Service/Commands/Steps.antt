-- ===== src/Service/Commands/Steps.antt =====
-- The operations on members and on the organization keep its owners within a set.
use redxt.Common.{ℕ, ◌≡◌, ◌≢◌, refl, ap, ◌∙◌, true, some, Text, arith}
use redxt.User.Role.{Role, owner, can_grant_role}
use redxt.Store.Tables.{Db, Event}
use redxt.Service.Base.{Call, audit}
use redxt.Service.Base.Keeps.{ask_keeps, lift_keeps, refuse_keeps, write_keeps, write_last_keeps}
use redxt.Service.Access.Laws.{role_of, access_ok, require_ok}
use redxt.Service.Members.{set_member_role, remove_member}
use redxt.Service.Orgs.{transfer_ownership, delete_shared_org}
use redxt.Service.Invites.{revoke_invite}
use redxt.Service.Commands.Owners.{
  OwnersWithin, SameRows-Within, set_member_role-Within, remove_member-Within, transfer_org-Within,
  delete_org-Within, delete_invite-Within,
}

module _ (o : ℕ) (P : ℕ → Type 0) where
  abbrev Within : Db → Type 0
  Within = OwnersWithin o P

  pub audit-Within :
      (org_id : ℕ) (e : Event) (a t : ℕ) (db : Db) → Within db → Within (audit org_id e a t db).1
  unfolding audit
  audit-Within org_id e a t db i =
      SameRows-Within o P db _
        (record {
          orgs = refl;
          members = refl;
          invites = refl;
          tokens = refl;
          grants = refl;
          zones = refl;
          domains = refl;
        })
        i

  -- Somebody outside `P` is no owner of the organization.
  pub not_owner :
      (db : Db) (org_id actor : ℕ) (r : Role)
      → Within db
      → (P actor → ⊥)
      → role_of db org_id actor ≡ some r
      → org_id ≡ o
      → r ≢ owner
  not_owner db org_id actor r i outside held same =
      λ e. outside (i.owners actor (rw (← same) (held ∙ ap some e)))

  grant-ne-owner : (r next : Role) → r ≢ owner → can_grant_role r next ≡ true → next ≢ owner
  unfolding can_grant_role
  grant-ne-owner r next h g = λ e. ground arith

  pub set_member_role-keeps :
      (org_id actor target : ℕ) (role : Text) (db : Db)
      → (P actor → ⊥)
      → Within db
      → Within (set_member_role org_id actor target role db).1
  unfolding set_member_role
  set_member_role-keeps org_id actor target role db outside i = ask_keeps Within _ _ _ i (λ a req.
      refuse_keeps Within _ _ _ _ i (λ _. lift_keeps Within _ _ _ i (λ next _.
        ask_keeps Within _ _ _ i (λ existing _. refuse_keeps Within _ _ _ _ i (λ ranks.
          write_keeps Within _ _ _ i (λ db1 wrote. audit-Within _ _ _ _ db1 (
            set_member_role-Within o P db db1 org_id target next
              (λ same.
                grant-ne-owner a.role next
                  (not_owner db org_id actor a.role i outside (require_ok db org_id actor _ a req).1
                    same)
                  (ground arith))
              wrote i)))))))

  pub remove_member-keeps :
      (call : Call) (org_id actor target : ℕ) (db : Db)
      → Within db
      → Within (remove_member call org_id actor target db).1
  unfolding remove_member
  remove_member-keeps call org_id actor target db i = ask_keeps Within _ _ _ i (λ a _.
      refuse_keeps Within _ _ _ _ i (λ _. refuse_keeps Within _ _ _ _ i (λ _.
        ask_keeps Within _ _ _ i (λ _ _. write_keeps Within _ _ _ i (λ db1 wrote.
          audit-Within _ _ _ _ db1
            (remove_member-Within o P db db1 org_id target call.now wrote i))))))

  pub transfer_ownership-keeps :
      (org_id actor to : ℕ) (db : Db)
      → (P actor → ⊥)
      → Within db
      → Within (transfer_ownership org_id actor to db).1
  unfolding transfer_ownership
  transfer_ownership-keeps org_id actor to db outside i = ask_keeps Within _ _ _ i (λ a req.
      refuse_keeps Within _ _ _ _ i (λ owns. refuse_keeps Within _ _ _ _ i (λ _.
        refuse_keeps Within _ _ _ _ i (λ _. write_keeps Within _ _ _ i (λ db1 wrote.
          audit-Within _ _ _ _ db1 (
            transfer_org-Within o P db db1 org_id actor to
              (λ same.
                not_owner db org_id actor a.role i outside (access_ok db org_id actor a req).1 same
                  (ground arith))
              wrote i))))))

  pub delete_shared_org-keeps :
      (org_id actor : ℕ) (db : Db) → Within db → Within (delete_shared_org org_id actor db).1
  unfolding delete_shared_org
  delete_shared_org-keeps org_id actor db i = ask_keeps Within _ _ _ i (λ a _.
      refuse_keeps Within _ _ _ _ i (λ _.
        write_last_keeps Within _ _ i (λ db1 wrote. delete_org-Within o P db db1 org_id wrote i)))

  pub revoke_invite-keeps :
      (org_id actor id : ℕ) (db : Db) → Within db → Within (revoke_invite org_id actor id db).1
  unfolding revoke_invite
  revoke_invite-keeps org_id actor id db i = ask_keeps Within _ _ _ i (λ a _.
      ask_keeps Within _ _ _ i (λ _ _. refuse_keeps Within _ _ _ _ i (λ _.
        write_keeps Within _ _ _ i
          (λ db1 wrote. audit-Within _ _ _ _ db1 (delete_invite-Within o P db db1 id wrote i)))))
