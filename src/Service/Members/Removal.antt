-- ===== src/Service/Members/Removal.antt =====
-- What removing a member takes away.
use redxt.Common.{
  ℕ, ℤ, ◌==◌, ◌&&◌, ◌<◌, not, List, [], ◌∷◌, ◌≡◌, ◌≢◌, refl, ◌⊎◌, inl, inr, true, false, Option,
  none, some, ok, arith, Bool-cases, Option-cases, any, keep, All, is_zero, if◌then◌else◌,
}
use redxt.User.Role.{Role, owner, parse_role, rank, can_manage_member}
use redxt.User.Role.Laws.{manage_needs_rank}
use redxt.Store.Tables.{Member, Token, Grant, Db}
use redxt.Store.Orgs.{is_membership}
use redxt.Store.Members as Store
use redxt.Store.Members.{membership, held_by, revoke_held, zone_granted, is_grant}
use redxt.Store.Members.Laws.{membership-remove, IsRevokedFor}
use redxt.Service.Base.{Call}
use redxt.Service.Base.Laws.{got, passed, SameRows, ask_ok, refuse_ok, write_ok, audit_ok}
use redxt.Service.Access.{OrgAccess, access, member_role}
use redxt.Service.Access.Laws.{role_of}
use redxt.Service.Members.{removable, may_remove, remove_member}

-- A token that the statement selects gets the time of the removal, any other held by the member in
-- the organization has one already.
revoke_one :
    (org_id user_id : ℕ) (now : ℤ) (t : Token)
    → is_zero now ≡ false
    → IsRevokedFor org_id user_id
        (if held_by org_id user_id t then record t { revoked_at = now } else t)
revoke_one org_id user_id now t h = λ a b c. ground arith

All-revoke_held :
    (org_id user_id : ℕ) (now : ℤ) (ts : List Token)
    → is_zero now ≡ false
    → All (IsRevokedFor org_id user_id) (revoke_held org_id user_id now ts)
unfolding revoke_held
All-revoke_held org_id user_id now [] h = tt
All-revoke_held org_id user_id now (t ∷ ts) h =
    (revoke_one org_id user_id now t h, All-revoke_held org_id user_id now ts h)

no_grant_left :
    (org_id user_id zone_id : ℕ) (gs : List Grant)
    → any
        (is_grant org_id user_id zone_id)
        (keep (λ g. not (g.org_id == org_id && g.user_id == user_id)) gs)
      ≡ false
no_grant_left org_id user_id zone_id [] = refl
no_grant_left org_id user_id zone_id (g ∷ gs) =
    ground (arith, no_grant_left org_id user_id zone_id gs)

-- What an accepted removal did.
pub record Removal (call : Call) (db db' : Db) (org_id actor_id target_id : ℕ) : Type 0 where
  pub standing : OrgAccess
  pub actor_is : access db org_id actor_id ≡ ok standing
  pub shared : standing.org.personal ≡ false
  pub not_the_owner : standing.org.owner_id ≢ target_id
  pub allowed :
      (target_id ≡ actor_id)
      ⊎ ((old : Role) × (role_of db org_id target_id ≡ some old)
          × ((standing.role ≡ owner) ⊎ (rank old < rank standing.role)))
  pub target_is : role_of db' org_id target_id ≡ none
  pub others : (o u : ℕ) → (o ≡ org_id → u ≡ target_id → ⊥) → role_of db' o u ≡ role_of db o u
  pub no_grants : (zone_id : ℕ) → zone_granted db' org_id target_id zone_id ≡ false
  pub no_tokens : All (IsRevokedFor org_id target_id) db'.tokens

removable_ok :
    (r : Role) (m : Option Member)
    → removable r m ≡ ok tt
    → (old : Role) × (member_role m ≡ some old) × (can_manage_member r old ≡ true)
unfolding member_role
removable_ok r none h = cc
removable_ok r (some m) h = elim (Option-cases (parse_role m.role)) [
  | inl e ↦ ground arith
  | inr (old, e) ↦ (old, e, ground arith)
]

may_remove_ok :
    (a : OrgAccess) (actor_id target_id : ℕ) (m : Option Member)
    → may_remove a actor_id target_id m ≡ ok tt
    → (target_id ≡ actor_id)
      ⊎ ((old : Role) × (member_role m ≡ some old) × ((a.role ≡ owner) ⊎ (rank old < rank a.role)))
unfolding may_remove
may_remove_ok a actor_id target_id m h = elim (Bool-cases (target_id == actor_id)) [
  | inl same ↦ inl (ground arith)
  | inr other ↦
      let (old, e, c) = removable_ok a.role m (ground arith) in
      inr (old, e, manage_needs_rank a.role old c)
]

role_of-removed :
    (org_id target_id : ℕ) (ms : List Member) (db' : Db) (o u : ℕ)
    → db'.members ≡ keep (λ m. not (is_membership org_id target_id m)) ms
    → role_of db' o u
      ≡ (if org_id == o && target_id == u then none else member_role (membership o u ms))
unfolding member_role
role_of-removed org_id target_id ms db' o u e =
    rw e (ground (arith, membership-remove o u org_id target_id ms))

removed :
    (call : Call) (org_id actor_id target_id : ℕ) (db db1 db' : Db) (a : OrgAccess)
    → is_zero call.now ≡ false
    → access db org_id actor_id ≡ ok a
    → a.org.personal ≡ false
    → (a.org.owner_id == target_id) ≡ false
    → may_remove a actor_id target_id (membership org_id target_id db.members) ≡ ok tt
    → Store.remove_member org_id target_id call.now db ≡ ok db1
    → SameRows db1 db'
    → Removal call db db' org_id actor_id target_id
unfolding Store.remove_member zone_granted
removed call org_id actor_id target_id db db1 db' a now req shared owns may wrote same =
    let ms : db'.members ≡ keep (λ m. not (is_membership org_id target_id m)) db.members =
      ground arith in
    let ts : db'.tokens ≡ revoke_held org_id target_id call.now db.tokens = ground arith in
    let gs : db'.grants ≡ keep (λ g. not (g.org_id == org_id && g.user_id == target_id)) db.grants =
      ground arith in
    record {
      standing = a;
      actor_is = req;
      shared = shared;
      not_the_owner = ground arith;
      allowed = may_remove_ok a actor_id target_id _ may;
      target_is =
          ground (arith, role_of-removed org_id target_id db.members db' org_id target_id ms);
      others = λ o u other. ground (arith, role_of-removed org_id target_id db.members db' o u ms);
      no_grants = λ z. rw gs (no_grant_left org_id target_id z db.grants);
      no_tokens = rw ts (All-revoke_held org_id target_id call.now db.tokens now);
    }

-- An accepted removal (at a time other than zero) concerned a shared organization and somebody
-- other than its recorded owner, was asked by the member or by an owner or a caller of higher
-- rank, and left that user with no role, no zone grant and no unrevoked user token in that
-- organization, everybody else's role unchanged.
pub remove_member_sound :
    (call : Call) (org_id actor_id target_id : ℕ) (db db' : Db)
    → is_zero call.now ≡ false
    → remove_member call org_id actor_id target_id db ≡ (ok tt, db')
    → Removal call db db' org_id actor_id target_id
unfolding remove_member
remove_member_sound call org_id actor_id target_id db db' now h = elim (ask_ok _ _ _ _ _ h) [
  | got a req h1 ↦ elim (refuse_ok _ _ _ _ _ _ h1) [
    | got _ shared h2 ↦ elim (refuse_ok _ _ _ _ _ _ h2) [
      | got _ owns h3 ↦ elim (ask_ok _ _ _ _ _ h3) [
        | got _ may h4 ↦ elim (write_ok _ _ _ _ _ h4) [
          | passed _ db1 wrote h5 ↦
              removed call org_id actor_id target_id db db1 db' a now req shared owns may wrote
                (audit_ok _ _ _ _ _ _ h5)
        ]
      ]
    ]
  ]
]
