-- ===== src/Service/Orgs/Laws.antt =====
-- Ownership, and what a caller who is not a member can reach.
use mathlib.Core.Option
use redxt.Common.{
  ℕ, ◌==◌, ◌&&◌, ◌||◌, not, List, [], ◌∷◌, ◌≡◌, ◌≢◌, refl, ap, ◌∙◌, true, false, Option, none, some,
  ok, arith, Bool-cases, inl, inr, find, update_where, any, if◌then◌else◌,
}
use redxt.User.Role.{Role, owner, admin, role_text, is_owner}
use redxt.Store.Tables.{Org, Member, Db}
use redxt.Store.Orgs.{org_by_id, transfer_org, write_role, is_membership}
use redxt.Store.Members.{membership}
use redxt.Store.Members.Laws.{membership-write_role}
use redxt.Service.Base.Laws.{got, passed, SameRows, ask_ok, refuse_ok, write_ok, audit_ok}
use redxt.Service.Access.{OrgAccess, access, member_role}
use redxt.Service.Access.Laws.{role_of, access_ok}
use redxt.Service.Members.Laws.{role-write_role}
use redxt.Service.Orgs.{transfer_ownership}

org_by_id-owner :
    (o new : ℕ) (orgs : List Org) (org : Org)
    → find (λ p. p.id == o) orgs ≡ some org
    → find (λ p. p.id == o) (update_where (λ p. p.id == o) (λ p. record p { owner_id = new }) orgs)
      ≡ some (record org { owner_id = new })
org_by_id-owner o new [] org h = cc
org_by_id-owner o new (p ∷ ps) org h = ground (arith, org_by_id-owner o new ps org)

-- What an accepted transfer did.
pub record Transfer (db db' : Db) (org_id actor_id new_owner_id : ℕ) : Type 0 where
  pub org : Org
  pub org_was : org_by_id db org_id ≡ some org
  pub shared : org.personal ≡ false
  pub was_owner : org.owner_id ≡ actor_id
  pub actor_was : role_of db org_id actor_id ≡ some owner
  pub distinct : new_owner_id ≢ actor_id
  pub new_was_member : membership org_id new_owner_id db.members ≢ none
  pub org_is : org_by_id db' org_id ≡ some (record org { owner_id = new_owner_id })
  pub new_owner_is : role_of db' org_id new_owner_id ≡ some owner
  pub actor_is : role_of db' org_id actor_id ≡ some admin
  pub others :
      (o u : ℕ)
      → (o ≡ org_id → u ≡ actor_id → ⊥)
      → (o ≡ org_id → u ≡ new_owner_id → ⊥)
      → role_of db' o u ≡ role_of db o u

members-transfer_org :
    (o from to : ℕ) (db db1 : Db)
    → transfer_org o from to db ≡ ok db1
    → (any (is_membership o to) db.members ≡ true)
      × (db1.orgs ≡ update_where (λ p. p.id == o) (λ p. record p { owner_id = to }) db.orgs)
      × (db1.members
          ≡ write_role o from (role_text admin) (write_role o to (role_text owner) db.members))
unfolding transfer_org
members-transfer_org o from to db db1 h = elim (Bool-cases (any (is_membership o to) db.members)) [
  | inl e ↦ (e, ground arith, ground arith)
  | inr e ↦ ground arith
]

membership-any :
    (o u : ℕ) (ms : List Member) → any (is_membership o u) ms ≡ true → membership o u ms ≢ none
unfolding membership
membership-any o u [] h = cc
membership-any o u (m ∷ ms) h = λ e. ground (arith, membership-any o u ms)

-- Both rows after a transfer, whatever else the table holds.
role-transferred :
    (o u org_id from to : ℕ) (ms : List Member)
    → member_role (
        membership o u
          (write_role org_id from (role_text admin) (write_role org_id to (role_text owner) ms)))
      ≡ (if org_id == o && from == u
          then Option.map (λ _. admin) (membership o u (write_role org_id to (role_text owner) ms))
          else if org_id == o && to == u
          then Option.map (λ _. owner) (membership o u ms)
          else member_role (membership o u ms))
role-transferred o u org_id from to ms = ground (
  arith,
  role-write_role o u org_id from admin (write_role org_id to (role_text owner) ms) (λ e. cc),
  role-write_role o u org_id to owner ms (λ e. cc),
)

module _ (org_id actor_id new_owner_id : ℕ) (ms : List Member) (db' : Db) where
  abbrev Written : Type 0
  Written =
      db'.members
      ≡ write_role org_id actor_id (role_text admin)
          (write_role org_id new_owner_id (role_text owner) ms)

  mapped : (r : Role) (m : Option Member) → m ≢ none → Option.map (λ _. r) m ≡ some r
  mapped r none h = absurd (h refl)
  mapped r (some m) h = refl

  new_owner_written :
      Written
      → new_owner_id ≢ actor_id
      → membership org_id new_owner_id ms ≢ none
      → role_of db' org_id new_owner_id ≡ some owner
  new_owner_written e ne found = rw e (
      ground (
        arith,
        role-transferred org_id new_owner_id org_id actor_id new_owner_id ms,
        mapped owner (membership org_id new_owner_id ms) found,
      ))

  actor_written :
      Written
      → new_owner_id ≢ actor_id
      → membership org_id actor_id ms ≢ none
      → role_of db' org_id actor_id ≡ some admin
  actor_written e ne found = rw e (
      ground (
        arith,
        role-transferred org_id actor_id org_id actor_id new_owner_id ms,
        membership-write_role org_id actor_id org_id new_owner_id (role_text owner) ms,
        mapped admin (membership org_id actor_id ms) found,
      ))

  others_written :
      (o u : ℕ)
      → Written
      → (o ≡ org_id → u ≡ actor_id → ⊥)
      → (o ≡ org_id → u ≡ new_owner_id → ⊥)
      → role_of db' o u ≡ member_role (membership o u ms)
  others_written o u e h k =
      rw e (ground (arith, role-transferred o u org_id actor_id new_owner_id ms))

role-not_none : (m : Option Member) (r : Role) → member_role m ≡ some r → m ≢ none
unfolding member_role
role-not_none none r h = cc
role-not_none (some m) r h = λ e. cc

transfer :
    (org_id actor_id new_owner_id : ℕ) (db db1 db' : Db) (a : OrgAccess)
    → access db org_id actor_id ≡ ok a
    → (not (is_owner a.role) || not (a.org.owner_id == actor_id)) ≡ false
    → a.org.personal ≡ false
    → (new_owner_id == actor_id) ≡ false
    → transfer_org org_id actor_id new_owner_id db ≡ ok db1
    → SameRows db1 db'
    → Transfer db db' org_id actor_id new_owner_id
unfolding org_by_id
transfer org_id actor_id new_owner_id db db1 db' a req owns shared ne wrote same =
    let (found, held) = access_ok db org_id actor_id a req in
    let (there, orgs, members) = members-transfer_org org_id actor_id new_owner_id db db1 wrote in
    let is_owned : a.role ≡ owner = ground arith in
    let distinct : new_owner_id ≢ actor_id = ground arith in
    let new_found = membership-any org_id new_owner_id db.members there in
    let ms = same.members ∙ members in
    record {
      org = a.org;
      org_was = found;
      shared = shared;
      was_owner = ground arith;
      actor_was = held ∙ ap some is_owned;
      distinct = distinct;
      new_was_member = new_found;
      org_is = rw (same.orgs ∙ orgs) (org_by_id-owner org_id new_owner_id db.orgs a.org found);
      new_owner_is =
          new_owner_written org_id actor_id new_owner_id db.members db' ms distinct new_found;
      actor_is =
          actor_written org_id actor_id new_owner_id db.members db' ms distinct
            (role-not_none _ a.role held);
      others = λ o u h k. others_written org_id actor_id new_owner_id db.members db' o u ms h k;
    }

-- An accepted transfer was asked by the recorded owner of a shared organization, who held the
-- owner role, for another user who is a member; afterwards that user is the recorded owner with
-- the owner role, the old owner is an admin, and every other role is unchanged.
pub transfer_ownership_sound :
    (org_id actor_id new_owner_id : ℕ) (db db' : Db)
    → transfer_ownership org_id actor_id new_owner_id db ≡ (ok tt, db')
    → Transfer db db' org_id actor_id new_owner_id
unfolding transfer_ownership
transfer_ownership_sound org_id actor_id new_owner_id db db' h = elim (ask_ok _ _ _ _ _ h) [
  | got a req h1 ↦ elim (refuse_ok _ _ _ _ _ _ h1) [
    | got _ owns h2 ↦ elim (refuse_ok _ _ _ _ _ _ h2) [
      | got _ shared h3 ↦ elim (refuse_ok _ _ _ _ _ _ h3) [
        | got _ ne h4 ↦ elim (write_ok _ _ _ _ _ h4) [
          | passed _ db1 wrote h5 ↦
              transfer org_id actor_id new_owner_id db db1 db' a req owns shared ne wrote
                (audit_ok _ _ _ _ _ _ h5)
        ]
      ]
    ]
  ]
]
