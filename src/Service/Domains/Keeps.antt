-- ===== src/Service/Domains/Keeps.antt =====
-- What every store call of the domain operations keeps, every sequence of commands keeps.
pub mod Operations
use redxt.Common.{
  ℕ, ℤ, pos, ltb_ℤ, leb_ℤ, ◌==◌, ◌&&◌, not, Bool, true, false, List, [], ◌∷◌, ◌≡◌, refl, ap, ◌∙◌,
  sym, Option, none, some, Text, Result, ok, err, if◌then◌else◌, All, find, arith, Bool-cases,
  ==_iff, find_holds, Option-cases, inl, inr,
}
use redxt.User.Role.{Permission}
use redxt.Store.Tables.{Domain, Db, Event}
use redxt.Store.Domains.{
  has_id, verified, domain_by_id, count_org_domains, create_domain, update_domain_purpose,
  record_verification_attempt, activate_domain, suspend_domain_row, set_domain_ssl, delete_domain,
  verification_verified, verification_failed,
}
use redxt.Service.Base.{
  ServiceError, not_found, Call, Service, ◌>>=◌, return, lift, ask, or_error, audit, audit_domain,
  attempt,
}
use redxt.Service.Base.Keeps.{
  ask_keeps, lift_keeps, refuse_keeps, write_keeps, write_last_keeps, bind_keeps, return_keeps,
  ask_last_keeps,
}
use redxt.Service.Base.Laws.{got, ask_ok, refuse_ok, return_ok}
use redxt.Service.Domains.Environment.{Outside, DomainPolicy, CertManager, Certificate}
use redxt.Service.Domains.Claims.{domain_for_org, reload_domain, add_domain}
use redxt.Service.Domains.Verify.{
  check_ownership, issue_certificate, issued, ssl_outcome, issue_noting, note_failure,
  with_certificate, verification_outcome, verify_domain,
}
use redxt.Service.Domains.Serving.{
  set_domain_purpose, remove_domain, suspend_domain, renew_all, count_renewal, renew_certificates,
}
use redxt.Service.Domains.Commands.{
  DomainAction, DomainCommand, add, verify, set_purpose, remove, suspend, renew, perform_domain,
  run_domains,
}

-- The quota of AddDomain lets one more domain in.
abbrev pub within_quota : DomainPolicy → ℕ → Bool
within_quota policy held =
    not (ltb_ℤ (pos 0) policy.max_per_org && leb_ℤ policy.max_per_org (pos held))

pub record StoreKeeps (policy : DomainPolicy) (Seen : Domain → Type 0) (I : Db → Type 0)
    : Type 0 where
  pub rows : (db db1 : Db) → db1.domains ≡ db.domains → I db → I db1
  pub create :
      (d : Domain) (db db1 : Db)
      → within_quota policy (count_org_domains db d.org_id) ≡ true
      → create_domain d db ≡ ok db1
      → I db
      → I db1
  pub failed :
      (d : Domain) (now : ℤ) (db db1 : Db)
      → domain_by_id db d.id ≡ some d
      → verified d ≡ false
      → record_verification_attempt d.id verification_failed now db ≡ ok db1
      → I db
      → I db1
  pub proved :
      (d : Domain) (now : ℤ) (db db1 : Db)
      → domain_by_id db d.id ≡ some d
      → Seen d
      → record_verification_attempt d.id verification_verified now db ≡ ok db1
      → I db
      → I db1
  pub activate : (id : ℕ) (db db1 : Db) → activate_domain id db ≡ ok db1 → I db → I db1
  pub repurpose :
      (id : ℕ) (purpose : Text) (db db1 : Db)
      → update_domain_purpose id purpose db ≡ ok db1
      → I db
      → I db1
  pub suspend :
      (id : ℕ) (reason : Text) (db db1 : Db)
      → suspend_domain_row id reason db ≡ ok db1
      → I db
      → I db1
  pub ssl : (d : Domain) (db db1 : Db) → set_domain_ssl d db ≡ ok db1 → I db → I db1
  pub delete : (id : ℕ) (db db1 : Db) → delete_domain id db ≡ ok db1 → I db → I db1

module _ (I : Db → Type 0) where
  pub lift_last_keeps : {A : Type 0} (r : Result ServiceError A) (db : Db) → I db → I (lift r db).1
  unfolding lift
  lift_last_keeps r db i = i

  pub attempt_keeps :
      {A B : Type 0} (m : Service A) (k : Result ServiceError A → Service B) (db : Db)
      → I (m db).1
      → ((r : Result ServiceError A) (db1 : Db) → I db1 → I (k r db1).1)
      → I ((attempt m >>= k) db).1
  unfolding ◌>>=◌
  attempt_keeps m k db i h = h (m db).0 (m db).1 i

-- What `domain_for_org` gives: a row, found by its id, of that organization.
pub domain_for_org_ok :
    (org actor id : ℕ) (perm : Permission) (db db1 : Db) (d : Domain)
    → domain_for_org org actor id perm db ≡ (ok d, db1)
    → (domain_by_id db id ≡ some d) × (d.org_id ≡ org) × (db1 ≡ db)
unfolding domain_for_org
domain_for_org_ok org actor id perm db db1 d h = elim (ask_ok _ _ _ _ _ h) [
  | got a req h1 ↦ elim (ask_ok _ _ _ _ _ h1) [
    | got e found h2 ↦ elim (refuse_ok _ _ _ _ _ _ h2) [
      | got u same h3 ↦
          let (e1, e2) = return_ok e d db db1 h3 in (ground arith, ground arith, sym e2)
    ]
  ]
]

find-same_id :
    (m n : ℕ) (ds : List Domain) (d : Domain)
    → m ≡ n
    → find (has_id n) ds ≡ some d
    → find (has_id m) ds ≡ some d
find-same_id m n ds d e h = rw e h

found_by_id :
    (id : ℕ) (db : Db) (d : Domain) → domain_by_id db id ≡ some d → domain_by_id db d.id ≡ some d
unfolding domain_by_id
found_by_id id db d h =
    find-same_id d.id id db.domains d ((==_iff d.id id).0 (find_holds (has_id id) db.domains d h)) h

reload_ok :
    (id : ℕ) (db db1 : Db) (d : Domain)
    → reload_domain id db ≡ (ok d, db1)
    → (domain_by_id db id ≡ some d) × (db1 ≡ db)
unfolding reload_domain ask
reload_ok id db db1 d h = ground arith

module _ (I : Db → Type 0) {B : Type 0} where
  pub domain_for_org_keeps :
      (org actor id : ℕ) (perm : Permission) (k : Domain → Service B) (db : Db)
      → I db
      → ((d : Domain) → domain_by_id db d.id ≡ some d → I (k d db).1)
      → I ((domain_for_org org actor id perm >>= k) db).1
  unfolding domain_for_org
  domain_for_org_keeps org actor id perm k db i h =
      bind_keeps I _ _ db (untouched db i) (λ d db1 e _.
        let (found, _, same) = domain_for_org_ok org actor id perm db db1 d e in
        rw same (h d (found_by_id id db d found)))
    where
      untouched : (db : Db) → I db → I (domain_for_org org actor id perm db).1
      untouched db i =
          (ask_keeps I _ _ db i (λ a _.
            ask_keeps I _ _ db i (λ d _. refuse_keeps I _ _ _ db i (λ _. return_keeps I d db i))))
