-- ===== src/Service/Domains/Isolation.antt =====
-- A custom domain of another organization looks like one that does not exist.
use redxt.Common.{
  ℕ, ◌==◌, not, Bool, true, false, List, ◌≡◌, ◌≢◌, ◌∙◌, ap, refl, Option, none, some, keep, find,
  Result, ok, err, arith, [], ◌∷◌,
}
use redxt.User.Role.{Permission}
use redxt.Store.Tables.{Domain, Db}
use redxt.Store.Domains.{has_id, domain_by_id}
use redxt.Store.Orgs.{org_by_id}
use redxt.Service.Base.{ServiceError, not_found, Call, Service, ◌>>=◌, refuse_if, continue}
use redxt.Service.Base.Laws.{bind_refused, refuse_refused}
use redxt.Service.Access.{OrgAccess, access, require}
use redxt.Service.Domains.Environment.{Outside, DomainPolicy}
use redxt.Service.Domains.Claims.{domain_for_org}
use redxt.Service.Domains.Verify.{verify_domain}
use redxt.Service.Domains.Serving.{set_domain_purpose, remove_domain, suspend_domain}
use redxt.Service.Domains.Commands.{
  DomainAction, add, verify, set_purpose, remove, suspend, renew, perform_domain,
}

-- The domain that an action names.
abbrev pub target : DomainAction → Option ℕ
target (add raw purpose) = none
target (verify id) = some id
target (set_purpose id purpose) = some id
target (remove id) = some id
target (suspend id reason) = some id
target renew = none

-- The database without the domain of an id.
abbrev pub without_domain : ℕ → Db → Db
without_domain id db = record db { domains = keep (λ d. not (has_id id d)) db.domains }

abbrev refusal : Result ServiceError OrgAccess → ServiceError
refusal (err e) = e
refusal (ok a) = not_found

find-kept : (id : ℕ) (ds : List Domain) → find (has_id id) (keep (λ d. not (has_id id d)) ds) ≡ none
find-kept id [] = refl
find-kept id (d ∷ ds) = ground (arith, find-kept id ds)

continue_refused :
    {B : Type 0} (r : Result ServiceError OrgAccess) (db : Db) (k : OrgAccess → Service B)
    → ((a : OrgAccess) → k a db ≡ (err not_found, db))
    → continue r db k ≡ (err (refusal r), db)
continue_refused (err e) db k h = refl
continue_refused (ok a) db k h = h a

foreign_refused :
    (org actor id : ℕ) (perm : Permission) (db : Db) (d : Domain)
    → domain_by_id db id ≡ some d
    → d.org_id ≢ org
    → domain_for_org org actor id perm db ≡ (err (refusal (require db org actor perm)), db)
unfolding domain_for_org ◌>>=◌
foreign_refused org actor id perm db d found foreign =
    continue_refused (require db org actor perm) db _
      (λ a. rw found (refuse_refused (not (d.org_id == org)) _ _ db (ground arith)))

absent_refused :
    (org actor id : ℕ) (perm : Permission) (db : Db)
    → domain_by_id db id ≡ none
    → domain_for_org org actor id perm db ≡ (err (refusal (require db org actor perm)), db)
unfolding domain_for_org ◌>>=◌
absent_refused org actor id perm db missing =
    continue_refused (require db org actor perm) db _ (λ a. rw missing refl)

require-without_domain :
    (id org actor : ℕ) (perm : Permission) (db : Db)
    → require (without_domain id db) org actor perm ≡ require db org actor perm
unfolding require access org_by_id
require-without_domain id org actor perm db = refl

without_domain_absent : (id : ℕ) (db : Db) → domain_by_id (without_domain id db) id ≡ none
unfolding domain_by_id
without_domain_absent id db = find-kept id db.domains

-- An operation that a foreign domain does not tell from an absent one.
pub record AsAbsent {A : Type 0} (m : Service A) (id : ℕ) (db : Db) : Type 0 where
  pub error : ServiceError
  pub answer : m db ≡ (err error, db)
  pub answer_without : m (without_domain id db) ≡ (err error, without_domain id db)

bind-AsAbsent :
    {A B : Type 0} (m : Service A) (k : A → Service B) (id : ℕ) (db : Db)
    → AsAbsent m id db
    → AsAbsent (m >>= k) id db
bind-AsAbsent m k id db h = record {
  error = h.error;
  answer = bind_refused m k h.error db h.answer;
  answer_without = bind_refused m k h.error _ h.answer_without;
}

refuse-AsAbsent :
    {B : Type 0} (c : Bool) (e : ServiceError) (k : Unit {0} → Service B) (id : ℕ) (db : Db)
    → AsAbsent (k tt) id db
    → AsAbsent (refuse_if c e >>= k) id db
unfolding ◌>>=◌
refuse-AsAbsent true e k id db h = record { error = e; answer = refl; answer_without = refl }
refuse-AsAbsent false e k id db h = record {
  error = h.error;
  answer = h.answer;
  answer_without = h.answer_without;
}

loaded-AsAbsent :
    {B : Type 0} (org actor i id : ℕ) (perm : Permission) (k : Domain → Service B) (db : Db)
    (d : Domain)
    → some i ≡ some id
    → domain_by_id db id ≡ some d
    → d.org_id ≢ org
    → AsAbsent (domain_for_org org actor i perm >>= k) id db
loaded-AsAbsent org actor i id perm k db d t found foreign = bind-AsAbsent _ k id db (
    rw (same_target t) (record {
      error = refusal (require db org actor perm);
      answer = foreign_refused org actor id perm db d found foreign;
      answer_without =
          absent_refused org actor id perm (without_domain id db) (without_domain_absent id db)
          ∙ ap (λ r. (err (refusal r), without_domain id db))
              (require-without_domain id org actor perm db);
    }))
  where
    same_target : {a b : ℕ} → some a ≡ some b → a ≡ b
    same_target e = cc

-- An action on a custom domain by the id of a domain of another organization is refused and
-- changes nothing, with the same error as in the database without that domain.
pub foreign_domain_hidden :
    (policy : DomainPolicy) (out : Outside) (call : Call) (org actor id : ℕ) (action : DomainAction)
    (db : Db) (d : Domain)
    → target action ≡ some id
    → domain_by_id db id ≡ some d
    → d.org_id ≢ org
    → AsAbsent (perform_domain policy out call org actor action) id db
unfolding perform_domain verify_domain set_domain_purpose remove_domain suspend_domain
foreign_domain_hidden policy out call org actor id (add raw purpose) db d t found foreign = cc
foreign_domain_hidden policy out call org actor id (verify i) db d t found foreign =
    bind-AsAbsent _ _ id db (loaded-AsAbsent org actor i id _ _ db d t found foreign)
foreign_domain_hidden policy out call org actor id (set_purpose i purpose) db d t found foreign =
    refuse-AsAbsent _ _ _ id db (loaded-AsAbsent org actor i id _ _ db d t found foreign)
foreign_domain_hidden policy out call org actor id (remove i) db d t found foreign =
    loaded-AsAbsent org actor i id _ _ db d t found foreign
foreign_domain_hidden policy out call org actor id (suspend i reason) db d t found foreign =
    loaded-AsAbsent org actor i id _ _ db d t found foreign
foreign_domain_hidden policy out call org actor id renew db d t found foreign = cc
