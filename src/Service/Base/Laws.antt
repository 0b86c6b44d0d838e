-- ===== src/Service/Base/Laws.antt =====
-- Inversion of an operation that succeeded, step by step.
use redxt.Common.{ℕ, ◌≡◌, refl, Bool, true, false, Result, ok, err, arith}
use redxt.Store.Tables.{Db, StoreError, Event}
use redxt.Service.Base.{
  ServiceError, Service, continue, refuse_if, return, stored, ask, lift, write, audit, ◌>>=◌,
}

-- A step gave `a`, of which `P` holds, and the rest `k a` ran from `db1`.
pub data Passed {A B : Type 0} (P : A → Db → Type 0) (k : A → Service B) (b : B) (db' : Db)
    : Type 0 where
  passed : (a : A) (db1 : Db) → P a db1 → k a db1 ≡ (ok b, db') → Passed P k b db'

-- The same for a step that leaves the database alone.
pub data Read {A B : Type 0} (P : A → Type 0) (k : A → Service B) (db : Db) (b : B) (db' : Db)
    : Type 0 where
  got : (a : A) → P a → k a db ≡ (ok b, db') → Read P k db b db'

module _ {A B : Type 0} where
  continue_ok :
      (r : Result ServiceError A) (db : Db) (k : A → Service B) (b : B) (db' : Db)
      → continue r db k ≡ (ok b, db')
      → Read (λ a. r ≡ ok a) k db b db'
  continue_ok (ok a) db k b db' h = got a refl h
  continue_ok (err e) db k b db' h = cc

  pub ask_ok :
      (f : Db → Result ServiceError A) (k : A → Service B) (db db' : Db) (b : B)
      → (ask f >>= k) db ≡ (ok b, db')
      → Read (λ a. f db ≡ ok a) k db b db'
  unfolding ◌>>=◌
  ask_ok f k db db' b h = continue_ok (f db) db k b db' h

  pub lift_ok :
      (r : Result ServiceError A) (k : A → Service B) (db db' : Db) (b : B)
      → (lift r >>= k) db ≡ (ok b, db')
      → Read (λ a. r ≡ ok a) k db b db'
  unfolding ◌>>=◌
  lift_ok r k db db' b h = continue_ok r db k b db' h

  continue_pair :
      (r : Result ServiceError A × Db) (k : A → Service B) (b : B) (db' : Db)
      → continue r.0 r.1 k ≡ (ok b, db')
      → Passed (λ a db1. r ≡ (ok a, db1)) k b db'
  continue_pair (ok a, db1) k b db' h = passed a db1 refl h
  continue_pair (err e, db1) k b db' h = cc

  pub bind_ok :
      (m : Service A) (k : A → Service B) (db db' : Db) (b : B)
      → (m >>= k) db ≡ (ok b, db')
      → Passed (λ a db1. m db ≡ (ok a, db1)) k b db'
  unfolding ◌>>=◌
  bind_ok m k db db' b h = continue_pair (m db) k b db' h

module _ {B : Type 0} where
  pub refuse_ok :
      (c : Bool) (e : ServiceError) (k : Unit {0} → Service B) (db db' : Db) (b : B)
      → (refuse_if c e >>= k) db ≡ (ok b, db')
      → Read (λ _. c ≡ false) k db b db'
  unfolding ◌>>=◌
  refuse_ok true e k db db' b h = cc
  refuse_ok false e k db db' b h = got tt refl h

  stored_ok :
      (db : Db) (r : Result StoreError Db) (k : Unit {0} → Service B) (b : B) (db' : Db)
      → continue (stored db r).0 (stored db r).1 k ≡ (ok b, db')
      → Passed (λ _ db1. r ≡ ok db1) k b db'
  stored_ok db (ok db1) k b db' h = passed tt db1 refl h
  stored_ok db (err e) k b db' h = cc

  pub write_ok :
      (op : Db → Result StoreError Db) (k : Unit {0} → Service B) (db db' : Db) (b : B)
      → (write op >>= k) db ≡ (ok b, db')
      → Passed (λ _ db1. op db ≡ ok db1) k b db'
  unfolding ◌>>=◌
  write_ok op k db db' b h = stored_ok db (op db) k b db' h

pub return_ok :
    {A : Type 0} (a b : A) (db db' : Db) → return a db ≡ (ok b, db') → (a ≡ b) × (db ≡ db')
unfolding return
return_ok a b db db' h = ground arith

-- Only the audit trail differs.
pub record SameRows (db db' : Db) : Type 0 where
  pub orgs : db'.orgs ≡ db.orgs
  pub members : db'.members ≡ db.members
  pub invites : db'.invites ≡ db.invites
  pub tokens : db'.tokens ≡ db.tokens
  pub grants : db'.grants ≡ db.grants
  pub zones : db'.zones ≡ db.zones
  pub domains : db'.domains ≡ db.domains

pub audit_ok :
    (o : ℕ) (e : Event) (a t : ℕ) (db db' : Db) → audit o e a t db ≡ (ok tt, db') → SameRows db db'
unfolding audit
audit_ok o e a t db db' h = ground arith

-- An operation whose first step is refused.
pub ask_refused :
    {A B : Type 0} (f : Db → Result ServiceError A) (k : A → Service B) (e : ServiceError) (db : Db)
    → f db ≡ err e
    → (ask f >>= k) db ≡ (err e, db)
unfolding ◌>>=◌
ask_refused f k e db h = rw h refl

pub bind_refused :
    {A B : Type 0} (m : Service A) (k : A → Service B) (e : ServiceError) (db : Db)
    → m db ≡ (err e, db)
    → (m >>= k) db ≡ (err e, db)
unfolding ◌>>=◌
bind_refused m k e db h = rw h refl

pub refuse_refused :
    {B : Type 0} (c : Bool) (e : ServiceError) (k : Unit {0} → Service B) (db : Db)
    → c ≡ true
    → (refuse_if c e >>= k) db ≡ (err e, db)
unfolding ◌>>=◌
refuse_refused true e k db h = refl
refuse_refused false e k db h = cc

stored_last : (db db' : Db) (r : Result StoreError Db) → stored db r ≡ (ok tt, db') → r ≡ ok db'
stored_last db db' (ok d) h = ground arith
stored_last db db' (err e) h = cc

pub write_last_ok :
    (op : Db → Result StoreError Db) (db db' : Db) → write op db ≡ (ok tt, db') → op db ≡ ok db'
unfolding write
write_last_ok op db db' h = stored_last db db' (op db) h
