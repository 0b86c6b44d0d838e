-- ===== src/Service/Base/Keeps.antt =====
-- A predicate on the database that a step hands on to whatever runs after it, failed steps included.
use redxt.Common.{◌≡◌, refl, Bool, true, false, Result, ok, err}
use redxt.Store.Tables.{Db, StoreError}
use redxt.Service.Base.{
  ServiceError, Service, continue, refuse_if, return, stored, ask, lift, write, ◌>>=◌,
}

module _ (I : Db → Type 0) {A B : Type 0} where
  continue_keeps :
      (r : Result ServiceError A) (db : Db) (k : A → Service B)
      → I db
      → ((a : A) → r ≡ ok a → I (k a db).1)
      → I (continue r db k).1
  continue_keeps (ok a) db k i h = h a refl
  continue_keeps (err e) db k i h = i

  pub ask_keeps :
      (f : Db → Result ServiceError A) (k : A → Service B) (db : Db)
      → I db
      → ((a : A) → f db ≡ ok a → I (k a db).1)
      → I ((ask f >>= k) db).1
  unfolding ◌>>=◌
  ask_keeps f k db i h = continue_keeps (f db) db k i h

  pub lift_keeps :
      (r : Result ServiceError A) (k : A → Service B) (db : Db)
      → I db
      → ((a : A) → r ≡ ok a → I (k a db).1)
      → I ((lift r >>= k) db).1
  unfolding ◌>>=◌
  lift_keeps r k db i h = continue_keeps r db k i h

  pub bind_keeps :
      (m : Service A) (k : A → Service B) (db : Db)
      → I (m db).1
      → ((a : A) (db1 : Db) → m db ≡ (ok a, db1) → I db1 → I (k a db1).1)
      → I ((m >>= k) db).1
  unfolding ◌>>=◌
  bind_keeps m k db i h = paired (m db) refl i
    where
      paired : (r : Result ServiceError A × Db) → m db ≡ r → I r.1 → I (continue r.0 r.1 k).1
      paired (ok a, db1) e i = h a db1 e i
      paired (err f, db1) e i = i

module _ (I : Db → Type 0) {B : Type 0} where
  pub refuse_keeps :
      (c : Bool) (e : ServiceError) (k : Unit {0} → Service B) (db : Db)
      → I db
      → (c ≡ false → I (k tt db).1)
      → I ((refuse_if c e >>= k) db).1
  unfolding ◌>>=◌
  refuse_keeps true e k db i h = i
  refuse_keeps false e k db i h = h refl

  stored_keeps :
      (db : Db) (r : Result StoreError Db) (k : Unit {0} → Service B)
      → I db
      → ((db1 : Db) → r ≡ ok db1 → I (k tt db1).1)
      → I (continue (stored db r).0 (stored db r).1 k).1
  stored_keeps db (ok db1) k i h = h db1 refl
  stored_keeps db (err e) k i h = i

  pub write_keeps :
      (op : Db → Result StoreError Db) (k : Unit {0} → Service B) (db : Db)
      → I db
      → ((db1 : Db) → op db ≡ ok db1 → I (k tt db1).1)
      → I ((write op >>= k) db).1
  unfolding ◌>>=◌
  write_keeps op k db i h = stored_keeps db (op db) k i h

module _ (I : Db → Type 0) where
  pub write_last_keeps :
      (op : Db → Result StoreError Db) (db : Db)
      → I db
      → ((db1 : Db) → op db ≡ ok db1 → I db1)
      → I (write op db).1
  unfolding write
  write_last_keeps op db i h = last (op db) h
    where
      last : (r : Result StoreError Db) → ((db1 : Db) → r ≡ ok db1 → I db1) → I (stored db r).1
      last (ok db1) h = h db1 refl
      last (err e) h = i

  pub return_keeps : {A : Type 0} (a : A) (db : Db) → I db → I (return a db).1
  unfolding return
  return_keeps a db i = i

  pub ask_last_keeps :
      {A : Type 0} (f : Db → Result ServiceError A) (db : Db) → I db → I (ask f db).1
  unfolding ask
  ask_last_keeps f db i = i
