-- ===== src/Service/Base/Errors.antt =====
-- The errors that an operation can answer with, step by step.
use redxt.Common.{Bool, true, false, ◌≡◌, refl, Result, ok, err}
use redxt.Store.Tables.{Db}
use redxt.Service.Base.{ServiceError, Service, continue, ◌>>=◌, refuse_if, ask}

-- Of the error of an answer, if it is one.
abbrev pub OnError : {A : Type 0} → (ServiceError → Type 0) → Result ServiceError A → Type 0
OnError E (ok a) = Unit
OnError E (err e) = E e

module _ (E : ServiceError → Type 0) {A B : Type 0} where
  pub bind-OnError :
      (m : Service A) (k : A → Service B) (db : Db)
      → OnError E (m db).0
      → ((a : A) (db1 : Db) → m db ≡ (ok a, db1) → OnError E (k a db1).0)
      → OnError E ((m >>= k) db).0
  unfolding ◌>>=◌
  bind-OnError m k db f g = continued (m db) refl f
    where
      continued :
          (r : Result ServiceError A × Db)
          → m db ≡ r
          → OnError E r.0
          → OnError E (continue r.0 r.1 k).0
      continued (ok a, db1) e f = g a db1 e
      continued (err x, db1) e f = f

module _ (E : ServiceError → Type 0) where
  pub refuse-OnError :
      (b : Bool) (e : ServiceError) (db : Db) → (b ≡ true → E e) → OnError E (refuse_if b e db).0
  unfolding refuse_if
  refuse-OnError true e db h = h refl
  refuse-OnError false e db h = tt

err_inj :
    {A : Type 0} (x y : ServiceError) → ◌≡◌ {A = Result ServiceError A} (err x) (err y) → x ≡ y
err_inj x y h = cc

pub at_error :
    {A : Type 0} (E : ServiceError → Type 0) (r : Result ServiceError A) (e : ServiceError)
    → r ≡ err e
    → OnError E r
    → E e
at_error E (ok a) e h f = cc
at_error E (err x) e h f = rw (← err_inj x e h) f

-- A service that answers `tt`, and leaves a database of which `I` holds.
abbrev pub Settles : (Db → Type 0) → Service (Unit {0}) → Db → Type 0
Settles I m db = (db1 : Db) × (m db ≡ (ok tt, db1)) × I db1

pub settle_then :
    {B : Type 0} (E : ServiceError → Type 0) (I : Db → Type 0) (m : Service (Unit {0}))
    (k : Unit {0} → Service B) (db : Db)
    → Settles I m db
    → ((db1 : Db) → I db1 → OnError E (k tt db1).0)
    → OnError E ((m >>= k) db).0
unfolding ◌>>=◌
settle_then E I m k db (db1, e, i) g = rw e (g db1 i)

pub refuse_passes :
    {B : Type 0} (b : Bool) (e : ServiceError) (k : Unit {0} → Service B) (db : Db)
    → b ≡ false
    → (refuse_if b e >>= k) db ≡ k tt db
unfolding ◌>>=◌
refuse_passes true e k db h = cc
refuse_passes false e k db h = refl

pub ask_answers :
    {A B : Type 0} (a : Db → A) (k : A → Service B) (db : Db)
    → (ask (λ db. ok (a db)) >>= k) db ≡ k (a db) db
unfolding ◌>>=◌
ask_answers a k db = refl

pub refuse_same :
    (b : Bool) (e : ServiceError) (db db1 : Db) {u : Unit {0}}
    → refuse_if b e db ≡ (ok u, db1)
    → db1 ≡ db
unfolding refuse_if
refuse_same true e db db1 h = cc
refuse_same false e db db1 h = cc
