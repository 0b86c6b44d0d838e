-- ===== src/Service/Auth/Ready.antt =====
-- What a sign-in needs of the database, and that its steps keep it.
use redxt.Common.{
  ℕ, ◌==◌, ◌||◌, Bool, true, false, List, [], ◌∷◌, any, find, update_where, ◌≡◌, inl, inr, refl,
  sym, ◌∙◌, ap, Option, none, some, Text, ◌=ᵗ◌, ℤ, Result, ok, arith, if◌then◌else◌, Bool-cases,
}
use redxt.User.Password.{
  Identifier, identifier_id, identifier_email, identifier_username, detect_identifier,
}
use redxt.Scheduler.Cron.Atoi.{atoi}
use redxt.Common.{pos, negsuc}
use redxt.Store.Tables.{User, Db}
use redxt.Store.Accounts.{
  is_user, user_by_id, user_by_username, user_by_email, update_user, update_password,
  record_login_success, record_login_failure, create_session,
}
use redxt.Service.Base.{
  ServiceError, invalid_credentials, Call, ◌>>=◌, return, lift, ask, write_raw, stored_raw,
}
use redxt.Service.Auth.{
  AuthConfig, Passwords, LoginInput, lookup_identifier, lookup_as, by_number, open_session,
  rehashed, rehash, admit, turn_away, stored_hash,
}
use redxt.Service.Base.Errors.{
  OnError, bind-OnError, refuse-OnError, Settles, settle_then, refuse_same,
}

find-any_user :
    (p : User → Bool) (us : List User) (u : User)
    → find p us ≡ some u
    → any (is_user u.id) us ≡ true
find-any_user p [] u h = cc
find-any_user p (v ∷ us) u h = ground (arith, find-any_user p us u)

looked_up-any :
    (db : Db) (raw : Text) (i : Identifier) (u : User)
    → lookup_as db raw i ≡ some u
    → any (is_user u.id) db.users ≡ true
unfolding user_by_id user_by_email user_by_username
looked_up-any db raw identifier_id u h = numbered (atoi raw) h
  where
    numbered : (z : Option ℤ) → by_number db z ≡ some u → any (is_user u.id) db.users ≡ true
    numbered none h = cc
    numbered (some (negsuc n)) h = cc
    numbered (some (pos n)) h = find-any_user _ db.users u h
looked_up-any db raw identifier_email u h = find-any_user _ db.users u h
looked_up-any db raw identifier_username u h = find-any_user _ db.users u h

pub found-any :
    (db : Db) (raw : Text) (u : User)
    → lookup_identifier db raw ≡ some u
    → any (is_user u.id) db.users ≡ true
unfolding lookup_identifier
found-any db raw u h = looked_up-any db raw (detect_identifier raw) u h

any-update_user :
    (id k : ℕ) (f : User → User) (us : List User)
    → ((u : User) → (f u).id ≡ u.id)
    → any (is_user k) (update_where (is_user id) f us) ≡ any (is_user k) us
any-update_user id k f [] same = refl
any-update_user id k f (u ∷ us) same =
    ground (arith, any-update_user id k f us same, ap (λ i. i == k) (same u))

any-find_user :
    (id : ℕ) (us : List User)
    → any (is_user id) us ≡ true
    → (u : User) × (find (is_user id) us ≡ some u)
any-find_user id [] h = cc
any-find_user id (u ∷ us) h = elim (Bool-cases (is_user id u)) [
  | inl e ↦ (u, rw e refl)
  | inr e ↦ let (v, found) = any-find_user id us (ground (arith, h, e)) in (v, rw e found)
]

module _ (hash : Text → Text) (call : Call) (id : ℕ) where
  -- The account is stored, and the session to be opened is new.
  pub record IsReady (db : Db) : Type 0 where
    pub stored : any (is_user id) db.users ≡ true
    pub fresh : any (λ t. t.hash =ᵗ hash call.random || t.id == call.fresh_id) db.sessions ≡ false

  -- A write on the row of the account succeeds.
  updated-ok :
      (f : User → User) (db : Db)
      → IsReady db
      → update_user id f db ≡ ok (record db { users = update_where (is_user id) f db.users })
  updated-ok f db r = rw r.stored refl

  updated-IsReady :
      (f : User → User) (db : Db)
      → ((u : User) → (f u).id ≡ u.id)
      → IsReady db
      → IsReady (record db { users = update_where (is_user id) f db.users })
  updated-IsReady f db same r = record {
    stored = any-update_user id id f db.users same ∙ r.stored;
    fresh = r.fresh;
  }

  update-Settles :
      (f : User → User) (db : Db)
      → ((u : User) → (f u).id ≡ u.id)
      → IsReady db
      → Settles IsReady (write_raw (update_user id f)) db
  unfolding write_raw
  update-Settles f db same r =
      (_, ap (stored_raw db) (updated-ok f db r), updated-IsReady f db same r)

abbrev Unitary : Type 0
Unitary = Result ServiceError (Unit {0}) × Db

module _ (hash : Text → Text) (call : Call) (account : User) where
  abbrev Ready : Db → Type 0
  Ready = IsReady hash call account.id

  pub carried : {db db1 : Db} → db1 ≡ db → Ready db → Ready db1
  carried e r = rw e r

  rehashed-Settles :
      (o : Option Text) (db : Db) → Ready db → Settles Ready (rehashed hash account.id o) db
  unfolding update_password return ◌>>=◌
  rehashed-Settles none db r = (db, refl, r)
  rehashed-Settles (some h) db r =
      let (db1, e, i) =
        update-Settles hash call account.id
          (λ u. record u { password_hash = h; failed_logins = 0; locked_until = pos 0 }) db
          (λ u. refl) r in
      (db1, ap (λ (q : Unitary). (ok tt, q.1)) e, i)

  rehash-Settles :
      (pw : Passwords) (input : LoginInput) (db : Db)
      → Ready db
      → Settles Ready (rehash hash pw input account) db
  unfolding return
  rehash-Settles pw input db r =
      chosen (pw.needs_rehash (stored_hash hash pw account)) (pw.hash_password input.password)
    where
      chosen :
          (b : Bool) (o : Option Text)
          → Settles Ready (if b then rehashed hash account.id o else return tt) db
      chosen true o = rehashed-Settles o db r
      chosen false o = (db, refl, r)

  success-Settles :
      (db : Db) → Ready db → Settles Ready (write_raw (record_login_success account.id call.now)) db
  unfolding record_login_success
  success-Settles db r = update-Settles hash call account.id _ db (λ u. refl) r

  failure-Settles :
      (cfg : AuthConfig) (db : Db)
      → Ready db
      → Settles Ready
          (write_raw
            (record_login_failure account.id cfg.max_failed_logins cfg.lockout_duration call.now))
          db
  unfolding record_login_failure user_by_id write_raw
  failure-Settles cfg db r =
      let (u, found) = any-find_user account.id db.users r.stored in
      rw found (update-Settles hash call account.id _ db (λ u. refl) r)

  module _ (E : ServiceError → Type 0) (refused : E invalid_credentials) where
    open_session-OnError :
        (cfg : AuthConfig) (ip agent : Text) (two_factor_ok : Bool) (db : Db)
        → Ready db
        → OnError E (open_session hash cfg call account.id ip agent two_factor_ok db).0
    unfolding open_session create_session write_raw ◌>>=◌ return
    open_session-OnError cfg ip agent two_factor_ok db r = rw r.fresh tt

    pub admit-OnError :
        (pw : Passwords) (cfg : AuthConfig) (input : LoginInput) (db : Db)
        → Ready db
        → OnError E (admit hash pw cfg call input account db).0
    unfolding admit ask return
    admit-OnError pw cfg input db r =
        bind-OnError E _ _ db (refuse-OnError E _ _ db (λ _. refused)) (λ _ db0 passed.
          settle_then E Ready _ _ db0
            (rehash-Settles pw input db0 (carried (refuse_same _ _ db db0 passed) r))
            (λ db1 r1. settle_then E Ready _ _ db1 (success-Settles db1 r1) (λ db2 r2.
              bind-OnError E _ _ db2 tt (λ two_factor db3 asked.
                bind-OnError E _ _ db3
                  (open_session-OnError cfg input.ip input.user_agent _ db3
                    (carried (sym (ap (λ (q : Result ServiceError Bool × Db). q.1) asked)) r2))
                  (λ _ _ _. tt)))))

    pub turn_away-OnError :
        (cfg : AuthConfig) (db : Db) → Ready db → OnError E (turn_away hash cfg call account db).0
    unfolding turn_away lift
    turn_away-OnError cfg db r =
        settle_then E Ready _ _ db (failure-Settles cfg db r) (λ _ _. refused)
