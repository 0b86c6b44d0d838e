-- ===== src/Service/Auth/Ended.antt =====
-- A change of the password ends the sessions of the account.
use redxt.Common.{
  ℕ, ◌==◌, not, Bool, true, false, ◌≡◌, ◌≢◌, refl, sym, ◌∙◌, ap, find, find_kept, find_holds, keep,
  Option, none, some, Text, ok, arith, ==_iff,
}
use redxt.Store.Tables.{User, Session, Db}
use redxt.Store.Accounts.{
  session_by_hash, user_by_id, has_hash, is_user, is_active, delete_user_sessions,
}
use redxt.Service.Base.{ServiceError, Call, or_error, not_found}
use redxt.Service.Base.Laws.{
  got, passed, ask_ok, lift_ok, refuse_ok, write_ok, bind_ok, write_last_ok, return_ok,
}
use redxt.Service.Auth.{AuthConfig, Passwords, change_password, resolve_session}

pub or_error_ok :
    {A : Type 0} (e : ServiceError) (o : Option A) (a : A) → or_error e o ≡ ok a → o ≡ some a
or_error_ok e none a h = cc
or_error_ok e (some b) a h = cc

pub unnegated : (b : Bool) → not b ≡ false → b ≡ true
unnegated true h = refl
unnegated false h = cc

other_owner : (i j : ℕ) → not (i == j) ≡ true → i ≢ j
other_owner i j h e = ground arith

sessions_left :
    (user_id : ℕ) (db db1 : Db)
    → delete_user_sessions user_id db ≡ ok db1
    → db1.sessions ≡ keep (λ t. not (t.user_id == user_id)) db.sessions
unfolding delete_user_sessions
sessions_left user_id db db1 h = ground arith

module _ (hash : Text → Text) where
  pub record Resolution (db : Db) (token : Text) (u : User) (s : Session) : Type 0 where
    pub stored : session_by_hash db (hash token) ≡ some s
    pub owner : u.id ≡ s.user_id
    pub active : is_active u ≡ true

  owner_id : (db : Db) (id : ℕ) (u : User) → user_by_id db id ≡ some u → u.id ≡ id
  unfolding user_by_id
  owner_id db id u h = (==_iff u.id id).0 (find_holds (is_user id) db.users u h)

  of_lookups-Resolution :
      (db db1 : Db) (token : Text) (t : Session) (account u : User) (s : Session)
      → or_error not_found (session_by_hash db (hash token)) ≡ ok t
      → or_error not_found (user_by_id db1 t.user_id) ≡ ok account
      → not (is_active account) ≡ false
      → ◌≡◌ {A = User × Session} (account, t) (u, s)
      → Resolution db token u s
  of_lookups-Resolution db db1 token t account u s found by_id on e =
      let eu = ap (λ (p : User × Session). p.0) e in
      let es = ap (λ (p : User × Session). p.1) e in
      record {
        stored = or_error_ok _ _ t found ∙ ap some es;
        owner =
            ap (λ (v : User). v.id) (sym eu)
            ∙ owner_id db1 t.user_id account (or_error_ok _ _ account by_id)
            ∙ ap (λ (r : Session). r.user_id) es;
        active = ap is_active (sym eu) ∙ unnegated (is_active account) on;
      }

  pub resolve_session_ok :
      (call : Call) (token : Text) (db db' : Db) (u : User) (s : Session)
      → resolve_session hash call token db ≡ (ok (u, s), db')
      → Resolution db token u s
  unfolding resolve_session
  resolve_session_ok call token db db' u s h = elim (ask_ok _ _ _ _ _ h) [
    | got t found h1 ↦ elim (bind_ok _ _ _ _ _ h1) [
      | passed _ db1 live h2 ↦ elim (ask_ok _ _ _ _ _ h2) [
        | got account by_id h3 ↦ elim (refuse_ok _ _ _ _ _ _ h3) [
          | got _ is_on h4 ↦ elim (bind_ok _ _ _ _ _ h4) [
            | passed _ db2 touched h5 ↦
                of_lookups-Resolution db db1 token t account u s found by_id is_on
                  (return_ok {A = User × Session} (account, t) (u, s) db2 db' h5).0
          ]
        ]
      ]
    ]
  ]

  -- After this, no session of the user is left.
  ended :
      (call : Call) (user_id : ℕ) (token : Text) (db db1 db' : Db) (u : User) (s : Session)
      → delete_user_sessions user_id db ≡ ok db1
      → resolve_session hash call token db1 ≡ (ok (u, s), db')
      → u.id ≢ user_id
  unfolding delete_user_sessions session_by_hash
  ended call user_id token db db1 db' u s h r =
      let found = resolve_session_ok call token db1 db' u s r in
      λ same.
        other_owner s.user_id user_id
          (find_kept (has_hash (hash token)) (λ t. not (t.user_id == user_id)) db.sessions s
            (ap (find (has_hash (hash token))) (sym (sessions_left user_id db db1 h))
              ∙ found.stored))
          (sym found.owner ∙ same)

  -- After an accepted change of a user's password no token resolves to that user's account.
  pub change_password_ends_sessions :
      (pw : Passwords) (cfg : AuthConfig) (call : Call) (user_id : ℕ) (current next token : Text)
      (db db1 db' : Db) (u : User) (s : Session)
      → change_password hash pw cfg user_id current next db ≡ (ok tt, db1)
      → resolve_session hash call token db1 ≡ (ok (u, s), db')
      → u.id ≢ user_id
  unfolding change_password
  change_password_ends_sessions pw cfg call user_id current next token db db1 db' u s h r =
      elim (ask_ok _ _ _ _ _ h) [
        | got account found h1 ↦ elim (refuse_ok _ _ _ _ _ _ h1) [
          | got _ right h2 ↦ elim (lift_ok _ _ _ _ _ h2) [
            | got _ good h3 ↦ elim (lift_ok _ _ _ _ _ h3) [
              | got new_hash hashed h4 ↦ elim (write_ok _ _ _ _ _ h4) [
                | passed _ dba wrote h5 ↦ elim (bind_ok _ _ _ _ _ h5) [
                  | passed _ dbb gone h6 ↦
                      ended call user_id token dbb db1 db' u s (write_last_ok _ _ _ h6) r
                ]
              ]
            ]
          ]
        ]
      ]
