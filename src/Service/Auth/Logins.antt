-- ===== src/Service/Auth/Logins.antt =====
-- How a sign-in can fail.
use redxt.Common.{
  ◌==◌, ◌||◌, not, Bool, true, false, any, ◌≡◌, ◌⊎◌, inl, inr, refl, ap, Option, none, some, Text,
  ◌=ᵗ◌, ℤ, ok, err, if◌then◌else◌,
}
use redxt.Store.Tables.{User, Db}
use redxt.Store.Accounts.{is_locked}
use redxt.Service.Base.{
  ServiceError, invalid_credentials, account_locked, disabled, Call, ◌>>=◌, lift, ask,
}
use redxt.Service.Auth.{
  AuthConfig, Passwords, LoginInput, lookup_identifier, admit, turn_away, stored_hash, sign_in,
  login,
}
use redxt.Service.Base.Errors.{
  OnError, bind-OnError, refuse-OnError, at_error, refuse_passes, ask_answers, refuse_same,
}
use redxt.Service.Auth.Ready.{found-any, IsReady, admit-OnError, turn_away-OnError, carried}

-- The two errors of a sign-in, the second only for a locked account.
abbrev pub IsExpected : Text → ℤ → Db → ServiceError → Type 0
IsExpected identifier now db e =
    (e ≡ invalid_credentials)
    ⊎ ((e ≡ account_locked)
        × ((u : User) × (lookup_identifier db identifier ≡ some u) × (is_locked u now ≡ true)))

module _ (hash : Text → Text) (pw : Passwords) (cfg : AuthConfig) (call : Call)
    (input : LoginInput) where
  sign_in-OnError :
      (o : Option User) (db : Db)
      → lookup_identifier db input.identifier ≡ o
      → any (λ t. t.hash =ᵗ hash call.random || t.id == call.fresh_id) db.sessions ≡ false
      → OnError (IsExpected input.identifier call.now db) (sign_in hash pw cfg call input o db).0
  unfolding lift
  sign_in-OnError none db found fresh = inl refl
  sign_in-OnError (some account) db found fresh =
      bind-OnError Expected _ _ db
        (refuse-OnError Expected _ _ db (λ locked. inr (refl, (account, found, locked))))
        (λ _ db1 passed.
          checked (pw.verify input.password (stored_hash hash pw account)) db1
            (carried hash call account (refuse_same _ _ db db1 passed) ready))
    where
      Expected : ServiceError → Type 0
      Expected = IsExpected input.identifier call.now db

      ready : IsReady hash call account.id db
      ready = record { stored = found-any db input.identifier account found; fresh = fresh }

      checked :
          (b : Bool) (db1 : Db)
          → IsReady hash call account.id db1
          → OnError Expected
              ((if b then admit hash pw cfg call input account else turn_away hash cfg call account)
                db1).0
      checked true db1 r = admit-OnError hash call account Expected (inl refl) pw cfg input db1 r
      checked false db1 r = turn_away-OnError hash call account Expected (inl refl) cfg db1 r

  login-OnError :
      (db : Db)
      → cfg.users_enabled ≡ true
      → any (λ t. t.hash =ᵗ hash call.random || t.id == call.fresh_id) db.sessions ≡ false
      → OnError (IsExpected input.identifier call.now db) (login hash pw cfg call input db).0
  unfolding login
  login-OnError db enabled fresh =
      rw (refuse_passes (not cfg.users_enabled) disabled _ db (ap not enabled))
        (asked (sign_in-OnError (lookup_identifier db input.identifier) db refl fresh))
    where
      asked :
          OnError
            (IsExpected input.identifier call.now db)
            (sign_in hash pw cfg call input (lookup_identifier db input.identifier) db).0
          → OnError
              (IsExpected input.identifier call.now db)
              ((ask (λ db. ok (lookup_identifier db input.identifier))
                  >>= sign_in hash pw cfg call input)
                db).0
      asked f =
          rw
            (ask_answers (λ db. lookup_identifier db input.identifier)
              (sign_in hash pw cfg call input) db)
            f

  -- With users enabled and a new session's hash and id unused, a sign-in that fails is answered
  -- with invalid credentials, or with account locked where the identifier names an account that
  -- is locked at that time; no other error tells an unknown account, a wrong password and an
  -- inactive account apart.
  pub login_fails_uniformly :
      (db : Db) (e : ServiceError)
      → cfg.users_enabled ≡ true
      → any (λ t. t.hash =ᵗ hash call.random || t.id == call.fresh_id) db.sessions ≡ false
      → (login hash pw cfg call input db).0 ≡ err e
      → (e ≡ invalid_credentials)
        ⊎ ((e ≡ account_locked)
            × ((u : User) × (lookup_identifier db input.identifier ≡ some u)
                × (is_locked u call.now ≡ true)))
  login_fails_uniformly db e enabled fresh h =
      at_error (IsExpected input.identifier call.now db) (login hash pw cfg call input db).0 e h
        (login-OnError db enabled fresh)
