-- ===== src/Service/Auth/Resets.antt =====
-- A password reset can be completed once.
use redxt.Common.{
  ℕ, ◌==◌, not, true, false, List, [], ◌∷◌, find, update_where, ◌≡◌, ◌∙◌, ap, some, Text, ℤ,
  is_zero, Result, ok, err, arith, Bool-cases, ==_iff, inl, inr,
}
use redxt.Store.Tables.{Challenge, Db, StoreError}
use redxt.Store.Accounts.{
  challenge_usable, has_token, unused, password_reset, consume_password_reset, update_password,
  delete_user_sessions,
}
use redxt.Service.Base.{ServiceError, invalid_credentials, Call, ◌>>=◌, attempt, write, stored}
use redxt.Service.Base.Laws.{
  got, passed, ask_ok, lift_ok, refuse_ok, write_ok, bind_ok, write_last_ok, refuse_refused,
}
use redxt.Service.Auth.{AuthConfig, Passwords, complete_password_reset, if_consumed}
use redxt.Service.Auth.Ended.{or_error_ok, unnegated}

abbrev used : ℤ → Challenge → Challenge
used now c = record c { used_at = now }

module _ (h : Text) (now : ℤ) where
  at_head :
      (k : ℕ) (r c : Challenge) (rs : List Challenge)
      → has_token h r ≡ true
      → (r.id == k) ≡ true
      → is_zero r.used_at ≡ true
      → r ≡ c
      → find (has_token h) (update_where (unused k) (used now) (r ∷ rs)) ≡ some (used now c)
  at_head k r c rs e mine open_yet same = first ∙ ap (λ d. some (used now d)) same
    where
      first : find (has_token h) (update_where (unused k) (used now) (r ∷ rs)) ≡ some (used now r)
      first = ground (arith, e, mine, open_yet)

  past_head :
      (k : ℕ) (r c : Challenge) (rs : List Challenge)
      → has_token h r ≡ false
      → find (has_token h) (update_where (unused k) (used now) rs) ≡ some (used now c)
      → find (has_token h) (update_where (unused k) (used now) (r ∷ rs)) ≡ some (used now c)
  past_head k r c rs e later = ground (arith, e, later)

  head_found :
      (r c : Challenge) (rs : List Challenge)
      → has_token h r ≡ true
      → find (has_token h) (r ∷ rs) ≡ some c
      → r ≡ c
  head_found r c rs e found = ground (arith, e, found)

  tail_found :
      (r c : Challenge) (rs : List Challenge)
      → has_token h r ≡ false
      → find (has_token h) (r ∷ rs) ≡ some c
      → find (has_token h) rs ≡ some c
  tail_found r c rs e found = ground (arith, e, found)

  find-used :
      (rs : List Challenge) (c : Challenge)
      → find (has_token h) rs ≡ some c
      → is_zero c.used_at ≡ true
      → find (has_token h) (update_where (unused c.id) (used now) rs) ≡ some (used now c)
  find-used [] c found open_yet = cc
  find-used (r ∷ rs) c found open_yet = elim (Bool-cases (has_token h r)) [
    | inl e ↦
        let same = head_found r c rs e found in
        at_head c.id r c rs e ((==_iff r.id c.id).1 (ap (λ (d : Challenge). d.id) same))
          (ap (λ (d : Challenge). is_zero d.used_at) same ∙ open_yet) same
    | inr e ↦ past_head c.id r c rs e (find-used rs c (tail_found r c rs e found) open_yet)
  ]

usable-unused : (c : Challenge) (now : ℤ) → challenge_usable c now ≡ true → is_zero c.used_at ≡ true
unfolding challenge_usable
usable-unused c now h = ground arith

used-not_usable :
    (c : Challenge) (t now : ℤ) → is_zero t ≡ false → challenge_usable (used t c) now ≡ false
unfolding challenge_usable
used-not_usable c t now h = ground arith

consumed_rows :
    (id : ℕ) (now : ℤ) (db db1 : Db)
    → consume_password_reset id now db ≡ ok db1
    → db1.resets ≡ update_where (unused id) (used now) db.resets
unfolding consume_password_reset
consumed_rows id now db db1 h = ground arith

-- A consumption whose answer lets the rest run went through.
attempted_consumption :
    (hash : Text → Text) (r : Result StoreError Db) (db db1 : Db)
    (a : Result ServiceError (Unit {0}))
    → attempt (λ _. stored db r) db ≡ (ok a, db1)
    → if_consumed hash a ≡ ok tt
    → r ≡ ok db1
unfolding attempt
attempted_consumption hash (ok d) db db1 a h i = ground arith
attempted_consumption hash (err e) db db1 (ok u) h i = cc
attempted_consumption hash (err e) db db1 (err x) h i = cc

attempt_ok :
    (hash : Text → Text) (op : Db → Result StoreError Db) (db db1 : Db)
    (a : Result ServiceError (Unit {0}))
    → attempt (write op) db ≡ (ok a, db1)
    → if_consumed hash a ≡ ok tt
    → op db ≡ ok db1
unfolding write attempt
attempt_ok hash op db db1 a h i = attempted_consumption hash (op db) db db1 a h i

password-resets :
    (id : ℕ) (h : Text) (db db1 : Db) → update_password id h db ≡ ok db1 → db1.resets ≡ db.resets
unfolding update_password
password-resets id h db db1 e = ground arith

sessions-resets :
    (id : ℕ) (db db1 : Db) → delete_user_sessions id db ≡ ok db1 → db1.resets ≡ db.resets
unfolding delete_user_sessions
sessions-resets id db db1 e = ground arith

spent :
    (h : Text) (now : ℤ) (c : Challenge) (db db1 : Db)
    → password_reset db h ≡ some c
    → is_zero c.used_at ≡ true
    → db1.resets ≡ update_where (unused c.id) (used now) db.resets
    → password_reset db1 h ≡ some (used now c)
unfolding password_reset
spent h now c db db1 found open_yet rows =
    ap (find (has_token h)) rows ∙ find-used h now db.resets c found open_yet

module _ (hash : Text → Text) (pw : Passwords) (cfg : AuthConfig) where
  -- What a completed reset leaves.
  completed :
      (call : Call) (token password : Text) (db db1 : Db)
      → complete_password_reset hash pw cfg call token password db ≡ (ok tt, db1)
      → (c : Challenge) × (password_reset db (hash token) ≡ some c)
        × (is_zero c.used_at ≡ true)
        × (db1.resets ≡ update_where (unused c.id) (used call.now) db.resets)
  unfolding complete_password_reset
  completed call token password db db1 h = elim (ask_ok _ _ _ _ _ h) [
    | got c found h1 ↦ elim (refuse_ok _ _ _ _ _ _ h1) [
      | got _ good h2 ↦ elim (lift_ok _ _ _ _ _ h2) [
        | got _ strong h3 ↦ elim (bind_ok _ _ _ _ _ h3) [
          | passed a dba tried h4 ↦ elim (lift_ok _ _ _ _ _ h4) [
            | got _ went h5 ↦ elim (lift_ok _ _ _ _ _ h5) [
              | got new_hash hashed h6 ↦ elim (write_ok _ _ _ _ _ h6) [
                | passed _ dbb wrote h7 ↦
                    let same = or_error_ok _ _ c found in
                    let open_yet = usable-unused c call.now (unnegated _ good) in
                    let gone = attempt_ok hash _ db dba a tried went in
                    (
                      c,
                      same,
                      open_yet,
                      sessions-resets c.user_id dbb db1 (write_last_ok _ _ _ h7)
                          ∙ password-resets c.user_id new_hash dba dbb wrote
                          ∙ consumed_rows c.id call.now db dba gone,
                    )
              ]
            ]
          ]
        ]
      ]
    ]
  ]

  -- After a password reset was completed with a token (at a time other than zero), completing one
  -- with the same token is refused with invalid credentials and changes nothing.
  pub reset_is_single_use :
      (first second : Call) (token password again : Text) (db db1 : Db)
      → is_zero first.now ≡ false
      → complete_password_reset hash pw cfg first token password db ≡ (ok tt, db1)
      → complete_password_reset hash pw cfg second token again db1 ≡ (err invalid_credentials, db1)
  unfolding complete_password_reset ◌>>=◌
  reset_is_single_use first second token password again db db1 later h =
      let (c, found, open_yet, rows) = completed first token password db db1 h in
      rw (spent (hash token) first.now c db db1 found open_yet rows) (
        refuse_refused (not (challenge_usable (used first.now c) second.now)) _ _ db1
          (ap not (used-not_usable c first.now second.now later)))
