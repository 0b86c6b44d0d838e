-- ===== src/Store/Accounts.antt =====
-- src/server/store/user.go, session.go and credential.go, and src/server/model/user.go: accounts, their
-- sessions and password resets.
use redxt.Common.{
  ℕ, suc, ◌==◌, ◌&&◌, ◌||◌, not, Bool, true, false, List, [], ◌∷◌, ◌++◌, Option, none, some, keep,
  any, find, update_where, Text, bytes, ◌=ᵗ◌, to_lower, trim_space, Result, ok, err, ℤ, pos, ltb_ℤ,
  leb_ℤ, ◌+ℤ◌, is_zero, if◌then◌else◌,
}
use redxt.Store.Tables.{User, Session, Challenge, Totp, Db, StoreError, row_not_found, row_conflict}

-- User.Active
unfoldable pub is_active : User → Bool
is_active u = u.status =ᵗ bytes "active"

-- User.Locked
unfoldable pub is_locked : User → ℤ → Bool
is_locked u now = not (is_zero u.locked_until) && ltb_ℤ now u.locked_until

-- Session.Expired
unfoldable pub session_expired : Session → ℤ → Bool
session_expired s now = not (is_zero s.expires_at) && not (ltb_ℤ now s.expires_at)

-- Challenge.Usable
unfoldable pub challenge_usable : Challenge → ℤ → Bool
challenge_usable c now =
    if not (is_zero c.used_at) then false else is_zero c.expires_at || ltb_ℤ now c.expires_at

abbrev pub is_user : ℕ → User → Bool
is_user id u = u.id == id

unfoldable pub user_by_id : Db → ℕ → Option User
user_by_id db id = find (is_user id) db.users

unfoldable pub user_by_username : Db → Text → Option User
user_by_username db username =
    let wanted = to_lower (trim_space username) in find (λ u. u.username =ᵗ wanted) db.users

unfoldable pub user_by_email : Db → Text → Option User
user_by_email db email =
    let wanted = to_lower (trim_space email) in find (λ u. u.email =ᵗ wanted) db.users

-- `UPDATE users SET … WHERE id = ?`
abbrev pub update_user : ℕ → (User → User) → Db → Result StoreError Db
update_user id f db =
    if any (is_user id) db.users
    then ok (record db { users = update_where (is_user id) f db.users })
    else err row_not_found

unfoldable pub update_password : ℕ → Text → Db → Result StoreError Db
update_password id hash =
    update_user id (λ u. record u { password_hash = hash; failed_logins = 0; locked_until = pos 0 })

unfoldable pub record_login_success : ℕ → ℤ → Db → Result StoreError Db
record_login_success id now =
    update_user id (λ u. record u { failed_logins = 0; locked_until = pos 0; last_login_at = now })

-- The counter and the lock that follow one more failure.
unfoldable pub lock_after : ℕ → ℤ → ℤ → ℤ → ℤ
lock_after failed max lock_for now =
    if ltb_ℤ (pos 0) max && leb_ℤ max (pos failed) then now +ℤ lock_for else pos 0

abbrev pub failed_once : ℤ → ℤ → ℤ → ℕ → Option User → Db → Result StoreError Db
failed_once max lock_for now id none db = err row_not_found
failed_once max lock_for now id (some u) db =
    update_user id
      (λ v. record v {
        failed_logins = suc u.failed_logins;
        locked_until = lock_after (suc u.failed_logins) max lock_for now;
      })
      db

-- The row is read, and then written.
unfoldable pub record_login_failure : ℕ → ℤ → ℤ → ℤ → Db → Result StoreError Db
record_login_failure id max lock_for now db = failed_once max lock_for now id (user_by_id db id) db

abbrev pub has_hash : Text → Session → Bool
has_hash hash s = s.hash =ᵗ hash

-- The hash is unique, and so is the primary key.
unfoldable pub create_session : Session → Db → Result StoreError Db
create_session s db =
    if any (λ t. t.hash =ᵗ s.hash || t.id == s.id) db.sessions
    then err row_conflict
    else ok (record db { sessions = db.sessions ++ s ∷ [] })

unfoldable pub session_by_hash : Db → Text → Option Session
session_by_hash db hash = find (has_hash hash) db.sessions

unfoldable pub list_sessions : Db → ℕ → List Session
list_sessions db user_id = keep (λ s. s.user_id == user_id) db.sessions

abbrev update_session : Text → (Session → Session) → Db → Result StoreError Db
update_session hash f db =
    if any (has_hash hash) db.sessions
    then ok (record db { sessions = update_where (has_hash hash) f db.sessions })
    else err row_not_found

unfoldable pub touch_session : Text → ℤ → Db → Result StoreError Db
touch_session hash now = update_session hash (λ s. record s { last_active = now })

unfoldable pub mark_session_two_factor : Text → Db → Result StoreError Db
mark_session_two_factor hash = update_session hash (λ s. record s { two_factor_ok = true })

unfoldable pub delete_session : Text → Db → Result StoreError Db
delete_session hash db =
    if any (has_hash hash) db.sessions
    then ok (record db { sessions = keep (λ s. not (has_hash hash s)) db.sessions })
    else err row_not_found

unfoldable pub delete_user_sessions : ℕ → Db → Result StoreError Db
delete_user_sessions user_id db =
    ok (record db { sessions = keep (λ s. not (s.user_id == user_id)) db.sessions })

unfoldable pub purge_expired_sessions : ℤ → Db → Result StoreError Db
purge_expired_sessions cutoff db = ok (record db {
  sessions = keep (λ s. is_zero s.expires_at || ltb_ℤ cutoff s.expires_at) db.sessions;
})

-- The hash is unique, and so is the primary key.
unfoldable pub create_password_reset : ℕ → ℕ → Text → ℤ → Db → Result StoreError Db
create_password_reset id user_id hash expires db =
    if any (λ c. c.token_hash =ᵗ hash || c.id == id) db.resets
    then err row_conflict
    else ok (record db {
      resets =
          db.resets
          ++ record {
            id = id;
            user_id = user_id;
            token_hash = hash;
            used_at = pos 0;
            expires_at = expires;
          }
            ∷ [];
    })

abbrev pub has_token : Text → Challenge → Bool
has_token hash c = c.token_hash =ᵗ hash

unfoldable pub password_reset : Db → Text → Option Challenge
password_reset db hash = find (has_token hash) db.resets

-- `WHERE id = ? AND used_at IS NULL`
abbrev pub unused : ℕ → Challenge → Bool
unused id c = c.id == id && is_zero c.used_at

unfoldable pub consume_password_reset : ℕ → ℤ → Db → Result StoreError Db
consume_password_reset id now db =
    if any (unused id) db.resets
    then ok (record db {
      resets = update_where (unused id) (λ c. record c { used_at = now }) db.resets;
    })
    else err row_not_found

unfoldable pub delete_user_password_resets : ℕ → Db → Result StoreError Db
delete_user_password_resets user_id db =
    ok (record db { resets = keep (λ c. not (c.user_id == user_id)) db.resets })

unfoldable pub totp_for_user : Db → ℕ → Option Totp
totp_for_user db user_id = find (λ t. t.user_id == user_id) db.totps
