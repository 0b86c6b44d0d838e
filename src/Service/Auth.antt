-- ===== src/Service/Auth.antt =====
-- src/server/service/auth.go and account.go: signing in, sessions and passwords. Argon2id of
-- src/security/password.go, a client of golang.org/x/crypto, is the interface `Passwords`, and SHA-256
-- the parameter `hash`.
mod Ready
pub mod Logins
pub mod Ended
pub mod Resets
use redxt.Common.{
  ℕ, ◌==◌, ◌*◌, ◌+◌, ◌-◌, ◌&&◌, ◌||◌, not, Bool, true, false, List, [], ◌∷◌, any, ltb, Option, none,
  some, find, Text, bytes, ◌=ᵗ◌, Result, ok, err, ℤ, pos, negsuc, leb_ℤ, ◌+ℤ◌, if◌then◌else◌, map,
}
use redxt.User.Name.{normalize_name}
use redxt.User.Password.{
  PasswordPolicy, PasswordError, too_short, wrong_composition, validate_password, Identifier,
  identifier_id, identifier_email, identifier_username, detect_identifier,
}
use redxt.Scheduler.Cron.Atoi.{atoi}
use redxt.Store.Tables.{User, Session, Challenge, Totp, Db}
use redxt.Store.Accounts.{
  is_active, is_locked, session_expired, challenge_usable, user_by_id, user_by_username,
  user_by_email, update_password, record_login_success, record_login_failure, create_session,
  session_by_hash, list_sessions, touch_session, delete_session, delete_user_sessions,
  create_password_reset, password_reset, consume_password_reset, delete_user_password_resets,
  totp_for_user,
}
use redxt.Service.Base.{
  ServiceError, invalid_credentials, account_locked, not_found, disabled, validation, internal,
  Message, password_length, password_composition, Call, Service, ◌>>=◌, ◌>>◌, return, refuse_if,
  lift, ask, or_error, write, write_raw, attempt,
}

-- server.users.enabled and server.users.auth.
pub record AuthConfig : Type 0 where
  pub users_enabled : Bool
  pub max_failed_logins : ℤ
  pub lockout_duration : ℤ
  pub session_duration : ℤ
  pub allow_two_factor : Bool
  pub password_policy : PasswordPolicy

-- VerifyPassword and NeedsRehash, false on an error, and HashPassword; `dummy` is the hash of a
-- password that nobody holds.
pub record Passwords : Type 0 where
  pub verify : Text → Text → Bool
  pub needs_rehash : Text → Bool
  pub hash_password : Text → Option Text
  pub dummy : Text

pub record LoginInput : Type 0 where
  pub identifier : Text
  pub password : Text
  pub ip : Text
  pub user_agent : Text

pub record LoginResult : Type 0 where
  pub user : User
  pub session_token : Text
  pub session : Session
  pub two_factor_pending : Bool

abbrev by_number : Db → Option ℤ → Option User
by_number db (some (pos id)) = user_by_id db id
by_number db _ = none

abbrev lookup_as : Db → Text → Identifier → Option User
lookup_as db raw identifier_id = by_number db (atoi raw)
lookup_as db raw identifier_email = user_by_email db (normalize_name raw)
lookup_as db raw identifier_username = user_by_username db (normalize_name raw)

-- A number goes to ParseInt untrimmed; NormalizeEmail has the body of NormalizeName.
unfoldable pub lookup_identifier : Db → Text → Option User
lookup_identifier db raw = lookup_as db raw (detect_identifier raw)

abbrev confirmed : Option Totp → Bool
confirmed none = false
confirmed (some t) = t.confirmed

unfoldable pub two_factor_enabled : AuthConfig → Db → ℕ → Bool
two_factor_enabled cfg db user_id =
    if cfg.allow_two_factor then confirmed (totp_for_user db user_id) else false

abbrev week : ℤ
week = pos 604800000000000

abbrev pub lifetime : AuthConfig → ℤ
lifetime cfg = if leb_ℤ cfg.session_duration (pos 0) then week else cfg.session_duration

module _ (hash : Text → Text) where
  abbrev pub new_session : AuthConfig → Call → ℕ → Text → Text → Bool → Session
  new_session cfg call user_id ip agent two_factor_ok = record {
    id = call.fresh_id;
    user_id = user_id;
    hash = hash call.random;
    ip = ip;
    user_agent = agent;
    two_factor_ok = two_factor_ok;
    created_at = call.now;
    last_active = call.now;
    expires_at = call.now +ℤ lifetime cfg;
  }

  unfoldable pub open_session : AuthConfig → Call → ℕ → Text → Text → Bool → Service Session
  open_session cfg call user_id ip agent two_factor_ok =
      let session = new_session cfg call user_id ip agent two_factor_ok in
      write_raw (create_session session) >> return session

  -- An account without a password is checked against the dummy, as is an unknown one.
  abbrev pub stored_hash : Passwords → User → Text
  stored_hash pw account = if account.password_hash =ᵗ [] then pw.dummy else account.password_hash

  -- The errors of hashing and of the update are passed over.
  abbrev pub rehashed : ℕ → Option Text → Service (Unit {0})
  rehashed id none = return tt
  rehashed id (some new_hash) = do
    outcome ← attempt (write_raw (update_password id new_hash))
    return tt

  abbrev pub rehash : Passwords → LoginInput → User → Service (Unit {0})
  rehash pw input account =
      if pw.needs_rehash (stored_hash pw account)
      then rehashed account.id (pw.hash_password input.password)
      else return tt

  -- What follows a right password.
  unfoldable pub admit : Passwords → AuthConfig → Call → LoginInput → User → Service LoginResult
  admit pw cfg call input account = do
    refuse_if (not (is_active account)) invalid_credentials
    rehash pw input account
    write_raw (record_login_success account.id call.now)
    two_factor ← ask (λ db. ok (two_factor_enabled cfg db account.id))
    session ← open_session cfg call account.id input.ip input.user_agent (not two_factor)
    return (record {
      user = account;
      session_token = call.random;
      session = session;
      two_factor_pending = two_factor;
    })

  -- What follows a wrong one.
  unfoldable pub turn_away : AuthConfig → Call → User → Service LoginResult
  turn_away cfg call account = do
    write_raw (record_login_failure account.id cfg.max_failed_logins cfg.lockout_duration call.now)
    lift (err invalid_credentials)

  abbrev pub sign_in :
      Passwords → AuthConfig → Call → LoginInput → Option User → Service LoginResult
  sign_in pw cfg call input none = lift (err invalid_credentials)
  sign_in pw cfg call input (some account) = do
    refuse_if (is_locked account call.now) account_locked
    if pw.verify input.password (stored_hash pw account)
        then admit pw cfg call input account
        else turn_away cfg call account

  unfoldable pub login : Passwords → AuthConfig → Call → LoginInput → Service LoginResult
  login pw cfg call input = do
    refuse_if (not cfg.users_enabled) disabled
    found ← ask (λ db. ok (lookup_identifier db input.identifier))
    sign_in pw cfg call input found

  unfoldable pub logout : Text → Service (Unit {0})
  logout token = write (delete_session (hash token))

  unfoldable pub logout_all : ℕ → Service (Unit {0})
  logout_all user_id = write (delete_user_sessions user_id)

  -- Only among the sessions of the caller.
  unfoldable pub revoke_session : ℕ → ℕ → Service (Unit {0})
  revoke_session user_id session_id = do
    s ← ask (λ db. or_error not_found (find (λ s. s.id == session_id) (list_sessions db user_id)))
    write (delete_session s.hash)

  abbrev pub live_session : Call → Session → Text → Service (Unit {0})
  live_session call s hashed =
      if session_expired s call.now
      then attempt (write (delete_session hashed)) >>= (λ _. lift (err invalid_credentials))
      else return tt

  unfoldable pub resolve_session : Call → Text → Service (User × Session)
  resolve_session call token = do
    s ← ask (λ db. or_error not_found (session_by_hash db (hash token)))
    live_session call s (hash token)
    account ← ask (λ db. or_error not_found (user_by_id db s.user_id))
    refuse_if (not (is_active account)) invalid_credentials
    write_raw (touch_session (hash token) call.now)
    return (account, s)

  abbrev policy_error : Option PasswordError → Result ServiceError (Unit {0})
  policy_error none = ok tt
  policy_error (some too_short) = err (validation password_length)
  policy_error (some wrong_composition) = err (validation password_composition)

  unfoldable pub change_password : Passwords → AuthConfig → ℕ → Text → Text → Service (Unit {0})
  change_password pw cfg user_id current next = do
    account ← ask (λ db. or_error not_found (user_by_id db user_id))
    refuse_if (not (pw.verify current account.password_hash)) invalid_credentials
    lift (policy_error (validate_password cfg.password_policy next))
    new_hash ← lift (or_error internal (pw.hash_password next))
    write (update_password user_id new_hash)
    write_raw (delete_user_password_resets user_id)
    write (delete_user_sessions user_id)

  abbrev challenge_lifetime : ℤ
  challenge_lifetime = pos 7200000000000

  abbrev reset_for : Call → Option User → Service Text
  reset_for call none = return []
  reset_for call (some account) =
      if is_active account
      then (write_raw (
            create_password_reset call.fresh_id account.id (hash call.random)
              (call.now +ℤ challenge_lifetime))
          >> return call.random)
      else return []

  -- The token is empty when no active account matched.
  unfoldable pub start_password_reset : Call → Text → Service Text
  start_password_reset call identifier = do
    found ← ask (λ db. ok (lookup_identifier db identifier))
    reset_for call found

  abbrev pub if_consumed : Result ServiceError (Unit {0}) → Result ServiceError (Unit {0})
  if_consumed (ok _) = ok tt
  if_consumed (err _) = err invalid_credentials

  unfoldable pub complete_password_reset :
      Passwords → AuthConfig → Call → Text → Text → Service (Unit {0})
  complete_password_reset pw cfg call token password = do
    c ← ask (λ db. or_error invalid_credentials (password_reset db (hash token)))
    refuse_if (not (challenge_usable c call.now)) invalid_credentials
    lift (policy_error (validate_password cfg.password_policy password))
    consumed ← attempt (write (consume_password_reset c.id call.now))
    lift (if_consumed consumed)
    new_hash ← lift (or_error internal (pw.hash_password password))
    write (update_password c.user_id new_hash)
    write (delete_user_sessions c.user_id)
