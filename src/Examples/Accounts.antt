-- ===== src/Examples/Accounts.antt =====
-- Ada mistypes a password, changes it, and resets it; Bob stays signed in.
use redxt.Common.{
  pos, ◌≡◌, ◌≢◌, ◌⊎◌, refl, [], ◌∷◌, ◌++◌, some, ok, err, true, false, bytes, ◌=ᵗ◌, trim_space,
  trim_left, to_lower,
}
use redxt.User.Name.{normalize_name}
use redxt.User.Password.{validate_password, detect_identifier}
use redxt.Store.Tables.{User, Session, Db}
use redxt.Store.Accounts.{
  is_active, is_locked, session_expired, challenge_usable, user_by_id, user_by_username,
  session_by_hash, touch_session, update_password, record_login_failure, lock_after,
  delete_user_password_resets, delete_user_sessions, password_reset, consume_password_reset,
}
use redxt.Service.Base.{◌>>=◌, write_raw, invalid_credentials, account_locked}
use redxt.Service.Auth.{
  AuthConfig, Passwords, LoginInput, lookup_identifier, login, turn_away, change_password,
  resolve_session, complete_password_reset,
}
use redxt.Service.Auth.Logins.{login_fails_uniformly}
use redxt.Service.Auth.Ended.{change_password_ends_sessions}
use redxt.Service.Auth.Resets.{reset_is_single_use}
use redxt.Examples.Data.{db, at, plain, ada}

abbrev auth_config : AuthConfig
auth_config = record {
  users_enabled = true;
  max_failed_logins = pos 5;
  lockout_duration = pos 900;
  session_duration = pos 1000;
  allow_two_factor = true;
  password_policy = record {
    min_length = pos 6;
    require_uppercase = false;
    require_lowercase = true;
    require_number = false;
    require_special = false;
  };
}

abbrev passwords : Passwords
passwords = record {
  verify = λ password stored. (bytes "h:" ++ password) =ᵗ stored;
  needs_rehash = λ stored. false;
  hash_password = λ password. some (bytes "h:" ++ password);
  dummy = bytes "h:nobody";
}

abbrev mistyped : LoginInput
mistyped = record { identifier = bytes "Ada"; password = bytes "secrte"; ip = []; user_agent = [] }

refused : (login plain passwords auth_config (at 10) mistyped db).0 ≡ err invalid_credentials
unfolding login write_raw ◌>>=◌ lookup_identifier detect_identifier trim_space trim_left to_lower
    ◌=ᵗ◌ normalize_name user_by_username is_locked turn_away record_login_failure user_by_id
    lock_after
refused = refl

login_fails_uniformly_example :
    (invalid_credentials ≡ invalid_credentials)
    ⊎ ((invalid_credentials ≡ account_locked)
        × ((u : User) × (lookup_identifier db mistyped.identifier ≡ some u)
            × (is_locked u (pos 10) ≡ true)))
login_fails_uniformly_example =
    login_fails_uniformly plain passwords auth_config (at 10) mistyped db invalid_credentials refl
      refl refused

abbrev bob : User
bob = record ada { id = 2; username = bytes "bob"; email = bytes "bob@acme.com" }

abbrev bobs_session : Session
bobs_session = record {
  id = 3;
  user_id = 2;
  hash = bytes "b";
  ip = [];
  user_agent = [];
  two_factor_ok = true;
  created_at = pos 1;
  last_active = pos 1;
  expires_at = pos 1000;
}

abbrev both : Db
both = record db {
  users = ada ∷ bob ∷ [];
  sessions = record bobs_session { id = 4; user_id = 1; hash = bytes "a" } ∷ bobs_session ∷ [];
}

abbrev after_change : Db
after_change =
    (change_password plain passwords auth_config 1 (bytes "secret") (bytes "newsecret") both).1

changed :
    change_password plain passwords auth_config 1 (bytes "secret") (bytes "newsecret") both
    ≡ (ok tt, after_change)
unfolding change_password write_raw ◌>>=◌ user_by_id ◌=ᵗ◌ validate_password update_password
    delete_user_password_resets delete_user_sessions
changed = refl

still_there :
    resolve_session plain (at 20) (bytes "b") after_change
    ≡ (ok (bob, bobs_session), (resolve_session plain (at 20) (bytes "b") after_change).1)
unfolding resolve_session write_raw session_by_hash session_expired is_active touch_session
    change_password ◌>>=◌ user_by_id ◌=ᵗ◌ validate_password update_password
    delete_user_password_resets delete_user_sessions
still_there = refl

change_password_ends_sessions_example : bob.id ≢ 1
change_password_ends_sessions_example =
    change_password_ends_sessions plain passwords auth_config (at 20) 1 (bytes "secret")
      (bytes "newsecret") (bytes "b") both after_change _ bob bobs_session changed still_there

abbrev after_reset : Db
after_reset =
    (complete_password_reset plain passwords auth_config (at 30) (bytes "reset") (bytes "another")
      db).1

reset :
    complete_password_reset plain passwords auth_config (at 30) (bytes "reset") (bytes "another") db
    ≡ (ok tt, after_reset)
unfolding complete_password_reset ◌>>=◌ password_reset challenge_usable ◌=ᵗ◌ validate_password
    consume_password_reset update_password delete_user_sessions
reset = refl

reset_is_single_use_example :
    complete_password_reset plain passwords auth_config
      (at 40)
      (bytes "reset")
      (bytes "third")
      after_reset
    ≡ (err invalid_credentials, after_reset)
reset_is_single_use_example =
    reset_is_single_use plain passwords auth_config (at 30) (at 40) (bytes "reset")
      (bytes "another") (bytes "third") db after_reset refl reset
