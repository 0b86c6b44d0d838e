-- ===== src/Service/Tokens/Removed.antt =====
-- A member's tokens stop with the membership.
use redxt.Common.{ℕ, ◌≡◌, ◌≢◌, false, some, Text, ok, err, trim_space, is_zero}
use redxt.Store.Tables.{Token, owner_user, Db}
use redxt.Store.Tokens.{token_by_hash}
use redxt.Service.Base.{invalid_credentials, Call}
use redxt.Service.Members.{remove_member}
use redxt.Service.Members.Removal.{remove_member_sound}
use redxt.Service.Tokens.{authenticate_token}
use redxt.Service.Tokens.Laws.{authenticate_token-no_membership}

-- After an accepted removal (at a time other than zero) of a member from an organization whose id
-- is not zero, presenting any stored user token of that member for that organization is answered
-- with invalid credentials and changes nothing.
pub removed_cannot_authenticate :
    (hash : Text → Text) (call later : Call) (org_id actor_id target_id : ℕ) (db db' : Db)
    (presented : Text) (t : Token)
    → is_zero call.now ≡ false
    → org_id ≢ 0
    → remove_member call org_id actor_id target_id db ≡ (ok tt, db')
    → token_by_hash db' (hash (trim_space presented)) ≡ some t
    → t.owner_type ≡ owner_user
    → t.owner_id ≡ target_id
    → t.org_id ≡ org_id
    → authenticate_token hash later presented db' ≡ (err invalid_credentials, db')
removed_cannot_authenticate hash call later org_id actor_id target_id db db' presented t now org
      removed found user held within =
    authenticate_token-no_membership hash later presented db' t found user (rw within org) (
      rw within (
        rw held
          ((remove_member_sound call org_id actor_id target_id db db' now removed).target_is)))
