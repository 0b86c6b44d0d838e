-- ===== src/Examples/Tokens.antt =====
-- A token of the admin: issued, presented, and presented again after the admin has left.
use redxt.Common.{
  pos, ◌≡◌, refl, inr, some, ok, err, Text, bytes, ◌=ᵗ◌, trim_space, to_lower, ◌+ℤ◌, ◌<ℤ◌, arith,
}
use redxt.User.Role.{admin, parse_role, to_role, can, can_manage_member, cap_role}
use redxt.User.Name.{normalize_name}
use redxt.Store.Tables.{Db, Token, usable}
use redxt.Store.Orgs.{org_by_id}
use redxt.Store.Members.{membership, revoke_held}
use redxt.Store.Members as Store
use redxt.Store.Tokens.{create_token, count_live_tokens, token_by_hash, touch_token}
use redxt.Service.Base.{◌>>=◌, invalid_credentials}
use redxt.Service.Access.{access, require, member_role}
use redxt.Service.Members.{remove_member, may_remove}
use redxt.Service.Tokens.{
  scope_read_write, parse_scope, requested_role, requested_scope, scope_refused, zone_allowed,
  capability_refused, TokenAuth, standing, check_issue, issue_token, new_token, expiry,
  authenticate_token,
}
use redxt.Service.Tokens.Issue.{Issued, issue_token_sound}
use redxt.Service.Tokens.Laws.{Authentic, authenticate_token_sound}
use redxt.Service.Tokens.RoundTrip.{authenticate-issue}
use redxt.Service.Tokens.Removed.{removed_cannot_authenticate}
use redxt.Examples.Data.{db, config, at, plain, deploy_token}

abbrev answer : Text
answer = bytes "usr_r4nd0m"

abbrev issued_db : Db
issued_db = (issue_token config plain (at 10) 2 deploy_token db).1

issues : issue_token config plain (at 10) 2 deploy_token db ≡ (ok answer, issued_db)
unfolding issue_token check_issue ◌>>=◌ require access org_by_id member_role membership parse_role
    to_role normalize_name ◌=ᵗ◌ trim_space to_lower can cap_role requested_role requested_scope
    parse_scope scope_refused zone_allowed capability_refused count_live_tokens create_token
issues = refl

issue_token_sound_example : Issued config plain (at 10) 2 deploy_token db issued_db answer
issue_token_sound_example =
    issue_token_sound config plain (at 10) 2 deploy_token db issued_db answer issues

trimmed : trim_space answer ≡ answer
unfolding trim_space
trimmed = refl

abbrev issued_token : Token
issued_token = new_token config plain (at 10) 2 deploy_token admin scope_read_write

abbrev admins_auth : TokenAuth
admins_auth = record { token = issued_token; role = admin; scope = scope_read_write }

later_than_20 : pos 20 <ℤ expiry config plain (at 10) (pos 50)
unfolding ◌+ℤ◌
later_than_20 = omega arith

authenticate-issue_example :
    (i : Issued config plain (at 10) 2 deploy_token db issued_db answer) × (authenticate_token plain
        (at 20)
        answer
        issued_db
      ≡ (
        ok (record {
          token = new_token config plain (at 10) 2 deploy_token i.role i.scope;
          role = i.role;
          scope = i.scope;
        }),
        touch_token 9 (pos 20) issued_db,
      ))
authenticate-issue_example =
    authenticate-issue config plain (at 10) (at 20) 2 deploy_token db issued_db answer issues
      trimmed (inr later_than_20)

authenticated :
    authenticate_token plain (at 20) answer issued_db
    ≡ (ok admins_auth, touch_token 9 (pos 20) issued_db)
unfolding issue_token check_issue ◌>>=◌ require access org_by_id member_role membership parse_role
    to_role normalize_name ◌=ᵗ◌ trim_space to_lower can cap_role requested_role requested_scope
    parse_scope scope_refused zone_allowed capability_refused count_live_tokens create_token
    authenticate_token standing token_by_hash usable ◌+ℤ◌
authenticated = refl

authenticate_token_sound_example : Authentic plain (at 20) answer issued_db admins_auth
authenticate_token_sound_example =
    authenticate_token_sound plain (at 20) answer issued_db (touch_token 9 (pos 20) issued_db)
      admins_auth authenticated

abbrev left_db : Db
left_db = (remove_member (at 30) 1 1 2 issued_db).1

leaves : remove_member (at 30) 1 1 2 issued_db ≡ (ok tt, left_db)
unfolding issue_token check_issue ◌>>=◌ require access org_by_id member_role membership parse_role
    to_role normalize_name ◌=ᵗ◌ trim_space to_lower can cap_role requested_role requested_scope
    parse_scope scope_refused zone_allowed capability_refused count_live_tokens create_token
    remove_member may_remove can_manage_member Store.remove_member
leaves = refl

abbrev revoked_token : Token
revoked_token = record issued_token { revoked_at = pos 30 }

still_stored : token_by_hash left_db (plain (trim_space answer)) ≡ some revoked_token
unfolding issue_token check_issue ◌>>=◌ require access org_by_id member_role membership parse_role
    to_role normalize_name ◌=ᵗ◌ trim_space to_lower can cap_role requested_role requested_scope
    parse_scope scope_refused zone_allowed capability_refused count_live_tokens create_token
    remove_member may_remove can_manage_member Store.remove_member revoke_held token_by_hash
still_stored = refl

removed_cannot_authenticate_example :
    authenticate_token plain (at 40) answer left_db ≡ (err invalid_credentials, left_db)
removed_cannot_authenticate_example =
    removed_cannot_authenticate plain (at 30) (at 40) 1 1 2 issued_db left_db answer revoked_token
      refl (λ e. ground arith) leaves still_stored refl refl refl
