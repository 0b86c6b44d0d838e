-- ===== src/Service/Tokens.antt =====
-- src/server/service/token.go, and ParseScope of src/security/token.go: API tokens, which act for
-- their holder inside one organization.
pub mod Laws
pub mod Issue
pub mod RoundTrip
pub mod Removed
use redxt.Common.{
  ℕ, ℤ, pos, ◌==◌, ◌+ℤ◌, ltb_ℤ, leb_ℤ, not, Bool, true, false, ◌&&◌, ◌||◌, Option, none, some, [],
  Text, bytes, ◌=ᵗ◌, take, ◌++◌, trim_space, Result, ok, err, if◌then◌else◌, map,
}
use redxt.User.Role.{
  Role, viewer, Permission, tokens_manage, records_write, to_permission, parse_role, role_text, can,
  cap_role,
}
use redxt.Store.Tables.{
  Org, Token, OwnerType, owner_user, owner_org, owner_admin, Db, token_issued, token_revoked,
  usable, allows_capability, allows_zone,
}
use redxt.Store.Tokens.{
  create_token, token_by_hash, token_by_id, count_live_tokens, touch_token, revoke_token_row,
}
use redxt.Service.Base.{
  ServiceError, invalid_credentials, not_found, forbidden, disabled, quota_exceeded, validation,
  Message, unknown_organization_role, token_name_required, token_org_required, unknown_token_scope,
  unknown_token_capability, Config, Call, Service, ◌>>=◌, ◌>>◌, return, refuse_if, lift, ask,
  or_error, write, audit,
}
use redxt.Service.Access.{OrgAccess, access, require}
use redxt.Service.Invites.{day_span}
use redxt.Service.Zones.{can_edit_zone}

pub data Scope : Type 0 where
  scope_global scope_read_write scope_read : Scope

-- ParseScope; an empty string is the global scope.
unfoldable pub parse_scope : Text → Option Scope
parse_scope s =
    if s =ᵗ []
    then some scope_global
    else if s =ᵗ bytes "global"
    then some scope_global
    else if s =ᵗ bytes "read-write"
    then some scope_read_write
    else if s =ᵗ bytes "read"
    then some scope_read
    else none

abbrev pub scope_text : Scope → Text
scope_text scope_global = bytes "global"
scope_text scope_read_write = bytes "read-write"
scope_text scope_read = bytes "read"

pub record IssueTokenInput : Type 0 where
  pub name : Text
  pub org_id : ℕ
  pub zone_id : ℕ
  pub capability : Text
  pub role : Text
  pub scope : Text
  pub expires_in : ℤ

abbrev pub capability_acme_challenge : Text
capability_acme_challenge = bytes "acme-challenge"

abbrev pub capability_metrics_read : Text
capability_metrics_read = bytes "metrics:read"

abbrev special : Text → Bool
special name = name =ᵗ capability_acme_challenge || name =ᵗ capability_metrics_read

-- The role that is asked for: the issuer's own where the input names none.
unfoldable pub requested_role : Role → Text → Result ServiceError Role
requested_role own [] = ok own
requested_role own raw = or_error (validation unknown_organization_role) (parse_role raw)

unfoldable pub requested_scope : Text → Result ServiceError Scope
requested_scope [] = ok scope_read
requested_scope raw = or_error (validation unknown_token_scope) (parse_scope raw)

-- No user issues a global token, and a read-write one needs a role that writes.
unfoldable pub scope_refused : Scope → Role → Bool
scope_refused scope_global role = true
scope_refused scope_read_write role = not (can role records_write)
scope_refused scope_read role = false

abbrev zone_answer : Result ServiceError Bool → Result ServiceError (Unit {0})
zone_answer (err e) = err e
zone_answer (ok true) = ok tt
zone_answer (ok false) = err forbidden

-- A token narrowed to a zone needs one that its issuer may edit.
unfoldable pub zone_allowed : Db → ℕ → ℕ → ℕ → Result ServiceError (Unit {0})
zone_allowed db org_id user_id zone_id =
    if zone_id == 0 then ok tt else zone_answer (can_edit_zone db org_id user_id zone_id)

unfoldable pub capability_refused : Text → Role → Bool
capability_refused name role =
    not (name =ᵗ []) && not (special name) && not (can role (to_permission name))

module _ (cfg : Config) (hash : Text → Text) (call : Call) where
  -- The input's life, or the configured days, or no expiry.
  abbrev pub expiry : ℤ → ℤ
  expiry expires_in =
      if ltb_ℤ (pos 0) expires_in
      then call.now +ℤ expires_in
      else if ltb_ℤ (pos 0) cfg.tokens_expiration_days
      then call.now +ℤ day_span cfg.tokens_expiration_days
      else pos 0

  abbrev pub secret : Text
  secret = bytes "usr_" ++ call.random

  abbrev pub new_token : ℕ → IssueTokenInput → Role → Scope → Token
  new_token user_id input role scope = record {
    id = call.fresh_id;
    owner_type = owner_user;
    owner_id = user_id;
    name = trim_space input.name;
    hash = hash secret;
    prefix = take 8 secret;
    scope = scope_text scope;
    role = role_text role;
    org_id = input.org_id;
    zone_id = input.zone_id;
    capability = trim_space input.capability;
    last_used_at = pos 0;
    revoked_at = pos 0;
    expires_at = expiry input.expires_in;
  }

  -- The checks that stand before any write, and the role and scope that they settle on.
  unfoldable pub check_issue : ℕ → IssueTokenInput → Db → Result ServiceError (Role × Scope) × Db
  check_issue user_id input = do
    refuse_if (not cfg.tokens_enabled) disabled
    refuse_if (trim_space input.name =ᵗ []) (validation token_name_required)
    refuse_if (input.org_id == 0) (validation token_org_required)
    a ← ask (λ db. require db input.org_id user_id tokens_manage)
    requested ← lift (requested_role a.role input.role)
    scope ← lift (requested_scope input.scope)
    refuse_if (scope_refused scope (cap_role a.role requested)) forbidden
    ask (λ db. zone_allowed db input.org_id user_id input.zone_id)
    refuse_if (capability_refused (trim_space input.capability) (cap_role a.role requested))
        (validation unknown_token_capability)
    live ← ask (λ db. ok (count_live_tokens db owner_user user_id call.now))
    refuse_if (ltb_ℤ (pos 0) cfg.tokens_max_per_user && leb_ℤ cfg.tokens_max_per_user (pos live))
        quota_exceeded
    return (cap_role a.role requested, scope)

  -- The plaintext secret, which exists in the answer alone.
  unfoldable pub issue_token : ℕ → IssueTokenInput → Service Text
  issue_token user_id input = do
    settled ← check_issue user_id input
    write (create_token (new_token user_id input settled.0 settled.1))
    audit input.org_id token_issued user_id 0
    return secret

abbrev is_users : OwnerType → Bool
is_users owner_user = true
is_users _ = false

-- A token of somebody else is reported as not found.
unfoldable pub revoke_token : Call → ℕ → ℕ → Service (Unit {0})
revoke_token call user_id token_id = do
  t ← ask (λ db. or_error not_found (token_by_id db token_id))
  refuse_if (not (is_users t.owner_type) || not (t.owner_id == user_id)) not_found
  write (revoke_token_row token_id call.now)
  (if t.org_id == 0 then return tt else audit t.org_id token_revoked user_id 0)

unfoldable pub revoke_org_token : Call → ℕ → ℕ → ℕ → Service (Unit {0})
revoke_org_token call org_id actor_id token_id = do
  a ← ask (λ db. require db org_id actor_id tokens_manage)
  t ← ask (λ db. or_error not_found (token_by_id db token_id))
  refuse_if (not (t.org_id == org_id)) not_found
  write (revoke_token_row token_id call.now)
  audit org_id token_revoked actor_id t.owner_id

pub record TokenAuth : Type 0 where
  pub token : Token
  pub role : Role
  pub scope : Scope

-- TokenAuth.AllowsCapability
unfoldable pub auth_allows_capability : TokenAuth → Text → Bool
auth_allows_capability a name =
    if not (allows_capability a.token name)
    then false
    else if special name
    then a.token.capability =ᵗ name || can a.role records_write
    else can a.role (to_permission name)

-- TokenAuth.AllowsZone
unfoldable pub auth_allows_zone : TokenAuth → ℕ → Bool
auth_allows_zone a zone_id = allows_zone a.token zone_id

abbrev capped : Result ServiceError OrgAccess → Option Role → Result ServiceError Role
capped (err e) granted = err invalid_credentials
capped (ok a) none = err invalid_credentials
capped (ok a) (some granted) = ok (cap_role a.role granted)

abbrev or_viewer : Option Role → Role
or_viewer none = viewer
or_viewer (some r) = r

abbrev or_read : Option Scope → Scope
or_read none = scope_read
or_read (some s) = s

-- A user token is only as good as the membership behind it.
unfoldable pub standing : Db → Token → Result ServiceError Role
standing db t =
    if is_users t.owner_type && not (t.org_id == 0)
    then capped (access db t.org_id t.owner_id) (parse_role t.role)
    else ok (or_viewer (parse_role t.role))

abbrev usable_token : Call → Option Token → Result ServiceError Token
usable_token call none = err invalid_credentials
usable_token call (some t) = if usable t call.now then ok t else err invalid_credentials

module _ (hash : Text → Text) (call : Call) where
  unfoldable pub authenticate_token : Text → Service TokenAuth
  authenticate_token presented = do
    refuse_if (trim_space presented =ᵗ []) invalid_credentials
    t ← ask (λ db. usable_token call (token_by_hash db (hash (trim_space presented))))
    role ← ask (λ db. standing db t)
    (λ db. (
      ok (record { token = t; role = role; scope = or_read (parse_scope t.scope) }),
      touch_token t.id call.now db,
    ))
