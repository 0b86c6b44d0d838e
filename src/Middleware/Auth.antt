-- ===== src/Middleware/Auth.antt =====
-- src/server/middleware/auth.go: the stage that finds out who asks.
use redxt.Common.{
  Bool, true, List, [], ◌∷◌, Option, none, some, Text, ◌=ᵗ◌, trim_space, if◌then◌else◌, any,
}
use redxt.Middleware.Requests.{HttpRequest, is_blank, auth_token, Credential}

pub record AuthInfo : Type 0 where
  pub subject : Text
  pub kind : Text
  pub source : Text
  pub scopes : List Text
  pub session_id : Text

unfoldable pub has_scope : AuthInfo → Text → Bool
has_scope a scope = any (λ held. held =ᵗ scope) a.scopes

pub record TokenVerifier : Type 0 where
  pub verify_token : Text → Text → Option AuthInfo
  pub verify_session : Text → Text → Option AuthInfo

-- `none` is a nil function.
pub record AuthOptions : Type 0 where
  pub verifier : Option TokenVerifier
  pub session_cookie_names : List Text
  pub is_public_path : Option (Text → Bool)

-- One session cookie: a missing or empty one proves nothing.
session_of : TokenVerifier → Text → Option Text → Option AuthInfo
session_of v name none = none
session_of v name (some []) = none
session_of v name (some (c ∷ value)) = v.verify_session name (c ∷ value)

or_next : Option AuthInfo → Option AuthInfo → Option AuthInfo
or_next none rest = rest
or_next (some info) rest = some info

first_session : TokenVerifier → HttpRequest → List Text → Option AuthInfo
first_session v req [] = none
first_session v req (name ∷ names) =
    let rest = first_session v req names in
    if is_blank name
    then rest
    else or_next (session_of v (trim_space name) (req.cookie (trim_space name))) rest

token_identity : TokenVerifier → Option Credential → Option AuthInfo
token_identity v none = none
token_identity v (some (token, source)) = v.verify_token token source

verified_by : Option TokenVerifier → List Text → HttpRequest → Option AuthInfo
verified_by none names req = none
verified_by (some v) names req =
    or_next (first_session v req names) (token_identity v (auth_token req))

unfoldable pub resolve_identity : AuthOptions → HttpRequest → Option AuthInfo
unfolding session_of or_next first_session token_identity verified_by
resolve_identity opts req = verified_by opts.verifier opts.session_cookie_names req

-- What the stage attaches to the request, or a refusal.
pub data Identified : Type 0 where
  identified : AuthInfo → Identified
  anonymous : Identified
  unauthorized : Identified

abbrev pub may_be_anonymous : Option (Text → Bool) → Text → Bool
may_be_anonymous none path = true
may_be_anonymous (some test) path = test path

abbrev pub or_anonymous : Option AuthInfo → Bool → Identified
or_anonymous (some info) open_path = identified info
or_anonymous none open_path = if open_path then anonymous else unauthorized

-- Auth
unfoldable pub auth : AuthOptions → HttpRequest → Identified
auth opts req =
    or_anonymous (resolve_identity opts req) (may_be_anonymous opts.is_public_path req.path)
