-- ===== src/Middleware/Requests.antt =====
-- The request as the stages read it, with src/server/middleware/util.go and the credential sources
-- of src/urlvars/request.go.
use redxt.Common.{
  ℕ, Bool, true, false, List, [], ◌∷◌, Option, none, some, Text, bytes, ◌=ᵗ◌, trim_space, to_lower,
  ◌==◌, if◌then◌else◌,
}

-- `header` is http.Header.Get: the first value of a header, or "". `cookie` is Request.Cookie with
-- the value of the cookie, `form` is PostFormValue, and `query` is URL.Query().Get.
pub record HttpRequest : Type 0 where
  pub method : Text
  pub path : Text
  pub raw_path : Text
  pub raw_query : Text
  pub host : Text
  pub remote_addr : Text
  pub tls : Bool
  pub header : Text → Text
  pub cookie : Text → Option Text
  pub form : Text → Text
  pub query : Text → Text

abbrev pub is_blank : Text → Bool
is_blank s = trim_space s =ᵗ []

-- equalFold, over ASCII.
unfoldable pub equal_fold : Text → Text → Bool
equal_fold a b = to_lower (trim_space a) =ᵗ to_lower (trim_space b)

unfoldable pub request_scheme : HttpRequest → Text
request_scheme req = if req.tls then bytes "https" else bytes "http"

-- strings.Cut at one byte: what stands before it and, where it is found, what stands after it.
cut_more : Bool → ℕ → Text × Option Text → Text → Text × Option Text
cut_more true c rest s = ([], some s)
cut_more false c (before, after) s = (c ∷ before, after)

unfoldable pub cut : ℕ → Text → Text × Option Text
unfolding cut_more
cut sep [] = ([], none)
cut sep (c ∷ s) = cut_more (c == sep) c (cut sep s) s

abbrev pub bearer : Text
bearer = bytes "Authorization Bearer"

abbrev token_headers : List Text
token_headers =
    bytes "X-API-Key"
    ∷ bytes "API-Key"
    ∷ bytes "ApiKey"
    ∷ bytes "X-Auth-Token"
    ∷ bytes "X-Access-Token"
    ∷ bytes "X-Token"
    ∷ bytes "Token"
    ∷ []

-- A credential and its source.
abbrev pub Credential : Type 0
Credential = Text × Text

scheme_source : Text → Option Text
scheme_source scheme =
    if scheme =ᵗ bytes "bearer"
    then some bearer
    else if scheme =ᵗ bytes "basic"
    then some (bytes "Authorization Basic")
    else if scheme =ᵗ bytes "digest"
    then some (bytes "Authorization Digest")
    else none

labelled : Text → Option Text → Option Credential
labelled [] source = none
labelled (c ∷ credentials) none = none
labelled (c ∷ credentials) (some source) = some (c ∷ credentials, source)

split_credentials : Text × Option Text → Option Credential
split_credentials (scheme, none) = none
split_credentials (scheme, some rest) = labelled (trim_space rest) (scheme_source (to_lower scheme))

-- authorizationToken
unfoldable pub authorization_token : Text → Option Credential
unfolding split_credentials labelled scheme_source
authorization_token raw = split_credentials (cut b' ' (trim_space raw))

first_header : HttpRequest → List Text → Option Credential
first_header req [] = labelled (trim_space (req.query (bytes "token"))) (some (bytes "query:token"))
first_header req (name ∷ names) =
    if is_blank (req.header name)
    then first_header req names
    else some (trim_space (req.header name), name)

or_headers : HttpRequest → Option Credential → Option Credential
or_headers req none = first_header req token_headers
or_headers req (some c) = some c

-- AuthToken: `none` is the pair of empty texts.
unfoldable pub auth_token : HttpRequest → Option Credential
unfolding first_header or_headers labelled
auth_token req = or_headers req (authorization_token (req.header (bytes "Authorization")))
