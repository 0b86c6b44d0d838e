-- ===== src/Middleware/Csrf.antt =====
-- src/server/middleware/csrf.go. `glob` stands for path.Match, `parse_origin` for url.Parse with the
-- scheme and the host of what it read.
pub mod Laws
use redxt.Common.{
  ℕ, Bool, true, false, ◌&&◌, ◌||◌, not, List, [], ◌∷◌, ◌++◌, Option, none, some, Text, bytes, ◌=ᵗ◌,
  trim_space, if◌then◌else◌, any,
}
use redxt.RateLimit.Paths.{matches_any_path}
use redxt.Middleware.Requests.{
  HttpRequest, is_blank, equal_fold, request_scheme, cut, auth_token, bearer, Credential,
}

abbrev pub csrf_safe_methods : List Text
csrf_safe_methods = bytes "GET" ∷ bytes "HEAD" ∷ bytes "OPTIONS" ∷ bytes "TRACE" ∷ []

abbrev csrf_header_names : List Text
csrf_header_names = bytes "X-CSRF-Token" ∷ bytes "X-XSRF-Token" ∷ []

-- `none` is a nil function.
pub record CsrfOptions : Type 0 where
  pub enabled : Bool
  pub exempt_paths : List Text
  pub session_cookie_names : List Text
  pub session_same_site_strict : Bool
  pub cookie_name : Text
  pub header_names : List Text
  pub field_name : Text
  pub is_public_path : Option (Text → Bool)
  pub self_origin : Option (HttpRequest → Text)

-- What a guarding stage does with a request.
pub data Passage : Type 0 where
  admitted : Passage
  forbidden : Passage

unfoldable pub is_safe_method : Text → Bool
is_safe_method method = any (◌=ᵗ◌ method) csrf_safe_methods

unfoldable pub is_web_socket_upgrade : HttpRequest → Bool
is_web_socket_upgrade req = equal_fold (req.header (bytes "Upgrade")) (bytes "websocket")

abbrev pub holds_for : Option (Text → Bool) → Text → Bool
holds_for none path = false
holds_for (some test) path = test path

abbrev pub origin_of : HttpRequest → Text
origin_of req = trim_space (req.header (bytes "Origin"))

abbrev pub referer_of : HttpRequest → Text
referer_of req = trim_space (req.header (bytes "Referer"))

unfoldable pub has_origin_or_referer : HttpRequest → Bool
has_origin_or_referer req = not (origin_of req =ᵗ []) || not (referer_of req =ᵗ [])

is_bearer : Option Credential → Bool
is_bearer none = false
is_bearer (some (token, source)) = source =ᵗ bearer

unfoldable pub has_programmatic_credential : HttpRequest → Bool
unfolding is_bearer
has_programmatic_credential req =
    not (is_blank (req.header (bytes "X-API-Token"))) || is_bearer (auth_token req)

has_value : Option Text → Bool
has_value none = false
has_value (some value) = not (value =ᵗ [])

unfoldable pub has_session_cookie : HttpRequest → List Text → Bool
unfolding has_value
has_session_cookie req names =
    any (λ name. not (is_blank name) && has_value (req.cookie (trim_space name))) names

-- csrfSelfOrigin
unfoldable pub csrf_self_origin : Option (HttpRequest → Text) → HttpRequest → Text
csrf_self_origin (some origin) req = origin req
csrf_self_origin none req =
    if req.host =ᵗ [] then [] else request_scheme req ++ bytes "://" ++ req.host

referer_matches : Text → Option (Text × Text) → Bool
referer_matches self none = false
referer_matches self (some (scheme, host)) =
    not (scheme =ᵗ [] || host =ᵗ []) && equal_fold (scheme ++ bytes "://" ++ host) self

module _ (parse_origin : Text → Option (Text × Text)) where
  unfoldable pub request_is_same_site : Option (HttpRequest → Text) → HttpRequest → Bool
  unfolding referer_matches
  request_is_same_site self_origin req =
      let self = csrf_self_origin self_origin req in
      if self =ᵗ []
      then false
      else if not (origin_of req =ᵗ [])
      then equal_fold (origin_of req) self
      else if referer_of req =ᵗ []
      then false
      else referer_matches self (parse_origin (referer_of req))

  module _ (glob : Text → Text → Bool) (opts : CsrfOptions) where
    -- CSRFRequired, for a request that there is.
    unfoldable pub csrf_required : HttpRequest → Bool
    csrf_required req =
        if not opts.enabled
        then false
        else if is_safe_method req.method
        then false
        else if is_web_socket_upgrade req
        then false
        else if matches_any_path glob req.path opts.exempt_paths
        then false
        else if holds_for opts.is_public_path req.path
        then false
        else if has_programmatic_credential req
        then false
        else if not (has_session_cookie req opts.session_cookie_names)
        then false
        else if opts.session_same_site_strict && not (has_origin_or_referer req)
        then false
        else not (request_is_same_site opts.self_origin req)

first_presented : HttpRequest → List Text → Option Text
first_presented req [] = none
first_presented req (name ∷ names) =
    if is_blank (req.header name)
    then first_presented req names
    else some (trim_space (req.header name))

or_form : HttpRequest → Text → Option Text → Text
or_form req field (some value) = value
or_form req field none =
    if equal_fold (cut b';' (req.header (bytes "Content-Type"))).0
      (bytes "application/x-www-form-urlencoded")
    then trim_space (req.form field)
    else []

-- csrfPresentedToken
unfoldable pub csrf_presented_token : HttpRequest → List Text → Text → Text
unfolding first_presented or_form
csrf_presented_token req names field = or_form req field (first_presented req names)

abbrev first_non_empty : Text → Text → Text
first_non_empty [] fallback = fallback
first_non_empty (c ∷ value) fallback = c ∷ value

abbrev header_names_of : List Text → List Text
header_names_of [] = csrf_header_names
header_names_of (name ∷ names) = name ∷ names

-- The double submission: both tokens there, and equal.
double_submitted : Option Text → Text → Bool
double_submitted none presented = false
double_submitted (some cookie) presented =
    not (cookie =ᵗ []) && not (presented =ᵗ []) && presented =ᵗ cookie

abbrev pub csrf_cookie : CsrfOptions → HttpRequest → Option Text
csrf_cookie opts req = req.cookie (first_non_empty opts.cookie_name (bytes "csrf_token"))

abbrev pub presented_token : CsrfOptions → HttpRequest → Text
presented_token opts req =
    csrf_presented_token req (header_names_of opts.header_names)
      (first_non_empty opts.field_name (bytes "csrf_token"))

-- CSRF
unfoldable pub csrf :
    (Text → Option (Text × Text)) → (Text → Text → Bool) → CsrfOptions → HttpRequest → Passage
unfolding double_submitted
csrf parse_origin glob opts req =
    if not (csrf_required parse_origin glob opts req)
    then admitted
    else if double_submitted (csrf_cookie opts req) (presented_token opts req)
    then admitted
    else forbidden
