-- ===== src/Examples/Requests.antt =====
-- Requests through the middleware chain of a server at https://dns.example.
use redxt.Common.{
  Bool, true, false, [], ◌∷◌, Option, none, some, Text, bytes, ◌=ᵗ◌, ◌≡◌, ◌≢◌, refl, ◌↔◌, ◌⊎◌,
  arith, trim_space, trim_left, to_lower, split_on, has_prefix, contains, text_apart, if◌then◌else◌,
  ◌≤◌,
}
use redxt.RateLimit.Paths.{trim_slash}
use redxt.Middleware.Segments.{clean, clean_segments, clean_segment, join, ends_in_slash}
use redxt.Middleware.Segments.Laws.{is_named}
use redxt.Middleware.Segments.Joined.{IsPlain, IsCleanPath}
use redxt.Middleware.Paths.{
  url_normalize, canonical, last_segment_is_file, last_segment, path_security, is_rejected,
  cleaned_path, passed, moved_permanently, with_query,
}
use redxt.Middleware.Paths.Laws.{passed_path_is_clean, IsUnencoded}
use redxt.Middleware.Paths.Fixed.{clean_path_passes}
use redxt.Middleware.Paths.Redirects.{url_normalize_outcome, IsReducible, IsCanonical}
use redxt.Middleware.Requests.{HttpRequest, equal_fold, request_scheme}
use redxt.Middleware.Csrf.{CsrfOptions, csrf, admitted, is_safe_method, csrf_self_origin}
use redxt.Middleware.Csrf.Laws.{forged_request_needs_token, IsExempt, IsForeign, IsEchoed}
use redxt.Middleware.Cors.{
  CorsOptions, cors, allows, append_origin, append_origins, forwarded_origin, resolve_learned,
  resolve_cors, first_of,
}
use redxt.Middleware.Cors.Laws.{IsListed, credentials_name_origin, untrusted_forwarding_ignored}

passed_zone : path_security 0 (bytes "/zones//./a.example") [] ≡ passed (bytes "/zones/a.example")
unfolding path_security is_rejected cleaned_path clean clean_segments clean_segment join split_on
    ends_in_slash has_prefix contains to_lower ◌=ᵗ◌
passed_zone = refl

passed_path_is_clean_example :
    IsCleanPath (bytes "/zones/a.example") × IsUnencoded (bytes "/zones//./a.example") × (19 ≤ 2048)
passed_path_is_clean_example =
    passed_path_is_clean 0 (bytes "zones//./a.example") [] (bytes "/zones/a.example") passed_zone

IsPlain-zone : IsPlain (bytes "a.example")
unfolding is_named contains has_prefix ◌=ᵗ◌
IsPlain-zone = record {
  named = refl;
  without_dots = refl;
  without_slash = refl;
  without_nul = refl;
  without_backslash = refl;
}

clean_path_passes_example : path_security 0 (bytes "/a.example/") [] ≡ passed (bytes "/a.example/")
unfolding join
clean_path_passes_example =
    clean_path_passes 0 (bytes "a.example" ∷ []) true (IsPlain-zone, tt) refl (omega arith)

url_normalize_outcome_example :
    ((url_normalize false (bytes "/zones/") (bytes "page=2") ≡ passed (bytes "/zones/"))
      × IsCanonical (bytes "/zones/"))
    ⊎ ((q : Text) × IsReducible (bytes "/zones/") q
        × (url_normalize false (bytes "/zones/") (bytes "page=2")
            ≡ moved_permanently (with_query q (bytes "page=2"))))
url_normalize_outcome_example = url_normalize_outcome b'/' (bytes "zones/") (bytes "page=2")

-- A path that begins with two slashes is redirected to another site.
leaves_the_site :
    url_normalize false (bytes "//evil.example/x/") []
    ≡ moved_permanently (bytes "//evil.example/x")
unfolding url_normalize canonical last_segment_is_file last_segment trim_slash ends_in_slash ◌=ᵗ◌
leaves_the_site = refl

-- A request with no path does not reach the root.
empty_path_is_dot : path_security 0 [] [] ≡ passed (bytes "/.")
unfolding path_security is_rejected cleaned_path clean clean_segments clean_segment join split_on
    ends_in_slash has_prefix contains to_lower ◌=ᵗ◌
empty_path_is_dot = refl

abbrev no_parse : Text → Option (Text × Text)
no_parse raw = none

abbrev no_glob : Text → Text → Bool
no_glob pattern path = false

abbrev csrf_options : CsrfOptions
csrf_options = record {
  enabled = true;
  exempt_paths = [];
  session_cookie_names = bytes "session" ∷ [];
  session_same_site_strict = false;
  cookie_name = [];
  header_names = [];
  field_name = [];
  is_public_path = none;
  self_origin = none;
}

-- A POST from this origin, with a session, a CSRF cookie and its echo.
abbrev header_from : Text → Text → Text
header_from origin name =
    if name =ᵗ bytes "Origin"
    then origin
    else if name =ᵗ bytes "X-CSRF-Token"
    then bytes "k3y"
    else []

abbrev cookies : Text → Option Text
cookies name =
    if name =ᵗ bytes "session"
    then some (bytes "s1")
    else if name =ᵗ bytes "csrf_token"
    then some (bytes "k3y")
    else none

abbrev no_values : Text → Text
no_values name = []

abbrev post_from : Text → HttpRequest
post_from origin = record {
  method = bytes "POST";
  path = bytes "/zones";
  raw_path = [];
  raw_query = [];
  host = bytes "dns.example";
  remote_addr = bytes "192.0.2.7:80";
  tls = true;
  header = header_from origin;
  cookie = cookies;
  form = no_values;
  query = no_values;
}

abbrev foreign_post : HttpRequest
foreign_post = post_from (bytes "https://evil.example")

IsForeign-foreign_post : IsForeign no_parse no_glob csrf_options foreign_post
unfolding csrf_self_origin equal_fold request_scheme trim_space trim_left to_lower ◌=ᵗ◌
IsForeign-foreign_post = record {
  names_origin = text_apart (bytes "https://evil.example") [] refl;
  not_own = refl;
}

is_post : is_safe_method (bytes "POST") ≡ false
unfolding is_safe_method ◌=ᵗ◌
is_post = refl

forged_request_needs_token_example :
    (csrf no_parse no_glob csrf_options foreign_post ≡ admitted) ↔ (
      IsExempt no_parse no_glob csrf_options foreign_post
      ⊎ ((token : Text) × IsEchoed no_parse no_glob csrf_options foreign_post token))
forged_request_needs_token_example =
    forged_request_needs_token no_parse no_glob csrf_options foreign_post refl is_post
      IsForeign-foreign_post

abbrev cors_options : CorsOptions
cors_options = record {
  configured = bytes "*";
  domains = bytes "dns.example" ∷ [];
  learned_origins = some (bytes "https://evil.example" ∷ []);
  is_trusted_proxy = none;
}

learned_is_named : trim_space (bytes "https://evil.example") ≢ bytes "*"
unfolding trim_space trim_left ◌=ᵗ◌
learned_is_named = text_apart (bytes "https://evil.example") (bytes "*") refl

credentials_allowed : (cors cors_options foreign_post).allow_credentials ≡ true
unfolding cors allows resolve_cors resolve_learned append_origin append_origins forwarded_origin
    first_of equal_fold trim_space trim_left to_lower split_on ◌=ᵗ◌
credentials_allowed = refl

credentials_name_origin_example : (origin : Text) × IsListed cors_options foreign_post origin
credentials_name_origin_example =
    credentials_name_origin cors_options foreign_post (learned_is_named, tt) credentials_allowed

abbrev claims_host : Text → Text
claims_host name =
    if name =ᵗ bytes "X-Forwarded-Host"
    then bytes "evil.example"
    else header_from (bytes "https://evil.example") name

abbrev claiming_post : HttpRequest
claiming_post = record foreign_post { header = claims_host }

claimed_host_changes_nothing : cors cors_options claiming_post ≡ cors cors_options foreign_post
unfolding ◌=ᵗ◌
claimed_host_changes_nothing =
    untrusted_forwarding_ignored cors_options claiming_post foreign_post refl refl refl refl
