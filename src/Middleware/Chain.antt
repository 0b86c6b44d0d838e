-- ===== src/Middleware/Chain.antt =====
-- src/server/middleware/chain.go: New, the stages in their fixed order. The request ID, the security
-- headers and the access log pass every request on, and are left out.
pub mod Guards
pub mod Laws
use redxt.Common.{
  ℕ, ℤ, Bool, true, false, not, List, [], ◌∷◌, Option, none, some, Text, if◌then◌else◌,
}
use redxt.RateLimit.Policy.{RateLimitConfig, AuthRateRule, Request}
use redxt.RateLimit.Gate.{Outcome, served, served_reporting, too_many, AllowCall, rate_limit}
use redxt.Middleware.Requests.{HttpRequest}
use redxt.Middleware.Paths.{
  Routed, passed, moved_permanently, bad_request, url_normalize, path_security,
}
use redxt.Middleware.Cors.{CorsOptions, CorsAnswer, cors}
use redxt.Middleware.Csrf.{CsrfOptions, Passage, admitted, forbidden, csrf}
use redxt.Middleware.Lists.{ListOptions, GeoOptions, allowlist, blocklist, geoip}
use redxt.Middleware.Auth.{
  AuthInfo, AuthOptions, Identified, identified, anonymous, unauthorized, auth,
}

-- The options of every stage; `S` is the state of the rate limiter's store, `E` its errors and `G`
-- an annotation.
pub record Options (S E G : Type 0) : Type 0 where
  pub lowercase_paths : Bool
  pub max_path_length : ℕ
  pub cors : CorsOptions
  pub csrf : CsrfOptions
  pub client_ip : HttpRequest → Text
  pub allowlist : ListOptions
  pub blocklist : ListOptions
  pub rate_config : RateLimitConfig
  pub auth_rules : List AuthRateRule
  pub health_paths : List Text
  pub store : Option (AllowCall S E)
  pub geoip : GeoOptions G
  pub auth : AuthOptions

-- What the handler sees of a request: its path, the marks of the stages and who asks.
pub record Handled (G : Type 0) : Type 0 where
  pub path : Text
  pub allowlisted : Bool
  pub geo : Option G
  pub identity : Option AuthInfo

pub data Response (G : Type 0) : Type 0 where
  handled : Handled G → Response G
  redirected : Text → Response G
  refused_path : Response G
  preflight : Response G
  forged : Response G
  blocked : Response G
  rate_limited : ℤ → ℤ → Response G
  wrong_country : Response G
  unauthenticated : Response G

module _ (parse_origin : Text → Option (Text × Text)) (glob : Text → Text → Bool) {S E G : Type 0}
    (opts : Options S E G) where
  -- Auth
  unfoldable pub after_auth : HttpRequest → Bool → Option G → Identified → Response G
  after_auth req mark geo (identified info) =
      handled (record { path = req.path; allowlisted = mark; geo = geo; identity = some info })
  after_auth req mark geo anonymous =
      handled (record { path = req.path; allowlisted = mark; geo = geo; identity = none })
  after_auth req mark geo unauthorized = unauthenticated

  -- GeoIP
  unfoldable pub after_geoip : HttpRequest → Bool → Option (Option G) → Response G
  after_geoip req mark none = wrong_country
  after_geoip req mark (some geo) = after_auth req mark geo (auth opts.auth req)

  abbrev pub geoip_stage : HttpRequest → Bool → Response G
  geoip_stage req mark = after_geoip req mark (geoip opts.geoip mark (opts.client_ip req))

  -- RateLimit
  unfoldable pub after_rate_limit : HttpRequest → Bool → Outcome E × S → Response G × S
  after_rate_limit req mark (served, s) = (geoip_stage req mark, s)
  after_rate_limit req mark (served_reporting e, s) = (geoip_stage req mark, s)
  after_rate_limit req mark (too_many retry limit, s) = (rate_limited retry limit, s)

  unfoldable pub rate_limit_stage : HttpRequest → Bool → ℤ → S → Response G × S
  rate_limit_stage req mark now s = after_rate_limit req mark (
      rate_limit glob opts.rate_config opts.auth_rules opts.health_paths opts.store mark
        (opts.client_ip req) (record { path = req.path; method = req.method }) now s)

  -- Allowlist and Blocklist
  unfoldable pub after_blocklist : HttpRequest → Bool → ℤ → S → Passage → Response G × S
  after_blocklist req mark now s admitted = rate_limit_stage req mark now s
  after_blocklist req mark now s forbidden = (blocked, s)

  abbrev pub list_stage : HttpRequest → ℤ → S → Response G × S
  list_stage req now s =
      let ip = opts.client_ip req in
      let mark = allowlist opts.allowlist ip in
      after_blocklist req mark now s (blocklist opts.blocklist mark ip)

  -- CSRF
  unfoldable pub after_csrf : HttpRequest → ℤ → S → Passage → Response G × S
  after_csrf req now s admitted = list_stage req now s
  after_csrf req now s forbidden = (forged, s)

  -- CORS
  unfoldable pub after_cors : HttpRequest → ℤ → S → Bool → Response G × S
  after_cors req now s true = (preflight, s)
  after_cors req now s false = after_csrf req now s (csrf parse_origin glob opts.csrf req)

  -- PathSecurity, which rewrites the path of the request.
  unfoldable pub after_path_security : HttpRequest → ℤ → S → Routed → Response G × S
  after_path_security req now s (passed p) =
      let cleaned = record req { path = p } in
      after_cors cleaned now s (cors opts.cors cleaned).answered
  after_path_security req now s (moved_permanently target) = (redirected target, s)
  after_path_security req now s bad_request = (refused_path, s)

  -- URLNormalize, which passes the request on as it is.
  unfoldable pub after_normalize : HttpRequest → ℤ → S → Routed → Response G × S
  after_normalize req now s (passed p) =
      after_path_security req now s (path_security opts.max_path_length req.path req.raw_path)
  after_normalize req now s (moved_permanently target) = (redirected target, s)
  after_normalize req now s bad_request = (refused_path, s)

  -- New, on one request.
  unfoldable pub serve : HttpRequest → ℤ → S → Response G × S
  serve req now s =
      after_normalize req now s (url_normalize opts.lowercase_paths req.path req.raw_query)
