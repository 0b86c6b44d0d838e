-- ===== src/Middleware/Chain/Laws.antt =====
-- What holds of every request that reaches its handler, and what a refusal costs.
use redxt.Common.{ℤ, Bool, true, false, Option, none, some, Text, ◌≡◌, refl}
use redxt.RateLimit.Gate.{Outcome, served, served_reporting, too_many}
use redxt.Middleware.Requests.{HttpRequest}
use redxt.Middleware.Paths.{
  Routed, passed, moved_permanently, bad_request, url_normalize, path_security,
}
use redxt.Middleware.Cors.{cors}
use redxt.Middleware.Csrf.{Passage, admitted, forbidden, csrf}
use redxt.Middleware.Lists.{allowlist, blocklist, geoip}
use redxt.Middleware.Auth.{Identified, identified, anonymous, unauthorized, auth}
use redxt.Middleware.Chain.{
  Options, Response, redirected, refused_path, preflight, forged, blocked, after_auth, after_geoip,
  after_rate_limit, rate_limit_stage, after_blocklist, after_csrf, after_cors, after_path_security,
  after_normalize, serve,
}

-- The answers that stand before the rate limiter.
abbrev pub IsEarly : {G : Type 0} → Response G → Type 0
IsEarly (redirected target) = Unit
IsEarly refused_path = Unit
IsEarly preflight = Unit
IsEarly forged = Unit
IsEarly blocked = Unit
IsEarly _ = ⊥

module _ (parse_origin : Text → Option (Text × Text)) (glob : Text → Text → Bool) {S E G : Type 0}
    (opts : Options S E G) where
  after_auth-late :
      (req : HttpRequest) (mark : Bool) (geo : Option G) (i : Identified)
      → IsEarly (after_auth parse_origin glob opts req mark geo i)
      → ⊥
  unfolding after_auth
  after_auth-late req mark geo (identified info) h = h
  after_auth-late req mark geo anonymous h = h
  after_auth-late req mark geo unauthorized h = h

  after_geoip-late :
      (req : HttpRequest) (mark : Bool) (g : Option (Option G))
      → IsEarly (after_geoip parse_origin glob opts req mark g)
      → ⊥
  unfolding after_geoip
  after_geoip-late req mark none h = h
  after_geoip-late req mark (some geo) h = after_auth-late req mark geo (auth opts.auth req) h

  rate_limit-late :
      (req : HttpRequest) (mark : Bool) (o : Outcome E × S)
      → IsEarly (after_rate_limit parse_origin glob opts req mark o).0
      → ⊥
  unfolding after_rate_limit
  rate_limit-late req mark (served, s) h =
      after_geoip-late req mark (geoip opts.geoip mark (opts.client_ip req)) h
  rate_limit-late req mark (served_reporting e, s) h =
      after_geoip-late req mark (geoip opts.geoip mark (opts.client_ip req)) h
  rate_limit-late req mark (too_many retry limit, s) h = h

  Spares : S → Response G × S → Type 0
  Spares s answer = IsEarly answer.0 → answer.1 ≡ s

  rate_limit_stage-Spares :
      (req : HttpRequest) (mark : Bool) (now : ℤ) (s : S)
      → Spares s (rate_limit_stage parse_origin glob opts req mark now s)
  unfolding rate_limit_stage Spares
  rate_limit_stage-Spares req mark now s h = absurd (rate_limit-late req mark _ h)

  after_blocklist-Spares :
      (req : HttpRequest) (mark : Bool) (now : ℤ) (s : S) (p : Passage)
      → Spares s (after_blocklist parse_origin glob opts req mark now s p)
  unfolding after_blocklist Spares
  after_blocklist-Spares req mark now s admitted = rate_limit_stage-Spares req mark now s
  after_blocklist-Spares req mark now s forbidden = λ h. refl

  after_csrf-Spares :
      (req : HttpRequest) (now : ℤ) (s : S) (p : Passage)
      → Spares s (after_csrf parse_origin glob opts req now s p)
  unfolding after_csrf Spares
  after_csrf-Spares req now s admitted =
      let ip = opts.client_ip req in
      let mark = allowlist opts.allowlist ip in
      after_blocklist-Spares req mark now s (blocklist opts.blocklist mark ip)
  after_csrf-Spares req now s forbidden = λ h. refl

  after_cors-Spares :
      (req : HttpRequest) (now : ℤ) (s : S) (answered : Bool)
      → Spares s (after_cors parse_origin glob opts req now s answered)
  unfolding after_cors Spares
  after_cors-Spares req now s true = λ h. refl
  after_cors-Spares req now s false =
      after_csrf-Spares req now s (csrf parse_origin glob opts.csrf req)

  after_path_security-Spares :
      (req : HttpRequest) (now : ℤ) (s : S) (r : Routed)
      → Spares s (after_path_security parse_origin glob opts req now s r)
  unfolding after_path_security Spares
  after_path_security-Spares req now s (passed p) =
      let cleaned = record req { path = p } in
      after_cors-Spares cleaned now s (cors opts.cors cleaned).answered
  after_path_security-Spares req now s (moved_permanently target) = λ h. refl
  after_path_security-Spares req now s bad_request = λ h. refl

  after_normalize-Spares :
      (req : HttpRequest) (now : ℤ) (s : S) (r : Routed)
      → Spares s (after_normalize parse_origin glob opts req now s r)
  unfolding after_normalize Spares
  after_normalize-Spares req now s (passed p) =
      after_path_security-Spares req now s
        (path_security opts.max_path_length req.path req.raw_path)
  after_normalize-Spares req now s (moved_permanently target) = λ h. refl
  after_normalize-Spares req now s bad_request = λ h. refl

  -- A request that is redirected, refused for its path, answered as a preflight, refused as
  -- forged or refused by the block list leaves the store of the rate limiter as it was.
  pub early_refusal_costs_nothing :
      (req : HttpRequest) (now : ℤ) (s : S)
      → IsEarly (serve parse_origin glob opts req now s).0
      → (serve parse_origin glob opts req now s).1 ≡ s
  unfolding serve Spares
  early_refusal_costs_nothing req now s =
      after_normalize-Spares req now s (url_normalize opts.lowercase_paths req.path req.raw_query)
