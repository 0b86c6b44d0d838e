-- ===== src/Middleware/Chain/Guards.antt =====
-- What holds of every request that reaches its handler.
use mathlib.Core.Path.{subst}
use redxt.Common.{ℤ, Bool, true, false, ◌∷◌, Option, none, some, Text, ◌≡◌, refl, ◌∙◌, arith}
use redxt.RateLimit.Gate.{Outcome, served, served_reporting, too_many}
use redxt.Middleware.Requests.{HttpRequest}
use redxt.Middleware.Segments.Joined.{IsCleanPath}
use redxt.Middleware.Paths.{
  Routed, passed, moved_permanently, bad_request, url_normalize, path_security,
}
use redxt.Middleware.Paths.Laws.{passed_path_is_clean}
use redxt.Middleware.Cors.{cors}
use redxt.Middleware.Csrf.{Passage, admitted, forbidden, csrf, holds_for}
use redxt.Middleware.Lists.{ListOptions, allowlist, blocklist, geoip}
use redxt.Middleware.Auth.{AuthInfo, auth, resolve_identity, or_anonymous, may_be_anonymous}
use redxt.Middleware.Chain.{
  Options, Handled, handled, after_auth, after_geoip, after_rate_limit, rate_limit_stage,
  after_blocklist, after_csrf, after_cors, after_path_security, after_normalize, serve,
}

module _ (parse_origin : Text → Option (Text × Text)) (glob : Text → Text → Bool) {S E G : Type 0}
    (opts : Options S E G) where
  -- The request as the handler has it went past each guard.
  pub record IsGuarded (req : HttpRequest) (h : Handled G) : Type 0 where
    pub path_clean : IsCleanPath h.path
    pub path_seen : req.path ≡ h.path
    pub token_checked : csrf parse_origin glob opts.csrf req ≡ admitted
    pub marked : h.allowlisted ≡ allowlist opts.allowlist (opts.client_ip req)
    pub not_blocked :
        opts.blocklist.enabled ≡ true
        → holds_for opts.blocklist.contains (opts.client_ip req) ≡ true
        → h.allowlisted ≡ true
    pub not_private : h.identity ≡ none → may_be_anonymous opts.auth.is_public_path req.path ≡ true

  record IsLate (req : HttpRequest) (mark : Bool) (h : Handled G) : Type 0 where
    path_kept : req.path ≡ h.path
    mark_kept : h.allowlisted ≡ mark
    open_path : h.identity ≡ none → may_be_anonymous opts.auth.is_public_path req.path ≡ true

  auth-IsLate :
      (req : HttpRequest) (mark : Bool) (geo : Option G) (h : Handled G)
      → after_auth parse_origin glob opts req mark geo (auth opts.auth req) ≡ handled h
      → IsLate req mark h
  unfolding after_auth auth
  auth-IsLate req mark geo h e =
      known (resolve_identity opts.auth req) (may_be_anonymous opts.auth.is_public_path req.path)
        refl e
    where
      known :
          (i : Option AuthInfo) (b : Bool)
          → may_be_anonymous opts.auth.is_public_path req.path ≡ b
          → after_auth parse_origin glob opts req mark geo (or_anonymous i b) ≡ handled h
          → IsLate req mark h
      known (some info) b p e = record {
        path_kept = cc e;
        mark_kept = cc e;
        open_path = λ n. cc (e, n);
      }
      known none true p e = record { path_kept = cc e; mark_kept = cc e; open_path = λ n. p }
      known none false p e = cc e

  geoip-IsLate :
      (req : HttpRequest) (mark : Bool) (g : Option (Option G)) (h : Handled G)
      → after_geoip parse_origin glob opts req mark g ≡ handled h
      → IsLate req mark h
  unfolding after_geoip
  geoip-IsLate req mark none h e = cc e
  geoip-IsLate req mark (some geo) h e = auth-IsLate req mark geo h e

  rate_limit-IsLate :
      (req : HttpRequest) (mark : Bool) (o : Outcome E × S) (h : Handled G)
      → (after_rate_limit parse_origin glob opts req mark o).0 ≡ handled h
      → IsLate req mark h
  unfolding after_rate_limit
  rate_limit-IsLate req mark (served, s) h e =
      geoip-IsLate req mark (geoip opts.geoip mark (opts.client_ip req)) h e
  rate_limit-IsLate req mark (served_reporting x, s) h e =
      geoip-IsLate req mark (geoip opts.geoip mark (opts.client_ip req)) h e
  rate_limit-IsLate req mark (too_many retry limit, s) h e = cc e

  blocklist_passed :
      (req : HttpRequest) (mark : Bool) (now : ℤ) (s : S) (p : Passage) (h : Handled G)
      → (after_blocklist parse_origin glob opts req mark now s p).0 ≡ handled h
      → (p ≡ admitted) × IsLate req mark h
  unfolding after_blocklist rate_limit_stage
  blocklist_passed req mark now s admitted h e = (refl, rate_limit-IsLate req mark _ h e)
  blocklist_passed req mark now s forbidden h e = cc e

  blocklist-exempt :
      (b : ListOptions) (mark : Bool) (ip : Text)
      → blocklist b mark ip ≡ admitted
      → b.enabled ≡ true
      → holds_for b.contains ip ≡ true
      → mark ≡ true
  unfolding blocklist
  blocklist-exempt b mark ip e on listed = ground arith

  csrf_passed :
      (req : HttpRequest) (now : ℤ) (s : S) (p : Passage) (h : Handled G)
      → IsCleanPath req.path
      → csrf parse_origin glob opts.csrf req ≡ p
      → (after_csrf parse_origin glob opts req now s p).0 ≡ handled h
      → IsGuarded req h
  unfolding after_csrf
  csrf_passed req now s admitted h clean token e =
      let ip = opts.client_ip req in
      let mark = allowlist opts.allowlist ip in
      let (listed, late) = blocklist_passed req mark now s (blocklist opts.blocklist mark ip) h e in
      record {
        path_clean = subst IsCleanPath late.path_kept clean;
        path_seen = late.path_kept;
        token_checked = token;
        marked = late.mark_kept;
        not_blocked = λ on x. late.mark_kept ∙ blocklist-exempt opts.blocklist mark ip listed on x;
        not_private = late.open_path;
      }
  csrf_passed req now s forbidden h clean token e = cc e

  cors_passed :
      (req : HttpRequest) (now : ℤ) (s : S) (answered : Bool) (h : Handled G)
      → IsCleanPath req.path
      → (after_cors parse_origin glob opts req now s answered).0 ≡ handled h
      → IsGuarded req h
  unfolding after_cors
  cors_passed req now s true h clean e = cc e
  cors_passed req now s false h clean e =
      csrf_passed req now s (csrf parse_origin glob opts.csrf req) h clean refl e

  path_security_passed :
      (req : HttpRequest) (now : ℤ) (s : S) (t : Text) (r : Routed) (h : Handled G)
      → req.path ≡ b'/' ∷ t
      → path_security opts.max_path_length req.path req.raw_path ≡ r
      → (after_path_security parse_origin glob opts req now s r).0 ≡ handled h
      → IsGuarded (record req { path = h.path }) h
  unfolding after_path_security
  path_security_passed req now s t (passed p) h rooted checked e =
      let cleaned = record req { path = p } in
      let (clean, unencoded, short) =
        passed_path_is_clean opts.max_path_length t req.raw_path p (rw rooted at checked) in
      let g = cors_passed cleaned now s (cors opts.cors cleaned).answered h clean e in
      subst (λ (q : Text). IsGuarded (record req { path = q }) h) g.path_seen g
  path_security_passed req now s t (moved_permanently target) h rooted checked e = cc e
  path_security_passed req now s t bad_request h rooted checked e = cc e

  normalize_passed :
      (req : HttpRequest) (now : ℤ) (s : S) (t : Text) (r : Routed) (h : Handled G)
      → req.path ≡ b'/' ∷ t
      → (after_normalize parse_origin glob opts req now s r).0 ≡ handled h
      → IsGuarded (record req { path = h.path }) h
  unfolding after_normalize
  normalize_passed req now s t (passed p) h rooted e =
      path_security_passed req now s t (path_security opts.max_path_length req.path req.raw_path) h
        rooted refl e
  normalize_passed req now s t (moved_permanently target) h rooted e = cc e
  normalize_passed req now s t bad_request h rooted e = cc e

  -- If a request whose path begins with a slash reaches its handler, the handler's path is clean
  -- (a slash and segments of which none is empty, is one dot or holds a traversal, a slash, a
  -- backslash or NUL, perhaps with a slash at the end), the request with that path passed the
  -- CSRF check, a client on an enabled block list is one that the allow list marked, and a
  -- request with no identity is for a path that may be asked for anonymously.
  pub handler_past_guards :
      (req : HttpRequest) (now : ℤ) (s : S) (t : Text) (h : Handled G)
      → req.path ≡ b'/' ∷ t
      → (serve parse_origin glob opts req now s).0 ≡ handled h
      → IsGuarded (record req { path = h.path }) h
  unfolding serve
  handler_past_guards req now s t h rooted =
      normalize_passed req now s t (url_normalize opts.lowercase_paths req.path req.raw_query) h
        rooted
