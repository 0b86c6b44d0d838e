-- ===== src/Middleware/Cors/Laws.antt =====
-- Which origins a browser may read answers from, and with credentials.
use redxt.Common.{
  true, false, [], some, Text, bytes, find, ◌≡◌, ◌≢◌, inl, inr, refl, arith, Bool-cases, find_holds,
  Option-cases, ◌∙◌, All-find, ◌∙◌,
}
use redxt.Middleware.Requests.{HttpRequest, equal_fold}
use redxt.Middleware.Cors.{
  CorsOptions, CorsDecision, wildcard, allows, forwarded_origin, resolve_learned, resolve_cors,
  cors, trusts, is_preflight, is_some,
}
use redxt.Middleware.Cors.Origins.{NotAny, IsSelective, LearnsNoWildcard, resolve_cors-IsSelective}

pub record IsListed (opts : CorsOptions) (req : HttpRequest) (origin : Text) : Type 0 where
  pub echoed : (cors opts req).allow_origin ≡ some origin
  pub matched : equal_fold origin (req.header (bytes "Origin")) ≡ true
  pub specific : origin ≢ wildcard

allows-listed :
    (d : CorsDecision) (asked : Text)
    → IsSelective d
    → d.enabled ≡ true
    → d.explicit ≡ true
    → is_some (allows d asked) ≡ true
    → (origin : Text) × (allows d asked ≡ some origin)
      × (equal_fold origin asked ≡ true)
      × NotAny origin
unfolding allows
allows-listed d asked s on x h =
    elim (Option-cases (find (λ allowed. equal_fold allowed asked) d.origins)) [
      | inl e ↦ absurd (cc (rw (on, x, e) at h))
      | inr (origin, e) ↦ (
        origin,
        rw (on, x) e,
        find_holds (λ allowed. equal_fold allowed asked) d.origins origin e,
        All-find NotAny (λ allowed. equal_fold allowed asked) d.origins origin e (s.lists x),
      )
    ]

credentials_given :
    (opts : CorsOptions) (req : HttpRequest)
    → (cors opts req).allow_credentials ≡ true
    → let d = resolve_cors opts req in
      (d.enabled ≡ true)
      × (d.explicit ≡ true)
      × (is_some (allows d (req.header (bytes "Origin"))) ≡ true)
      × ((cors opts req).allow_origin ≡ allows d (req.header (bytes "Origin")))
unfolding cors
credentials_given opts req c =
    let d = resolve_cors opts req in
    elim (Bool-cases d.enabled) [
      | inl e ↦ (e, ground arith, ground arith, ground arith)
      | inr e ↦ absurd (cc (rw e at c))
    ]

-- If the server has learned no origin that is a wildcard once trimmed, then an answer that allows
-- credentials names an origin that is not the wildcard and that is the request's Origin up to
-- case and spaces.
pub credentials_name_origin :
    (opts : CorsOptions) (req : HttpRequest)
    → LearnsNoWildcard opts
    → (cors opts req).allow_credentials ≡ true
    → (origin : Text) × IsListed opts req origin
credentials_name_origin opts req h c =
    let (on, x, found, sent) = credentials_given opts req c in
    let (origin, e, m, n) =
      allows-listed (resolve_cors opts req) (req.header (bytes "Origin"))
        (resolve_cors-IsSelective opts req h) on x found in
    (origin, record { echoed = sent ∙ e; matched = m; specific = n })

forwarded_origin-untrusted :
    (opts : CorsOptions) (req : HttpRequest)
    → trusts opts.is_trusted_proxy req.remote_addr ≡ false
    → forwarded_origin opts req ≡ []
unfolding forwarded_origin
forwarded_origin-untrusted opts req t = rw t refl

resolve_cors-untrusted :
    (opts : CorsOptions) (req other : HttpRequest)
    → trusts opts.is_trusted_proxy req.remote_addr ≡ false
    → trusts opts.is_trusted_proxy other.remote_addr ≡ false
    → resolve_cors opts req ≡ resolve_cors opts other
unfolding resolve_cors resolve_learned
resolve_cors-untrusted opts req other t u =
    rw (forwarded_origin-untrusted opts req t, forwarded_origin-untrusted opts other u) refl

-- Two requests of peers that are not trusted proxies, with the same Origin and both or neither of
-- them preflights, get the same CORS answer whatever hosts and schemes they claim to be forwarded
-- from.
pub untrusted_forwarding_ignored :
    (opts : CorsOptions) (req other : HttpRequest)
    → trusts opts.is_trusted_proxy req.remote_addr ≡ false
    → trusts opts.is_trusted_proxy other.remote_addr ≡ false
    → req.header (bytes "Origin") ≡ other.header (bytes "Origin")
    → is_preflight req ≡ is_preflight other
    → cors opts req ≡ cors opts other
unfolding cors
untrusted_forwarding_ignored opts req other t u o p =
    rw (resolve_cors-untrusted opts req other t u, o, p) refl
