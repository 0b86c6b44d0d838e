-- ===== src/Middleware/Csrf/Laws.antt =====
-- What a page of another site cannot do, and what the guard leaves alone.
use redxt.Common.{
  Bool, true, false, [], Option, none, some, Text, ◌≡◌, ◌≢◌, ◌⊎◌, inl, inr, refl, arith, Bool-cases,
  text_eq_iff, text_apart, text_ne, text_refl, ◌↔◌,
}
use redxt.RateLimit.Paths.{matches_any_path}
use redxt.Middleware.Requests.{HttpRequest, equal_fold}
use redxt.Middleware.Csrf.{
  CsrfOptions, admitted, csrf, csrf_required, csrf_cookie, presented_token, is_safe_method,
  is_web_socket_upgrade, holds_for, origin_of, has_origin_or_referer, has_programmatic_credential,
  has_session_cookie, request_is_same_site, csrf_self_origin, double_submitted,
}

module _ (parse_origin : Text → Option (Text × Text)) (glob : Text → Text → Bool)
    (opts : CsrfOptions) where
  -- The requests that carry no authority of a browser, or go where the guard is not wanted.
  pub data IsExempt (req : HttpRequest) : Type 0 where
    upgrade : is_web_socket_upgrade req ≡ true → IsExempt req
    exempt_path : matches_any_path glob req.path opts.exempt_paths ≡ true → IsExempt req
    public_path : holds_for opts.is_public_path req.path ≡ true → IsExempt req
    programmatic : has_programmatic_credential req ≡ true → IsExempt req
    no_session : has_session_cookie req opts.session_cookie_names ≡ false → IsExempt req

  -- The request comes from a page of another site: it names an origin that is not the server's.
  pub record IsForeign (req : HttpRequest) : Type 0 where
    pub names_origin : origin_of req ≢ []
    pub not_own : equal_fold (origin_of req) (csrf_self_origin opts.self_origin req) ≡ false

  pub record IsEchoed (req : HttpRequest) (token : Text) : Type 0 where
    pub not_empty : token ≢ []
    pub in_cookie : csrf_cookie opts req ≡ some token
    pub presented : presented_token opts req ≡ token

  double_submitted-IsEchoed :
      (req : HttpRequest) (cookie : Option Text)
      → csrf_cookie opts req ≡ cookie
      → double_submitted cookie (presented_token opts req) ≡ true
      → (token : Text) × IsEchoed req token
  unfolding double_submitted
  double_submitted-IsEchoed req none e h = cc
  double_submitted-IsEchoed req (some token) e h = (
    token,
    record {
      not_empty = text_apart token [] (ground arith);
      in_cookie = e;
      presented = (text_eq_iff (presented_token opts req) token).0 (ground arith);
    },
  )

  foreign_is_other_site :
      (req : HttpRequest)
      → IsForeign req
      → (request_is_same_site parse_origin opts.self_origin req ≡ false)
        × (has_origin_or_referer req ≡ true)
  unfolding request_is_same_site has_origin_or_referer
  foreign_is_other_site req f = ground (arith, text_ne (origin_of req) [] f.names_origin, f.not_own)

  not_required-IsExempt :
      (req : HttpRequest)
      → opts.enabled ≡ true
      → is_safe_method req.method ≡ false
      → IsForeign req
      → csrf_required parse_origin glob opts req ≡ false
      → IsExempt req
  unfolding csrf_required
  not_required-IsExempt req on unsafe f h = elim (Bool-cases (is_web_socket_upgrade req)) [
    | inl e ↦ upgrade e
    | inr e1 ↦ elim (Bool-cases (matches_any_path glob req.path opts.exempt_paths)) [
      | inl e ↦ exempt_path e
      | inr e2 ↦ elim (Bool-cases (holds_for opts.is_public_path req.path)) [
        | inl e ↦ public_path e
        | inr e3 ↦ elim (Bool-cases (has_programmatic_credential req)) [
          | inl e ↦ programmatic e
          | inr e4 ↦ no_session (ground (arith, foreign_is_other_site req f))
        ]
      ]
    ]
  ]

  exempt_is_free :
      (req : HttpRequest) → IsExempt req → csrf_required parse_origin glob opts req ≡ false
  unfolding csrf_required
  exempt_is_free req (upgrade e) = ground arith
  exempt_is_free req (exempt_path e) = ground arith
  exempt_is_free req (public_path e) = ground arith
  exempt_is_free req (programmatic e) = ground arith
  exempt_is_free req (no_session e) = ground arith

  echoed-double_submitted :
      (req : HttpRequest) (token : Text)
      → IsEchoed req token
      → double_submitted (csrf_cookie opts req) (presented_token opts req) ≡ true
  unfolding double_submitted
  echoed-double_submitted req token e =
      rw (e.in_cookie, e.presented) (ground (arith, text_refl token, text_ne token [] e.not_empty))

  -- With the guard on, a request that changes state and names an origin other than the server's
  -- is admitted exactly when it is a WebSocket upgrade, is for an exempt or a public path, has a
  -- programmatic credential or no session cookie, or presents a token that is not empty and that
  -- its CSRF cookie holds.
  pub forged_request_needs_token :
      (req : HttpRequest)
      → opts.enabled ≡ true
      → is_safe_method req.method ≡ false
      → IsForeign req
      → (csrf parse_origin glob opts req ≡ admitted)
        ↔ (IsExempt req ⊎ ((token : Text) × IsEchoed req token))
  unfolding csrf
  forged_request_needs_token req on unsafe f = (forward, back)
    where
      forward :
          csrf parse_origin glob opts req ≡ admitted
          → IsExempt req ⊎ ((token : Text) × IsEchoed req token)
      forward h = elim (Bool-cases (csrf_required parse_origin glob opts req)) [
        | inl e ↦ inr (double_submitted-IsEchoed req (csrf_cookie opts req) refl (ground arith))
        | inr e ↦ inl (not_required-IsExempt req on unsafe f e)
      ]

      back :
          IsExempt req ⊎ ((token : Text) × IsEchoed req token)
          → csrf parse_origin glob opts req ≡ admitted
      back (inl x) = ground (arith, exempt_is_free req x)
      back (inr (token, x)) = ground (arith, echoed-double_submitted req token x)
