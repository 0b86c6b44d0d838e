-- ===== src/Middleware/Cors.antt =====
-- src/server/middleware/cors.go.
mod Origins
pub mod Laws
use redxt.Common.{
  ℕ, Bool, true, false, ◌&&◌, ◌||◌, not, List, [], ◌∷◌, ◌++◌, Option, none, some, Text, bytes, ◌=ᵗ◌,
  trim_space, to_lower, split_on, if◌then◌else◌, any, find, length, ltb, map,
}
use redxt.Middleware.Segments.{join}
use redxt.Middleware.Requests.{HttpRequest, is_blank, equal_fold}

pub data CorsTier : Type 0 where
  tier_disabled tier_config tier_domain tier_learned tier_wildcard : CorsTier

-- `none` is a nil function.
pub record CorsOptions : Type 0 where
  pub configured : Text
  pub domains : List Text
  pub learned_origins : Option (List Text)
  pub is_trusted_proxy : Option (Text → Bool)

pub record CorsDecision : Type 0 where
  pub enabled : Bool
  pub tier : CorsTier
  pub origins : List Text
  pub explicit : Bool

abbrev pub wildcard : Text
wildcard = bytes "*"

unfoldable pub allows : CorsDecision → Text → Option Text
allows d origin =
    if not d.enabled
    then none
    else if not d.explicit
    then some wildcard
    else find (λ allowed. equal_fold allowed origin) d.origins

-- appendOrigin
unfoldable pub append_origin : List Text → Text → List Text
append_origin origins raw =
    let origin = trim_space raw in
    if origin =ᵗ []
    then origins
    else if any (λ existing. equal_fold existing origin) origins
    then origins
    else origins ++ (origin ∷ [])

-- The loops that call appendOrigin on each item.
unfoldable pub append_origins : List Text → List Text → List Text
append_origins origins [] = origins
append_origins origins (x ∷ xs) = append_origins (append_origin origins x) xs

split_parts : List Text → List Text → List Text
split_parts out [] = out
split_parts out (raw ∷ parts) =
    let part = trim_space raw in
    split_parts (if part =ᵗ [] || part =ᵗ wildcard then out else append_origin out part) parts

-- splitOrigins
unfoldable pub split_origins : Text → List Text
unfolding split_parts
split_origins raw = split_parts [] (split_on b',' raw)

-- strings.Split(value, ",")[0], trimmed.
first_part : List Text → Text
first_part [] = []
first_part (part ∷ parts) = trim_space part

unfoldable pub first_of : Text → Text
unfolding first_part
first_of value = first_part (split_on b',' value)

abbrev pub trusts : Option (Text → Bool) → Text → Bool
trusts none remote_addr = false
trusts (some test) remote_addr = test remote_addr

abbrev pub scheme_or_https : Text → Text
scheme_or_https scheme =
    if not (scheme =ᵗ bytes "http") && not (scheme =ᵗ bytes "https") then bytes "https" else scheme

-- forwardedOrigin, for a request that there is.
unfoldable pub forwarded_origin : CorsOptions → HttpRequest → Text
forwarded_origin opts req =
    let host = first_of (req.header (bytes "X-Forwarded-Host")) in
    if not (trusts opts.is_trusted_proxy req.remote_addr)
    then []
    else if host =ᵗ []
    then []
    else scheme_or_https (to_lower (first_of (req.header (bytes "X-Forwarded-Proto"))))
      ++ bytes "://"
      ++ to_lower host

abbrev pub or_none : Option (List Text) → List Text
or_none none = []
or_none (some origins) = origins

abbrev pub disabled : CorsDecision
disabled = record { enabled = false; tier = tier_disabled; origins = []; explicit = false }

abbrev pub explicit_list : CorsTier → List Text → CorsDecision
explicit_list tier origins = record {
  enabled = true;
  tier = tier;
  origins = origins;
  explicit = true;
}

abbrev or_wildcard : CorsTier → List Text → CorsDecision
or_wildcard tier [] = record {
  enabled = true;
  tier = tier_wildcard;
  origins = wildcard ∷ [];
  explicit = false;
}
or_wildcard tier (o ∷ origins) = explicit_list tier (o ∷ origins)

abbrev pub domain_origins : List Text → List Text
domain_origins domains = append_origins [] (map (λ domain. bytes "https://" ++ domain) domains)

abbrev pub learned : CorsOptions → HttpRequest → List Text → List Text
learned opts req origins =
    append_origin (append_origins origins (or_none opts.learned_origins))
      (forwarded_origin opts req)

-- The tiers below an explicit setting.
unfoldable pub resolve_learned : CorsOptions → HttpRequest → CorsDecision
resolve_learned opts req =
    let by_domain = domain_origins opts.domains in
    let origins = learned opts req by_domain in
    or_wildcard
      (if ltb (length by_domain) (length origins)
        then tier_learned
        else if ltb 0 (length by_domain)
        then tier_domain
        else tier_wildcard)
      origins

abbrev or_resolved : List Text → CorsDecision → CorsDecision
or_resolved [] rest = rest
or_resolved (o ∷ origins) rest = explicit_list tier_config (o ∷ origins)

-- ResolveCORS
unfoldable pub resolve_cors : CorsOptions → HttpRequest → CorsDecision
resolve_cors opts req =
    let configured = trim_space opts.configured in
    if configured =ᵗ []
    then disabled
    else if configured =ᵗ wildcard
    then resolve_learned opts req
    else or_resolved (split_origins configured) (resolve_learned opts req)

-- The headers that the stage sets, and whether it answers with 204 or passes the request on.
pub record CorsAnswer : Type 0 where
  pub vary_origin : Bool
  pub allow_origin : Option Text
  pub allow_credentials : Bool
  pub advertises_methods : Bool
  pub answered : Bool

abbrev pub is_preflight : HttpRequest → Bool
is_preflight req =
    req.method =ᵗ bytes "OPTIONS" && not (req.header (bytes "Access-Control-Request-Method") =ᵗ [])

abbrev silent : Bool → CorsAnswer
silent preflight = record {
  vary_origin = false;
  allow_origin = none;
  allow_credentials = false;
  advertises_methods = false;
  answered = preflight;
}

abbrev pub is_some : Option Text → Bool
is_some none = false
is_some (some value) = true

-- CORS
unfoldable pub cors : CorsOptions → HttpRequest → CorsAnswer
cors opts req =
    let decision = resolve_cors opts req in
    let value = allows decision (req.header (bytes "Origin")) in
    if not decision.enabled then silent (is_preflight req) else record {
      vary_origin = true;
      allow_origin = value;
      allow_credentials = is_some value && decision.explicit;
      advertises_methods = is_preflight req;
      answered = is_preflight req;
    }
