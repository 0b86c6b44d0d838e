-- ===== src/Middleware/Cors/Origins.antt =====
-- No list of origins that the CORS stage resolves holds "*".
use mathlib.Core.List.{append_assoc}
use redxt.Common.{
  ℕ, Bool, true, false, ◌||◌, not, List, [], ◌∷◌, ◌++◌, Text, bytes, ◌=ᵗ◌, trim_space, to_lower,
  split_on, if◌then◌else◌, any, map, ◌≡◌, ◌≢◌, ◌⊎◌, inl, inr, refl, arith, Bool-cases, All,
  trim_left, ◌∙◌, All-append, sym, ◌∙◌, is_space, trim_space-head, trim_space-twice, ◌==◌,
  text_apart, text_eq_iff,
}
use redxt.Middleware.Requests.{HttpRequest, equal_fold}
use redxt.Middleware.Cors.{
  CorsTier, CorsOptions, CorsDecision, wildcard, append_origin, append_origins, split_origins,
  forwarded_origin, resolve_learned, resolve_cors, domain_origins, learned, or_none, trusts,
  first_of, split_parts, scheme_or_https, or_resolved, or_wildcard,
}

abbrev pub NotAny : Text → Type 0
NotAny origin = origin ≢ wildcard

-- What the server has learned holds no "*".
abbrev pub LearnsNoWildcard : CorsOptions → Type 0
LearnsNoWildcard opts = All (λ o. trim_space o ≢ wildcard) (or_none opts.learned_origins)

append_origin-All :
    (origins : List Text) (raw : Text)
    → All NotAny origins
    → trim_space raw ≢ wildcard
    → All NotAny (append_origin origins raw)
unfolding append_origin
append_origin-All origins raw h n = elim (Bool-cases (trim_space raw =ᵗ [])) [
  | inl e ↦ rw e h
  | inr e ↦ rw e (listed (any (λ existing. equal_fold existing (trim_space raw)) origins))
]
  where
    listed : (b : Bool) → All NotAny (if b then origins else origins ++ (trim_space raw ∷ []))
    listed true = h
    listed false = All-append NotAny origins (trim_space raw ∷ []) h (n, tt)

append_origins-All :
    (origins more : List Text)
    → All NotAny origins
    → All (λ o. trim_space o ≢ wildcard) more
    → All NotAny (append_origins origins more)
unfolding append_origins
append_origins-All origins [] h n = h
append_origins-All origins (x ∷ xs) h n =
    append_origins-All (append_origin origins x) xs (append_origin-All origins x h n.0) n.1

first_differs : (c : ℕ) (t : Text) → (c == b'*') ≡ false → (c ∷ t =ᵗ wildcard) ≡ false
unfolding ◌=ᵗ◌
first_differs c t n = rw n refl

begins_apart :
    (c : ℕ) (s : Text) → is_space c ≡ false → (c == b'*') ≡ false → trim_space (c ∷ s) ≢ wildcard
begins_apart c s h n e =
    let (t, e') = trim_space-head c s h in
    absurd (text_apart (c ∷ t) wildcard (first_differs c t n) (sym e' ∙ e))

domain_origins-All : (domains : List Text) → All NotAny (domain_origins domains)
domain_origins-All domains =
    append_origins-All [] (map (λ d. bytes "https://" ++ d) domains) tt (https domains)
  where
    https :
        (ds : List Text) → All (λ o. trim_space o ≢ wildcard) (map (λ d. bytes "https://" ++ d) ds)
    https [] = tt
    https (d ∷ ds) = (begins_apart b'h' (bytes "ttps://" ++ d) refl refl, https ds)

split_parts-All : (out parts : List Text) → All NotAny out → All NotAny (split_parts out parts)
unfolding split_parts
split_parts-All out [] h = h
split_parts-All out (raw ∷ parts) h =
    elim (Bool-cases (trim_space raw =ᵗ [] || trim_space raw =ᵗ wildcard)) [
      | inl e ↦ rw e (split_parts-All out parts h)
      | inr e ↦ rw e (
          split_parts-All (append_origin out (trim_space raw)) parts (
            append_origin-All out (trim_space raw) h
              (rw (trim_space-twice raw) (text_apart (trim_space raw) wildcard (ground arith)))))
    ]

split_origins-All : (raw : Text) → All NotAny (split_origins raw)
unfolding split_origins
split_origins-All raw = split_parts-All [] (split_on b',' raw) tt

-- Trimming keeps an origin of the form scheme://host apart from "*".
nil_apart : trim_space [] ≢ wildcard
unfolding trim_space trim_left ◌=ᵗ◌
nil_apart = text_apart [] wildcard refl

scheme_or_https-cases :
    (x : Text) → (scheme_or_https x ≡ bytes "https") ⊎ (scheme_or_https x ≡ bytes "http")
scheme_or_https-cases x = elim (Bool-cases (x =ᵗ bytes "http")) [
  | inl e ↦ inr (rw e ((text_eq_iff x (bytes "http")).0 e))
  | inr e ↦ elim (Bool-cases (x =ᵗ bytes "https")) [
    | inl e' ↦ inl (rw (e, e') ((text_eq_iff x (bytes "https")).0 e'))
    | inr e' ↦ inl (rw (e, e') refl)
  ]
]

scheme_apart : (x rest : Text) → trim_space (scheme_or_https x ++ (b':' ∷ rest)) ≢ wildcard
scheme_apart x rest = elim (scheme_or_https-cases x) [
  | inl e ↦ rw e (begins_apart b'h' (bytes "ttps" ++ (b':' ∷ rest)) refl refl)
  | inr e ↦ rw e (begins_apart b'h' (bytes "ttp" ++ (b':' ∷ rest)) refl refl)
]

forwarded_origin-apart :
    (opts : CorsOptions) (req : HttpRequest) → trim_space (forwarded_origin opts req) ≢ wildcard
unfolding forwarded_origin
forwarded_origin-apart opts req =
    chosen (not (trusts opts.is_trusted_proxy req.remote_addr))
      (first_of (req.header (bytes "X-Forwarded-Host")) =ᵗ [])
  where
    chosen :
        (b c : Bool)
        → trim_space (
            if b
            then []
            else if c
            then []
            else scheme_or_https (to_lower (first_of (req.header (bytes "X-Forwarded-Proto"))))
              ++ bytes "://"
              ++ to_lower (first_of (req.header (bytes "X-Forwarded-Host"))))
          ≢ wildcard
    chosen true c = nil_apart
    chosen false true = nil_apart
    chosen false false =
        let scheme = to_lower (first_of (req.header (bytes "X-Forwarded-Proto"))) in
        let host = to_lower (first_of (req.header (bytes "X-Forwarded-Host"))) in
        rw (append_assoc (scheme_or_https scheme) (bytes "://") host)
          (scheme_apart scheme (bytes "//" ++ host))

learned-All :
    (opts : CorsOptions) (req : HttpRequest)
    → LearnsNoWildcard opts
    → All NotAny (learned opts req (domain_origins opts.domains))
learned-All opts req h =
    let by_domain = domain_origins opts.domains in
    append_origin-All (append_origins by_domain (or_none opts.learned_origins))
      (forwarded_origin opts req)
      (append_origins-All by_domain (or_none opts.learned_origins) (domain_origins-All opts.domains)
        h)
      (forwarded_origin-apart opts req)

pub record IsSelective (d : CorsDecision) : Type 0 where
  pub lists : d.explicit ≡ true → All NotAny d.origins

or_wildcard-IsSelective :
    (tier : CorsTier) (origins : List Text)
    → All NotAny origins
    → IsSelective (or_wildcard tier origins)
or_wildcard-IsSelective tier [] h = record { lists = λ e. absurd (cc e) }
or_wildcard-IsSelective tier (o ∷ origins) h = record { lists = λ e. h }

or_resolved-IsSelective :
    (origins : List Text) (rest : CorsDecision)
    → All NotAny origins
    → IsSelective rest
    → IsSelective (or_resolved origins rest)
or_resolved-IsSelective [] rest h r = r
or_resolved-IsSelective (o ∷ origins) rest h r = record { lists = λ e. h }

pub resolve_cors-IsSelective :
    (opts : CorsOptions) (req : HttpRequest)
    → LearnsNoWildcard opts
    → IsSelective (resolve_cors opts req)
unfolding resolve_cors resolve_learned
resolve_cors-IsSelective opts req h =
    let fallback =
      or_wildcard-IsSelective _ (learned opts req (domain_origins opts.domains))
        (learned-All opts req h) in
    elim (Bool-cases (trim_space opts.configured =ᵗ [])) [
      | inl e ↦ rw e (record { lists = λ x. tt })
      | inr e ↦ elim (Bool-cases (trim_space opts.configured =ᵗ wildcard)) [
        | inl e' ↦ rw (e, e') fallback
        | inr e' ↦
            rw (e, e')
              (or_resolved-IsSelective (split_origins (trim_space opts.configured)) _
                (split_origins-All (trim_space opts.configured)) fallback)
      ]
    ]
