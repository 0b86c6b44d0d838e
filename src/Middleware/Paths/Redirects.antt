-- ===== src/Middleware/Paths/Redirects.antt =====
-- The redirects of the normalization stage, as the chain configures it: no case folding.
use redxt.Common.{
  ℕ, ◌≡◌, ◌≢◌, refl, ap, ◌∙◌, Bool, true, false, ◌&&◌, not, [], ◌∷◌, ◌++◌, inl, inr, ◌⊎◌, Text,
  bytes, ◌=ᵗ◌, text_refl, text_ne, text_eq_iff, text_apart, arith, Bool-cases, if◌then◌else◌,
  length, length-append,
}
use redxt.RateLimit.Paths.{trim_slash}
use redxt.Middleware.Segments.{ends_in_slash}
use redxt.Middleware.Paths.{
  url_normalize, canonical, last_segment_is_file, with_query, passed, moved_permanently,
}

trim_slash-ends : (s : Text) → ends_in_slash s ≡ true → s ≡ trim_slash s ++ bytes "/"
unfolding ends_in_slash trim_slash ◌=ᵗ◌
trim_slash-ends [] h = cc
trim_slash-ends (c ∷ []) h = ground arith
trim_slash-ends (c ∷ d ∷ s) h = ground (arith, trim_slash-ends (d ∷ s) h)

-- A collection's path with a trailing slash, and the path without that slash.
pub record IsReducible (p q : Text) : Type 0 where
  pub not_root : p ≢ bytes "/"
  pub not_file : last_segment_is_file p ≡ false
  pub spelled : p ≡ q ++ bytes "/"

abbrev reduces : Text → Bool
reduces p = not (p =ᵗ bytes "/") && ends_in_slash p && not (last_segment_is_file p)

canonical-reduces : (p : Text) → canonical false p ≡ (if reduces p then trim_slash p else p)
unfolding canonical
canonical-reduces p = refl

abbrev pub IsCanonical : Text → Type 0
IsCanonical p = (p ≡ bytes "/") ⊎ ((ends_in_slash p ≡ false) ⊎ (last_segment_is_file p ≡ true))

irreducible-IsCanonical : (p : Text) → reduces p ≡ false → IsCanonical p
irreducible-IsCanonical p h = elim (Bool-cases (p =ᵗ bytes "/")) [
  | inl e ↦ inl ((text_eq_iff p (bytes "/")).0 e)
  | inr e ↦ inr (ground arith)
]

reducible : (p : Text) → reduces p ≡ true → IsReducible p (trim_slash p)
reducible p h = record {
  not_root = text_apart p (bytes "/") (ground arith);
  not_file = ground arith;
  spelled = trim_slash-ends p (ground arith);
}

shorter_differs : (p : Text) → reduces p ≡ true → (trim_slash p =ᵗ p) ≡ false
shorter_differs p h =
    text_ne (trim_slash p) p
      (λ e. absurd (longer (trim_slash p) (e ∙ trim_slash-ends p (ground arith))))
  where
    longer : (s : Text) → s ≢ s ++ bytes "/"
    longer s e = absurd (omega (arith, ap length e, length-append s (bytes "/")))

-- With case folding off and a path that is not empty, either the path is the root, has no slash
-- at its end or names a file, and is passed on as it is; or it is none of these, and the answer
-- is a redirect to it without that slash, with the query.
pub url_normalize_outcome :
    (c : ℕ) (s query : Text)
    → ((url_normalize false (c ∷ s) query ≡ passed (c ∷ s)) × IsCanonical (c ∷ s))
      ⊎ ((q : Text) × IsReducible (c ∷ s) q
          × (url_normalize false (c ∷ s) query ≡ moved_permanently (with_query q query)))
unfolding url_normalize
url_normalize_outcome c s query = elim (Bool-cases (reduces (c ∷ s))) [
  | inl e ↦ inr (
    trim_slash (c ∷ s),
    reducible (c ∷ s) e,
    rw (canonical-reduces (c ∷ s), e, shorter_differs (c ∷ s) e) refl,
  )
  | inr e ↦
      inl (
        rw (canonical-reduces (c ∷ s), e, text_refl (c ∷ s)) refl,
        irreducible-IsCanonical (c ∷ s) e,
      )
]
