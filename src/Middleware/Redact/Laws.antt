-- ===== src/Middleware/Redact/Laws.antt =====
-- The value of a sensitive parameter does not show in a redacted query.
use redxt.Common.{
  ℕ, ◌≡◌, refl, ap, ◌∙◌, Bool, true, false, List, [], ◌∷◌, ◌++◌, Option, some, Text, ◌=ᵗ◌, arith,
  split_on, split_more, map, ◌==◌,
}
use redxt.Middleware.Segments.{join}
use redxt.Middleware.Segments.Laws.{Without}
use redxt.Middleware.Requests.{cut}
use redxt.Middleware.Redact.{
  redact_query_params, redact_pair, decoded_name, is_sensitive_param, redacted_marker,
}

split_more-append :
    (b : Bool) (c : ℕ) (w : Text) (ws ys : List Text)
    → split_more b c ((w ∷ ws) ++ ys) ≡ split_more b c (w ∷ ws) ++ ys
split_more-append true c w ws ys = refl
split_more-append false c w ws ys = refl

split_more-parts :
    (b : Bool) (c : ℕ) (ws : List Text)
    → (v : Text) × (vs : List Text) × (split_more b c ws ≡ v ∷ vs)
split_more-parts true c ws = ([], ws, refl)
split_more-parts false c [] = (c ∷ [], [], refl)
split_more-parts false c (w ∷ ws) = (c ∷ w, ws, refl)

module _ (sep : ℕ) where
  split_on-parts : (s : Text) → (v : Text) × (vs : List Text) × (split_on sep s ≡ v ∷ vs)
  unfolding split_on
  split_on-parts [] = ([], [], refl)
  split_on-parts (c ∷ s) = split_more-parts (c == sep) c (split_on sep s)

  split_on-at : (s t : Text) → split_on sep (s ++ (sep ∷ t)) ≡ split_on sep s ++ split_on sep t
  unfolding split_on
  split_on-at [] t = ground arith
  split_on-at (c ∷ s) t =
      let (v, vs, e) = split_on-parts s in
      rw (split_on-at s t, e) (split_more-append (c == sep) c v vs (split_on sep t))

  split_on-whole : (s : Text) → Without sep s → split_on sep s ≡ s ∷ []
  unfolding split_on
  split_on-whole [] h = refl
  split_on-whole (c ∷ s) h = ground (arith, split_on-whole s)

  cut-at : (s t : Text) → Without sep s → cut sep (s ++ (sep ∷ t)) ≡ (s, some t)
  unfolding cut
  cut-at [] t h = ground arith
  cut-at (c ∷ s) t h = ground (arith, cut-at s t)

Without-append : (b : ℕ) (s t : Text) → Without b s → Without b t → Without b (s ++ t)
Without-append b [] t h k = k
Without-append b (c ∷ s) t h k = ground (arith, Without-append b s t)

module _ (unescape : Text → Option Text) where
  redact_pair-hides :
      (name v : Text)
      → Without b'=' name
      → is_sensitive_param (decoded_name unescape (unescape name) name) ≡ true
      → redact_pair unescape (name ++ (b'=' ∷ v)) ≡ name ++ (b'=' ∷ redacted_marker)
  unfolding redact_pair
  redact_pair-hides name v h e = rw (cut-at b'=' name v h) (rw e refl)

  -- A query with the pair name=v between others.
  abbrev pub with_pair : Text → Text → Text → Text → Text
  with_pair before name v after = before ++ (b'&' ∷ ((name ++ (b'=' ∷ v)) ++ (b'&' ∷ after)))

  split_on-with_pair :
      (before name v after : Text)
      → Without b'&' name
      → Without b'&' v
      → split_on b'&' (with_pair before name v after)
        ≡ split_on b'&' before ++ ((name ++ (b'=' ∷ v)) ∷ split_on b'&' after)
  split_on-with_pair before name v after k l =
      let pair = name ++ (b'=' ∷ v) in
      split_on-at b'&' before (pair ++ (b'&' ∷ after))
      ∙ ap (λ (ws : List Text). split_on b'&' before ++ ws)
          (split_on-at b'&' pair after
            ∙ ap (λ (ws : List Text). ws ++ split_on b'&' after)
                (split_on-whole b'&' pair (Without-append b'&' name (b'=' ∷ v) k l)))

  map_pairs :
      (xs ys : List Text)
      → map (redact_pair unescape) (xs ++ ys)
        ≡ map (redact_pair unescape) xs ++ map (redact_pair unescape) ys
  map_pairs [] ys = refl
  map_pairs (x ∷ xs) ys = ap (◌∷◌ (redact_pair unescape x)) (map_pairs xs ys)

  not_empty : (s : Text) (c : ℕ) (t : Text) → (s ++ (c ∷ t) =ᵗ []) ≡ false
  unfolding ◌=ᵗ◌
  not_empty [] c t = refl
  not_empty (d ∷ s) c t = refl

  -- In a query with the pair name=v between two others, where the name has no equals sign and
  -- neither name nor value an ampersand, and the name (unescaped, where that succeeds) is a
  -- sensitive parameter, redaction replaces the value by the marker, whatever it is, and treats
  -- the pairs before and after it one by one.
  pub sensitive_value_hidden :
      (before name v after : Text)
      → Without b'=' name
      → Without b'&' name
      → Without b'&' v
      → is_sensitive_param (decoded_name unescape (unescape name) name) ≡ true
      → redact_query_params unescape (with_pair before name v after)
        ≡ join b'&' (
            map (redact_pair unescape) (split_on b'&' before)
            ++ ((name ++ (b'=' ∷ redacted_marker))
                ∷ map (redact_pair unescape) (split_on b'&' after)))
  unfolding redact_query_params
  sensitive_value_hidden before name v after h k l e =
      let rest = (name ++ (b'=' ∷ v)) ++ (b'&' ∷ after) in
      rw (not_empty before b'&' rest) (
        ap (join b'&') (
          ap (map (redact_pair unescape)) (split_on-with_pair before name v after k l)
          ∙ map_pairs (split_on b'&' before) ((name ++ (b'=' ∷ v)) ∷ split_on b'&' after)
          ∙ ap
              (λ (p : Text).
                map (redact_pair unescape) (split_on b'&' before)
                ++ (p ∷ map (redact_pair unescape) (split_on b'&' after)))
              (redact_pair-hides name v h e)))
