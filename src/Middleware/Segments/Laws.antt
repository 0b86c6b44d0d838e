-- ===== src/Middleware/Segments/Laws.antt =====
-- Paths read as segments: what the segments of a text inherit from it, and what path.Clean makes
-- of segments that hold no "..".
use mathlib.Core.List.{append-nil, append_assoc}
use redxt.Common.{
  ℕ, ◌≡◌, refl, ap, sym, ◌∙◌, Bool, true, false, ◌||◌, not, List, [], ◌∷◌, ◌++◌, ◌==◌, inl, inr,
  keep, All, Text, bytes, ◌=ᵗ◌, text_ne, contains, has_prefix, split_on, split_more, arith,
  Bool-cases, if◌then◌else◌,
}
use redxt.Middleware.Segments.{contains_byte, clean_segment, clean_segments}

-- Segments that path.Clean keeps.
unfoldable pub is_named : Text → Bool
is_named w = not (w =ᵗ [] || w =ᵗ bytes ".")

abbrev pub WithoutDots : Text → Type 0
WithoutDots w = contains w (bytes "..") ≡ false

abbrev pub Without : ℕ → Text → Type 0
Without b w = contains_byte b w ≡ false

dots_hold_dots : contains (bytes "..") (bytes "..") ≡ true
unfolding contains has_prefix
dots_hold_dots = refl

is_not_dots : (w : Text) → WithoutDots w → (w =ᵗ bytes "..") ≡ false
is_not_dots w h =
    text_ne w (bytes "..")
      (λ e. absurd (cc (sym (ap (λ (t : Text). contains t (bytes "..")) e ∙ dots_hold_dots) ∙ h)))

clean_segment-keep :
    (out : List Text) (w : Text)
    → WithoutDots w
    → clean_segment true out w ≡ (if is_named w then out ++ (w ∷ []) else out)
unfolding clean_segment is_named
clean_segment-keep out w h = ground (arith, is_not_dots w h)

pub clean_segments-keep :
    (out ws : List Text) → All WithoutDots ws → clean_segments true out ws ≡ out ++ keep is_named ws
unfolding clean_segments
clean_segments-keep out [] h = sym (append-nil out)
clean_segments-keep out (w ∷ ws) h = elim (Bool-cases (is_named w)) [
  | inl e ↦
      rw (clean_segment-keep out w h.0, e)
        (clean_segments-keep (out ++ (w ∷ [])) ws h.1
          ∙ append_assoc out (w ∷ []) (keep is_named ws))
  | inr e ↦ rw (clean_segment-keep out w h.0, e) (clean_segments-keep out ws h.1)
]

abbrev first : List Text → Text
first [] = []
first (w ∷ ws) = w

-- What a text lacks, its segments lack, and no segment holds the separator.
module _ (sep : ℕ) where
  split_more-All :
      (P : Text → Type 0) (c : ℕ) (ws : List Text)
      → P []
      → ((c == sep) ≡ false → P (c ∷ first ws))
      → All P ws
      → All P (split_more (c == sep) c ws)
  split_more-All P c ws base step h = elim (Bool-cases (c == sep)) [
    | inl e ↦ rw e (base, h)
    | inr e ↦ rw e (joined ws (step e) h)
  ]
    where
      joined : (vs : List Text) → P (c ∷ first vs) → All P vs → All P (split_more false c vs)
      joined [] p h = (p, tt)
      joined (v ∷ vs) p h = (p, h.1)

  first-All : (P : Text → Type 0) (ws : List Text) → P [] → All P ws → P (first ws)
  first-All P [] p h = p
  first-All P (w ∷ ws) p h = h.0

  pub split_on-lacks_sep : (s : Text) → All (Without sep) (split_on sep s)
  unfolding split_on
  split_on-lacks_sep [] = (refl, tt)
  split_on-lacks_sep (c ∷ s) =
      let ih = split_on-lacks_sep s in
      split_more-All (Without sep) c (split_on sep s) refl
        (λ e. ground (arith, first-All (Without sep) (split_on sep s) refl ih)) ih

  pub split_on-lacks : (b : ℕ) (s : Text) → Without b s → All (Without b) (split_on sep s)
  unfolding split_on
  split_on-lacks b [] h = (refl, tt)
  split_on-lacks b (c ∷ s) h =
      let ih = split_on-lacks b s (ground arith) in
      split_more-All (Without b) c (split_on sep s) refl
        (λ e. ground (arith, first-All (Without b) (split_on sep s) refl ih)) ih

  first-has_prefix :
      (d : ℕ) (s : Text)
      → has_prefix s (d ∷ []) ≡ false
      → has_prefix (first (split_on sep s)) (d ∷ []) ≡ false
  unfolding split_on has_prefix
  first-has_prefix d [] h = refl
  first-has_prefix d (c ∷ s) h = elim (Bool-cases (c == sep)) [
    | inl e ↦ rw e refl
    | inr e ↦ rw e (joined (split_on sep s))
  ]
    where
      joined : (vs : List Text) → has_prefix (first (split_more false c vs)) (d ∷ []) ≡ false
      joined [] = h
      joined (v ∷ vs) = h

  pub split_on-lacks_dots : (s : Text) → WithoutDots s → All WithoutDots (split_on sep s)
  unfolding split_on contains has_prefix
  split_on-lacks_dots [] h = (refl, tt)
  split_on-lacks_dots (c ∷ s) h =
      let ih = split_on-lacks_dots s (ground arith) in
      split_more-All WithoutDots c (split_on sep s) refl
        (λ e.
          ground (arith, first-All WithoutDots (split_on sep s) refl ih, first-has_prefix b'.' s))
        ih
