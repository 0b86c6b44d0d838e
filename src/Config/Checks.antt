-- ===== src/Config/Checks.antt =====
-- src/config/validate.go: the checks of one value. A validator gives the corrected value and the
-- settings that it warned of, in order, or the entries of a list; the texts of the warnings are left
-- out. Trimming and lower case are those of ASCII, and equality under folding is that of Unicode for
-- words in ASCII.
pub mod Ascii
pub mod Laws
use redxt.Common.{
  drop, has_prefix, lower, ◌==◌, ℕ, ℤ, pos, Bool, true, false, ◌&&◌, ◌||◌, not, List, [], ◌∷◌, ◌++◌,
  Text, bytes, ◌=ᵗ◌, ltb_ℤ, is_zero, trim_space, to_lower, any, keep, map, if◌then◌else◌,
}

abbrev pub Warnings : Type 0
Warnings = List Text

abbrev pub warn_unless : Bool → Text → Warnings
warn_unless ok name = if ok then [] else name ∷ []

abbrev pub is_blank : Text → Bool
is_blank s = trim_space s =ᵗ []

-- One byte before a folded text: `ſ` (U+017F) folds to s and the Kelvin sign (U+212A) to k. No other
-- character outside ASCII folds to one inside.
abbrev pub fold_byte : ℕ → Text → Text
fold_byte c t =
    if c == 197 && has_prefix t (191 ∷ [])
    then b's' ∷ drop 1 t
    else if c == 226 && has_prefix t (132 ∷ 170 ∷ [])
    then b'k' ∷ drop 2 t
    else lower c ∷ t

-- A text under the folding of strings.EqualFold, as far as it can equal a word in ASCII.
unfoldable pub fold_text : Text → Text
fold_text [] = []
fold_text (c ∷ s) = fold_byte c (fold_text s)

-- containsFold, for a list of words in ASCII.
unfoldable pub contains_fold : List Text → Text → Bool
contains_fold list s = any (λ v. fold_text v =ᵗ fold_text (trim_space s)) list

-- contains
unfoldable pub contains_text : List Text → Text → Bool
contains_text list value = any (λ v. v =ᵗ value) list

-- The checks that an enumerated setting goes through: a value outside the list is replaced, and what
-- is left is trimmed and in lower case.
unfoldable pub choice : List Text → Text → Text → Text
choice list v d = to_lower (trim_space (if contains_fold list v then v else d))

-- A number that is less than the least allowed one is replaced.
unfoldable pub at_least : ℤ → ℤ → ℤ → ℤ
at_least least v d = if ltb_ℤ v least then d else v

abbrev pub is_low : ℤ → ℤ → Bool
is_low least v = ltb_ℤ v least

-- requirePositiveDuration
unfoldable pub require_positive_duration : ℤ → ℤ → ℤ
require_positive_duration v fallback = if ltb_ℤ (pos 0) v then v else fallback

-- clampInt
unfoldable pub clamp_int : ℤ → ℤ → ℤ → ℤ → ℤ
clamp_int v fallback least most =
    if is_zero v && ltb_ℤ (pos 0) least
    then fallback
    else if ltb_ℤ v least || ltb_ℤ most v
    then fallback
    else v

-- normalizeDomainList
unfoldable pub normalize_domain_list : List Text → List Text
normalize_domain_list list =
    keep (λ entry. not (entry =ᵗ [])) (map (λ entry. to_lower (trim_space entry)) list)
