-- ===== src/Common/Texts.antt =====
-- Go strings as lists of bytes, with the functions of package strings that the source calls.
-- `to_lower` and `trim_space` are those of ASCII texts: Go's also know the letters and spaces of
-- Unicode, whose bytes from 128 on are left as they are here.
use Prim.Native.Nat.{ℕ, ◌+◌}
use Prim.Native.Char.{code}
use Prim.Native.String.{String}
use mathlib.Core.Path.{◌≡◌, refl, sym, ◌∙◌}
use mathlib.Core.Bool.{Bool, true, false, ◌&&◌, ◌||◌}
use mathlib.Core.List.{List, [], ◌∷◌, map, reverse}
use mathlib.Core.Logic.{◌↔◌, ◌≢◌, inl, inr}
use native.Mathlib.Omega.{arith}
use redxt.Common.Lists.{length, drop}
use redxt.Common.Tests.{leb, ◌==◌, if◌then◌else◌, Bool-cases}

abbrev pub Text : Type 0
Text = List ℕ

-- The bytes of an ASCII literal.
abbrev pub bytes : String → Text
bytes String.[] = []
bytes (String.◌∷◌ c s) = code c ∷ bytes s

infix 50 ◌=ᵗ◌
unfoldable pub ◌=ᵗ◌ : Text → Text → Bool
[] =ᵗ [] = true
[] =ᵗ (_ ∷ _) = false
(_ ∷ _) =ᵗ [] = false
(x ∷ xs) =ᵗ (y ∷ ys) = x == y && xs =ᵗ ys

pub text_refl : (s : Text) → (s =ᵗ s) ≡ true
unfolding ◌=ᵗ◌
text_refl [] = refl
text_refl (x ∷ s) = ground (arith, text_refl s)

eq_of_text : (s t : Text) → (s =ᵗ t) ≡ true → s ≡ t
unfolding ◌=ᵗ◌
eq_of_text [] [] h = refl
eq_of_text [] (_ ∷ _) h = cc
eq_of_text (_ ∷ _) [] h = cc
eq_of_text (x ∷ xs) (y ∷ ys) h = ground (arith, eq_of_text xs ys)

pub text_eq_iff : (s t : Text) → ((s =ᵗ t) ≡ true) ↔ (s ≡ t)
text_eq_iff s t = (eq_of_text s t, λ e. rw e (text_refl t))

pub text_ne : (k l : Text) → k ≢ l → (k =ᵗ l) ≡ false
text_ne k l h = elim (Bool-cases (k =ᵗ l)) [
  | inl e ↦ absurd (h ((text_eq_iff k l).0 e))
  | inr e ↦ e
]

pub text_apart : (k l : Text) → (k =ᵗ l) ≡ false → k ≢ l
text_apart k l h e = absurd (cc (sym h ∙ (text_eq_iff k l).1 e))

abbrev pub is_upper : ℕ → Bool
is_upper c = leb b'A' c && leb c b'Z'

abbrev pub lower : ℕ → ℕ
lower c = if is_upper c then c + 32 else c

unfoldable pub to_lower : Text → Text
to_lower = map lower

abbrev pub is_space : ℕ → Bool
is_space c = (leb 9 c && leb c 13) || c == 32

unfoldable pub trim_left : Text → Text
trim_left [] = []
trim_left (c ∷ s) = let rest = trim_left s in if is_space c then rest else c ∷ s

unfoldable pub trim_space : Text → Text
unfolding trim_left
trim_space s = reverse (trim_left (reverse (trim_left s)))

unfoldable pub has_prefix : Text → Text → Bool
has_prefix s [] = true
has_prefix [] (_ ∷ _) = false
has_prefix (x ∷ s) (y ∷ p) = x == y && has_prefix s p

unfoldable pub contains : Text → Text → Bool
unfolding has_prefix
contains [] p = has_prefix [] p
contains (x ∷ s) p = has_prefix (x ∷ s) p || contains s p

-- strings.TrimPrefix
unfoldable pub trim_prefix : Text → Text → Text
trim_prefix s p = if has_prefix s p then drop (length p) s else s

unfoldable pub has_suffix : Text → Text → Bool
has_suffix s p = has_prefix (reverse s) (reverse p)

unfoldable pub trim_suffix : Text → Text → Text
trim_suffix s p = reverse (trim_prefix (reverse s) (reverse p))

abbrev pub split_more : Bool → ℕ → List Text → List Text
split_more true c rest = [] ∷ rest
split_more false c [] = (c ∷ []) ∷ []
split_more false c (w ∷ ws) = (c ∷ w) ∷ ws

-- strings.Split at a separator of one byte.
unfoldable pub split_on : ℕ → Text → List Text
split_on sep [] = [] ∷ []
split_on sep (c ∷ s) = split_more (c == sep) c (split_on sep s)
