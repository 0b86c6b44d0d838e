-- ===== src/User/Name/Shape.antt =====
-- The tests of a name, said without them: its bytes one by one, and what is not a part of it.
use redxt.Common.{
  ℕ, ◌≤◌, ◌≡◌, ◌≢◌, refl, sym, ◌∙◌, ap, true, false, ◌||◌, ◌&&◌, List, [], ◌∷◌, ◌++◌, ◌==◌, arith,
  Bool-cases, Text, All, any, drop, ◌=ᵗ◌, text_eq_iff, text_ne, contains, has_prefix, ◌⊎◌, inl, inr,
  leb,
}
use redxt.User.Name.{is_alnum, matches_name_tail, matches_name}

abbrev pub IsLetterOrDigit : ℕ → Type 0
IsLetterOrDigit c = ((b'a' ≤ c) × (c ≤ b'z')) ⊎ ((b'0' ≤ c) × (c ≤ b'9'))

is_alnum-IsLetterOrDigit : (c : ℕ) → is_alnum c ≡ true → IsLetterOrDigit c
is_alnum-IsLetterOrDigit c h = elim (Bool-cases (leb b'a' c && leb c b'z')) [
  | inl e ↦ inl (ground arith, ground arith)
  | inr e ↦ inr (ground arith, ground arith)
]

IsLetterOrDigit-is_alnum : (c : ℕ) → IsLetterOrDigit c → is_alnum c ≡ true
IsLetterOrDigit-is_alnum c (inl (x, y)) = ground arith
IsLetterOrDigit-is_alnum c (inr (x, y)) = ground arith

-- A byte of a name: a lower-case letter, a digit or a hyphen.
abbrev pub IsByteOfName : ℕ → Type 0
IsByteOfName c = IsLetterOrDigit c ⊎ (c ≡ b'-')

byte-IsByteOfName : (c : ℕ) → (is_alnum c || c == b'-') ≡ true → IsByteOfName c
byte-IsByteOfName c h = elim (Bool-cases (is_alnum c)) [
  | inl e ↦ inl (is_alnum-IsLetterOrDigit c e)
  | inr e ↦ inr (ground arith)
]

IsByteOfName-byte : (c : ℕ) → IsByteOfName c → (is_alnum c || c == b'-') ≡ true
IsByteOfName-byte c (inl x) = rw (IsLetterOrDigit-is_alnum c x) refl
IsByteOfName-byte c (inr e) = ground arith

-- The last byte, where there is one, is a letter or a digit.
abbrev pub EndsWell : Text → Type 0
EndsWell s = (t : Text) (c : ℕ) → s ≡ t ++ c ∷ [] → IsLetterOrDigit c

abbrev pub StartsWell : Text → Type 0
StartsWell s = (c : ℕ) (t : Text) → s ≡ c ∷ t → IsLetterOrDigit c

first_or : ℕ → Text → ℕ
first_or d [] = d
first_or d (c ∷ s) = c

not_snoc : (t : Text) (c : ℕ) → [] ≢ t ++ c ∷ []
not_snoc [] c h = cc h
not_snoc (d ∷ t) c h = cc h

matches_name_tail-bytes : (s : Text) → matches_name_tail s ≡ true → All IsByteOfName s
unfolding matches_name_tail
matches_name_tail-bytes [] h = tt
matches_name_tail-bytes (c ∷ []) h = (inl (is_alnum-IsLetterOrDigit c h), tt)
matches_name_tail-bytes (c ∷ d ∷ s) h =
    (byte-IsByteOfName c (ground arith), matches_name_tail-bytes (d ∷ s) (ground arith))

matches_name_tail-EndsWell : (s : Text) → matches_name_tail s ≡ true → EndsWell s
unfolding matches_name_tail first_or
matches_name_tail-EndsWell [] h t c e = absurd (not_snoc t c e)
matches_name_tail-EndsWell (x ∷ []) h [] c e =
    rw (← ap (first_or 0) e) (is_alnum-IsLetterOrDigit x h)
matches_name_tail-EndsWell (x ∷ []) h (y ∷ t) c e = absurd (not_snoc t c (ap (drop 1) e))
matches_name_tail-EndsWell (x ∷ y ∷ s) h [] c e = absurd (cc (ap (drop 1) e))
matches_name_tail-EndsWell (x ∷ y ∷ s) h (z ∷ t) c e =
    matches_name_tail-EndsWell (y ∷ s) (ground arith) t c (ap (drop 1) e)

tail-matches : (s : Text) → All IsByteOfName s → EndsWell s → matches_name_tail s ≡ true
unfolding matches_name_tail
tail-matches [] h ends = refl
tail-matches (c ∷ []) h ends = IsLetterOrDigit-is_alnum c (ends [] c refl)
tail-matches (c ∷ d ∷ s) h ends =
    rw (IsByteOfName-byte c h.0) (tail-matches (d ∷ s) h.1 (λ t x e. ends (c ∷ t) x (ap (◌∷◌ c) e)))

pub matches_name-parts :
    (s : Text) → matches_name s ≡ true → StartsWell s × EndsWell s × All IsByteOfName s
unfolding matches_name first_or
matches_name-parts [] h = absurd (cc h)
matches_name-parts (c ∷ s) h =
    let first : IsLetterOrDigit c = is_alnum-IsLetterOrDigit c (ground arith) in
    let rest : matches_name_tail s ≡ true = ground arith in
    (
      λ x t e. rw (← ap (first_or 0) e) first,
      ends s first rest,
      (inl first, matches_name_tail-bytes s rest),
    )
  where
    ends : (u : Text) → IsLetterOrDigit c → matches_name_tail u ≡ true → EndsWell (c ∷ u)
    ends [] first rest [] x e = rw (← ap (first_or 0) e) first
    ends [] first rest (y ∷ t) x e = absurd (not_snoc t x (ap (drop 1) e))
    ends (d ∷ u) first rest [] x e = absurd (cc (ap (drop 1) e))
    ends (d ∷ u) first rest (y ∷ t) x e =
        matches_name_tail-EndsWell (d ∷ u) rest t x (ap (drop 1) e)

pub parts-matches_name :
    (s : Text) → s ≢ [] → StartsWell s → EndsWell s → All IsByteOfName s → matches_name s ≡ true
unfolding matches_name
parts-matches_name [] ne first ends h = absurd (ne refl)
parts-matches_name (c ∷ s) ne first ends h =
    rw (IsLetterOrDigit-is_alnum c (first c s refl))
      (tail-matches s h.1 (λ t x e. ends (c ∷ t) x (ap (◌∷◌ c) e)))

-- A part is not in a text at all.
abbrev pub Lacks : Text → Text → Type 0
Lacks part s = (a b : Text) → s ≢ a ++ (part ++ b)

has_prefix-append : (p b : Text) → has_prefix (p ++ b) p ≡ true
unfolding has_prefix
has_prefix-append [] b = refl
has_prefix-append (x ∷ p) b = ground (arith, has_prefix-append p b)

prefix_is_part : (s p : Text) → has_prefix s p ≡ true → contains s p ≡ true
unfolding contains
prefix_is_part [] p h = h
prefix_is_part (x ∷ s) p h = ground arith

contains-append : (a p b : Text) → contains (a ++ (p ++ b)) p ≡ true
unfolding contains
contains-append [] p b = prefix_is_part (p ++ b) p (has_prefix-append p b)
contains-append (x ∷ a) p b = ground (arith, contains-append a p b)

has_prefix-rest : (s p : Text) → has_prefix s p ≡ true → (b : Text) × (s ≡ p ++ b)
unfolding has_prefix
has_prefix-rest s [] h = (s, refl)
has_prefix-rest [] (y ∷ p) h = absurd (cc h)
has_prefix-rest (x ∷ s) (y ∷ p) h =
    let (b, e) = has_prefix-rest s p (ground arith) in
    let same : x ≡ y = ground arith in (b, (λ i. same i ∷ e i))

contains-split : (s p : Text) → contains s p ≡ true → (a : Text) × (b : Text) × (s ≡ a ++ (p ++ b))
unfolding contains
contains-split [] p h = let (b, e) = has_prefix-rest [] p h in ([], b, e)
contains-split (x ∷ s) p h = elim (Bool-cases (has_prefix (x ∷ s) p)) [
  | inl e ↦ let (b, e2) = has_prefix-rest (x ∷ s) p e in ([], b, e2)
  | inr e ↦ let (a, b, e2) = contains-split s p (ground arith) in (x ∷ a, b, ap (◌∷◌ x) e2)
]

pub contains-Lacks : (s p : Text) → contains s p ≡ false → Lacks p s
contains-Lacks s p h a b e = cc (sym h ∙ ap (λ t. contains t p) e ∙ contains-append a p b)

pub Lacks-contains : (s p : Text) → Lacks p s → contains s p ≡ false
Lacks-contains s p lacks = elim (Bool-cases (contains s p)) [
  | inl e ↦ let (a, b, same) = contains-split s p e in absurd (lacks a b same)
  | inr e ↦ e
]

pub any_equal-All :
    (list : List Text) (s : Text)
    → any (λ entry. entry =ᵗ s) list ≡ false
    → All (λ entry. s ≢ entry) list
any_equal-All [] s h = tt
any_equal-All (w ∷ list) s h = (differs, any_equal-All list s (ground arith))
  where
    differs : s ≢ w
    differs e = ground (arith, (text_eq_iff w s).1 (sym e))

pub All-any_equal :
    (list : List Text) (s : Text)
    → All (λ entry. s ≢ entry) list
    → any (λ entry. entry =ᵗ s) list ≡ false
All-any_equal [] s h = refl
All-any_equal (w ∷ list) s h = rw (text_ne w s (λ e. h.0 (sym e))) (All-any_equal list s h.1)

pub any_part-All :
    (list : List Text) (s : Text)
    → any (λ term. contains s term) list ≡ false
    → All (λ term. Lacks term s) list
any_part-All [] s h = tt
any_part-All (w ∷ list) s h =
    (contains-Lacks s w (ground arith), any_part-All list s (ground arith))

pub All-any_part :
    (list : List Text) (s : Text)
    → All (λ term. Lacks term s) list
    → any (λ term. contains s term) list ≡ false
All-any_part [] s h = refl
All-any_part (w ∷ list) s h = rw (Lacks-contains s w h.0) (All-any_part list s h.1)
