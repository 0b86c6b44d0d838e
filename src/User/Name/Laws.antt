-- ===== src/User/Name/Laws.antt =====
-- What an accepted name looks like: src/user/validate.go, src/user/blocklist.go.
use mathlib.Core.List.{reverse, reverse-cons, reverse-reverse}
use redxt.Common.{
  Bool, if◌then◌else◌, text_ne, sym, ◌∙◌, any, ap, ◌≢◌, ◌=ᵗ◌, ◌<◌, ℕ, ◌≤◌, ◌≡◌, ◌↔◌, refl, true,
  false, ◌||◌, [], ◌∷◌, ◌++◌, length, arith, Text, bytes, ◌==◌, All, lower, is_space, to_lower,
  trim_left, trim_space, contains, ok,
}
use redxt.User.Blocklist.{blocklist, substring_blocked}
use redxt.User.Name.Shape.{
  StartsWell, EndsWell, IsByteOfName, Lacks, matches_name-parts, parts-matches_name, contains-Lacks,
  Lacks-contains, any_equal-All, All-any_equal, any_part-All, All-any_part,
}
use redxt.User.Name.{
  is_alnum, matches_name_tail, matches_name, normalize_name, is_blocked, validate_name,
}

abbrev pub IsNameByte : ℕ → Type 0
IsNameByte c = (is_alnum c || c == b'-') ≡ true

matches_name_tail-All : (s : Text) → matches_name_tail s ≡ true → All IsNameByte s
unfolding matches_name_tail
matches_name_tail-All [] h = tt
matches_name_tail-All (c ∷ []) h = (ground arith, tt)
matches_name_tail-All (c ∷ d ∷ s) h = (ground arith, matches_name_tail-All (d ∷ s) (ground arith))

pub matches_name-All : (s : Text) → matches_name s ≡ true → All IsNameByte s
unfolding matches_name
matches_name-All [] h = tt
matches_name-All (c ∷ s) h = (ground arith, matches_name_tail-All s (ground arith))

-- Bytes of names are neither upper case nor spaces, so normalising a name changes nothing.
lower-name_byte : (c : ℕ) → IsNameByte c → lower c ≡ c
lower-name_byte c h = ground arith

not_space-name_byte : (c : ℕ) → IsNameByte c → is_space c ≡ false
not_space-name_byte c h = ground arith

to_lower-name : (s : Text) → All IsNameByte s → to_lower s ≡ s
unfolding to_lower
to_lower-name [] h = refl
to_lower-name (c ∷ s) h = cc (lower-name_byte c h.0, to_lower-name s h.1)

trim_left-name : (s : Text) → All IsNameByte s → trim_left s ≡ s
unfolding trim_left
trim_left-name [] h = refl
trim_left-name (c ∷ s) h = ground (arith, not_space-name_byte c h.0)

All-snoc : (s : Text) (c : ℕ) → All IsNameByte s → IsNameByte c → All IsNameByte (s ++ c ∷ [])
All-snoc [] c h p = (p, tt)
All-snoc (d ∷ s) c h p = (h.0, All-snoc s c h.1 p)

All-reverse : (s : Text) → All IsNameByte s → All IsNameByte (reverse s)
All-reverse [] h = h
All-reverse (c ∷ s) h = rw reverse-cons (All-snoc (reverse s) c (All-reverse s h.1) h.0)

pub normalize_name-name : (s : Text) → All IsNameByte s → normalize_name s ≡ s
unfolding normalize_name trim_space
normalize_name-name s h =
    rw (trim_left-name s h)
      (rw (trim_left-name (reverse s) (All-reverse s h)) (rw reverse-reverse (to_lower-name s h)))

-- A name that is accepted, said without the tests: its length, its first and last byte, all its
-- bytes, no hyphen after another, none of the reserved names, and no reserved term within it.
pub record IsValidName (name : Text) : Type 0 where
  pub at_least : 2 ≤ length name
  pub at_most : length name ≤ 39
  pub starts : StartsWell name
  pub ends : EndsWell name
  pub consists : All IsByteOfName name
  pub no_double_hyphen : Lacks (bytes "--") name
  pub not_listed : All (λ entry. name ≢ entry) blocklist
  pub no_reserved_term : All (λ term. Lacks term name) substring_blocked

-- The same by the tests.
record PassesTests (name : Text) : Type 0 where
  long : 2 ≤ length name
  short : length name ≤ 39
  shape : matches_name name ≡ true
  hyphens : contains name (bytes "--") ≡ false
  free : is_blocked name ≡ false

-- The test of a name that is already normal.
abbrev blocked_as : Text → Bool
blocked_as name =
    if name =ᵗ []
    then true
    else if any (λ entry. entry =ᵗ name) blocklist
    then true
    else any (λ term. contains name term) substring_blocked

if_refused :
    (a b c : Bool) → (if a then true else if b then true else c) ≡ false → (b ≡ false) × (c ≡ false)
if_refused a b c h = (ground arith, ground arith)

refused_if :
    (a b c : Bool)
    → a ≡ false
    → b ≡ false
    → c ≡ false
    → (if a then true else if b then true else c) ≡ false
refused_if a b c p q r = ground arith

not_blocked :
    (name : Text)
    → normalize_name name ≡ name
    → is_blocked name ≡ false
    → (any (λ entry. entry =ᵗ name) blocklist ≡ false)
      × (any (λ term. contains name term) substring_blocked ≡ false)
unfolding is_blocked normalize_name
not_blocked name normal h = if_refused _ _ _ (ap blocked_as (sym normal) ∙ h)

free_name :
    (name : Text)
    → normalize_name name ≡ name
    → name ≢ []
    → any (λ entry. entry =ᵗ name) blocklist ≡ false
    → any (λ term. contains name term) substring_blocked ≡ false
    → is_blocked name ≡ false
unfolding is_blocked normalize_name
free_name name normal ne listed term =
    ap blocked_as normal ∙ refused_if _ _ _ (text_ne name [] ne) listed term

PassesTests-IsValidName : (name : Text) → PassesTests name → IsValidName name
PassesTests-IsValidName name t =
    let (starts, ends, consists) = matches_name-parts name t.shape in
    let normal = normalize_name-name name (matches_name-All name t.shape) in
    let (listed, term) = not_blocked name normal t.free in
    record {
      at_least = t.long;
      at_most = t.short;
      starts = starts;
      ends = ends;
      consists = consists;
      no_double_hyphen = contains-Lacks name (bytes "--") t.hyphens;
      not_listed = any_equal-All blocklist name listed;
      no_reserved_term = any_part-All substring_blocked name term;
    }

nonempty : (name : Text) → 2 ≤ length name → name ≢ []
nonempty name h e = omega (arith, ap length e)

valid_shape : (name : Text) → IsValidName name → matches_name name ≡ true
valid_shape name v = parts-matches_name name (nonempty name v.at_least) v.starts v.ends v.consists

pub normalize_name-valid : (name : Text) → IsValidName name → normalize_name name ≡ name
normalize_name-valid name v = normalize_name-name name (matches_name-All name (valid_shape name v))

IsValidName-PassesTests : (name : Text) → IsValidName name → PassesTests name
IsValidName-PassesTests name v = record {
  long = v.at_least;
  short = v.at_most;
  shape = valid_shape name v;
  hyphens = Lacks-contains name (bytes "--") v.no_double_hyphen;
  free =
      free_name name (normalize_name-valid name v) (nonempty name v.at_least)
        (All-any_equal blocklist name v.not_listed)
        (All-any_part substring_blocked name v.no_reserved_term);
}

tests_passed :
    (raw name : Text) → validate_name raw ≡ ok name → (normalize_name raw ≡ name) × PassesTests name
unfolding validate_name
tests_passed raw name h = ground arith

passed_tests :
    (raw name : Text) → normalize_name raw ≡ name → PassesTests name → validate_name raw ≡ ok name
unfolding validate_name
passed_tests raw name e v = ground arith

-- An ASCII raw name is accepted as a given name exactly when that name is its normal form, has 2
-- to 39 bytes, all of them lower-case letters, digits or hyphens, the first and the last one no
-- hyphen and no hyphen after another, is none of the reserved names and holds none of the
-- reserved terms as a part.
pub validate_name_iff :
    (raw name : Text)
    → All (λ c. c < 128) raw
    → (validate_name raw ≡ ok name) ↔ ((normalize_name raw ≡ name) × IsValidName name)
validate_name_iff raw name ascii = (
  λ h. let (e, t) = tests_passed raw name h in (e, PassesTests-IsValidName name t),
  λ h. passed_tests raw name h.0 (IsValidName-PassesTests name h.1),
)

-- An accepted name is accepted again as itself.
pub validate_name_idempotent :
    (raw name : Text) → validate_name raw ≡ ok name → validate_name name ≡ ok name
validate_name_idempotent raw name h =
    let v = PassesTests-IsValidName name (tests_passed raw name h).1 in
    passed_tests name name (normalize_name-valid name v) (tests_passed raw name h).1
