-- ===== src/User/Email.antt =====
-- src/user/validate.go: ValidateEmail.
use redxt.Common.{
  ℕ, ◌==◌, ◌&&◌, ◌||◌, Bool, true, false, Option, none, some, [], ◌∷◌, all, length, ltb, leb, not,
  Text, bytes, contains, Result, ok, err, if◌then◌else◌,
}
use redxt.User.Name.{is_alnum, normalize_name}

pub data EmailError : Type 0 where
  email_length email_format : EmailError

-- What stands before and behind the last byte `c`, as strings.LastIndex finds it.
unfoldable pub split_last : ℕ → Text → Option (Text × Text)
split_last c [] = none
split_last c (x ∷ s) = elim (split_last c s) [
  | some (before, behind) ↦ some (x ∷ before, behind)
  | none ↦ if x == c then some ([], s) else none
]

abbrev last_is : (ℕ → Bool) → Text → Bool
last_is p [] = false
last_is p (c ∷ []) = p c
last_is p (c ∷ d ∷ s) = last_is p (d ∷ s)

abbrev first_is : (ℕ → Bool) → Text → Bool
first_is p [] = false
first_is p (c ∷ s) = p c

abbrev is_letter : ℕ → Bool
is_letter c = leb b'a' c && leb c b'z'

-- ^[a-z0-9.+_-]+$
unfoldable pub matches_local : Text → Bool
matches_local [] = false
matches_local (c ∷ s) =
    all (λ x. is_alnum x || x == b'.' || x == b'+' || x == b'_' || x == b'-') (c ∷ s)

-- [a-z0-9][a-z0-9.-]*[a-z0-9]
unfoldable pub matches_host : Text → Bool
matches_host s =
    leb 2 (length s)
    && first_is is_alnum s
    && last_is is_alnum s
    && all (λ x. is_alnum x || x == b'.' || x == b'-') s

-- ^[a-z0-9][a-z0-9.-]*[a-z0-9]\.[a-z]{2,}$, whose last dot is the one written out.
unfoldable pub matches_email_domain : Text → Bool
unfolding split_last
matches_email_domain s = elim (split_last b'.' s) [
  | none ↦ false
  | some (host, top) ↦ matches_host host && leb 2 (length top) && all is_letter top
]

abbrev is_dot : ℕ → Bool
is_dot c = c == b'.'

-- The tests on the two halves, in the order of the source.
unfoldable pub check_email : Text → Text → Text → Result EmailError Text
check_email email local domain =
    if ltb 64 (length local) || ltb 255 (length domain)
    then err email_length
    else if first_is is_dot local || last_is is_dot local
    then err email_format
    else if contains email (bytes "..")
    then err email_format
    else if not (matches_local local)
    then err email_format
    else if not (matches_email_domain domain)
    then err email_format
    else ok email

abbrev is_empty : Text → Bool
is_empty [] = true
is_empty (_ ∷ _) = false

-- `at <= 0` is an empty local part or no "@", `at == len(email)-1` an empty domain.
unfoldable pub split_email : Text → Option (Text × Text) → Result EmailError Text
split_email email none = err email_format
split_email email (some (local, domain)) =
    if is_empty local || is_empty domain then err email_format else check_email email local domain

-- NormalizeEmail has the body of NormalizeName.
unfoldable pub validate_email : Text → Result EmailError Text
validate_email raw =
    let email = normalize_name raw in
    if is_empty email || ltb 254 (length email)
    then err email_length
    else split_email email (split_last b'@' email)
