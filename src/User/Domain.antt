-- ===== src/User/Domain.antt =====
-- src/user/validate.go: custom domain names.
use redxt.Common.{
  ℕ, Bool, false, ◌&&◌, ◌||◌, List, [], ◌∷◌, all, count_where, length, ltb, leb, ◌==◌, not, Text,
  bytes, ◌=ᵗ◌, has_prefix, trim_prefix, trim_suffix, split_on, if◌then◌else◌, Option, none, some,
}
use redxt.User.Name.{normalize_name, matches_name}

abbrev pub max_email_domain_length : ℕ
max_email_domain_length = 255

-- [a-z]{2,}
abbrev is_top : Text → Bool
is_top s = leb 2 (length s) && all (λ c. leb b'a' c && leb c b'z') s

-- ([a-z0-9]([a-z0-9-]*[a-z0-9])?\.)+[a-z]{2,}$ on the labels: the last is the top, and one stands
-- before it.
unfoldable pub matches_labels : List Text → Bool
matches_labels [] = false
matches_labels (l ∷ []) = false
matches_labels (l ∷ top ∷ []) = matches_name l && is_top top
matches_labels (l ∷ m ∷ n ∷ ls) = matches_name l && matches_labels (m ∷ n ∷ ls)

abbrev pub wildcard_prefix : Text
wildcard_prefix = bytes "*."

-- `none` is ErrDomainFormat.
unfoldable pub validate_domain : Text → Option Text
validate_domain raw =
    let domain = trim_suffix (normalize_name raw) (bytes ".") in
    let labels = split_on b'.' (trim_prefix domain wildcard_prefix) in
    if domain =ᵗ [] || ltb max_email_domain_length (length domain)
    then none
    else if not (matches_labels labels)
    then none
    else if not (all (λ l. not (l =ᵗ []) && leb (length l) 63) labels)
    then none
    else some domain

unfoldable pub is_wildcard_domain : Text → Bool
is_wildcard_domain domain = has_prefix domain wildcard_prefix

unfoldable pub is_apex_domain : Text → Bool
is_apex_domain domain =
    if is_wildcard_domain domain then false else count_where (λ c. c == b'.') domain == 1
