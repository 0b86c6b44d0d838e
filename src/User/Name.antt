-- ===== src/User/Name.antt =====
-- src/user/validate.go and blocklist.go: the names of accounts and the slugs of organizations.
pub mod Shape
pub mod Laws
use redxt.Common.{
  ℕ, Bool, true, false, ◌&&◌, ◌||◌, List, [], ◌∷◌, any, length, ltb, leb, ◌==◌, not, Text, bytes,
  ◌=ᵗ◌, to_lower, trim_space, contains, if◌then◌else◌, Result, ok, err,
}
use redxt.User.Blocklist.{blocklist, substring_blocked}

pub data NameError : Type 0 where
  name_length name_format name_reserved : NameError

abbrev pub min_name_length : ℕ
min_name_length = 2

abbrev pub max_name_length : ℕ
max_name_length = 39

unfoldable pub normalize_name : Text → Text
normalize_name raw = to_lower (trim_space raw)

-- [a-z0-9]
abbrev pub is_alnum : ℕ → Bool
is_alnum c = (leb b'a' c && leb c b'z') || (leb b'0' c && leb c b'9')

-- ([a-z0-9-]*[a-z0-9])?$
unfoldable pub matches_name_tail : Text → Bool
matches_name_tail [] = true
matches_name_tail (c ∷ []) = is_alnum c
matches_name_tail (c ∷ d ∷ s) = (is_alnum c || c == b'-') && matches_name_tail (d ∷ s)

-- ^[a-z0-9]([a-z0-9-]*[a-z0-9])?$
unfoldable pub matches_name : Text → Bool
matches_name [] = false
matches_name (c ∷ s) = is_alnum c && matches_name_tail s

unfoldable pub is_blocked : Text → Bool
is_blocked name =
    let lowered = to_lower (trim_space name) in
    if lowered =ᵗ []
    then true
    else if any (λ entry. entry =ᵗ lowered) blocklist
    then true
    else any (λ term. contains lowered term) substring_blocked

unfoldable pub validate_name : Text → Result NameError Text
validate_name raw =
    let name = normalize_name raw in
    if ltb (length name) min_name_length || ltb max_name_length (length name)
    then err name_length
    else if not (matches_name name)
    then err name_format
    else if contains name (bytes "--")
    then err name_format
    else if is_blocked name
    then err name_reserved
    else ok name
