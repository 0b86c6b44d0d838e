-- ===== src/User/Password.antt =====
-- src/user/validate.go: passwords and login identifiers, over ASCII texts.
use redxt.Common.{
  ℕ, Bool, ◌&&◌, [], any, all, length, leb, ◌==◌, not, Text, ◌=ᵗ◌, trim_space, is_upper,
  if◌then◌else◌, ℤ, pos, leb_ℤ, ltb_ℤ, Option, none, some,
}

pub record PasswordPolicy : Type 0 where
  pub min_length : ℤ
  pub require_uppercase : Bool
  pub require_lowercase : Bool
  pub require_number : Bool
  pub require_special : Bool

pub data PasswordError : Type 0 where
  too_short wrong_composition : PasswordError

abbrev is_lower : ℕ → Bool
is_lower c = leb b'a' c && leb c b'z'

abbrev is_number : ℕ → Bool
is_number c = leb b'0' c && leb c b'9'

abbrev is_special : ℕ → Bool
is_special c = not (is_upper c) && not (is_lower c) && not (is_number c)

-- `none` is acceptance.
unfoldable pub validate_password : PasswordPolicy → Text → Option PasswordError
validate_password p password =
    let min_length = if leb_ℤ p.min_length (pos 0) then pos 8 else p.min_length in
    if ltb_ℤ (pos (length password)) min_length
    then some too_short
    else if p.require_uppercase && not (any is_upper password)
    then some wrong_composition
    else if p.require_lowercase && not (any is_lower password)
    then some wrong_composition
    else if p.require_number && not (any is_number password)
    then some wrong_composition
    else if p.require_special && not (any is_special password)
    then some wrong_composition
    else none

pub data Identifier : Type 0 where
  identifier_id identifier_email identifier_username : Identifier

unfoldable pub detect_identifier : Text → Identifier
detect_identifier input =
    let trimmed = trim_space input in
    if trimmed =ᵗ []
    then identifier_username
    else if any (λ c. c == b'@') trimmed
    then identifier_email
    else if all is_number trimmed
    then identifier_id
    else identifier_username
