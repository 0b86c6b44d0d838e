-- ===== src/Config/Strings.antt =====
-- src/config/boolean.go and validate.go: the forms of Booleans, URL prefixes, route segments, host
-- names and retention policies. Texts are ASCII.
pub mod Laws
use mathlib.Core.List.{reverse}
use redxt.Common.{
  ℕ, Bool, true, false, ◌&&◌, ◌||◌, not, List, [], ◌∷◌, ◌++◌, Option, none, some, Text, bytes, ◌=ᵗ◌,
  leb, ltb, ◌==◌, trim_space, to_lower, has_prefix, has_suffix, split_on, length, any, all,
  is_upper, if◌then◌else◌,
}
use redxt.Config.Checks.{contains_text}

abbrev pub truthy_values : List Text
truthy_values =
    bytes "true" ∷ bytes "yes" ∷ bytes "on" ∷ bytes "1" ∷ bytes "enable" ∷ bytes "enabled" ∷ []

abbrev pub falsey_values : List Text
falsey_values =
    bytes "false"
    ∷ bytes "no"
    ∷ bytes "off"
    ∷ bytes "0"
    ∷ bytes "disable"
    ∷ bytes "disabled"
    ∷ bytes "none"
    ∷ []

-- IsTruthy
unfoldable pub is_truthy : Text → Bool
is_truthy s = contains_text truthy_values (to_lower (trim_space s))

-- IsFalsey
unfoldable pub is_falsey : Text → Bool
is_falsey s = contains_text falsey_values (to_lower (trim_space s))

-- ParseBool: `none` is a text of neither list.
unfoldable pub parse_bool : Text → Option Bool
parse_bool s =
    let trimmed = to_lower (trim_space s) in
    if contains_text truthy_values trimmed
    then some true
    else if contains_text falsey_values trimmed
    then some false
    else none

-- strings.TrimRight(s, "/")
unfoldable pub trim_slashes : Text → Text
trim_slashes [] = []
trim_slashes (c ∷ s) = let rest = trim_slashes s in if rest =ᵗ [] && c == b'/' then [] else c ∷ rest

abbrev or_slash : Text → Text
or_slash [] = bytes "/"
or_slash (c ∷ s) = c ∷ s

-- NormalizeBaseURL
unfoldable pub normalize_base_url : Text → Text
normalize_base_url raw =
    let url = trim_space raw in
    if url =ᵗ [] || url =ᵗ bytes "/"
    then bytes "/"
    else or_slash (trim_slashes (if has_prefix url (bytes "/") then url else b'/' ∷ url))

abbrev is_lower : ℕ → Bool
is_lower c = leb b'a' c && leb c b'z'

abbrev is_digit : ℕ → Bool
is_digit c = leb b'0' c && leb c b'9'

-- IsRouteSegment
unfoldable pub is_route_segment : Text → Bool
is_route_segment s =
    not (s =ᵗ [] || has_prefix s (bytes "-") || has_suffix s (bytes "-"))
    && all (λ c. is_lower c || is_digit c || c == b'-') s

abbrev is_label_byte : ℕ → Bool
is_label_byte c = is_lower c || is_upper c || is_digit c || c == b'-'

-- isPlausibleHostname
unfoldable pub is_plausible_hostname : Text → Bool
is_plausible_hostname s =
    not (s =ᵗ [] || ltb 253 (length s) || has_prefix s (bytes "-"))
    && all (λ label. not (label =ᵗ [] || ltb 63 (length label)) && all is_label_byte label)
        (split_on b'.' s)

drop_unit : Text → Text
drop_unit [] = []
drop_unit (c ∷ rest) =
    if c == b'd' || c == b'w' || c == b'm' then reverse rest else reverse (c ∷ rest)

-- ValidKeep: what stands before the unit is a count.
unfoldable pub valid_keep : Text → Bool
unfolding drop_unit
valid_keep raw =
    let policy = to_lower (trim_space raw) in
    let head = drop_unit (reverse policy) in
    if policy =ᵗ []
    then false
    else if policy =ᵗ bytes "none" || policy =ᵗ bytes "forever"
    then true
    else not (head =ᵗ []) && all is_digit head
