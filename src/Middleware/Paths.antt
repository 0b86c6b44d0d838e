-- ===== src/Middleware/Paths.antt =====
-- src/server/middleware/normalize.go and pathsec.go: the first stages of the chain, which decide
-- from the path alone.
pub mod Laws
pub mod Fixed
pub mod Redirects
use redxt.Common.{
  ℕ, Bool, true, false, ◌&&◌, ◌||◌, not, List, [], ◌∷◌, ◌++◌, Option, none, some, any, length, ltb,
  ◌==◌, Text, bytes, ◌=ᵗ◌, is_upper, to_lower, contains, has_prefix, if◌then◌else◌, ◌≡◌, refl,
  trim_left,
}
use redxt.RateLimit.Paths.{trim_slash}
use redxt.Middleware.Segments.{
  contains_byte, ends_in_slash, clean, clean_segments, clean_segment, join,
}

-- p[strings.LastIndex(p, "/")+1:]
unfoldable pub last_segment : Text → Text
last_segment [] = []
last_segment (c ∷ s) =
    let rest = last_segment s in
    if contains_byte b'/' s then rest else if c == b'/' then s else c ∷ s

unfoldable pub last_segment_is_file : Text → Bool
last_segment_is_file p = contains_byte b'.' (last_segment (trim_slash p))

abbrev pub has_upper_ascii : Text → Bool
has_upper_ascii = any is_upper

-- What a stage does with a request: pass it on with this path, redirect it, or refuse it.
pub data Routed : Type 0 where
  passed : Text → Routed
  moved_permanently : Text → Routed
  bad_request : Routed

abbrev or_root : Text → Text
or_root [] = bytes "/"
or_root (c ∷ p) = c ∷ p

-- The canonical form that URLNormalize computes.
unfoldable pub canonical : Bool → Text → Text
canonical lowercase p =
    let folded = if lowercase && has_upper_ascii p then to_lower p else p in
    if not (folded =ᵗ bytes "/") && ends_in_slash folded && not (last_segment_is_file folded)
    then trim_slash folded
    else folded

abbrev pub with_query : Text → Text → Text
with_query target [] = target
with_query target (c ∷ query) = target ++ bytes "?" ++ (c ∷ query)

-- URLNormalize: the target is what it hands to http.Redirect.
unfoldable pub url_normalize : Bool → Text → Text → Routed
url_normalize lowercase path query =
    let p = or_root path in
    if canonical lowercase p =ᵗ p
    then passed path
    else moved_permanently (with_query (canonical lowercase p) query)

abbrev default_max_path_length : ℕ
default_max_path_length = 2048

abbrev pub encoded_rejects : List Text
encoded_rejects = bytes "%2e" ∷ bytes "%2f" ∷ bytes "%5c" ∷ bytes "%00" ∷ []

-- MaxPathLength, where zero selects the default.
abbrev pub path_limit : ℕ → ℕ
path_limit max = if ltb 0 max then max else default_max_path_length

-- RawPath, or the decoded path where there is none.
abbrev pub raw_or_decoded : Text → Text → Text
raw_or_decoded [] decoded = decoded
raw_or_decoded (c ∷ raw) decoded = c ∷ raw

-- The tests of PathSecurity that refuse a request.
unfoldable pub is_rejected : ℕ → Text → Text → Bool
is_rejected limit decoded raw =
    (ltb limit (length decoded) || ltb limit (length raw))
    || (contains decoded (bytes "..") || contains raw (bytes ".."))
    || (contains_byte 0 decoded || contains_byte 0 raw)
    || contains_byte b'\\' decoded
    || any (contains (to_lower raw)) encoded_rejects

-- The path that PathSecurity passes on.
unfoldable pub cleaned_path : Text → Text
cleaned_path decoded =
    let cleaned = clean decoded in
    let rooted = if has_prefix cleaned (bytes "/") then cleaned else bytes "/" ++ cleaned in
    if not (decoded =ᵗ bytes "/") && ends_in_slash decoded && not (ends_in_slash rooted)
    then rooted ++ bytes "/"
    else rooted

-- PathSecurity
unfoldable pub path_security : ℕ → Text → Text → Routed
path_security max decoded raw_path =
    if is_rejected (path_limit max) decoded (raw_or_decoded raw_path decoded)
    then bad_request
    else passed (cleaned_path decoded)
