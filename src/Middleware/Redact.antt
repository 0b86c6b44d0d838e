-- ===== src/Middleware/Redact.antt =====
-- src/server/middleware/sanitize.go: the stages that work on one string. `unescape` stands for
-- url.QueryUnescape and `strip` for StripInternal, which is two replacements by regular expressions.
-- Texts are ASCII, so that a rune is a byte.
pub mod Laws
use redxt.Common.{
  ℕ, Bool, true, false, ◌&&◌, ◌||◌, not, List, [], ◌∷◌, ◌++◌, Option, none, some, Text, bytes, ◌=ᵗ◌,
  leb, ltb, ◌==◌, trim_space, to_lower, lower, contains, split_on, length, take, any, keep, map,
  if◌then◌else◌,
}
use redxt.Middleware.Segments.{join, contains_byte}
use redxt.Middleware.Requests.{cut}

abbrev pub max_url_length : ℕ
max_url_length = 256

abbrev pub max_message_length : ℕ
max_message_length = 200

abbrev pub max_stack_bytes : ℕ
max_stack_bytes = 2048

-- The ellipsis in UTF-8.
abbrev pub truncation_marker : Text
truncation_marker = 226 ∷ 128 ∷ 166 ∷ []

abbrev pub redacted_marker : Text
redacted_marker = bytes "[redacted]"

abbrev pub sensitive_params : List Text
sensitive_params =
    bytes "token"
    ∷ bytes "session"
    ∷ bytes "code"
    ∷ bytes "key"
    ∷ bytes "password"
    ∷ bytes "secret"
    ∷ bytes "auth"
    ∷ bytes "pwd"
    ∷ bytes "api_key"
    ∷ bytes "apikey"
    ∷ bytes "access_token"
    ∷ bytes "refresh_token"
    ∷ []

abbrev url_field_names : List Text
url_field_names =
    bytes "url"
    ∷ bytes "uri"
    ∷ bytes "href"
    ∷ bytes "link"
    ∷ bytes "location"
    ∷ bytes "endpoint"
    ∷ bytes "route"
    ∷ bytes "path"
    ∷ bytes "referer"
    ∷ bytes "referrer"
    ∷ []

abbrev stack_field_names : List Text
stack_field_names =
    bytes "stack"
    ∷ bytes "stacktrace"
    ∷ bytes "stack_trace"
    ∷ bytes "traceback"
    ∷ bytes "backtrace"
    ∷ []

-- isSensitiveParam
unfoldable pub is_sensitive_param : Text → Bool
is_sensitive_param name = any (λ s. to_lower (trim_space name) =ᵗ s) sensitive_params

abbrev is_separator : ℕ → Bool
is_separator c = c == b'_' || c == b'-' || c == b' '

-- normalizeFieldName
unfoldable pub normalize_field_name : Text → Text
normalize_field_name name = map lower (keep (λ c. not (is_separator c)) name)

-- nameMatches
unfoldable pub name_matches : Text → List Text → Bool
name_matches name list =
    any (λ candidate. normalize_field_name name =ᵗ normalize_field_name candidate) list

-- Truncate
unfoldable pub truncate : Text → ℕ → Text
truncate value limit =
    if limit == 0
    then value
    else if leb (length value) limit
    then value
    else take limit value ++ truncation_marker

module _ (unescape : Text → Option Text) where
  abbrev pub decoded_name : Option Text → Text → Text
  decoded_name none name = name
  decoded_name (some decoded) name = decoded

  -- One pair of a query: a name with no "=" has no value to hide.
  redact_cut : Text → Text × Option Text → Text
  redact_cut pair (name, none) = pair
  redact_cut pair (name, some value) =
      if is_sensitive_param (decoded_name (unescape name) name)
      then name ++ (b'=' ∷ redacted_marker)
      else pair

  unfoldable pub redact_pair : Text → Text
  unfolding redact_cut
  redact_pair pair = redact_cut pair (cut b'=' pair)

  -- RedactQueryParams
  unfoldable pub redact_query_params : Text → Text
  redact_query_params raw =
      if raw =ᵗ [] then [] else join b'&' (map redact_pair (split_on b'&' raw))

  redact_tail : Text → Text × Option Text → Text
  redact_tail head (query, none) = head ++ (b'?' ∷ redact_query_params query)
  redact_tail head (query, some fragment) =
      head ++ (b'?' ∷ redact_query_params query) ++ (b'#' ∷ fragment)

  redact_head : Text → Text × Option Text → Text
  redact_head value (head, none) = value
  redact_head value (head, some rest) = redact_tail head (cut b'#' rest)

  -- RedactURLParams
  unfoldable pub redact_url_params : Text → Text
  unfolding redact_head redact_tail
  redact_url_params value = redact_head value (cut b'?' value)

  module _ (strip : Text → Bool → Text) where
    -- The ceiling that sanitizeString truncates to.
    unfoldable pub limit_of : Text → ℕ
    limit_of field_name =
        if name_matches field_name stack_field_names
        then max_stack_bytes
        else if name_matches field_name url_field_names
        then max_url_length
        else max_message_length

    -- sanitizeString
    unfoldable pub sanitize_string : Text → Text → Text
    sanitize_string value field_name =
        let is_url = name_matches field_name url_field_names in
        let shown = if is_url || contains_byte b'?' value then redact_url_params value else value in
        truncate (strip shown is_url) (limit_of field_name)
