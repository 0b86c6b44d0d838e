-- ===== src/Examples/Answers.antt =====
-- Answers and queries that hold what should not leave the server.
use redxt.Common.{
  ◌≡◌, refl, Bool, true, false, [], ◌∷◌, ◌++◌, Option, some, Text, bytes, ◌=ᵗ◌, split_on, map,
  to_lower, trim_space, trim_left, has_prefix,
}
use redxt.Middleware.Segments.{join}
use redxt.Middleware.Requests.{cut}
use redxt.Middleware.Redact.{
  redact_query_params, redact_url_params, redact_pair, is_sensitive_param, redacted_marker,
}
use redxt.Middleware.Redact.Laws.{with_pair, sensitive_value_hidden}
use redxt.Middleware.Sanitize.{
  Field, Value, text, struct, table, no_fields, field, no_entries, entry, Sanitizer,
  is_dev_only_name, sanitize, sanitize_value, shown_name, json_field_name, is_zero_value,
  field_allowed, put, object, empty, member,
}
use redxt.Middleware.Sanitize.Public.{without_debug, OmitsAlike}
use redxt.Middleware.Sanitize.Laws.{debug_fields_never_leave}

abbrev as_it_is : Text → Option Text
as_it_is s = some s

abbrev strips_nothing : Text → Bool → Text
strips_nothing s keep_paths = s

abbrev production : Sanitizer
production = record { debug = false; allow_fields = [] }

abbrev plain_field : Text → Field
plain_field name = record { go_name = name; exported = true; dev_only = false; json_tag = [] }

abbrev trace_field : Field
trace_field = record (plain_field (bytes "Trace")) { dev_only = true }

-- A zone with a trace, and with a map that has a key for debugging.
abbrev zone_with : Text → Value
zone_with secret = struct (
    field (plain_field (bytes "Name")) (text (bytes "a.example")) (
      field trace_field (text secret) (
        field (plain_field (bytes "Meta")) (table (entry (bytes "_query") (text secret) no_entries))
          (field (record (plain_field (bytes "Owner")) { json_tag = bytes "owner,omitempty" })
            (text []) no_fields))))

same_in_public : without_debug (zone_with (bytes "x")) ≡ without_debug (zone_with (bytes "y"))
unfolding without_debug is_dev_only_name has_prefix
same_in_public = refl

-- The owner is left out when it is empty, whatever the secret is.
omits_alike : (secret : Text) → OmitsAlike (zone_with secret)
unfolding OmitsAlike without_debug json_field_name cut split_on is_dev_only_name has_prefix ◌=ᵗ◌
omits_alike secret = (
  λ shows. (refl, tt),
  (
    (λ shows. absurd (cc shows)),
    ((λ shows. (refl, ((λ plain. absurd (cc plain)), tt))), ((λ shows. (refl, tt)), tt)),
  ),
)

debug_fields_never_leave_example :
    sanitize as_it_is strips_nothing production (zone_with (bytes "x"))
    ≡ sanitize as_it_is strips_nothing production (zone_with (bytes "y"))
debug_fields_never_leave_example =
    debug_fields_never_leave as_it_is strips_nothing production refl (zone_with (bytes "x"))
      (zone_with (bytes "y")) (omits_alike (bytes "x")) (omits_alike (bytes "y")) same_in_public

-- A field that is left out when empty, and holds a struct with a field for debugging only.
abbrev detail_with : Text → Value
detail_with secret = struct (
    field (record (plain_field (bytes "Detail")) { json_tag = bytes "x,omitempty" })
      (struct (field trace_field (text secret) no_fields)) no_fields)

-- Without the option's condition the values of such fields show: an empty one leaves no `x`, and
-- another one an empty `x`.
detail_left_out : sanitize as_it_is strips_nothing production (detail_with []) ≡ object empty
unfolding sanitize sanitize_value shown_name json_field_name is_zero_value cut split_on
    field_allowed put ◌=ᵗ◌
detail_left_out = refl

detail_shows :
    sanitize as_it_is strips_nothing production (detail_with (bytes "secret"))
    ≡ object (member (bytes "x") (object empty) empty)
unfolding sanitize sanitize_value shown_name json_field_name is_zero_value cut split_on
    field_allowed put ◌=ᵗ◌
detail_shows = refl

token_is_sensitive : is_sensitive_param (bytes "Token") ≡ true
unfolding is_sensitive_param trim_space trim_left to_lower ◌=ᵗ◌
token_is_sensitive = refl

sensitive_value_hidden_example :
    redact_query_params as_it_is
      (with_pair as_it_is (bytes "a=1") (bytes "Token") (bytes "s3cret") (bytes "b=2"))
    ≡ join b'&' (
        map (redact_pair as_it_is) (split_on b'&' (bytes "a=1"))
        ++ ((bytes "Token" ++ (b'=' ∷ redacted_marker))
            ∷ map (redact_pair as_it_is) (split_on b'&' (bytes "b=2"))))
sensitive_value_hidden_example =
    sensitive_value_hidden as_it_is (bytes "a=1") (bytes "Token") (bytes "s3cret") (bytes "b=2")
      refl refl refl token_is_sensitive

-- Of two URLs in a message only the first one is redacted.
second_url_shows :
    redact_url_params as_it_is (bytes "/a?x=1 /b?token=s3cret") ≡ bytes "/a?x=1 /b?token=s3cret"
unfolding redact_url_params redact_query_params redact_pair cut split_on join is_sensitive_param
    trim_space trim_left to_lower ◌=ᵗ◌
second_url_shows = refl
