-- ===== src/Middleware/Sanitize/Public.antt =====
-- What of a value is not for debugging, and when its fields are left out for what is public.
use redxt.Common.{◌≡◌, Bool, false, ◌&&◌, Option, none, some, Text, if◌then◌else◌}
use redxt.Middleware.Sanitize.{
  Value, nil_value, nil_bytes, nil_map, nil_slice, pointed, text, byte_slice, other, struct, table,
  items, fixed, Fields, no_fields, field, Entries, no_entries, entry, Values, no_values, value,
  is_zero_value, json_field_name, is_dev_only_name,
}

-- A value without its fields for debugging, at every depth: the struct fields tagged so, and the map
-- keys that begin with an underscore.
unfoldable mutual
  pub without_debug : Value → Value
  without_debug nil_value = nil_value
  without_debug (text t) = text t
  without_debug nil_bytes = nil_bytes
  without_debug nil_map = nil_map
  without_debug nil_slice = nil_slice
  without_debug (pointed v) = pointed (without_debug v)
  without_debug (byte_slice t) = byte_slice t
  without_debug (other zero t) = other zero t
  without_debug (struct fields) = struct (fields_without_debug fields)
  without_debug (table entries) = table (entries_without_debug entries)
  without_debug (items values) = items (values_without_debug values)
  without_debug (fixed values) = fixed (values_without_debug values)

  pub fields_without_debug : Fields → Fields
  fields_without_debug no_fields = no_fields
  fields_without_debug (field f v rest) =
      let others = fields_without_debug rest in
      let shown = without_debug v in if f.dev_only then others else field f shown others

  pub entries_without_debug : Entries → Entries
  entries_without_debug no_entries = no_entries
  entries_without_debug (entry name v rest) =
      let others = entries_without_debug rest in
      let shown = without_debug v in
      if is_dev_only_name name then others else entry name shown others

  pub values_without_debug : Values → Values
  values_without_debug no_values = no_values
  values_without_debug (value v rest) = value (without_debug v) (values_without_debug rest)

-- Whether a field of this name and tag is left out for its value.
abbrev pub omits : Option (Text × Bool) → Value → Bool
omits none v = false
omits (some (name, omit_empty)) v = omit_empty && is_zero_value v

-- What is left out as empty is left out with and without the fields for debugging, at every depth
-- outside these.
unfoldable mutual
  pub OmitsAlike : Value → Type 0
  OmitsAlike nil_value = Unit
  OmitsAlike nil_bytes = Unit
  OmitsAlike nil_map = Unit
  OmitsAlike nil_slice = Unit
  OmitsAlike (pointed v) = OmitsAlike v
  OmitsAlike (text t) = Unit
  OmitsAlike (byte_slice t) = Unit
  OmitsAlike (other zero t) = Unit
  OmitsAlike (struct fields) = FieldsOmitAlike fields
  OmitsAlike (table entries) = EntriesOmitAlike entries
  OmitsAlike (items values) = ValuesOmitAlike values
  OmitsAlike (fixed values) = ValuesOmitAlike values

  pub FieldsOmitAlike : Fields → Type 0
  FieldsOmitAlike no_fields = Unit
  FieldsOmitAlike (field f v rest) =
      (f.dev_only ≡ false
        → (omits (json_field_name f) (without_debug v) ≡ omits (json_field_name f) v)
          × OmitsAlike v)
      × FieldsOmitAlike rest

  pub EntriesOmitAlike : Entries → Type 0
  EntriesOmitAlike no_entries = Unit
  EntriesOmitAlike (entry name v rest) =
      (is_dev_only_name name ≡ false → OmitsAlike v) × EntriesOmitAlike rest

  pub ValuesOmitAlike : Values → Type 0
  ValuesOmitAlike no_values = Unit
  ValuesOmitAlike (value v rest) = OmitsAlike v × ValuesOmitAlike rest
