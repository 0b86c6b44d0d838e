-- ===== src/Middleware/Sanitize/Laws.antt =====
-- What never leaves the server: fields for debugging, and texts over the ceiling.
use redxt.Common.{
  ◌≡◌, refl, sym, ap, ◌∙◌, Bool, true, false, [], Option, none, some, Text, if◌then◌else◌, arith,
  Bool-cases, inl, inr,
}
use redxt.Middleware.Sanitize.Public.{
  without_debug, fields_without_debug, entries_without_debug, values_without_debug, omits,
  OmitsAlike, FieldsOmitAlike, EntriesOmitAlike, ValuesOmitAlike,
}
use redxt.Middleware.Sanitize.{
  Field, Value, nil_value, nil_bytes, nil_map, nil_slice, pointed, text, byte_slice, other, struct,
  table, items, fixed, Fields, no_fields, field, Entries, no_entries, entry, Values, no_values,
  value, Json, object, array, Members, json_field_name, is_dev_only_name, Sanitizer, shown_name,
  keeps_entry, set_shown, sanitize_value, sanitize_struct, sanitize_map, sanitize_items, sanitize,
}

module _ (unescape : Text → Option Text) (strip : Text → Bool → Text) (s : Sanitizer) where
  debug_field_hidden :
      (top : Bool) (f : Field) (v : Value) (n : Option (Text × Bool))
      → s.debug ≡ false
      → f.dev_only ≡ true
      → shown_name unescape strip s top f v n ≡ none
  unfolding shown_name
  debug_field_hidden top f v none p h = refl
  debug_field_hidden top f v (some (name, omit_empty)) p h = ground arith

  -- Of a field's value its name depends only on whether it is left out for it.
  shown_alike :
      (top : Bool) (f : Field) (v w : Value) (n : Option (Text × Bool))
      → omits n v ≡ omits n w
      → shown_name unescape strip s top f v n ≡ shown_name unescape strip s top f w n
  unfolding shown_name
  shown_alike top f v w none e = refl
  shown_alike top f v w (some (name, omit_empty)) e = rw e refl

  debug_entry_hidden :
      (top : Bool) (name : Text)
      → s.debug ≡ false
      → is_dev_only_name name ≡ true
      → keeps_entry unescape strip s top name ≡ false
  unfolding keeps_entry
  debug_entry_hidden top name p h = ground arith

  set_unchanged :
      (n : Option Text) (f g : Text → Json) (xs ys : Members)
      → ((name : Text) → f name ≡ g name)
      → xs ≡ ys
      → set_shown unescape strip s n f xs ≡ set_shown unescape strip s n g ys
  set_unchanged none f g xs ys h e = e
  set_unchanged (some name) f g xs ys h e = rw (h name, e) refl

  field_unchanged :
      (top : Bool) (f : Field) (v shown : Value) (rest others : Fields) (b : Bool)
      → s.debug ≡ false
      → f.dev_only ≡ b
      → (b ≡ false → omits (json_field_name f) shown ≡ omits (json_field_name f) v)
      → (b ≡ false
          → (name : Text)
          → sanitize_value unescape strip s shown name false
            ≡ sanitize_value unescape strip s v name false)
      → sanitize_struct unescape strip s others top ≡ sanitize_struct unescape strip s rest top
      → sanitize_struct unescape strip s (if b then others else field f shown others) top
        ≡ sanitize_struct unescape strip s (field f v rest) top
  unfolding sanitize_value
  field_unchanged top f v shown rest others true p e o h k =
      k
      ∙ sym (
          ap
            (λ (n : Option Text).
              set_shown unescape strip s n (λ name. sanitize_value unescape strip s v name false)
                (sanitize_struct unescape strip s rest top))
            (debug_field_hidden top f v (json_field_name f) p e))
  field_unchanged top f v shown rest others false p e o h k =
      ap
        (λ (n : Option Text).
          set_shown unescape strip s n (λ name. sanitize_value unescape strip s shown name false)
            (sanitize_struct unescape strip s others top))
        (shown_alike top f shown v (json_field_name f) (o refl))
      ∙ set_unchanged (shown_name unescape strip s top f v (json_field_name f))
          (λ name. sanitize_value unescape strip s shown name false)
          (λ name. sanitize_value unescape strip s v name false)
          (sanitize_struct unescape strip s others top) (sanitize_struct unescape strip s rest top)
          (h refl) k

  module _ (production : s.debug ≡ false) where
    mutual
      unfolding sanitize_value without_debug OmitsAlike

      value_unchanged :
          (v : Value) (name : Text) (top : Bool)
          → OmitsAlike v
          → sanitize_value unescape strip s (without_debug v) name top
            ≡ sanitize_value unescape strip s v name top
      value_unchanged nil_value name top a = refl
      value_unchanged nil_bytes name top a = refl
      value_unchanged nil_map name top a = refl
      value_unchanged nil_slice name top a = refl
      value_unchanged (pointed v) name top a = value_unchanged v name top a
      value_unchanged (text t) name top a = refl
      value_unchanged (byte_slice t) name top a = refl
      value_unchanged (other zero t) name top a = refl
      value_unchanged (struct fields) name top a = ap object (struct_unchanged fields top a)
      value_unchanged (table entries) name top a = ap object (map_unchanged entries top a)
      value_unchanged (items values) name top a = ap array (items_unchanged values name a)
      value_unchanged (fixed values) name top a = ap array (items_unchanged values name a)

      struct_unchanged :
          (fields : Fields) (top : Bool)
          → FieldsOmitAlike fields
          → sanitize_struct unescape strip s (fields_without_debug fields) top
            ≡ sanitize_struct unescape strip s fields top
      struct_unchanged no_fields top a = refl
      struct_unchanged (field f v rest) top a =
          field_unchanged top f v (without_debug v) rest (fields_without_debug rest) f.dev_only
            production refl (λ shows. (a.0 shows).0)
            (λ shows name. value_unchanged v name false ((a.0 shows).1))
            (struct_unchanged rest top a.1)

      map_unchanged :
          (entries : Entries) (top : Bool)
          → EntriesOmitAlike entries
          → sanitize_map unescape strip s (entries_without_debug entries) top
            ≡ sanitize_map unescape strip s entries top
      map_unchanged no_entries top a = refl
      map_unchanged (entry name v rest) top a = elim (Bool-cases (is_dev_only_name name)) [
        | inl e ↦ rw (e, debug_entry_hidden top name production e) (map_unchanged rest top a.1)
        | inr e ↦ rw (e, value_unchanged v name false (a.0 e), map_unchanged rest top a.1) refl
      ]

      items_unchanged :
          (values : Values) (name : Text)
          → ValuesOmitAlike values
          → sanitize_items unescape strip s (values_without_debug values) name
            ≡ sanitize_items unescape strip s values name
      items_unchanged no_values name a = refl
      items_unchanged (value v rest) name a =
          rw (value_unchanged v name false a.0, items_unchanged rest name a.1) refl

    -- With the debug flag off, two values that are equal once the struct fields tagged for
    -- debugging and the map entries whose key begins with an underscore are taken out at every
    -- depth are sanitized to the same answer, if in each of them every field that is left out
    -- when it is zero is zero just when it is so without what is for debugging.
    pub debug_fields_never_leave :
        (v w : Value)
        → OmitsAlike v
        → OmitsAlike w
        → without_debug v ≡ without_debug w
        → sanitize unescape strip s v ≡ sanitize unescape strip s w
    unfolding sanitize
    debug_fields_never_leave v w a b e =
        sym (value_unchanged v [] true a)
        ∙ ap (λ (x : Value). sanitize_value unescape strip s x [] true) e
        ∙ value_unchanged w [] true b
