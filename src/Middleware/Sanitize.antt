-- ===== src/Middleware/Sanitize.antt =====
-- src/server/middleware/sanitize.go: the walk over a value. The values that reflection shows are a
-- tree: a nil pointer or interface is `nil_value` and another one `pointed`, a slice of bytes holds a
-- text, `items` is a slice and `fixed` an array, a map's keys are rendered, and what needs no
-- treatment, such as a number or a time, is `other` with whether it is zero. Nil maps and slices are
-- told apart from empty ones, which are not zero values.
pub mod Public
pub mod Laws
pub mod Bounds
use redxt.Common.{
  ℕ, Bool, true, false, ◌&&◌, ◌||◌, not, List, [], ◌∷◌, ◌++◌, Option, none, some, Text, bytes, ◌=ᵗ◌,
  has_prefix, split_on, any, if◌then◌else◌,
}
use redxt.Middleware.Requests.{cut}
use redxt.Middleware.Redact.{sanitize_string}

-- A struct's field with its tags.
pub record Field : Type 0 where
  pub go_name : Text
  pub exported : Bool
  pub dev_only : Bool
  pub json_tag : Text

mutual
  pub data Value : Type 0 where
    nil_value nil_bytes nil_map nil_slice : Value
    pointed : Value → Value
    text : Text → Value
    byte_slice : Text → Value
    other : Bool → Text → Value
    struct : Fields → Value
    table : Entries → Value
    items : Values → Value
    fixed : Values → Value

  pub data Fields : Type 0 where
    no_fields : Fields
    field : Field → Value → Fields → Fields

  pub data Entries : Type 0 where
    no_entries : Entries
    entry : Text → Value → Entries → Entries

  pub data Values : Type 0 where
    no_values : Values
    value : Value → Values → Values

-- value.IsZero(): nil, the empty string, and the structs and arrays all of whose parts are zero, the
-- fields for debugging and the unexported ones included.
unfoldable mutual
  pub is_zero_value : Value → Bool
  is_zero_value nil_value = true
  is_zero_value nil_bytes = true
  is_zero_value nil_map = true
  is_zero_value nil_slice = true
  is_zero_value (pointed v) = false
  is_zero_value (text t) = t =ᵗ []
  is_zero_value (byte_slice t) = false
  is_zero_value (other zero t) = zero
  is_zero_value (struct fields) = are_zero_fields fields
  is_zero_value (table _) = false
  is_zero_value (items _) = false
  is_zero_value (fixed values) = are_zero_values values

  are_zero_fields : Fields → Bool
  are_zero_fields no_fields = true
  are_zero_fields (field f v rest) = is_zero_value v && are_zero_fields rest

  are_zero_values : Values → Bool
  are_zero_values no_values = true
  are_zero_values (value v rest) = is_zero_value v && are_zero_values rest

-- What Sanitize builds.
mutual
  pub data Json : Type 0 where
    null : Json
    string : Text → Json
    scalar : Text → Json
    object : Members → Json
    array : Elements → Json

  pub data Members : Type 0 where
    empty : Members
    member : Text → Json → Members → Members

  pub data Elements : Type 0 where
    nil : Elements
    element : Json → Elements → Elements

-- out[name] = v: the walk goes from the first entry on, so a later value of a name wins.
has_member : Text → Members → Bool
has_member name empty = false
has_member name (member k v rest) = k =ᵗ name || has_member name rest

abbrev put_first : Bool → Text → Json → Members → Members
put_first true name v rest = rest
put_first false name v rest = member name v rest

unfoldable pub put : Text → Json → Members → Members
unfolding has_member
put name v rest = put_first (has_member name rest) name v rest

abbrev or_name : Text → Text → Text
or_name [] fallback = fallback
or_name (c ∷ name) fallback = c ∷ name

options_of : Text × Option Text → Text
options_of (name, none) = []
options_of (name, some options) = options

-- jsonFieldName: the name, and whether a zero value is left out; `none` for a skipped field.
unfoldable pub json_field_name : Field → Option (Text × Bool)
unfolding options_of
json_field_name f =
    if f.json_tag =ᵗ bytes "-"
    then none
    else some (
      or_name (cut b',' f.json_tag).0 f.go_name,
      any (λ option. option =ᵗ bytes "omitempty")
          (split_on b',' (options_of (cut b',' f.json_tag))),
    )

-- isDevOnlyName
unfoldable pub is_dev_only_name : Text → Bool
is_dev_only_name name = has_prefix name (bytes "_")

pub record Sanitizer : Type 0 where
  pub debug : Bool
  pub allow_fields : List Text

is_allowed : List Text → Text → Bool
is_allowed [] name = true
is_allowed (a ∷ allowed) name = any (λ x. x =ᵗ name) (a ∷ allowed)

-- fieldAllowed
unfoldable pub field_allowed : Sanitizer → Text → Bool
unfolding is_allowed
field_allowed s name = is_allowed s.allow_fields name

module _ (unescape : Text → Option Text) (strip : Text → Bool → Text) (s : Sanitizer) where
  -- The name under which a field is shown, if it is: exported, not for debugging, not skipped, not
  -- an omitted zero value and, at the top, allowed.
  unfoldable pub shown_name : Bool → Field → Value → Option (Text × Bool) → Option Text
  shown_name top f v none = none
  shown_name top f v (some (name, omit_empty)) =
      if not f.exported
      then none
      else if not s.debug && f.dev_only
      then none
      else if omit_empty && is_zero_value v
      then none
      else if top && not (field_allowed s name)
      then none
      else some name

  unfoldable pub keeps_entry : Bool → Text → Bool
  keeps_entry top name =
      not (is_dev_only_name name && not s.debug) && not (top && not (field_allowed s name))

  -- Set the member under its name, where it has one.
  abbrev set_shown : Option Text → (Text → Json) → Members → Members
  set_shown none show rest = rest
  set_shown (some name) show rest = put name (show name) rest

  unfoldable mutual
    -- sanitizeValue
    pub sanitize_value : Value → Text → Bool → Json
    sanitize_value nil_value field_name top = null
    sanitize_value nil_bytes field_name top = string (sanitize_string unescape strip [] field_name)
    sanitize_value nil_map field_name top = object empty
    sanitize_value nil_slice field_name top = array nil
    sanitize_value (pointed v) field_name top = sanitize_value v field_name top
    sanitize_value (text t) field_name top = string (sanitize_string unescape strip t field_name)
    sanitize_value (byte_slice t) field_name top =
        string (sanitize_string unescape strip t field_name)
    sanitize_value (other zero t) field_name top = scalar t
    sanitize_value (struct fields) field_name top = object (sanitize_struct fields top)
    sanitize_value (table entries) field_name top = object (sanitize_map entries top)
    sanitize_value (items values) field_name top = array (sanitize_items values field_name)
    sanitize_value (fixed values) field_name top = array (sanitize_items values field_name)

    -- sanitizeStruct
    pub sanitize_struct : Fields → Bool → Members
    sanitize_struct no_fields top = empty
    sanitize_struct (field f v rest) top =
        set_shown (shown_name top f v (json_field_name f)) (λ name. sanitize_value v name false)
          (sanitize_struct rest top)

    -- sanitizeMap
    pub sanitize_map : Entries → Bool → Members
    sanitize_map no_entries top = empty
    sanitize_map (entry name v rest) top =
        let others = sanitize_map rest top in
        let shown = sanitize_value v name false in
        if keeps_entry top name then put name shown others else others

    pub sanitize_items : Values → Text → Elements
    sanitize_items no_values field_name = nil
    sanitize_items (value v rest) field_name =
        element (sanitize_value v field_name false) (sanitize_items rest field_name)

  -- Sanitize
  unfoldable pub sanitize : Value → Json
  sanitize v = sanitize_value v [] true
