-- ===== src/Middleware/Sanitize/Bounds.antt =====
-- How long the texts of an answer can be.
use redxt.Common.{
  ℕ, ◌+◌, ◌≤◌, Bool, true, false, [], ◌∷◌, Option, none, some, Text, if◌then◌else◌, arith, length,
  take, length-append, suc, zero,
}
use redxt.Middleware.Redact.{sanitize_string, truncate, truncation_marker, limit_of}
use redxt.Middleware.Sanitize.{
  Value, nil_value, nil_bytes, nil_map, nil_slice, pointed, text, byte_slice, other, struct, table,
  items, fixed, Fields, no_fields, field, Entries, no_entries, entry, Values, no_values, value,
  Json, null, string, scalar, object, array, Members, empty, member, Elements, nil, element, put,
  put_first, has_member, json_field_name, Sanitizer, shown_name, keeps_entry, set_shown,
  sanitize_value, sanitize_struct, sanitize_map, sanitize_items, sanitize,
}

-- Every string is within the limit of a stack trace, its marker included.
mutual
  pub IsBounded : Json → Type 0
  IsBounded null = Unit
  IsBounded (string t) = length t ≤ 2051
  IsBounded (scalar t) = Unit
  IsBounded (object members) = AreBounded members
  IsBounded (array elements) = HasBounded elements

  pub AreBounded : Members → Type 0
  AreBounded empty = Unit
  AreBounded (member name v rest) = IsBounded v × AreBounded rest

  pub HasBounded : Elements → Type 0
  HasBounded nil = Unit
  HasBounded (element v rest) = IsBounded v × HasBounded rest

length-take : (n : ℕ) (s : Text) → length (take n s) ≤ n
length-take zero s = omega arith
length-take (suc n) [] = omega arith
length-take (suc n) (c ∷ s) = omega (arith, length-take n s)

-- A positive limit holds with three bytes for the marker.
truncate-bounded : (s : Text) (limit : ℕ) → 1 ≤ limit → length (truncate s limit) ≤ limit + 3
unfolding truncate
truncate-bounded s limit h =
    ground (arith, length-append (take limit s) truncation_marker, length-take limit s)

module _ (unescape : Text → Option Text) (strip : Text → Bool → Text) where
  limit_in_range :
      (name : Text) → (1 ≤ limit_of unescape strip name) × (limit_of unescape strip name ≤ 2048)
  unfolding limit_of
  limit_in_range name = ground arith

  sanitize_string-bounded : (s name : Text) → length (sanitize_string unescape strip s name) ≤ 2051
  unfolding sanitize_string
  sanitize_string-bounded s name =
      let (low, high) = limit_in_range name in
      omega (arith, truncate-bounded _ (limit_of unescape strip name) low)

  module _ (s : Sanitizer) where
    put-AreBounded :
        (name : Text) (v : Json) (rest : Members)
        → IsBounded v
        → AreBounded rest
        → AreBounded (put name v rest)
    unfolding put AreBounded
    put-AreBounded name v rest h k = set (has_member name rest)
      where
        set : (b : Bool) → AreBounded (put_first b name v rest)
        set true = k
        set false = (h, k)

    set_shown-AreBounded :
        (n : Option Text) (show : Text → Json) (rest : Members)
        → ((name : Text) → IsBounded (show name))
        → AreBounded rest
        → AreBounded (set_shown unescape strip s n show rest)
    set_shown-AreBounded none show rest h k = k
    set_shown-AreBounded (some name) show rest h k = put-AreBounded name (show name) rest (h name) k

    kept-AreBounded :
        (b : Bool) (name : Text) (v : Json) (rest : Members)
        → IsBounded v
        → AreBounded rest
        → AreBounded (if b then put name v rest else rest)
    kept-AreBounded true name v rest h k = put-AreBounded name v rest h k
    kept-AreBounded false name v rest h k = k

    mutual
      unfolding sanitize_value IsBounded

      value-IsBounded :
          (v : Value) (name : Text) (top : Bool)
          → IsBounded (sanitize_value unescape strip s v name top)
      value-IsBounded nil_value name top = tt
      value-IsBounded nil_bytes name top = sanitize_string-bounded [] name
      value-IsBounded nil_map name top = tt
      value-IsBounded nil_slice name top = tt
      value-IsBounded (pointed v) name top = value-IsBounded v name top
      value-IsBounded (byte_slice t) name top = sanitize_string-bounded t name
      value-IsBounded (text t) name top = sanitize_string-bounded t name
      value-IsBounded (other z t) name top = tt
      value-IsBounded (struct fields) name top = struct-AreBounded fields top
      value-IsBounded (table entries) name top = map-AreBounded entries top
      value-IsBounded (items values) name top = items-HasBounded values name
      value-IsBounded (fixed values) name top = items-HasBounded values name

      struct-AreBounded :
          (fields : Fields) (top : Bool) → AreBounded (sanitize_struct unescape strip s fields top)
      struct-AreBounded no_fields top = tt
      struct-AreBounded (field f v rest) top =
          set_shown-AreBounded (shown_name unescape strip s top f v (json_field_name f)) _ _
            (λ name. value-IsBounded v name false) (struct-AreBounded rest top)

      map-AreBounded :
          (entries : Entries) (top : Bool) → AreBounded (sanitize_map unescape strip s entries top)
      map-AreBounded no_entries top = tt
      map-AreBounded (entry name v rest) top =
          kept-AreBounded (keeps_entry unescape strip s top name) name _ _
            (value-IsBounded v name false) (map-AreBounded rest top)

      items-HasBounded :
          (values : Values) (name : Text) → HasBounded (sanitize_items unescape strip s values name)
      items-HasBounded no_values name = tt
      items-HasBounded (value v rest) name =
          (value-IsBounded v name false, items-HasBounded rest name)

    -- Every string of a sanitized value is within the limit of a stack trace, its marker included.
    pub sanitized_strings_are_short : (v : Value) → IsBounded (sanitize unescape strip s v)
    unfolding sanitize
    sanitized_strings_are_short v = value-IsBounded v [] true
