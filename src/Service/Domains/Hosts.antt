-- ===== src/Service/Domains/Hosts.antt =====
-- net.SplitHostPort of Go's library, as ResolveServableDomain uses it: the host, if the text has a
-- port.
use redxt.Common.{
  ℕ, ◌==◌, ◌||◌, ◌&&◌, Bool, true, false, [], ◌∷◌, any, Option, none, some, Text, if◌then◌else◌,
}
use redxt.User.Email.{split_last}

abbrev has : ℕ → Text → Bool
has c s = any (λ x. x == c) s

-- What stands before and behind the first "]".
unfoldable pub split_bracket : Text → Option (Text × Text)
split_bracket [] = none
split_bracket (c ∷ s) =
    let rest = split_bracket s in
    if c == b']'
    then some ([], s)
    else elim rest [ none ↦ none | some (before, behind) ↦ some (c ∷ before, behind) ]

-- After "[host]" there must be a colon, and it must be the last one.
abbrev bracketed : Text → Option Text
bracketed s = elim (split_bracket s) [
  | none ↦ none
  | some (host, []) ↦ none
  | some (host, c ∷ port) ↦ if c == b':' && not_more host port then some host else none
]
  where
    not_more : Text → Text → Bool
    not_more host port =
        if has b':' port || has b'[' host || has b'[' port || has b']' port then false else true

abbrev plain : Option (Text × Text) → Option Text
plain none = none
plain (some (host, port)) =
    if has b':' host || has b'[' host || has b'[' port || has b']' host || has b']' port
    then none
    else some host

unfoldable pub split_host_port : Text → Option Text
split_host_port [] = none
split_host_port (c ∷ s) = if c == b'[' then bracketed s else plain (split_last b':' (c ∷ s))
