-- ===== src/RateLimit/Paths.antt =====
-- src/server/middleware/util.go: path patterns. `glob pattern path` stands for path.Match, true where
-- it matches without an error.
use redxt.Common.{
  ℕ, Bool, true, false, ◌&&◌, ◌||◌, not, List, [], ◌∷◌, ◌++◌, any, ◌==◌, Text, bytes, ◌=ᵗ◌,
  has_prefix, trim_space, if◌then◌else◌,
}

abbrev is_wildcard : ℕ → Bool
is_wildcard c = c == b'*' || c == b'?' || c == b'['

-- strings.TrimSuffix(s, "/")
unfoldable pub trim_slash : Text → Text
trim_slash [] = []
trim_slash (c ∷ s) = let rest = trim_slash s in if s =ᵗ [] && c == b'/' then [] else c ∷ rest

-- The proper prefixes of a path that end before a slash, the empty one left out.
unfoldable pub cut_at_slashes : Text → Text → List Text
cut_at_slashes before [] = []
cut_at_slashes before (c ∷ s) =
    let rest = cut_at_slashes (before ++ c ∷ []) s in
    if c == b'/' && not (before =ᵗ []) then before ∷ rest else rest

module _ (glob : Text → Text → Bool) where
  unfoldable pub matches_path_prefix : Text → Text → Bool
  matches_path_prefix p raw =
      let pattern = trim_space raw in
      if pattern =ᵗ []
      then false
      else if any is_wildcard pattern
      then glob pattern p || any (glob pattern) (cut_at_slashes [] p)
      else if p =ᵗ pattern
      then true
      else has_prefix p (trim_slash pattern ++ bytes "/")

  unfoldable pub matches_any_path : Text → List Text → Bool
  matches_any_path p patterns = any (matches_path_prefix p) patterns
