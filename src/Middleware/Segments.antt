-- ===== src/Middleware/Segments.antt =====
-- strings.Join and path.Clean of Go's library, as the path security stage calls them.
pub mod Laws
pub mod Joined
use redxt.Common.{
  ℕ, Bool, true, false, ◌&&◌, ◌||◌, not, List, [], ◌∷◌, ◌++◌, ◌==◌, Text, bytes, ◌=ᵗ◌, split_on,
  any, ◌≡◌, refl, if◌then◌else◌,
}

-- strings.ContainsRune at an ASCII byte, and strings.Contains at a text of one byte.
abbrev pub contains_byte : ℕ → Text → Bool
contains_byte b = any (λ c. c == b)

-- strings.HasSuffix(s, "/")
unfoldable pub ends_in_slash : Text → Bool
ends_in_slash [] = false
ends_in_slash (c ∷ s) = let rest = ends_in_slash s in if s =ᵗ [] then c == b'/' else rest

-- strings.Join at a separator of one byte.
unfoldable pub join : ℕ → List Text → Text
join sep [] = []
join sep (w ∷ []) = w
join sep (w ∷ v ∷ ws) = w ++ (sep ∷ join sep (v ∷ ws))

-- The last segment written can be taken back by "..".
can_back : List Text → Bool
can_back [] = false
can_back (w ∷ []) = not (w =ᵗ bytes "..")
can_back (w ∷ v ∷ ws) = can_back (v ∷ ws)

drop_last : List Text → List Text
drop_last [] = []
drop_last (w ∷ []) = []
drop_last (w ∷ v ∷ ws) = w ∷ drop_last (v ∷ ws)

-- One segment read by path.Clean, on the segments written so far.
unfoldable pub clean_segment : Bool → List Text → Text → List Text
unfolding can_back drop_last
clean_segment rooted out w =
    if w =ᵗ [] || w =ᵗ bytes "."
    then out
    else if w =ᵗ bytes ".."
    then (if can_back out then drop_last out else if rooted then out else out ++ (w ∷ []))
    else out ++ (w ∷ [])

unfoldable pub clean_segments : Bool → List Text → List Text → List Text
clean_segments rooted out [] = out
clean_segments rooted out (w ∷ ws) = clean_segments rooted (clean_segment rooted out w) ws

or_dot : Text → Text
or_dot [] = bytes "."
or_dot (c ∷ s) = c ∷ s

-- path.Clean
unfoldable pub clean : Text → Text
unfolding or_dot
clean [] = bytes "."
clean (c ∷ s) =
    if c == b'/'
    then b'/' ∷ join b'/' (clean_segments true [] (split_on b'/' s))
    else or_dot (join b'/' (clean_segments false [] (split_on b'/' (c ∷ s))))

clean_example_path : clean (bytes "/a//./b/../c/") ≡ bytes "/a/c"
unfolding clean clean_segments clean_segment can_back drop_last join split_on ◌=ᵗ◌
clean_example_path = refl
