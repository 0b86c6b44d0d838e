-- ===== src/Cache/Keys.antt =====
-- src/cache/key.go: the keys of the cache, over ASCII texts.
use redxt.Common.{
  ℕ, leb, ◌==◌, Bool, true, false, ◌&&◌, ◌||◌, not, List, [], ◌∷◌, ◌++◌, keep, map, Text, bytes,
  ◌=ᵗ◌, to_lower, trim_space, if◌then◌else◌,
}

abbrev allowed_key_rune : ℕ → Bool
allowed_key_rune c =
    (leb b'a' c && leb c b'z') || (leb b'0' c && leb c b'9') || c == b'.' || c == b'_' || c == b'-'

-- Each run of other runes becomes one dash; `dashed` says that the last rune written is such a dash.
unfoldable pub collapse : Bool → Text → Text
collapse dashed [] = []
collapse dashed (c ∷ s) =
    let kept = collapse false s in
    let skipped = collapse true s in
    if allowed_key_rune c then c ∷ kept else if dashed then skipped else b'-' ∷ skipped

unfoldable pub normalize : Text → Text
normalize part = collapse false (to_lower (trim_space part))

-- strings.Join(parts, ":")
unfoldable pub join_parts : List Text → Text
join_parts [] = []
join_parts (p ∷ []) = p
join_parts (p ∷ q ∷ ps) = p ++ b':' ∷ join_parts (q ∷ ps)

-- Empty parts are dropped.
unfoldable pub key : List Text → Text
key parts = join_parts (keep (λ p. not (p =ᵗ [])) (map normalize parts))

unfoldable pub lock_key : Text → Text
lock_key name = key (bytes "lock" ∷ name ∷ [])
