-- ===== src/Middleware/Paths/Laws.antt =====
-- What the path security stage lets through.
use mathlib.Core.List.{append-nil}
use redxt.Common.{
  ℕ, ◌≡◌, refl, ap, sym, Bool, true, false, ◌&&◌, not, List, [], ◌∷◌, ◌++◌, inl, inr, keep, All,
  Text, bytes, ◌=ᵗ◌, to_lower, contains, has_prefix, split_on, arith, Bool-cases, if◌then◌else◌,
  ◌≤◌, length,
}
use redxt.Middleware.Segments.{ends_in_slash, join, clean}
use redxt.Middleware.Segments.Laws.{
  Without, WithoutDots, is_named, clean_segments-keep, split_on-lacks_sep, split_on-lacks,
  split_on-lacks_dots,
}
use redxt.Middleware.Segments.Joined.{IsPlain, render, IsCleanPath, ends_in_slash-join}
use redxt.Middleware.Paths.{
  cleaned_path, is_rejected, path_security, passed, path_limit, raw_or_decoded, encoded_rejects,
}

All-IsPlain :
    (ws : List Text)
    → All WithoutDots ws
    → All (Without b'/') ws
    → All (Without 0) ws
    → All (Without b'\\') ws
    → All IsPlain (keep is_named ws)
All-IsPlain [] d s n b = tt
All-IsPlain (w ∷ ws) d s n b =
    let rest = All-IsPlain ws d.1 s.1 n.1 b.1 in
    elim (Bool-cases (is_named w)) [
      | inl e ↦ rw e (
          (
            record {
              named = e;
              without_dots = d.0;
              without_slash = s.0;
              without_nul = n.0;
              without_backslash = b.0;
            },
            rest,
          ))
      | inr e ↦ rw e rest
    ]

abbrev pub named_segments : Text → List Text
named_segments s = keep is_named (split_on b'/' s)

abbrev pub keeps_slash : Text → Bool
keeps_slash decoded = not (decoded =ᵗ bytes "/") && ends_in_slash decoded

clean-rooted : (s : Text) → WithoutDots s → clean (b'/' ∷ s) ≡ b'/' ∷ join b'/' (named_segments s)
unfolding clean
clean-rooted s h =
    ap (λ (ws : List Text). b'/' ∷ join b'/' ws)
      (clean_segments-keep [] (split_on b'/' s) (split_on-lacks_dots b'/' s h))

abbrev with_slash : Bool → Text → Text
with_slash keeps cleaned =
    if keeps && not (ends_in_slash cleaned) then cleaned ++ bytes "/" else cleaned

with_slash-render :
    (keeps : Bool) (ws : List Text)
    → All IsPlain ws
    → with_slash keeps (b'/' ∷ join b'/' ws) ≡ render ws keeps
unfolding ends_in_slash join ◌=ᵗ◌
with_slash-render true [] h = refl
with_slash-render false [] h = refl
with_slash-render true (w ∷ ws) h = rw (ends_in_slash-join b'/' w ws h) refl
with_slash-render false (w ∷ ws) h = ap (◌∷◌ b'/') (sym (append-nil (join b'/' (w ∷ ws))))

pub cleaned_path-render :
    (s : Text)
    → WithoutDots s
    → All IsPlain (named_segments s)
    → cleaned_path (b'/' ∷ s) ≡ render (named_segments s) (keeps_slash (b'/' ∷ s))
unfolding cleaned_path has_prefix
cleaned_path-render s h plain =
    rw (clean-rooted s h) (with_slash-render (keeps_slash (b'/' ∷ s)) (named_segments s) plain)

record IsAdmitted (decoded : Text) : Type 0 where
  without_dots : WithoutDots decoded
  without_nul : Without 0 decoded
  without_backslash : Without b'\\' decoded

is_rejected-IsAdmitted :
    (limit : ℕ) (decoded raw : Text) → is_rejected limit decoded raw ≡ false → IsAdmitted decoded
unfolding is_rejected
is_rejected-IsAdmitted limit decoded raw h = record {
  without_dots = ground arith;
  without_nul = ground arith;
  without_backslash = ground arith;
}

cleaned_path-IsCleanPath :
    (s : Text) → IsAdmitted (b'/' ∷ s) → IsCleanPath (cleaned_path (b'/' ∷ s))
unfolding contains has_prefix
cleaned_path-IsCleanPath s a =
    let dots : WithoutDots s = ground (arith, a.without_dots) in
    let plain =
      All-IsPlain (split_on b'/' s) (split_on-lacks_dots b'/' s dots) (split_on-lacks_sep b'/' s)
        (split_on-lacks b'/' 0 s (ground (arith, a.without_nul)))
        (split_on-lacks b'/' b'\\' s (ground (arith, a.without_backslash))) in
    record {
      segments = named_segments s;
      trailing = keeps_slash (b'/' ∷ s);
      plain = plain;
      spelled = cleaned_path-render s dots plain;
    }

-- The raw path holds none of the refused encodings, in either case of letters.
abbrev pub IsUnencoded : Text → Type 0
IsUnencoded raw = All (λ e. contains (to_lower raw) e ≡ false) encoded_rejects

path_security_ok :
    (max : ℕ) (decoded raw_path p : Text)
    → path_security max decoded raw_path ≡ passed p
    → (is_rejected (path_limit max) decoded (raw_or_decoded raw_path decoded) ≡ false)
      × (cleaned_path decoded ≡ p)
unfolding path_security
path_security_ok max decoded raw_path p h = ground arith

is_rejected-IsUnencoded :
    (limit : ℕ) (decoded raw : Text)
    → is_rejected limit decoded raw ≡ false
    → IsUnencoded raw × (length decoded ≤ limit)
unfolding is_rejected
is_rejected-IsUnencoded limit decoded raw h = ground arith

-- When the path security stage passes on a request whose path begins with a slash, the path that
-- it passes on is a slash and segments of which none is empty, is one dot or holds two dots in a
-- row, a slash, a backslash or NUL, perhaps with a slash at the end; the raw path, which is the
-- path itself where none is given, holds no encoded dot, slash, backslash or NUL in either case
-- of letters; and the path was within the limit.
pub passed_path_is_clean :
    (max : ℕ) (s raw_path p : Text)
    → path_security max (b'/' ∷ s) raw_path ≡ passed p
    → IsCleanPath p
      × IsUnencoded (raw_or_decoded raw_path (b'/' ∷ s))
      × (length (b'/' ∷ s) ≤ path_limit max)
passed_path_is_clean max s raw_path p h =
    let (kept, e) = path_security_ok max (b'/' ∷ s) raw_path p h in
    let raw = raw_or_decoded raw_path (b'/' ∷ s) in
    let (unencoded, short) = is_rejected-IsUnencoded (path_limit max) (b'/' ∷ s) raw kept in
    (
      rw (← e) (
          cleaned_path-IsCleanPath s (is_rejected-IsAdmitted (path_limit max) (b'/' ∷ s) raw kept)),
      unencoded,
      short,
    )
