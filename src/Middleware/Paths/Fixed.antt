-- ===== src/Middleware/Paths/Fixed.antt =====
-- Clean paths pass the path security stage unchanged.
use mathlib.Core.List.{append-nil}
use redxt.Common.{
  ℕ, ◌≡◌, refl, ap, sym, ◌∙◌, Bool, true, false, List, [], ◌∷◌, ◌++◌, ◌==◌, any, keep, All, Text,
  bytes, ◌=ᵗ◌, to_lower, contains, has_prefix, split_on, arith, if◌then◌else◌, ◌≤◌, length, lower,
  All-map,
}
use redxt.Middleware.Segments.{ends_in_slash, join, clean_segment, clean_segments, clean}
use redxt.Middleware.Segments.Laws.{Without, WithoutDots, is_named}
use redxt.Middleware.Segments.Joined.{
  IsPlain, render, ends_in_slash-join, ends_in_slash-append, split_on-join, split_on-join_slash,
  keep-plain, join-lacks_dots, join-lacks, contains_byte-append, contains_dots-slash,
}
use redxt.Middleware.Paths.{
  cleaned_path, is_rejected, path_security, passed, path_limit, encoded_rejects,
}
use redxt.Middleware.Paths.Laws.{named_segments, keeps_slash, cleaned_path-render}

abbrev slash_if : Bool → Text
slash_if trailing = if trailing then bytes "/" else []

named_segments-join :
    (w : Text) (ws : List Text) (trailing : Bool)
    → All IsPlain (w ∷ ws)
    → named_segments (join b'/' (w ∷ ws) ++ slash_if trailing) ≡ w ∷ ws
unfolding is_named ◌=ᵗ◌
named_segments-join w ws true h =
    ap (keep is_named) (split_on-join_slash w ws h)
    ∙ keep-plain (w ∷ ws) ([] ∷ []) h
    ∙ append-nil (w ∷ ws)
named_segments-join w ws false h =
    ap named_segments (append-nil (join b'/' (w ∷ ws)))
    ∙ ap (keep is_named) (split_on-join w ws h ∙ sym (append-nil (w ∷ ws)))
    ∙ keep-plain (w ∷ ws) [] h
    ∙ append-nil (w ∷ ws)

text_ends : (s : Text) (c : ℕ) → (s ++ (c ∷ []) =ᵗ []) ≡ false
unfolding ◌=ᵗ◌
text_ends [] c = refl
text_ends (d ∷ s) c = refl

keeps_slash-join :
    (w : Text) (ws : List Text) (trailing : Bool)
    → All IsPlain (w ∷ ws)
    → keeps_slash (b'/' ∷ join b'/' (w ∷ ws) ++ slash_if trailing) ≡ trailing
unfolding ◌=ᵗ◌
keeps_slash-join w ws true h = ground (
  arith,
  text_ends (join b'/' (w ∷ ws)) b'/',
  ends_in_slash-append (b'/' ∷ join b'/' (w ∷ ws)) b'/' [],
  slash_ends,
)
  where
    slash_ends : ends_in_slash (b'/' ∷ []) ≡ true
    slash_ends = unfold ends_in_slash ◌=ᵗ◌ in refl
keeps_slash-join w ws false h =
    rw (append-nil (join b'/' (w ∷ ws)), ends_in_slash-join b'/' w ws h) (ground arith)

-- In a path with no percent sign nothing is encoded.
lower-percent : (c : ℕ) → (lower c == b'%') ≡ (c == b'%')
lower-percent c = ground arith

to_lower-lacks : (s : Text) → Without b'%' s → Without b'%' (to_lower s)
unfolding to_lower
to_lower-lacks [] h = refl
to_lower-lacks (c ∷ s) h = ground (arith, lower-percent c, to_lower-lacks s)

contains-lacks : (b : ℕ) (e s : Text) → Without b s → contains s (b ∷ e) ≡ false
unfolding contains has_prefix
contains-lacks b e [] h = refl
contains-lacks b e (c ∷ s) h = ground (arith, contains-lacks b e s)

is_unencoded :
    (raw : Text) → Without b'%' raw → any (contains (to_lower raw)) encoded_rejects ≡ false
is_unencoded raw h =
    let absent = λ (e : Text). contains-lacks b'%' e (to_lower raw) (to_lower-lacks raw h) in
    ground
      (arith, absent (bytes "2e"), absent (bytes "2f"), absent (bytes "5c"), absent (bytes "00"))

-- What the tests of the stage ask of the bytes of a path.
render-WithoutDots :
    (ws : List Text) (trailing : Bool) → All IsPlain ws → WithoutDots (render ws trailing)
unfolding contains has_prefix
render-WithoutDots [] trailing h = refl
render-WithoutDots (w ∷ ws) true h =
    contains_dots-slash [] (join b'/' (w ∷ ws) ++ bytes "/") refl
      (contains_dots-slash (join b'/' (w ∷ ws)) [] (join-lacks_dots w ws h) refl)
render-WithoutDots (w ∷ ws) false h =
    contains_dots-slash [] (join b'/' (w ∷ ws) ++ []) refl
      (rw (append-nil (join b'/' (w ∷ ws))) (join-lacks_dots w ws h))

render-Without :
    (b : ℕ) (ws : List Text) (trailing : Bool)
    → (b'/' == b) ≡ false
    → All (Without b) ws
    → Without b (render ws trailing)
render-Without b [] trailing e h = ground arith
render-Without b (w ∷ ws) trailing e h =
    ground (
      arith,
      contains_byte-append b (join b'/' (w ∷ ws)) (slash_if trailing),
      join-lacks b w ws e h,
    )

cleaned_root : cleaned_path (bytes "/") ≡ bytes "/"
unfolding cleaned_path clean clean_segments clean_segment join split_on ends_in_slash has_prefix
    ◌=ᵗ◌
cleaned_root = refl

cleaned_path-fixed :
    (ws : List Text) (trailing : Bool)
    → All IsPlain ws
    → cleaned_path (render ws trailing) ≡ render ws trailing
unfolding contains
cleaned_path-fixed [] trailing h = cleaned_root
cleaned_path-fixed (w ∷ ws) trailing h =
    let s = join b'/' (w ∷ ws) ++ slash_if trailing in
    let e = named_segments-join w ws trailing h in
    cleaned_path-render s (ground (arith, render-WithoutDots (w ∷ ws) trailing h)) (rw e h)
    ∙ rw (e, keeps_slash-join w ws trailing h) refl

-- A clean path with no percent sign, within the limit and with no raw form, is passed on by the
-- path security stage unchanged.
pub clean_path_passes :
    (max : ℕ) (ws : List Text) (trailing : Bool)
    → All IsPlain ws
    → Without b'%' (render ws trailing)
    → length (render ws trailing) ≤ path_limit max
    → path_security max (render ws trailing) [] ≡ passed (render ws trailing)
unfolding path_security is_rejected
clean_path_passes max ws trailing h e n =
    let p = render ws trailing in
    ground (
      arith,
      cleaned_path-fixed ws trailing h,
      render-WithoutDots ws trailing h,
      render-Without 0 ws trailing refl
          (All-map (λ (w : Text) (x : IsPlain w). x.without_nul) ws h),
      render-Without b'\\' ws trailing refl
          (All-map (λ (w : Text) (x : IsPlain w). x.without_backslash) ws h),
      is_unencoded p e,
    )
