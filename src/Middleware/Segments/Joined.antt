-- ===== src/Middleware/Segments/Joined.antt =====
-- Segments written back with strings.Join: which texts they spell, and that reading them gives the
-- same segments.
use mathlib.Core.List.{append_assoc}
use redxt.Common.{
  ℕ, ◌≡◌, refl, ap, ◌∙◌, Bool, true, false, ◌||◌, List, [], ◌∷◌, ◌++◌, ◌==◌, keep, All, Text, bytes,
  ◌=ᵗ◌, contains, has_prefix, split_on, arith, if◌then◌else◌,
}
use redxt.Middleware.Segments.{contains_byte, ends_in_slash, join}
use redxt.Middleware.Segments.Laws.{Without, WithoutDots, is_named}

-- A segment that names something: not empty, not ".", and with no "..", slash, backslash or NUL.
pub record IsPlain (w : Text) : Type 0 where
  pub named : is_named w ≡ true
  pub without_dots : WithoutDots w
  pub without_slash : Without b'/' w
  pub without_nul : Without 0 w
  pub without_backslash : Without b'\\' w

-- The path of these segments, perhaps with a slash after the last one.
abbrev pub render : List Text → Bool → Text
render [] trailing = bytes "/"
render (w ∷ ws) trailing = b'/' ∷ join b'/' (w ∷ ws) ++ (if trailing then bytes "/" else [])

pub record IsCleanPath (p : Text) : Type 0 where
  pub segments : List Text
  pub trailing : Bool
  pub plain : All IsPlain segments
  pub spelled : p ≡ render segments trailing

pub ends_in_slash-append :
    (s : Text) (c : ℕ) (t : Text) → ends_in_slash (s ++ (c ∷ t)) ≡ ends_in_slash (c ∷ t)
unfolding ends_in_slash ◌=ᵗ◌
ends_in_slash-append [] c t = refl
ends_in_slash-append (b ∷ []) c t = refl
ends_in_slash-append (b ∷ d ∷ s) c t = ends_in_slash-append (d ∷ s) c t

ends_in_slash-lacks : (s : Text) → Without b'/' s → ends_in_slash s ≡ false
unfolding ends_in_slash
ends_in_slash-lacks [] h = refl
ends_in_slash-lacks (c ∷ s) h = ground (arith, ends_in_slash-lacks s)

ends_in_slash-cons : (c : ℕ) (w : Text) → IsPlain w → ends_in_slash (c ∷ w) ≡ false
unfolding ends_in_slash ◌=ᵗ◌ is_named
ends_in_slash-cons c [] h = absurd (cc h.named)
ends_in_slash-cons c (d ∷ w) h = ends_in_slash-lacks (d ∷ w) h.without_slash

pub ends_in_slash-join :
    (c : ℕ) (w : Text) (ws : List Text)
    → All IsPlain (w ∷ ws)
    → ends_in_slash (c ∷ join b'/' (w ∷ ws)) ≡ false
unfolding join
ends_in_slash-join c w [] h = ends_in_slash-cons c w h.0
ends_in_slash-join c w (v ∷ ws) h =
    ends_in_slash-append (c ∷ w) b'/' (join b'/' (v ∷ ws)) ∙ ends_in_slash-join b'/' v ws h.1

-- Reading one segment before a slash, or at the end.
split_on-append :
    (w rest : Text) → Without b'/' w → split_on b'/' (w ++ (b'/' ∷ rest)) ≡ w ∷ split_on b'/' rest
unfolding split_on
split_on-append [] rest h = refl
split_on-append (c ∷ w) rest h = ground (arith, split_on-append w rest)

split_on-alone : (w : Text) → Without b'/' w → split_on b'/' w ≡ w ∷ []
unfolding split_on
split_on-alone [] h = refl
split_on-alone (c ∷ w) h = ground (arith, split_on-alone w)

pub split_on-join :
    (w : Text) (ws : List Text) → All IsPlain (w ∷ ws) → split_on b'/' (join b'/' (w ∷ ws)) ≡ w ∷ ws
unfolding join
split_on-join w [] h = split_on-alone w (h.0.without_slash)
split_on-join w (v ∷ ws) h =
    split_on-append w (join b'/' (v ∷ ws)) (h.0.without_slash) ∙ ap (◌∷◌ w) (split_on-join v ws h.1)

pub split_on-join_slash :
    (w : Text) (ws : List Text)
    → All IsPlain (w ∷ ws)
    → split_on b'/' (join b'/' (w ∷ ws) ++ bytes "/") ≡ (w ∷ ws) ++ ([] ∷ [])
unfolding join split_on
split_on-join_slash w [] h = split_on-append w [] (h.0.without_slash)
split_on-join_slash w (v ∷ ws) h =
    ap (split_on b'/') (append_assoc w (b'/' ∷ join b'/' (v ∷ ws)) (bytes "/"))
    ∙ split_on-append w (join b'/' (v ∷ ws) ++ bytes "/") (h.0.without_slash)
    ∙ ap (◌∷◌ w) (split_on-join_slash v ws h.1)

pub keep-plain :
    (ws rest : List Text) → All IsPlain ws → keep is_named (ws ++ rest) ≡ ws ++ keep is_named rest
keep-plain [] rest h = refl
keep-plain (w ∷ ws) rest h = rw (h.0.named) (ap (◌∷◌ w) (keep-plain ws rest h.1))

pub contains_byte-append :
    (b : ℕ) (s t : Text) → contains_byte b (s ++ t) ≡ (contains_byte b s || contains_byte b t)
contains_byte-append b [] t = refl
contains_byte-append b (c ∷ s) t = ground (arith, contains_byte-append b s t)

pub contains_dots-slash :
    (s t : Text) → WithoutDots s → WithoutDots t → WithoutDots (s ++ (b'/' ∷ t))
unfolding contains has_prefix
contains_dots-slash [] t h k = k
contains_dots-slash (c ∷ []) t h k = ground (arith, contains_dots-slash [] t refl k)
contains_dots-slash (c ∷ d ∷ s) t h k = ground (arith, contains_dots-slash (d ∷ s) t)

pub join-lacks_dots :
    (w : Text) (ws : List Text) → All IsPlain (w ∷ ws) → WithoutDots (join b'/' (w ∷ ws))
unfolding join
join-lacks_dots w [] h = h.0.without_dots
join-lacks_dots w (v ∷ ws) h =
    contains_dots-slash w (join b'/' (v ∷ ws)) h.0.without_dots (join-lacks_dots v ws h.1)

pub join-lacks :
    (b : ℕ) (w : Text) (ws : List Text)
    → (b'/' == b) ≡ false
    → All (Without b) (w ∷ ws)
    → Without b (join b'/' (w ∷ ws))
unfolding join
join-lacks b w [] e h = h.0
join-lacks b w (v ∷ ws) e h =
    ground
      (arith, contains_byte-append b w (b'/' ∷ join b'/' (v ∷ ws)), join-lacks b v ws e h.1, h.0)
