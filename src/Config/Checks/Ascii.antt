-- ===== src/Config/Checks/Ascii.antt =====
-- Texts in ASCII: folding them is writing them in lower case, and trimming keeps them so.
use mathlib.Core.List.{reverse, reverse-cons}
use redxt.Common.{
  ℕ, ◌<◌, ◌≡◌, refl, [], ◌∷◌, Text, All, All-append, arith, Bool-cases, inl, inr, lower, is_space,
  to_lower, trim_left, trim_space,
}
use redxt.Config.Checks.{fold_byte, fold_text}

abbrev pub IsAscii : Text → Type 0
IsAscii s = All (λ c. c < 128) s

fold_byte-lower : (c : ℕ) (t : Text) → c < 128 → fold_byte c t ≡ lower c ∷ t
fold_byte-lower c t h = ground arith

pub fold_text-lower : (s : Text) → IsAscii s → fold_text s ≡ to_lower s
unfolding fold_text to_lower
fold_text-lower [] h = refl
fold_text-lower (c ∷ s) h = rw (fold_text-lower s h.1) (fold_byte-lower c (to_lower s) h.0)

trim_left-IsAscii : (s : Text) → IsAscii s → IsAscii (trim_left s)
unfolding trim_left
trim_left-IsAscii [] h = tt
trim_left-IsAscii (c ∷ s) h = elim (Bool-cases (is_space c)) [
  | inl e ↦ rw e (trim_left-IsAscii s h.1)
  | inr e ↦ rw e h
]

reverse-IsAscii : (s : Text) → IsAscii s → IsAscii (reverse s)
reverse-IsAscii [] h = h
reverse-IsAscii (c ∷ s) h =
    rw (reverse-cons c s)
      (All-append (λ x. x < 128) (reverse s) (c ∷ []) (reverse-IsAscii s h.1) (h.0, tt))

pub trim_space-IsAscii : (s : Text) → IsAscii s → IsAscii (trim_space s)
unfolding trim_space
trim_space-IsAscii s h =
    reverse-IsAscii _ (trim_left-IsAscii _ (reverse-IsAscii _ (trim_left-IsAscii s h)))
