-- ===== src/Common/Trims.antt =====
-- What strings.TrimSpace leaves: a text whose ends are no spaces, so that trimming it again
-- changes nothing.
use Prim.Native.Nat.{ℕ}
use mathlib.Core.Path.{◌≡◌, refl, ap, ◌∙◌}
use mathlib.Core.Bool.{false}
use mathlib.Core.List.{[], ◌∷◌, ◌++◌, reverse, reverse-cons, reverse-append, reverse-reverse}
use mathlib.Core.Logic.{◌⊎◌, inl, inr}
use redxt.Common.Tests.{Bool-cases}
use redxt.Common.Texts.{Text, is_space, trim_left, trim_space}

-- A text that begins with no space keeps its first byte.
pub trim_left-last :
    (s : Text) (c : ℕ)
    → is_space c ≡ false
    → (t : Text) × (trim_left (s ++ (c ∷ [])) ≡ t ++ (c ∷ []))
unfolding trim_left
trim_left-last [] c h = ([], rw h refl)
trim_left-last (d ∷ s) c h = elim (Bool-cases (is_space d)) [
  | inl e ↦ ((trim_left-last s c h).0, rw e ((trim_left-last s c h).1))
  | inr e ↦ (d ∷ s, rw e refl)
]

pub trim_space-head :
    (c : ℕ) (s : Text) → is_space c ≡ false → (t : Text) × (trim_space (c ∷ s) ≡ c ∷ t)
unfolding trim_space trim_left
trim_space-head c s h =
    let (t, e) = trim_left-last (reverse s) c h in
    (reverse t, rw h (rw (reverse-cons c s, e) (reverse-append t (c ∷ []))))

trim_left-cases :
    (s : Text)
    → (trim_left s ≡ []) ⊎ ((c : ℕ) × (u : Text) × (trim_left s ≡ c ∷ u) × (is_space c ≡ false))
unfolding trim_left
trim_left-cases [] = inl refl
trim_left-cases (c ∷ s) = elim (Bool-cases (is_space c)) [
  | inl e ↦ rw e (trim_left-cases s)
  | inr e ↦ inr (c, s, rw e refl, e)
]

trim_left-head : (c : ℕ) (u : Text) → is_space c ≡ false → trim_left (c ∷ u) ≡ c ∷ u
unfolding trim_left
trim_left-head c u h = rw h refl

trim_left-twice : (s : Text) → trim_left (trim_left s) ≡ trim_left s
trim_left-twice s = elim (trim_left-cases s) [
  | inl e ↦ rw e (unfold trim_left in refl)
  | inr (c, u, e, h) ↦ rw e (trim_left-head c u h)
]

-- A text that begins with no space, trimmed at its end.
trim_right-twice :
    (c : ℕ) (u : Text)
    → is_space c ≡ false
    → trim_space (reverse (trim_left (reverse (c ∷ u)))) ≡ reverse (trim_left (reverse (c ∷ u)))
unfolding trim_space
trim_right-twice c u h =
    let w = trim_left (reverse (c ∷ u)) in
    let (t, e) = trim_left-last (reverse u) c h in
    let begins : reverse w ≡ c ∷ reverse t =
      ap (λ (v : Text). reverse (trim_left v)) (reverse-cons c u)
      ∙ ap reverse e
      ∙ reverse-append t (c ∷ []) in
    let kept : trim_left (reverse w) ≡ reverse w = rw begins (trim_left-head c (reverse t) h) in
    ap (λ (v : Text). reverse (trim_left (reverse v))) kept
    ∙ ap (λ (v : Text). reverse (trim_left v)) (reverse-reverse w)
    ∙ ap reverse (trim_left-twice (reverse (c ∷ u)))

pub trim_space-twice : (s : Text) → trim_space (trim_space s) ≡ trim_space s
unfolding trim_space
trim_space-twice s = elim (trim_left-cases s) [
  | inl e ↦ rw e (unfold trim_left in refl)
  | inr (c, u, e, h) ↦ rw e (trim_right-twice c u h)
]
