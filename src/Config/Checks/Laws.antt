-- ===== src/Config/Checks/Laws.antt =====
-- The checks of one value: what they leave is valid where the default is, and a valid value is left.
use mathlib.Core.List.{reverse, reverse-cons}
use redxt.Common.{
  ℕ, ℤ, pos, ◌≤ℤ◌, ◌≡◌, refl, sym, ap, ◌∙◌, true, List, [], ◌∷◌, ◌++◌, Text, ◌=ᵗ◌, trim_space,
  trim_left, to_lower, lower, is_space, All, arith, Bool-cases, inl, inr, text_eq_iff,
  trim_space-twice,
}
use redxt.Config.Checks.Ascii.{IsAscii, fold_text-lower, trim_space-IsAscii}
use redxt.Config.Checks.{
  fold_text, contains_fold, contains_text, choice, at_least, require_positive_duration,
  normalize_domain_list,
}

-- A word that is trimmed and in lower case.
pub record IsPlainWord (w : Text) : Type 0 where
  pub trimmed : trim_space w ≡ w
  pub lowered : to_lower w ≡ w
  pub folded : fold_text w ≡ w

contains_fold-text :
    (list : List Text) (s : Text)
    → All IsPlainWord list
    → contains_fold list s ≡ contains_text list (fold_text (trim_space s))
unfolding contains_fold contains_text
contains_fold-text [] s h = refl
contains_fold-text (w ∷ list) s h = rw (h.0.folded, contains_fold-text list s h.1) refl

pub contains_text-All :
    (P : Text → Type 0) (list : List Text) (s : Text)
    → All P list
    → contains_text list s ≡ true
    → P s
unfolding contains_text
contains_text-All P [] s h e = cc e
contains_text-All P (w ∷ list) s h e = elim (Bool-cases (w =ᵗ s)) [
  | inl x ↦ rw (← (text_eq_iff w s).0 x) h.0
  | inr x ↦ contains_text-All P list s h.1 (ground arith)
]

module _ (list : List Text) (plain : All IsPlainWord list) where
  pub choice_valid :
      (v d : Text)
      → IsAscii v
      → contains_text list d ≡ true
      → contains_text list (choice list v d) ≡ true
  unfolding choice
  choice_valid v d ascii h = elim (Bool-cases (contains_fold list v)) [
    | inl e ↦ rw e (
        ap (contains_text list) (sym (fold_text-lower (trim_space v) (trim_space-IsAscii v ascii)))
        ∙ sym (contains_fold-text list v plain)
        ∙ e)
    | inr e ↦ let w = contains_text-All IsPlainWord list d plain h in rw (e, w.trimmed, w.lowered) h
  ]

  pub contains_fold_of_text : (v : Text) → contains_text list v ≡ true → contains_fold list v ≡ true
  contains_fold_of_text v h =
      let w = contains_text-All IsPlainWord list v plain h in
      contains_fold-text list v plain ∙ rw (w.trimmed, w.folded) h

  pub choice_kept : (v d : Text) → contains_text list v ≡ true → choice list v d ≡ v
  unfolding choice
  choice_kept v d h =
      let w = contains_text-All IsPlainWord list v plain h in
      rw (contains_fold_of_text v h) (ap to_lower w.trimmed ∙ w.lowered)

pub at_least_valid : (least v d : ℤ) → least ≤ℤ d → least ≤ℤ at_least least v d
unfolding at_least
at_least_valid least v d h = ground arith

pub at_least_kept : (least v d : ℤ) → least ≤ℤ v → at_least least v d ≡ v
unfolding at_least
at_least_kept least v d h = ground arith

pub positive_valid : (v d : ℤ) → pos 1 ≤ℤ d → pos 1 ≤ℤ require_positive_duration v d
unfolding require_positive_duration
positive_valid v d h = ground arith

pub positive_kept : (v d : ℤ) → pos 1 ≤ℤ v → require_positive_duration v d ≡ v
unfolding require_positive_duration
positive_kept v d h = ground arith

-- Lower case keeps spaces where they are.
is_space-lower : (c : ℕ) → is_space (lower c) ≡ is_space c
is_space-lower c = ground arith

lower-lower : (c : ℕ) → lower (lower c) ≡ lower c
lower-lower c = ground arith

trim_left-lower : (s : Text) → trim_left (to_lower s) ≡ to_lower (trim_left s)
unfolding trim_left to_lower
trim_left-lower [] = refl
trim_left-lower (c ∷ s) = elim (Bool-cases (is_space c)) [
  | inl e ↦ rw (is_space-lower c, e) (trim_left-lower s)
  | inr e ↦ rw (is_space-lower c, e) refl
]

to_lower-append : (s t : Text) → to_lower (s ++ t) ≡ to_lower s ++ to_lower t
unfolding to_lower
to_lower-append [] t = refl
to_lower-append (c ∷ s) t = ap (◌∷◌ (lower c)) (to_lower-append s t)

reverse-lower : (s : Text) → reverse (to_lower s) ≡ to_lower (reverse s)
unfolding to_lower
reverse-lower [] = refl
reverse-lower (c ∷ s) =
    reverse-cons (lower c) (to_lower s)
    ∙ ap (λ (t : Text). t ++ (lower c ∷ [])) (reverse-lower s)
    ∙ sym (to_lower-append (reverse s) (c ∷ []))
    ∙ ap to_lower (sym (reverse-cons c s))

trim_space-lower : (s : Text) → trim_space (to_lower s) ≡ to_lower (trim_space s)
unfolding trim_space
trim_space-lower s =
    rw (trim_left-lower s, reverse-lower (trim_left s), trim_left-lower (reverse (trim_left s)))
      (reverse-lower (trim_left (reverse (trim_left s))))

to_lower-twice : (s : Text) → to_lower (to_lower s) ≡ to_lower s
unfolding to_lower
to_lower-twice [] = refl
to_lower-twice (c ∷ s) = rw (lower-lower c) (ap (◌∷◌ (lower c)) (to_lower-twice s))

normal_twice :
    (s : Text) → to_lower (trim_space (to_lower (trim_space s))) ≡ to_lower (trim_space s)
normal_twice s =
    ap to_lower (trim_space-lower (trim_space s))
    ∙ to_lower-twice (trim_space (trim_space s))
    ∙ ap to_lower (trim_space-twice s)

pub normalize_domain_list-twice :
    (list : List Text)
    → normalize_domain_list (normalize_domain_list list) ≡ normalize_domain_list list
unfolding normalize_domain_list
normalize_domain_list-twice [] = refl
normalize_domain_list-twice (s ∷ list) = elim (Bool-cases (to_lower (trim_space s) =ᵗ [])) [
  | inl e ↦ rw e (normalize_domain_list-twice list)
  | inr e ↦ rw e (
      rw (normal_twice s, e)
        (ap (◌∷◌ (to_lower (trim_space s))) (normalize_domain_list-twice list)))
]
