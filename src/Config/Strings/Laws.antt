-- ===== src/Config/Strings/Laws.antt =====
-- Base URLs are rooted and have no slash at the end, and no text is both true and false.
use redxt.Common.{
  ◌≡◌, refl, sym, ap, ◌∙◌, true, false, ◌&&◌, ◌||◌, [], ◌∷◌, Text, bytes, ◌=ᵗ◌, ◌==◌, trim_space,
  to_lower, has_prefix, if◌then◌else◌, arith, Bool-cases, inl, inr, ◌⊎◌, some, ◌↔◌, All,
}
use redxt.Middleware.Segments.{ends_in_slash}
use redxt.Config.Checks.{contains_text}
use redxt.Config.Checks.Laws.{contains_text-All}
use redxt.Config.Strings.{
  truthy_values, falsey_values, is_truthy, is_falsey, parse_bool, trim_slashes, normalize_base_url,
  or_slash,
}

trim_slashes_ends : (s : Text) → ends_in_slash (trim_slashes s) ≡ false
unfolding trim_slashes ends_in_slash ◌=ᵗ◌
trim_slashes_ends [] = refl
trim_slashes_ends (c ∷ s) = ends (trim_slashes s) (trim_slashes_ends s)
  where
    ends :
        (t : Text)
        → ends_in_slash t ≡ false
        → ends_in_slash (if t =ᵗ [] && c == b'/' then [] else c ∷ t) ≡ false
    ends [] h = ground arith
    ends (d ∷ t) h = h

trim_slashes_rooted :
    (s : Text)
    → (trim_slashes (b'/' ∷ s) ≡ []) ⊎ ((t : Text) × (trim_slashes (b'/' ∷ s) ≡ b'/' ∷ t))
unfolding trim_slashes
trim_slashes_rooted s = elim (Bool-cases (trim_slashes s =ᵗ [])) [
  | inl e ↦ inl (rw e refl)
  | inr e ↦ inr (trim_slashes s, rw e refl)
]

-- The root, or a rooted path with no slash at its end.
pub IsBase : Text → Type 0
IsBase url = (url ≡ bytes "/") ⊎ ((t : Text) × (url ≡ b'/' ∷ t) × (ends_in_slash url ≡ false))

rooted-IsBase : (s : Text) → IsBase (or_slash (trim_slashes (b'/' ∷ s)))
unfolding IsBase
rooted-IsBase s = elim (trim_slashes_rooted s) [
  | inl e ↦ inl (ap or_slash e)
  | inr (t, e) ↦ inr (
    t,
    ap or_slash e,
    ap (λ (x : Text). ends_in_slash (or_slash x)) e
        ∙ sym (ap ends_in_slash e)
        ∙ trim_slashes_ends (b'/' ∷ s),
  )
]

with_slash_first :
    (url : Text)
    → (s : Text) × ((if has_prefix url (bytes "/") then url else b'/' ∷ url) ≡ b'/' ∷ s)
unfolding has_prefix
with_slash_first [] = ([], refl)
with_slash_first (c ∷ s) = elim (Bool-cases (c == b'/')) [
  | inl e ↦ (s, ground arith)
  | inr e ↦ (c ∷ s, ground arith)
]

root-IsBase : IsBase (bytes "/")
unfolding IsBase
root-IsBase = inl refl

-- Whatever is configured, the base URL is the root or a rooted path with no slash at its end.
pub normalize_base_url-IsBase : (raw : Text) → IsBase (normalize_base_url raw)
unfolding normalize_base_url
normalize_base_url-IsBase raw =
    elim (Bool-cases (trim_space raw =ᵗ [] || trim_space raw =ᵗ bytes "/")) [
      | inl e ↦ rw e root-IsBase
      | inr e ↦ let (s, r) = with_slash_first (trim_space raw) in rw (e, r) (rooted-IsBase s)
    ]

truthy_is_not_falsey : All (λ w. contains_text falsey_values w ≡ false) truthy_values
unfolding contains_text ◌=ᵗ◌
truthy_is_not_falsey = (refl, (refl, (refl, (refl, (refl, (refl, tt))))))

-- No text is both truthy and falsey, and ParseBool tells them apart.
pub parse_bool_exact :
    (s : Text)
    → ((parse_bool s ≡ some true) ↔ (is_truthy s ≡ true))
      × ((parse_bool s ≡ some false) ↔ (is_falsey s ≡ true))
unfolding parse_bool is_truthy is_falsey
parse_bool_exact s = elim (Bool-cases (contains_text truthy_values (to_lower (trim_space s)))) [
  | inl e ↦
      let apart =
        contains_text-All (λ w. contains_text falsey_values w ≡ false) truthy_values
          (to_lower (trim_space s)) truthy_is_not_falsey e in
      ((λ h. e, λ h. rw e refl), (λ h. absurd (cc (rw e at h)), λ h. absurd (cc (sym apart ∙ h))))
  | inr e ↦
      ((λ h. ground arith, λ h. absurd (cc (sym e ∙ h))), (λ h. ground arith, λ h. rw (e, h) refl))
]
