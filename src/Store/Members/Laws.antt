-- ===== src/Store/Members/Laws.antt =====
-- How each statement on organization_members changes what a lookup finds.
use mathlib.Core.Option
use redxt.Common.{
  ℕ, ◌==◌, ◌&&◌, not, ◌≡◌, refl, true, false, List, [], ◌∷◌, ◌++◌, none, some, keep, any, arith,
  Text, if◌then◌else◌, is_zero,
}
use redxt.Store.Tables.{Member, Token, owner_user}
use redxt.Store.Orgs.{is_membership, with_role, write_role}
use redxt.Store.Members.{membership}

module _ (o u : ℕ) where
  pub membership-write_role :
      (o' u' : ℕ) (r : Text) (ms : List Member)
      → membership o u (write_role o' u' r ms) ≡ (
          if o' == o && u' == u
          then Option.map (with_role r) (membership o u ms)
          else membership o u ms)
  unfolding membership write_role
  membership-write_role o' u' r [] = ground arith
  membership-write_role o' u' r (m ∷ ms) = ground (arith, membership-write_role o' u' r ms)

  pub membership-append :
      (m : Member) (ms : List Member)
      → membership o u (ms ++ m ∷ []) ≡ (
          if any (is_membership o u) ms
          then membership o u ms
          else (if is_membership o u m then some m else none))
  unfolding membership
  membership-append m [] = ground arith
  membership-append m (n ∷ ms) = ground (arith, membership-append m ms)

  pub membership-remove :
      (o' u' : ℕ) (ms : List Member)
      → membership o u (keep (λ m. not (is_membership o' u' m)) ms)
        ≡ (if o' == o && u' == u then none else membership o u ms)
  unfolding membership
  membership-remove o' u' [] = ground arith
  membership-remove o' u' (m ∷ ms) = ground (arith, membership-remove o' u' ms)

  pub membership-drop_org :
      (o' : ℕ) (ms : List Member)
      → membership o u (keep (λ m. not (m.org_id == o')) ms)
        ≡ (if o' == o then none else membership o u ms)
  unfolding membership
  membership-drop_org o' [] = ground arith
  membership-drop_org o' (m ∷ ms) = ground (arith, membership-drop_org o' ms)

  pub membership-none_of_not_any :
      (ms : List Member) → any (is_membership o u) ms ≡ false → membership o u ms ≡ none
  unfolding membership
  membership-none_of_not_any [] h = refl
  membership-none_of_not_any (m ∷ ms) h = ground (arith, membership-none_of_not_any ms)

  pub any_of_membership :
      (ms : List Member) (m : Member)
      → membership o u ms ≡ some m
      → any (is_membership o u) ms ≡ true
  unfolding membership
  any_of_membership [] m h = cc
  any_of_membership (n ∷ ms) m h = ground (arith, any_of_membership ms m)

-- No row of this kind is left unrevoked.
abbrev pub IsRevokedFor : ℕ → ℕ → Token → Type 0
IsRevokedFor org_id user_id t =
    t.org_id ≡ org_id
    → t.owner_type ≡ owner_user
    → t.owner_id ≡ user_id
    → is_zero t.revoked_at ≡ false
