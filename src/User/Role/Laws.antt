-- ===== src/User/Role/Laws.antt =====
-- The authority of roles: src/user/role.go.
use redxt.Common.{◌≤◌, ◌<◌, ◌≡◌, ◌≢◌, ◌⊎◌, inl, refl, some, true, arith, Text, to_lower, trim_space}
use redxt.User.Name.{normalize_name}
use redxt.User.Role.{
  Role, owner, admin, editor, viewer, unknown, Permission, read, records_write, unlisted, role_text,
  to_role, parse_role, can, rank, can_manage_member, can_grant_role, cap_role, known_or_none,
}

-- A role holds every permission that a role of no higher rank holds.
pub can_mono : (r s : Role) (p : Permission) → rank r ≤ rank s → can r p ≡ true → can s p ≡ true
unfolding can
can_mono owner owner p h c = c
can_mono owner admin p h c = absurd (omega arith)
can_mono owner editor p h c = absurd (omega arith)
can_mono owner viewer p h c = absurd (omega arith)
can_mono owner unknown p h c = absurd (omega arith)
can_mono admin owner unlisted h c = c
can_mono admin owner _ h c = refl
can_mono admin admin p h c = c
can_mono admin editor p h c = absurd (omega arith)
can_mono admin viewer p h c = absurd (omega arith)
can_mono admin unknown p h c = absurd (omega arith)
can_mono editor owner unlisted h c = c
can_mono editor owner _ h c = refl
can_mono editor admin read h c = refl
can_mono editor admin records_write h c = refl
can_mono editor admin _ h c = cc
can_mono editor editor p h c = c
can_mono editor viewer p h c = absurd (omega arith)
can_mono editor unknown p h c = absurd (omega arith)
can_mono viewer owner read h c = refl
can_mono viewer owner _ h c = cc
can_mono viewer admin read h c = refl
can_mono viewer admin _ h c = cc
can_mono viewer editor read h c = refl
can_mono viewer editor _ h c = cc
can_mono viewer viewer p h c = c
can_mono viewer unknown p h c = absurd (omega arith)
can_mono unknown s p h c = cc

pub rank-cap_role-le : (i r : Role) → rank (cap_role i r) ≤ rank i
unfolding cap_role
rank-cap_role-le i r = ground arith

-- A capped role never holds a permission that the issuer lacks.
pub can-cap_role : (i r : Role) (p : Permission) → can (cap_role i r) p ≡ true → can i p ≡ true
can-cap_role i r p c = can_mono (cap_role i r) i p (rank-cap_role-le i r) c

-- Capping gives the requested role when that is known and ranks no higher than the issuer's, and
-- the issuer's own role in every other case.
pub cap_role_exact :
    (i r : Role)
    → ((r ≢ unknown) × (rank r ≤ rank i) × (cap_role i r ≡ r))
      ⊎ (((r ≡ unknown) ⊎ (rank i < rank r)) × (cap_role i r ≡ i))
unfolding cap_role
cap_role_exact i unknown = ground arith
cap_role_exact i owner = ground arith
cap_role_exact i admin = ground arith
cap_role_exact i editor = ground arith
cap_role_exact i viewer = ground arith

-- Whoever may grant a role is an owner or ranks strictly above that role.
pub grant_needs_rank :
    (r target : Role) → can_grant_role r target ≡ true → (r ≡ owner) ⊎ (rank target < rank r)
unfolding can_grant_role
grant_needs_rank owner target h = inl refl
grant_needs_rank admin owner h = cc
grant_needs_rank admin admin h = ground arith
grant_needs_rank admin editor h = ground arith
grant_needs_rank admin viewer h = ground arith
grant_needs_rank admin unknown h = ground arith
grant_needs_rank editor target h = cc
grant_needs_rank viewer target h = cc
grant_needs_rank unknown target h = cc

pub manage_needs_rank :
    (r target : Role) → can_manage_member r target ≡ true → (r ≡ owner) ⊎ (rank target < rank r)
unfolding can_manage_member
manage_needs_rank owner target h = inl refl
manage_needs_rank admin target h = ground arith
manage_needs_rank editor target h = cc
manage_needs_rank viewer target h = cc
manage_needs_rank unknown target h = cc

-- The text of a role other than the unknown one parses back to it.
pub parse_role-role_text : (r : Role) → r ≢ unknown → parse_role (role_text r) ≡ some r
unfolding parse_role to_role normalize_name to_lower trim_space
parse_role-role_text owner h = refl
parse_role-role_text admin h = refl
parse_role-role_text editor h = refl
parse_role-role_text viewer h = refl
parse_role-role_text unknown h = absurd (h refl)

known_or_none-ne-unknown : (q r : Role) → known_or_none q ≡ some r → r ≢ unknown
known_or_none-ne-unknown unknown r e = cc
known_or_none-ne-unknown owner r e = cc
known_or_none-ne-unknown _ r e = cc

pub parse_role-ne-unknown : (s : Text) (r : Role) → parse_role s ≡ some r → r ≢ unknown
unfolding parse_role
parse_role-ne-unknown s r e = known_or_none-ne-unknown (to_role (normalize_name s)) r e
