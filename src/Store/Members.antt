-- ===== src/Store/Members.antt =====
-- src/server/store/member.go.
pub mod Laws
use redxt.Common.{
  ℕ, ◌==◌, ◌&&◌, not, Bool, true, false, List, [], ◌∷◌, ◌++◌, Option, none, some, keep, any, find,
  map, update_where, count_where, Text, Result, ok, err, ℤ, if◌then◌else◌, is_zero,
}
use mathlib.Core.Option
use redxt.Store.Tables.{
  Member, Grant, Zone, Token, OwnerType, owner_user, Db, StoreError, row_not_found, row_conflict,
}
use redxt.Store.Orgs.{is_membership, write_role}

-- Membership; the key (org_id, user_id) has one row at most.
unfoldable pub membership : ℕ → ℕ → List Member → Option Member
membership org_id user_id ms = find (is_membership org_id user_id) ms

unfoldable pub count_members : Db → ℕ → ℕ
count_members db org_id = count_where (λ m. m.org_id == org_id) db.members

unfoldable pub add_member : ℕ → ℕ → Text → Db → Result StoreError Db
add_member org_id user_id role db =
    if any (is_membership org_id user_id) db.members
    then err row_conflict
    else ok (record db {
      members = db.members ++ record { org_id = org_id; user_id = user_id; role = role } ∷ [];
    })

unfoldable pub set_member_role : ℕ → ℕ → Text → Db → Result StoreError Db
set_member_role org_id user_id role db =
    if any (is_membership org_id user_id) db.members
    then ok (record db { members = write_role org_id user_id role db.members })
    else err row_not_found

abbrev pub is_user : OwnerType → Bool
is_user owner_user = true
is_user _ = false

-- The rows that the last statement of RemoveMember selects.
abbrev pub held_by : ℕ → ℕ → Token → Bool
held_by org_id user_id t =
    t.org_id == org_id && is_user t.owner_type && t.owner_id == user_id && is_zero t.revoked_at

unfoldable pub revoke_held : ℕ → ℕ → ℤ → List Token → List Token
revoke_held org_id user_id now ts =
    update_where (held_by org_id user_id) (λ t. record t { revoked_at = now }) ts

-- One transaction: the membership, the zone grants and the tokens held against the organization.
unfoldable pub remove_member : ℕ → ℕ → ℤ → Db → Result StoreError Db
remove_member org_id user_id now db =
    if any (is_membership org_id user_id) db.members
    then ok (record db {
      members = keep (λ m. not (is_membership org_id user_id m)) db.members;
      grants = keep (λ g. not (g.org_id == org_id && g.user_id == user_id)) db.grants;
      tokens = revoke_held org_id user_id now db.tokens;
    })
    else err row_not_found

unfoldable pub zone_org_id : Db → ℕ → Option ℕ
zone_org_id db zone_id = Option.map (λ (z : Zone). z.org_id) (find (λ z. z.id == zone_id) db.zones)

abbrev pub is_grant : ℕ → ℕ → ℕ → Grant → Bool
is_grant org_id user_id zone_id g =
    g.org_id == org_id && g.user_id == user_id && g.zone_id == zone_id

unfoldable pub zone_granted : Db → ℕ → ℕ → ℕ → Bool
zone_granted db org_id user_id zone_id = any (is_grant org_id user_id zone_id) db.grants

abbrev pub without_grant : ℕ → ℕ → ℕ → List Grant → List Grant
without_grant org_id user_id zone_id gs = keep (λ g. not (is_grant org_id user_id zone_id g)) gs

unfoldable pub revoke_zone : ℕ → ℕ → ℕ → Db → Result StoreError Db
revoke_zone org_id user_id zone_id db =
    if zone_granted db org_id user_id zone_id
    then ok (record db { grants = without_grant org_id user_id zone_id db.grants })
    else err row_not_found

-- RevokeZone's ErrNotFound is passed over, and then the row is inserted.
unfoldable pub grant_zone : ℕ → ℕ → ℕ → Text → Db → Result StoreError Db
grant_zone org_id user_id zone_id permission db = ok (record db {
  grants =
      without_grant org_id user_id zone_id db.grants
      ++ record { org_id = org_id; user_id = user_id; zone_id = zone_id; permission = permission }
        ∷ [];
})
