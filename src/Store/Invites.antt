-- ===== src/Store/Invites.antt =====
-- src/server/store/invite.go.
use redxt.Common.{
  ℕ, ◌==◌, ◌&&◌, ◌||◌, not, Bool, List, [], ◌∷◌, ◌++◌, Option, keep, any, find, update_where, Text,
  ◌=ᵗ◌, Result, ok, err, ℤ, pos, ◌+ℤ◌, ltb_ℤ, leb_ℤ, is_zero, if◌then◌else◌,
}
use redxt.Store.Tables.{Invite, Db, StoreError, row_not_found, row_conflict}

-- The row is written unused, whatever the caller set.
unfoldable pub create_invite : Invite → Db → Result StoreError Db
create_invite i db =
    if any (λ j. j.code_hash =ᵗ i.code_hash) db.invites
    then err row_conflict
    else ok (record db {
      invites = db.invites ++ record i { use_count = pos 0; accepted_at = pos 0 } ∷ [];
    })

unfoldable pub invite_by_hash : Db → Text → Option Invite
invite_by_hash db hash = find (λ i. i.code_hash =ᵗ hash) db.invites

unfoldable pub list_org_invites : Db → ℕ → List Invite
list_org_invites db org_id = keep (λ i. i.org_id == org_id) db.invites

-- The WHERE clause of RedeemInvite.
abbrev pub may_redeem : ℕ → ℤ → Invite → Bool
may_redeem id now i =
    i.id == id && ltb_ℤ now i.expires_at && (is_zero i.max_uses || ltb_ℤ i.use_count i.max_uses)

abbrev pub count_use : ℤ → Invite → Invite
count_use now i = record i { use_count = i.use_count +ℤ pos 1; accepted_at = now }

unfoldable pub redeem_invite_row : ℕ → ℤ → Db → Result StoreError Db
redeem_invite_row id now db =
    if any (may_redeem id now) db.invites
    then ok (record db { invites = update_where (may_redeem id now) (count_use now) db.invites })
    else err row_not_found

unfoldable pub delete_invite : ℕ → Db → Result StoreError Db
delete_invite id db =
    if any (λ i. i.id == id) db.invites
    then ok (record db { invites = keep (λ i. not (i.id == id)) db.invites })
    else err row_not_found

unfoldable pub purge_expired_invites : ℤ → Db → Db
purge_expired_invites now db = record db {
  invites = keep (λ i. not (leb_ℤ i.expires_at now)) db.invites;
}
