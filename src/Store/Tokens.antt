-- ===== src/Store/Tokens.antt =====
-- src/server/store/token.go.
use redxt.Common.{
  ℕ, ◌==◌, ◌&&◌, ◌||◌, Bool, true, false, List, [], ◌∷◌, ◌++◌, Option, keep, any, find,
  update_where, count_where, Text, ◌=ᵗ◌, Result, ok, err, ℤ, pos, ltb_ℤ, is_zero, if◌then◌else◌,
}
use redxt.Store.Tables.{
  Token, OwnerType, owner_user, owner_org, owner_admin, Db, StoreError, row_not_found, row_conflict,
}

abbrev pub same_owner_type : OwnerType → OwnerType → Bool
same_owner_type owner_user owner_user = true
same_owner_type owner_org owner_org = true
same_owner_type owner_admin owner_admin = true
same_owner_type _ _ = false

-- The columns that the INSERT leaves out are NULL. The expiry is taken to be whole seconds, to which
-- the INSERT cuts it.
unfoldable pub create_token : Token → Db → Result StoreError Db
create_token t db =
    if any (λ u. u.hash =ᵗ t.hash) db.tokens
    then err row_conflict
    else ok (record db {
      tokens = db.tokens ++ record t { last_used_at = pos 0; revoked_at = pos 0 } ∷ [];
    })

unfoldable pub token_by_hash : Db → Text → Option Token
token_by_hash db hash = find (λ t. t.hash =ᵗ hash) db.tokens

unfoldable pub token_by_id : Db → ℕ → Option Token
token_by_id db id = find (λ t. t.id == id) db.tokens

unfoldable pub list_tokens : Db → OwnerType → ℕ → List Token
list_tokens db owner_type owner_id =
    keep (λ t. same_owner_type t.owner_type owner_type && t.owner_id == owner_id) db.tokens

unfoldable pub count_live_tokens : Db → OwnerType → ℕ → ℤ → ℕ
count_live_tokens db owner_type owner_id now =
    count_where
      (λ t.
        same_owner_type t.owner_type owner_type
        && t.owner_id == owner_id
        && is_zero t.revoked_at
        && (is_zero t.expires_at || ltb_ℤ now t.expires_at))
      db.tokens

unfoldable pub touch_token : ℕ → ℤ → Db → Db
touch_token id now db = record db {
  tokens = update_where (λ t. t.id == id) (λ t. record t { last_used_at = now }) db.tokens;
}

abbrev is_live_row : ℕ → Token → Bool
is_live_row id t = t.id == id && is_zero t.revoked_at

unfoldable pub revoke_token_row : ℕ → ℤ → Db → Result StoreError Db
revoke_token_row id now db =
    if any (is_live_row id) db.tokens
    then ok (record db {
      tokens = update_where (is_live_row id) (λ t. record t { revoked_at = now }) db.tokens;
    })
    else err row_not_found
