-- ===== src/Service/Invites/Laws.antt =====
-- An invitation is used no more often than it allows.
use redxt.Common.{
  ltb→lt_ℤ, ◌∙◌, ◌<ℤ◌, ℕ, ℤ, pos, +ℤ_parts, ◌≤ℤ◌, is_zero, List, [], ◌∷◌, ◌≡◌, refl, ◌⊎◌, inl, inr,
  true, Option, none, some, Text, Result, ok, err, arith, Bool-cases, any, update_where, All,
}
use redxt.Store.Tables.{Invite, Db, StoreError, redeemable}
use redxt.Store.Invites.{invite_by_hash, redeem_invite_row, may_redeem, count_use}
use redxt.Service.Base.{Call}
use redxt.Service.Invites.Rows.{
  RowRedeemed, RowsRedeemed, HasOpen, zero_bound, uses_bound, update-RowsRedeemed, any-HasOpen,
}
use redxt.Service.Invites.{redeem_invite, redeem_found, consume}

-- The uses of an invitation are within what it allows; 0 allows any number.
abbrev pub IsWithinUses : Invite → Type 0
IsWithinUses i = (i.max_uses ≡ pos 0) ⊎ (i.use_count ≤ℤ i.max_uses)

-- What a redeemed code stood for, and what its use left.
pub record Redeemed (hash : Text → Text) (call : Call) (code : Text) (db db' : Db) (i : Invite)
    : Type 0 where
  pub found : invite_by_hash db (hash code) ≡ some i
  pub not_expired : (i.expires_at ≡ pos 0) ⊎ (call.now <ℤ i.expires_at)
  pub not_used_up : (i.max_uses ≡ pos 0) ⊎ (i.use_count <ℤ i.max_uses)
  pub has_open : HasOpen i.id call.now db.invites
  pub rows : RowsRedeemed i.id call.now db.invites db'.invites
  pub others_same : db' ≡ record db { invites = db'.invites }

-- What `redeemable` answers, in the order of numbers.
redeemable-bounds :
    (i : Invite) (now : ℤ)
    → redeemable i now ≡ true
    → ((i.expires_at ≡ pos 0) ⊎ (now <ℤ i.expires_at))
      × ((i.max_uses ≡ pos 0) ⊎ (i.use_count <ℤ i.max_uses))
unfolding redeemable
redeemable-bounds i now h = elim (Bool-cases (is_zero i.expires_at)) [
  | inl z ↦ (inl (zero_bound i.expires_at z), uses_bound i.max_uses i.use_count (ground arith))
  | inr z ↦ (
    inr (ltb→lt_ℤ now i.expires_at (ground arith)),
    uses_bound i.max_uses i.use_count (ground arith),
  )
]

-- A selected row had a use left, so it has not more than it allows afterwards.
row-IsWithinUses :
    (id : ℕ) (now : ℤ) (i j : Invite) → RowRedeemed id now i j → IsWithinUses i → IsWithinUses j
row-IsWithinUses id now i j (inr (shut, same)) h = rw same h
row-IsWithinUses id now i j (inl (was, used)) h = counted (was.2)
  where
    counted : (i.max_uses ≡ pos 0) ⊎ (i.use_count <ℤ i.max_uses) → IsWithinUses j
    counted (inl z) = inl (used.same_max ∙ z)
    counted (inr l) =
        inr (rw (used.same_max, used.one_use_more) (omega (arith, +ℤ_parts i.use_count (pos 1), l)))

rows-IsWithinUses :
    (id : ℕ) (now : ℤ) (is js : List Invite)
    → RowsRedeemed id now is js
    → All IsWithinUses is
    → All IsWithinUses js
unfolding RowsRedeemed
rows-IsWithinUses id now [] [] rows h = tt
rows-IsWithinUses id now [] (j ∷ js) rows h = absurd rows
rows-IsWithinUses id now (i ∷ is) [] rows h = absurd rows
rows-IsWithinUses id now (i ∷ is) (j ∷ js) rows h =
    (row-IsWithinUses id now i j rows.0 h.0, rows-IsWithinUses id now is js rows.1 h.1)

module _ (hash : Text → Text) (call : Call) where
  row_redeemed :
      (i : Invite) (db db' : Db)
      → redeem_invite_row i.id call.now db ≡ ok db'
      → (any (may_redeem i.id call.now) db.invites ≡ true)
        × (db' ≡ record db {
          invites = update_where (may_redeem i.id call.now) (count_use call.now) db.invites;
        })
  unfolding redeem_invite_row
  row_redeemed i db db' h = elim (Bool-cases (any (may_redeem i.id call.now) db.invites)) [
    | inl e ↦ (e, ground arith)
    | inr e ↦ ground arith
  ]

  consume_ok :
      (i j : Invite) (db db' : Db) (r : Result StoreError Db)
      → consume hash call i db r ≡ (ok j, db')
      → (i ≡ j) × (r ≡ ok db')
  consume_ok i j db db' (ok db1) h = ground arith
  consume_ok i j db db' (err e) h = cc

  found-Redeemed :
      (m : Option Invite) (code : Text) (i : Invite) (db db' : Db)
      → invite_by_hash db (hash code) ≡ m
      → redeem_found hash call m db ≡ (ok i, db')
      → Redeemed hash call code db db' i
  found-Redeemed none code i db db' e h = cc
  found-Redeemed (some j) code i db db' e h = elim (Bool-cases (redeemable j call.now)) [
    | inr late ↦ ground arith
    | inl live ↦
        let (same, wrote) = consume_ok j i db db' _ (ground arith) in
        let (row, counted) = row_redeemed j db db' wrote in
        let (alive, left) = redeemable-bounds j call.now live in
        rw (← same) (record {
          found = e;
          not_expired = alive;
          not_used_up = left;
          has_open = any-HasOpen j.id call.now db.invites row;
          rows = rw counted (update-RowsRedeemed j.id call.now db.invites);
          others_same = rw counted refl;
        })
  ]

  -- A code that redeems named a stored invitation that has not expired, or has no expiry, and has
  -- a use left, or any number of them, and some row with its number expires later than now and
  -- has a use left. Every row of that kind has one use more afterwards and the present as its
  -- time of acceptance and is the same in every other column; every other row is the same, and so
  -- is the rest of the database.
  pub redeem_invite_sound :
      (code : Text) (i : Invite) (db db' : Db)
      → redeem_invite hash call code db ≡ (ok i, db')
      → Redeemed hash call code db db' i
  unfolding redeem_invite
  redeem_invite_sound code i db db' h = found-Redeemed _ code i db db' refl h

  -- If no invitation with a maximum of uses is over it, none is after a code was redeemed.
  pub redeem_invite-IsWithinUses :
      (code : Text) (i : Invite) (db db' : Db)
      → redeem_invite hash call code db ≡ (ok i, db')
      → All IsWithinUses db.invites
      → All IsWithinUses db'.invites
  redeem_invite-IsWithinUses code i db db' h all =
      rows-IsWithinUses i.id call.now db.invites db'.invites
        ((redeem_invite_sound code i db db' h).rows) all
