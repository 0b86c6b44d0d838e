-- ===== src/Service/Invites/Rows.antt =====
-- What the statement of RedeemInvite does to the rows, said without its tests.
use redxt.Common.{
  ap, negsuc, ltb→lt_ℤ, lt→ltb_ℤ, sym, ◌∙◌, ◌<ℤ◌, ℕ, ℤ, pos, ◌+ℤ◌, ltb_ℤ, is_zero, ◌||◌, List, [],
  ◌∷◌, ◌≡◌, refl, ◌⊎◌, inl, inr, true, arith, Bool-cases, any, update_where, if◌then◌else◌,
}
use redxt.Store.Tables.{Invite}
use redxt.Store.Invites.{may_redeem, count_use}

-- A row that a redemption selects: the invitation's own, not expired, and with a use left.
abbrev pub IsOpen : ℕ → ℤ → Invite → Type 0
IsOpen id now i =
    (i.id ≡ id) × (now <ℤ i.expires_at) × ((i.max_uses ≡ pos 0) ⊎ (i.use_count <ℤ i.max_uses))

-- A row that has one use more and the time of acceptance, and is the same in every other column.
pub record UsedOnce (now : ℤ) (i j : Invite) : Type 0 where
  pub one_use_more : j.use_count ≡ i.use_count +ℤ pos 1
  pub accepted : j.accepted_at ≡ now
  pub same_id : j.id ≡ i.id
  pub same_hash : j.code_hash ≡ i.code_hash
  pub same_org : j.org_id ≡ i.org_id
  pub same_email : j.email ≡ i.email
  pub same_role : j.role ≡ i.role
  pub same_max : j.max_uses ≡ i.max_uses
  pub same_inviter : j.invited_by ≡ i.invited_by
  pub same_expiry : j.expires_at ≡ i.expires_at

abbrev pub RowRedeemed : ℕ → ℤ → Invite → Invite → Type 0
RowRedeemed id now i j = (IsOpen id now i × UsedOnce now i j) ⊎ ((¬ IsOpen id now i) × (j ≡ i))

-- The rows before and after, one by one.
unfoldable pub RowsRedeemed : ℕ → ℤ → List Invite → List Invite → Type 0
RowsRedeemed id now [] [] = Unit
RowsRedeemed id now [] (j ∷ js) = ⊥
RowsRedeemed id now (i ∷ is) [] = ⊥
RowsRedeemed id now (i ∷ is) (j ∷ js) = RowRedeemed id now i j × RowsRedeemed id now is js

unfoldable pub HasOpen : ℕ → ℤ → List Invite → Type 0
HasOpen id now [] = ⊥
HasOpen id now (i ∷ is) = IsOpen id now i ⊎ HasOpen id now is

pub zero_bound : (max : ℤ) → is_zero max ≡ true → max ≡ pos 0
zero_bound (pos n) h = ap pos (ground arith)
zero_bound (negsuc n) h = absurd (cc h)

-- What the test of the uses left says in the order of numbers, and back.
pub uses_bound :
    (max used : ℤ) → (is_zero max || ltb_ℤ used max) ≡ true → (max ≡ pos 0) ⊎ (used <ℤ max)
uses_bound max used h = elim (Bool-cases (is_zero max)) [
  | inl z ↦ inl (zero_bound max z)
  | inr z ↦ inr (ltb→lt_ℤ used max (ground arith))
]

bound_uses : (max used : ℤ) → (max ≡ pos 0) ⊎ (used <ℤ max) → (is_zero max || ltb_ℤ used max) ≡ true
bound_uses max used (inl z) = rw z refl
bound_uses max used (inr l) = ground (arith, lt→ltb_ℤ used max l)

module _ (id : ℕ) (now : ℤ) where
  may_redeem-IsOpen : (i : Invite) → may_redeem id now i ≡ true → IsOpen id now i
  may_redeem-IsOpen i h = (
    ground arith,
    ltb→lt_ℤ now i.expires_at (ground arith),
    uses_bound i.max_uses i.use_count (ground arith),
  )

  IsOpen-may_redeem : (i : Invite) → IsOpen id now i → may_redeem id now i ≡ true
  IsOpen-may_redeem i (same, alive, left) =
      ground (arith, lt→ltb_ℤ now i.expires_at alive, bound_uses i.max_uses i.use_count left)

  row-RowRedeemed :
      (i : Invite) → RowRedeemed id now i (if may_redeem id now i then count_use now i else i)
  row-RowRedeemed i = elim (Bool-cases (may_redeem id now i)) [
    | inl e ↦ rw e (
        inl (
          may_redeem-IsOpen i e,
          record {
            one_use_more = refl;
            accepted = refl;
            same_id = refl;
            same_hash = refl;
            same_org = refl;
            same_email = refl;
            same_role = refl;
            same_max = refl;
            same_inviter = refl;
            same_expiry = refl;
          },
        ))
    | inr e ↦ rw e (inr (λ was. absurd (cc (sym (IsOpen-may_redeem i was) ∙ e)), refl))
  ]

  pub update-RowsRedeemed :
      (is : List Invite)
      → RowsRedeemed id now is (update_where (may_redeem id now) (count_use now) is)
  unfolding RowsRedeemed
  update-RowsRedeemed [] = tt
  update-RowsRedeemed (i ∷ is) = (row-RowRedeemed i, update-RowsRedeemed is)

  pub any-HasOpen : (is : List Invite) → any (may_redeem id now) is ≡ true → HasOpen id now is
  unfolding HasOpen
  any-HasOpen [] h = absurd (cc h)
  any-HasOpen (i ∷ is) h = elim (Bool-cases (may_redeem id now i)) [
    | inl e ↦ inl (may_redeem-IsOpen i e)
    | inr e ↦ inr (any-HasOpen is (ground arith))
  ]
