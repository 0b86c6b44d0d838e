-- ===== src/Service/Tokens/Laws.antt =====
-- What a token that authenticates is worth, and what an issued one carries.
use redxt.Common.{
  ◌⊎◌, ◌==◌, ◌≤◌, ◌≡◌, ◌≢◌, refl, inl, inr, true, Option, none, some, Text, Result, ok, err, arith,
  Bool-cases, trim_space,
}
use redxt.User.Role.{Role, parse_role, rank, cap_role}
use redxt.User.Role.Laws.{rank-cap_role-le}
use redxt.Store.Tables.{OwnerType, owner_org, owner_admin, Token, owner_user, Db, usable}
use redxt.Store.Tokens.{token_by_hash}
use redxt.Service.Base.{ServiceError, invalid_credentials, Call, ◌>>=◌}
use redxt.Service.Base.Laws.{got, ask_ok, refuse_ok}
use redxt.Service.Access.{OrgAccess, access}
use redxt.Service.Access.Laws.{role_of, access_ok, access-none}
use redxt.Service.Tokens.{TokenAuth, capped, standing, usable_token, authenticate_token}

-- A token that is not a user's, or names no organization, or acts with its own role capped to that of
-- the membership behind it.
abbrev pub WithinMembership : Db → Token → Role → Type 0
WithinMembership db t r =
    (t.owner_type ≢ owner_user)
    ⊎ (t.org_id ≡ 0)
    ⊎ ((m : Role) × (granted : Role) × (role_of db t.org_id t.owner_id ≡ some m)
        × (parse_role t.role ≡ some granted)
        × (rank r ≤ rank m)
        × (r ≡ cap_role m granted))

capped_ok :
    (r : Result ServiceError OrgAccess) (granted : Option Role) (got_role : Role)
    → capped r granted ≡ ok got_role
    → (a : OrgAccess) × (g : Role) × (r ≡ ok a)
      × (granted ≡ some g)
      × (got_role ≡ cap_role a.role g)
capped_ok (err e) granted got_role h = cc
capped_ok (ok a) none got_role h = cc
capped_ok (ok a) (some g) got_role h = (a, g, refl, refl, cc)

standing_users :
    (db : Db) (t : Token) (r : Role)
    → standing db t ≡ ok r
    → t.owner_type ≡ owner_user
    → t.org_id ≢ 0
    → capped (access db t.org_id t.owner_id) (parse_role t.role) ≡ ok r
unfolding standing
standing_users db t r h user org = ground arith

standing_of_member :
    (db : Db) (t : Token) (r : Role)
    → standing db t ≡ ok r
    → t.owner_type ≡ owner_user
    → t.org_id ≢ 0
    → WithinMembership db t r
standing_of_member db t r h user org =
    let (a, g, e, granted, same) = capped_ok _ _ r (standing_users db t r h user org) in
    inr (
      inr (
        a.role,
        g,
        (access_ok db t.org_id t.owner_id a e).1,
        granted,
        rw same (rank-cap_role-le a.role g),
        same,
      ))

user_or_not : (o : OwnerType) → (o ≡ owner_user) ⊎ (o ≢ owner_user)
user_or_not owner_user = inl refl
user_or_not owner_org = inr (λ e. cc)
user_or_not owner_admin = inr (λ e. cc)

standing_sound : (db : Db) (t : Token) (r : Role) → standing db t ≡ ok r → WithinMembership db t r
standing_sound db t r h = elim (user_or_not t.owner_type) [
  | inr other ↦ inl other
  | inl user ↦ elim (Bool-cases (t.org_id == 0)) [
    | inl none_named ↦ inr (inl (ground arith))
    | inr named ↦ standing_of_member db t r h user (ground arith)
  ]
]

usable_token_ok :
    (call : Call) (o : Option Token) (t : Token)
    → usable_token call o ≡ ok t
    → (o ≡ some t) × (usable t call.now ≡ true)
usable_token_ok call none t h = cc
usable_token_ok call (some u) t h = elim (Bool-cases (usable u call.now)) [
  | inl e ↦ ground arith
  | inr e ↦ ground arith
]

module _ (hash : Text → Text) (call : Call) where
  -- What a successful authentication establishes.
  pub record Authentic (presented : Text) (db : Db) (auth : TokenAuth) : Type 0 where
    pub stored : token_by_hash db (hash (trim_space presented)) ≡ some auth.token
    pub usable_now : usable auth.token call.now ≡ true
    pub within : WithinMembership db auth.token auth.role

  -- A successful authentication presented the secret of a stored token that is usable at that
  -- time, and where the token is a user's in an organization the role it acts with is the token's
  -- role capped to the role that the user has in that organization now.
  pub authenticate_token_sound :
      (presented : Text) (db db' : Db) (auth : TokenAuth)
      → authenticate_token hash call presented db ≡ (ok auth, db')
      → Authentic presented db auth
  unfolding authenticate_token
  authenticate_token_sound presented db db' auth h = elim (refuse_ok _ _ _ _ _ _ h) [
    | got _ blank h1 ↦ elim (ask_ok _ _ _ _ _ h1) [
      | got t found h2 ↦ elim (ask_ok _ _ _ _ _ h2) [
        | got r held h3 ↦
            let (e, u) = usable_token_ok call _ t found in
            let same_token : t ≡ auth.token = ground arith in
            let same_role : r ≡ auth.role = ground arith in
            record {
              stored = rw (← same_token) e;
              usable_now = rw (← same_token) u;
              within = rw (← same_token) (rw (← same_role) (standing_sound db t r held));
            }
      ]
    ]
  ]

  -- Without the membership the token is refused, in the same words as an unknown one.
  pub authenticate_token-no_membership :
      (presented : Text) (db : Db) (t : Token)
      → token_by_hash db (hash (trim_space presented)) ≡ some t
      → t.owner_type ≡ owner_user
      → t.org_id ≢ 0
      → role_of db t.org_id t.owner_id ≡ none
      → authenticate_token hash call presented db ≡ (err invalid_credentials, db)
  unfolding authenticate_token standing ◌>>=◌
  authenticate_token-no_membership presented db t found user org gone =
      ground (arith, access-none db t.org_id t.owner_id gone)
