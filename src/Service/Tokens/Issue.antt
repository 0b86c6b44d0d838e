-- ===== src/Service/Tokens/Issue.antt =====
-- What an issued token carries, and that its secret authenticates.
use redxt.Common.{
  ℕ, pos, ◌≤◌, [], ◌∷◌, ◌++◌, ◌≡◌, ◌≢◌, refl, sym, ◌∙◌, inl, inr, true, false, Option, none, some,
  Text, ok, arith, Bool-cases, any, find-append_last, ◌=ᵗ◌, text_eq_iff, trim_space,
}
use redxt.User.Role.{
  Role, owner, admin, editor, viewer, unknown, tokens_manage, records_write, can, rank, cap_role,
}
use redxt.User.Role.Laws.{rank-cap_role-le, parse_role-ne-unknown}
use redxt.Store.Orgs.{org_by_id}
use redxt.Store.Members.{membership}
use redxt.Store.Tables.{Org, Member, Token, Db}
use redxt.Store.Tokens.{create_token, token_by_hash}
use redxt.Service.Base.{Config, Call}
use redxt.Service.Base.Laws.{
  got, passed, SameRows, ask_ok, lift_ok, refuse_ok, write_ok, bind_ok, audit_ok, return_ok,
}
use redxt.Service.Access.{member_role}
use redxt.Service.Access.Laws.{role_of, require_ok}
use redxt.Service.Tokens.{
  Scope, scope_global, scope_read_write, scope_read, IssueTokenInput, check_issue, issue_token,
  new_token, secret, scope_refused, zone_allowed, capability_refused,
}

-- The scope and the role that passed the checks.
abbrev pub ScopeFits : Scope → Role → Type 0
ScopeFits scope_global r = ⊥
ScopeFits scope_read_write r = can r records_write ≡ true
ScopeFits scope_read r = Unit

scope_refused-false : (s : Scope) (r : Role) → scope_refused s r ≡ false → ScopeFits s r
unfolding scope_refused
scope_refused-false scope_global r h = cc
scope_refused-false scope_read_write r h = ground arith
scope_refused-false scope_read r h = tt

cap_role_idem : (i r : Role) → cap_role i (cap_role i r) ≡ cap_role i r
unfolding cap_role
cap_role_idem i r = ground arith

cap_role-ne-unknown : (i r : Role) → i ≢ unknown → cap_role i r ≢ unknown
unfolding cap_role
cap_role-ne-unknown i unknown h = h
cap_role-ne-unknown unknown _ h = absurd (h refl)
cap_role-ne-unknown i owner h = λ e. ground arith
cap_role-ne-unknown i admin h = λ e. ground arith
cap_role-ne-unknown i editor h = λ e. ground arith
cap_role-ne-unknown i viewer h = λ e. ground arith

member_role-ne-unknown : (m : Option Member) (r : Role) → member_role m ≡ some r → r ≢ unknown
unfolding member_role
member_role-ne-unknown none r h = cc
member_role-ne-unknown (some m) r h = parse_role-ne-unknown m.role r h

-- The role that a lookup finds is a known one.
role_of-ne-unknown : (db : Db) (o u : ℕ) (r : Role) → role_of db o u ≡ some r → r ≢ unknown
role_of-ne-unknown db o u r h = member_role-ne-unknown (membership o u db.members) r h

-- What the checks of an issue settle.
pub record Settled (user_id : ℕ) (input : IssueTokenInput) (db : Db) (role : Role) (scope : Scope)
    : Type 0 where
  pub org : Org
  pub org_is : org_by_id db input.org_id ≡ some org
  pub in_org : input.org_id ≢ 0
  pub issuer : Role
  pub issuer_is : role_of db input.org_id user_id ≡ some issuer
  pub may_issue : can issuer tokens_manage ≡ true
  pub below : rank role ≤ rank issuer
  pub is_capped : cap_role issuer role ≡ role
  pub is_known : role ≢ unknown
  pub scope_fits : ScopeFits scope role
  pub zone_fits : zone_allowed db input.org_id user_id input.zone_id ≡ ok tt
  pub capability_fits : capability_refused (trim_space input.capability) role ≡ false

module _ (cfg : Config) (hash : Text → Text) (call : Call) where
  check_issue_sound :
      (user_id : ℕ) (input : IssueTokenInput) (db db' : Db) (x : Role × Scope)
      → check_issue cfg hash call user_id input db ≡ (ok x, db')
      → (db' ≡ db) × Settled user_id input db x.0 x.1
  unfolding check_issue
  check_issue_sound user_id input db db' x h = elim (refuse_ok _ _ _ _ _ _ h) [
    | got _ _ h1 ↦ elim (refuse_ok _ _ _ _ _ _ h1) [
      | got _ _ h2 ↦ elim (refuse_ok _ _ _ _ _ _ h2) [
        | got _ no_org h3 ↦ elim (ask_ok _ _ _ _ _ h3) [
          | got a req h4 ↦ elim (lift_ok _ _ _ _ _ h4) [
            | got requested _ h5 ↦ elim (lift_ok _ _ _ _ _ h5) [
              | got scope _ h6 ↦ elim (refuse_ok _ _ _ _ _ _ h6) [
                | got _ fits h7 ↦ elim (ask_ok _ _ _ _ _ h7) [
                  | got _ zone h8 ↦ elim (refuse_ok _ _ _ _ _ _ h8) [
                    | got _ capability h9 ↦ elim (ask_ok _ _ _ _ _ h9) [
                      | got live _ h10 ↦ elim (refuse_ok _ _ _ _ _ _ h10) [
                        | got _ _ h11 ↦
                            let (same, kept) = return_ok _ _ _ _ h11 in
                            let (found, held, may) =
                              require_ok db input.org_id user_id tokens_manage a req in
                            (
                              sym kept,
                              rw (← same) (record {
                                org = a.org;
                                org_is = found;
                                in_org = ground arith;
                                issuer = a.role;
                                issuer_is = held;
                                may_issue = may;
                                below = rank-cap_role-le a.role requested;
                                is_capped = cap_role_idem a.role requested;
                                is_known =
                                    cap_role-ne-unknown a.role requested
                                      (role_of-ne-unknown db input.org_id user_id a.role held);
                                scope_fits = scope_refused-false scope _ fits;
                                zone_fits = zone;
                                capability_fits = capability;
                              }),
                            )
                      ]
                    ]
                  ]
                ]
              ]
            ]
          ]
        ]
      ]
    ]
  ]

  create_token_stores :
      (t : Token) (db db1 : Db)
      → create_token t db ≡ ok db1
      → token_by_hash db1 t.hash ≡ some (record t { last_used_at = pos 0; revoked_at = pos 0 })
  unfolding create_token token_by_hash
  create_token_stores t db db1 h = elim (Bool-cases (any (λ u. u.hash =ᵗ t.hash) db.tokens)) [
    | inl taken ↦ ground arith
    | inr free ↦
        let e : db1.tokens
            ≡ db.tokens ++ record t { last_used_at = pos 0; revoked_at = pos 0 } ∷ [] =
          ground arith in
        rw e (
          find-append_last (λ u. u.hash =ᵗ t.hash) db.tokens _ free
            ((text_eq_iff t.hash t.hash).1 refl))
  ]

  -- What an accepted issue left behind.
  pub record Issued (user_id : ℕ) (input : IssueTokenInput) (db db' : Db) (answer : Text)
      : Type 0 where
    pub role : Role
    pub scope : Scope
    pub settled : Settled user_id input db role scope
    pub secret_is : answer ≡ secret cfg hash call
    pub stored :
        token_by_hash db' (hash answer) ≡ some (new_token cfg hash call user_id input role scope)
    pub orgs_kept : db'.orgs ≡ db.orgs
    pub members_kept : db'.members ≡ db.members

  create_token_keeps :
      (t : Token) (db db1 : Db)
      → create_token t db ≡ ok db1
      → (db1.orgs ≡ db.orgs) × (db1.members ≡ db.members)
  unfolding create_token
  create_token_keeps t db db1 h = ground arith

  issued :
      (user_id : ℕ) (input : IssueTokenInput) (db db1 db' : Db) (x : Role × Scope) (answer : Text)
      → Settled user_id input db x.0 x.1
      → create_token (new_token cfg hash call user_id input x.0 x.1) db ≡ ok db1
      → SameRows db1 db'
      → answer ≡ secret cfg hash call
      → Issued user_id input db db' answer
  unfolding token_by_hash
  issued user_id input db db1 db' x answer settled wrote same e =
      let (o, m) = create_token_keeps _ db db1 wrote in
      record {
        role = x.0;
        scope = x.1;
        settled = settled;
        secret_is = e;
        stored = rw e (rw (same.tokens) (create_token_stores _ db db1 wrote));
        orgs_kept = same.orgs ∙ o;
        members_kept = same.members ∙ m;
      }

  -- An accepted issue was asked by a member of an existing organization who may manage tokens;
  -- the stored token, found again by the hash of the answer, has a role no higher than the
  -- issuer's, a scope that is not global and that the role allows, and a zone and a capability
  -- that passed their checks; organizations and members are unchanged.
  pub issue_token_sound :
      (user_id : ℕ) (input : IssueTokenInput) (db db' : Db) (answer : Text)
      → issue_token cfg hash call user_id input db ≡ (ok answer, db')
      → Issued user_id input db db' answer
  unfolding issue_token
  issue_token_sound user_id input db db' answer h = elim (bind_ok _ _ _ _ _ h) [
    | passed x db0 checked h1 ↦ elim (write_ok _ _ _ _ _ h1) [
      | passed _ db1 wrote h2 ↦ elim (bind_ok _ _ _ _ _ h2) [
        | passed _ db2 logged h3 ↦
            let (kept, settled) = check_issue_sound user_id input db db0 x checked in
            let (same, end) = return_ok _ _ _ _ h3 in
            issued user_id input db db1 db' x answer settled (rw kept at wrote)
              (rw (← end) (audit_ok _ _ _ _ _ _ logged)) (sym same)
      ]
    ]
  ]
