-- ===== src/Service/Tokens/RoundTrip.antt =====
-- An issued secret authenticates, with the role and the scope that the issue settled.
use redxt.Common.{
  ℕ, [], ◌⊎◌, inl, inr, ◌<ℤ◌, ◌≡◌, refl, ap, ◌∙◌, true, false, some, Text, ok, arith, ◌=ᵗ◌,
  trim_space, is_zero,
}
use redxt.User.Role.{Role, cap_role}
use redxt.User.Role.Laws.{parse_role-role_text}
use redxt.Store.Orgs.{org_by_id}
use redxt.Store.Tables.{Org, Db, usable}
use redxt.Store.Tokens.{touch_token}
use redxt.Service.Base.{Config, Call, ◌>>=◌}
use redxt.Service.Access.{access}
use redxt.Service.Access.Laws.{role_of}
use redxt.Service.Tokens.{
  Scope, scope_global, scope_read_write, scope_read, scope_text, parse_scope, IssueTokenInput,
  standing, capped, authenticate_token, issue_token, new_token, secret, expiry,
}
use redxt.Service.Tokens.Issue.{Issued, issue_token_sound}

parse_scope-scope_text : (s : Scope) → parse_scope (scope_text s) ≡ some s
unfolding parse_scope ◌=ᵗ◌
parse_scope-scope_text scope_global = refl
parse_scope-scope_text scope_read_write = refl
parse_scope-scope_text scope_read = refl

-- The standing of a member with a known role, where the tables are those of `db`.
access_of_tables :
    (db db' : Db) (o u : ℕ) (org : Org) (r : Role)
    → db'.orgs ≡ db.orgs
    → db'.members ≡ db.members
    → org_by_id db o ≡ some org
    → role_of db o u ≡ some r
    → access db' o u ≡ ok (record { org = org; role = r })
unfolding access org_by_id
access_of_tables db db' o u org r orgs members found held =
    rw orgs (rw members (rw found (rw held refl)))

capped_known :
    (i r : Role) (org : Org)
    → cap_role i r ≡ r
    → capped (ok (record { org = org; role = i })) (some r) ≡ ok r
capped_known i r org h = ap ok h

module _ (cfg : Config) (hash : Text → Text) (call : Call) where
  standing-Issued :
      (user_id : ℕ) (input : IssueTokenInput) (db db' : Db) (answer : Text)
      (i : Issued cfg hash call user_id input db db' answer)
      → standing db' (new_token cfg hash call user_id input i.role i.scope) ≡ ok i.role
  unfolding standing
  standing-Issued user_id input db db' answer i =
      let s = i.settled in
      rw
        (access_of_tables db db' input.org_id user_id s.org s.issuer i.orgs_kept i.members_kept
          s.org_is s.issuer_is)
        (rw (parse_role-role_text i.role s.is_known)
          (ground (arith, s.in_org, capped_known s.issuer i.role s.org s.is_capped)))

  secret_not_blank : (secret cfg hash call =ᵗ []) ≡ false
  unfolding ◌=ᵗ◌
  secret_not_blank = refl

  authenticated :
      (later : Call) (user_id : ℕ) (input : IssueTokenInput) (db db' : Db) (answer : Text)
      (i : Issued cfg hash call user_id input db db' answer)
      → trim_space answer ≡ answer
      → usable (new_token cfg hash call user_id input i.role i.scope) later.now ≡ true
      → authenticate_token hash later answer db' ≡ (
        ok (record {
          token = new_token cfg hash call user_id input i.role i.scope;
          role = i.role;
          scope = i.scope;
        }),
        touch_token call.fresh_id later.now db',
      )
  unfolding authenticate_token ◌>>=◌
  authenticated later user_id input db db' answer i trimmed live =
      let t = new_token cfg hash call user_id input i.role i.scope in
      rw trimmed (
        rw (ap (λ a. a =ᵗ []) i.secret_is ∙ secret_not_blank) (
          rw i.stored (
            rw live (
              rw (standing-Issued user_id input db db' answer i)
                (rw (parse_scope-scope_text i.scope) refl)))))

  not_expired :
      (later : Call) (user_id : ℕ) (input : IssueTokenInput) (role : Role) (scope : Scope)
      → (is_zero (expiry cfg hash call input.expires_in) ≡ true)
        ⊎ (later.now <ℤ expiry cfg hash call input.expires_in)
      → usable (new_token cfg hash call user_id input role scope) later.now ≡ true
  unfolding usable
  not_expired later user_id input role scope (inl never) = rw never refl
  not_expired later user_id input role scope (inr ahead) = ground arith

  -- The secret of an accepted issue, if it has no space at its ends and the expiry that the issue
  -- set is absent or still ahead, authenticates at once: as the token that the issue stored, with
  -- exactly the role and scope that the issue settled.
  pub authenticate-issue :
      (later : Call) (user_id : ℕ) (input : IssueTokenInput) (db db' : Db) (answer : Text)
      → issue_token cfg hash call user_id input db ≡ (ok answer, db')
      → trim_space answer ≡ answer
      → (is_zero (expiry cfg hash call input.expires_in) ≡ true)
        ⊎ (later.now <ℤ expiry cfg hash call input.expires_in)
      → (i : Issued cfg hash call user_id input db db' answer) × (authenticate_token hash later
            answer db'
          ≡ (
            ok (record {
              token = new_token cfg hash call user_id input i.role i.scope;
              role = i.role;
              scope = i.scope;
            }),
            touch_token call.fresh_id later.now db',
          ))
  authenticate-issue later user_id input db db' answer h trimmed live =
      let i = issue_token_sound cfg hash call user_id input db db' answer h in
      (
        i,
        authenticated later user_id input db db' answer i trimmed
            (not_expired later user_id input i.role i.scope live),
      )
