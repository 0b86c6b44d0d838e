-- ===== src/Config/Accounts/Quiet.antt =====
-- Valid settings of users and organizations are kept as they are, with no warning.
use redxt.Common.{
  ℤ, pos, ◌≤ℤ◌, ◌≡◌, refl, sym, Bool, true, false, ◌&&◌, ◌||◌, not, [], bytes, ltb_ℤ, arith,
  text_ne,
}
use redxt.Config.Checks.{is_low, choice}
use redxt.Config.Checks.Laws.{choice_kept, contains_fold_of_text, at_least_kept, positive_kept}
use redxt.Config.Accounts.{
  Users, Orgs, account_modes, profile_visibilities, org_roles, check_registration, check_auth,
  not_owner, validate_users, users_warnings, validate_orgs, orgs_warnings,
}
use redxt.Config.Defaults.{default_users, default_orgs}
use redxt.Config.Accounts.Valid.{
  IsValidUsers, IsValidOrgs, plain_modes, plain_visibilities, plain_roles,
}

second_factor_kept : (a r : Bool) → (r ≡ true → a ≡ true) → (a || r) ≡ a
second_factor_kept true r h = refl
second_factor_kept false true h = sym (h refl)
second_factor_kept false false h = refl

pub validate_users-kept : (u : Users) → IsValidUsers u → validate_users u default_users ≡ u
unfolding validate_users check_registration check_auth
validate_users-kept u v =
    rw
      (
        choice_kept account_modes plain_modes u.registration.mode (bytes "invite") v.mode,
        at_least_kept (pos 1) u.registration.invite_expiration_days (pos 7) v.invites,
        v.allowed,
        v.refused,
        positive_kept u.auth.session_duration default_users.auth.session_duration v.session,
        positive_kept u.auth.lockout_duration default_users.auth.lockout_duration v.lockout,
        at_least_kept (pos 8) u.auth.password_min_length (pos 8) v.password,
        at_least_kept (pos 1) u.auth.max_failed_logins (pos 5) v.failures,
        second_factor_kept u.auth.allow_2fa u.auth.require_2fa v.second_factor,
        at_least_kept (pos 0) u.tokens.max_per_user (pos 10) v.tokens,
        at_least_kept (pos 0) u.tokens.expiration_days (pos 90) v.expiry,
        choice_kept profile_visibilities plain_visibilities u.profile.default_visibility
            (bytes "public") v.visibility,
      )
      refl

pub at_least_quiet : (least v : ℤ) → least ≤ℤ v → not (is_low least v) ≡ true
at_least_quiet least v h = ground arith

pub positive_quiet : (v : ℤ) → pos 1 ≤ℤ v → ltb_ℤ (pos 0) v ≡ true
positive_quiet v h = ground arith

pub needs_quiet :
    (child parent : Bool) → (child ≡ true → parent ≡ true) → (not child || parent) ≡ true
needs_quiet true parent h = h refl
needs_quiet false parent h = refl

pub users_quiet : (u : Users) → IsValidUsers u → users_warnings u ≡ []
unfolding users_warnings
users_quiet u v =
    rw
      (
        contains_fold_of_text account_modes plain_modes u.registration.mode v.mode,
        at_least_quiet (pos 1) u.registration.invite_expiration_days v.invites,
        positive_quiet u.auth.session_duration v.session,
        positive_quiet u.auth.lockout_duration v.lockout,
        at_least_quiet (pos 8) u.auth.password_min_length v.password,
        at_least_quiet (pos 1) u.auth.max_failed_logins v.failures,
        needs_quiet u.auth.require_2fa u.auth.allow_2fa v.second_factor,
        at_least_quiet (pos 0) u.tokens.max_per_user v.tokens,
        at_least_quiet (pos 0) u.tokens.expiration_days v.expiry,
        contains_fold_of_text profile_visibilities plain_visibilities u.profile.default_visibility
            v.visibility,
      )
      refl

pub needs_kept : (child parent : Bool) → (child ≡ true → parent ≡ true) → (child && parent) ≡ child
needs_kept true parent h = h refl
needs_kept false parent h = refl

module _ (users_enabled : Bool) (o : Orgs) (v : IsValidOrgs o)
    (needs : o.enabled ≡ true → users_enabled ≡ true) where
  role_kept :
      not_owner (choice org_roles o.default_role (bytes "viewer")) (bytes "viewer") ≡ o.default_role
  role_kept =
      rw
        (
          choice_kept org_roles plain_roles o.default_role (bytes "viewer") v.role,
          text_ne o.default_role (bytes "owner") v.role_below_owner,
        )
        refl

  pub validate_orgs-kept : validate_orgs users_enabled o default_orgs ≡ o
  unfolding validate_orgs
  validate_orgs-kept =
      rw
        (
          needs_kept o.enabled users_enabled needs,
          choice_kept account_modes plain_modes o.creation_mode (bytes "open") v.mode,
          at_least_kept (pos 0) o.max_per_user (pos 0) v.quota,
          choice_kept profile_visibilities plain_visibilities o.default_visibility (bytes "public")
              v.visibility,
          role_kept,
        )
        refl

  pub orgs_quiet : orgs_warnings users_enabled o default_orgs ≡ []
  unfolding orgs_warnings
  orgs_quiet =
      rw
        (
          needs_quiet o.enabled users_enabled needs,
          contains_fold_of_text account_modes plain_modes o.creation_mode v.mode,
          at_least_quiet (pos 0) o.max_per_user v.quota,
          contains_fold_of_text profile_visibilities plain_visibilities o.default_visibility
              v.visibility,
          contains_fold_of_text org_roles plain_roles o.default_role v.role,
          choice_kept org_roles plain_roles o.default_role (bytes "viewer") v.role,
          text_ne o.default_role (bytes "owner") v.role_below_owner,
        )
        refl
