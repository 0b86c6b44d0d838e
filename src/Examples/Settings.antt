-- ===== src/Examples/Settings.antt =====
-- A configuration with invalid settings, and the defaults.
use redxt.Common.{
  pos, negsuc, ◌≡◌, refl, Bool, true, false, [], Text, bytes, ◌=ᵗ◌, trim_space, trim_left, to_lower,
  has_prefix, ◌++◌, ◌∷◌, arith,
}
use redxt.Config.Checks.{contains_fold, contains_text, fold_text, choice}
use redxt.Config.Accounts.{account_modes, Users, Orgs, CustomDomains, validate_orgs, orgs_warnings}
use redxt.Config.Accounts.Valid.{IsAsciiUsers, IsAsciiOrgs, IsAsciiDomains, IsConsistent}
use redxt.Config.Accounts.Laws.{
  checked_users, checked_orgs, checked_domains, checked_accounts_agree,
}
use redxt.Config.Accounts.Kept.{accounts_warnings, consistent_accounts_are_kept}
use redxt.RateLimit.Policy.{RateLimitConfig, Request, classify}
use redxt.Config.Limits.{validate_rate_limit, default_rate_limit}
use redxt.Config.Limits.Laws.{IsOwn, checked_budget_is_configured}
use redxt.Config.Defaults.{default_users, default_orgs, default_custom_domains}

abbrev compiles_all : Text → Bool
compiles_all pattern = true

abbrev bad_users : Users
bad_users = record default_users { enabled = false }

abbrev bad_orgs : Orgs
bad_orgs = record default_orgs { default_role = bytes " Owner"; max_per_user = negsuc 0 }

abbrev bad_domains : CustomDomains
bad_domains = record default_custom_domains { enabled = true; ssl_renewal_days = pos 0 }

owner_is_replaced : (checked_orgs compiles_all bad_users bad_orgs).default_role ≡ bytes "viewer"
unfolding validate_orgs choice contains_fold fold_text has_prefix trim_space trim_left to_lower ◌=ᵗ◌
owner_is_replaced = refl

ascii_users : IsAsciiUsers bad_users
ascii_users = record { mode = ground arith; allowed = tt; refused = tt; visibility = ground arith }

ascii_orgs : IsAsciiOrgs bad_orgs
ascii_orgs = record { mode = ground arith; visibility = ground arith; role = ground arith }

ascii_domains : IsAsciiDomains bad_domains
ascii_domains = record { reserved = ground arith; patterns = ground arith }

checked_accounts_agree_example :
    IsConsistent compiles_all
      (checked_users compiles_all bad_users)
      (checked_orgs compiles_all bad_users bad_orgs)
      (checked_domains compiles_all bad_users bad_orgs bad_domains)
checked_accounts_agree_example =
    checked_accounts_agree compiles_all bad_users bad_orgs bad_domains ascii_users ascii_orgs
      ascii_domains

consistent_accounts_are_kept_example :
    let u = checked_users compiles_all bad_users in
    let o = checked_orgs compiles_all bad_users bad_orgs in
    let c = checked_domains compiles_all bad_users bad_orgs bad_domains in
    (checked_users compiles_all u ≡ u)
    × (checked_orgs compiles_all u o ≡ o)
    × (checked_domains compiles_all u o c ≡ c)
    × (accounts_warnings compiles_all u o c ≡ [])
consistent_accounts_are_kept_example =
    consistent_accounts_are_kept compiles_all (checked_users compiles_all bad_users)
      (checked_orgs compiles_all bad_users bad_orgs)
      (checked_domains compiles_all bad_users bad_orgs bad_domains) checked_accounts_agree_example

-- A mode with a long s is taken for `disabled`, and is kept as it is written.
abbrev long_s_mode : Text
long_s_mode = bytes "di" ++ 197 ∷ 191 ∷ bytes "abled"

long_s_is_kept :
    (contains_fold account_modes long_s_mode ≡ true)
    × (choice account_modes long_s_mode (bytes "invite") ≡ long_s_mode)
    × (contains_text account_modes long_s_mode ≡ false)
unfolding choice contains_fold contains_text fold_text has_prefix trim_space trim_left to_lower ◌=ᵗ◌
long_s_is_kept = (refl, refl, refl)

-- A role in other letters is changed with no warning.
abbrev shouted_orgs : Orgs
shouted_orgs = record default_orgs { default_role = bytes "VIEWER" }

changed_in_silence :
    (orgs_warnings true shouted_orgs default_orgs ≡ [])
    × ((validate_orgs true shouted_orgs default_orgs).default_role ≡ bytes "viewer")
unfolding orgs_warnings validate_orgs choice contains_fold fold_text has_prefix trim_space trim_left
    to_lower ◌=ᵗ◌
changed_in_silence = (refl, refl)

-- No budget is set, which the checks correct.
abbrev bad_limits : RateLimitConfig
bad_limits = record default_rate_limit { read = record { requests = pos 0; window = negsuc 4 } }

abbrev front_page : Request
front_page = record { path = bytes "/"; method = bytes "GET" }

abbrev no_glob : Text → Text → Bool
no_glob pattern path = false

checked_budget_is_configured_example :
    IsOwn
      (validate_rate_limit bad_limits default_rate_limit)
      (classify no_glob (validate_rate_limit bad_limits default_rate_limit) [] [] front_page).budget
checked_budget_is_configured_example =
    checked_budget_is_configured no_glob bad_limits [] [] front_page
