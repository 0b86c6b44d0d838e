-- ===== src/Backup.antt =====
-- src/backup/retention.go and filename.go: which backups are deleted. Sizes are added modulo 2 ^ 64 as
-- uint64 does. sort.Slice, which does not say how it orders equal dates, is a parameter: `newest` puts
-- later dates first, `oldest` earlier ones.
pub mod Laws
use redxt.Common.{
  ℕ, ◌+◌, ◌-◌, ◌%◌, Bool, true, false, List, [], ◌∷◌, ◌++◌, take, drop, keep, leb, ltb, Text, ℤ,
  pos, negsuc, leb_ℤ, if◌then◌else◌, ◌&&◌,
}

-- class
pub data Class : Type 0 where
  class_daily class_weekly class_monthly class_yearly class_incremental : Class

pub record File : Type 0 where
  pub name : Text
  pub path : Text
  pub date : ℤ
  pub size : ℕ
  pub class : Class

pub record BackupRetention : Type 0 where
  pub max_backups : ℤ
  pub keep_weekly : ℤ
  pub keep_monthly : ℤ
  pub keep_yearly : ℤ

abbrev pub is_daily : File → Bool
is_daily f = elim f.class [ class_daily ↦ true | _ ↦ false ]

abbrev pub is_weekly : File → Bool
is_weekly f = elim f.class [ class_weekly ↦ true | _ ↦ false ]

abbrev pub is_monthly : File → Bool
is_monthly f = elim f.class [ class_monthly ↦ true | _ ↦ false ]

abbrev pub is_yearly : File → Bool
is_yearly f = elim f.class [ class_yearly ↦ true | _ ↦ false ]

-- `keepN`, with 0 for a negative one.
abbrev at_least_zero : ℤ → ℕ
at_least_zero (pos n) = n
at_least_zero (negsuc n) = 0

abbrev pub two_64 : ℕ
two_64 = 18446744073709551616

-- The sum of the sizes in uint64.
unfoldable pub add_sizes : ℕ → List File → ℕ
add_sizes total [] = total
add_sizes total (f ∷ fs) = add_sizes ((total + f.size) % two_64) fs

-- The loop of sizeCapPrune.
unfoldable pub prune_oldest : ℕ → ℕ → List File → List File
prune_oldest cap total [] = []
prune_oldest cap total (f ∷ fs) =
    let rest = prune_oldest cap ((total + two_64 - f.size) % two_64) fs in
    if leb total cap then [] else f ∷ rest

module _ (newest oldest : List File → List File) where
  -- The kept files, and the deleted ones.
  unfoldable pub tier_prune : List File → ℤ → List File × List File
  tier_prune tier keep_n =
      let n = at_least_zero keep_n in (take n (newest tier), drop n (newest tier))

  unfoldable pub size_cap_prune : List File → ℕ → List File
  size_cap_prune kept cap =
      let total = add_sizes 0 kept in
      if leb total cap then [] else prune_oldest cap total (oldest kept)

  abbrev pub max_backups_of : BackupRetention → ℤ
  max_backups_of r = if leb_ℤ r.max_backups (pos 0) then pos 1 else r.max_backups

  -- The four tiers by count, in the order of the source.
  unfoldable pub count_pass : List File → BackupRetention → List File × List File
  count_pass files r =
      let yearly = tier_prune (keep is_yearly files) r.keep_yearly in
      let monthly = tier_prune (keep is_monthly files) r.keep_monthly in
      let weekly = tier_prune (keep is_weekly files) r.keep_weekly in
      let daily = tier_prune (keep is_daily files) (max_backups_of r) in
      (
        yearly.0 ++ (monthly.0 ++ (weekly.0 ++ daily.0)),
        yearly.1 ++ (monthly.1 ++ (weekly.1 ++ daily.1)),
      )

  unfoldable pub select_for_deletion : List File → BackupRetention → ℕ → Bool → List File
  select_for_deletion files r cap cap_enabled =
      let counted = count_pass files r in
      if cap_enabled && ltb 0 cap then counted.1 ++ size_cap_prune counted.0 cap else counted.1
