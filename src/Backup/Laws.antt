-- ===== src/Backup/Laws.antt =====
-- The size cap is met.
use mathlib.Core.List.{Perm, foldr}
use native.Mathlib.Nat.{ℕ_set}
use mathlib.Core.List.Perm
use redxt.Common.{
  ℕ, zero, suc, ◌+◌, ◌-◌, ◌%◌, ◌≤◌, ◌<◌, ◌≡◌, refl, sym, ◌∙◌, Bool, true, false, List, [], ◌∷◌,
  ◌++◌, take, drop, keep, arith, ℤ,
}
use redxt.Backup.{
  class_incremental, File, BackupRetention, is_daily, is_weekly, is_monthly, is_yearly, two_64,
  add_sizes, prune_oldest, tier_prune, size_cap_prune, max_backups_of, count_pass,
  select_for_deletion,
}

-- The sum of the sizes, without a bound.
abbrev pub total_size : List File → ℕ
total_size [] = 0
total_size (f ∷ fs) = f.size + total_size fs

abbrev pub is_full : File → Bool
is_full f = elim f.class [ class_incremental ↦ false | _ ↦ true ]

total-foldr : (fs : List File) → total_size fs ≡ foldr (λ (f : File). λ (n : ℕ). f.size + n) 0 fs
total-foldr [] = refl
total-foldr (f ∷ fs) = omega (arith, total-foldr fs)

total-append : (xs ys : List File) → total_size (xs ++ ys) ≡ total_size xs + total_size ys
total-append [] ys = omega arith
total-append (f ∷ xs) ys = omega (arith, total-append xs ys)

total-split :
    (n : ℕ) (xs : List File) → total_size (take n xs) + total_size (drop n xs) ≡ total_size xs
total-split zero xs = omega arith
total-split (suc n) [] = omega arith
total-split (suc n) (f ∷ xs) = omega (arith, total-split n xs)

total-tiers :
    (fs : List File)
    → total_size (keep is_yearly fs)
        + total_size (keep is_monthly fs)
        + total_size (keep is_weekly fs)
        + total_size (keep is_daily fs)
      ≡ total_size (keep is_full fs)
total-tiers [] = omega arith
total-tiers (f ∷ fs) = ground (arith, total-tiers fs)

total-keep-le : (p : File → Bool) (fs : List File) → total_size (keep p fs) ≤ total_size fs
total-keep-le p [] = omega arith
total-keep-le p (f ∷ fs) = ground (arith, total-keep-le p fs)

add_sizes-exact :
    (t : ℕ) (fs : List File) → t + total_size fs < two_64 → add_sizes t fs ≡ t + total_size fs
unfolding add_sizes
add_sizes-exact t [] h = omega arith
add_sizes-exact t (f ∷ fs) h =
    let small : (t + f.size) % two_64 ≡ t + f.size = omega arith in
    rw small (omega (arith, add_sizes-exact (t + f.size) fs (omega arith)))

prune_oldest-cap :
    (cap t : ℕ) (fs : List File)
    → total_size fs ≡ t
    → t < two_64
    → t ≤ cap + total_size (prune_oldest cap t fs)
unfolding prune_oldest
prune_oldest-cap cap t [] e h = omega arith
prune_oldest-cap cap t (f ∷ fs) e h =
    let left : (t + two_64 - f.size) % two_64 ≡ total_size fs = omega arith in
    let more = prune_oldest-cap cap (total_size fs) fs refl (omega arith) in
    rw left (ground (arith, more))

module _ (newest oldest : List File → List File)
    (newest-perm : (fs : List File) → Perm (newest fs) fs)
    (oldest-perm : (fs : List File) → Perm (oldest fs) fs) where
  total-Perm : (xs ys : List File) → Perm xs ys → total_size xs ≡ total_size ys
  total-Perm xs ys p =
      total-foldr xs
      ∙ Perm.foldr-eq ℕ_set (λ (f : File). λ (n : ℕ). f.size + n) (λ a b n. omega arith) p 0
      ∙ sym (total-foldr ys)

  total-tier :
      (tier : List File) (n : ℤ)
      → total_size (tier_prune newest oldest tier n).0
          + total_size (tier_prune newest oldest tier n).1
        ≡ total_size tier
  unfolding tier_prune
  total-tier tier n = total-split _ (newest tier) ∙ total-Perm (newest tier) tier (newest-perm tier)

  total-counted :
      (files : List File) (r : BackupRetention)
      → total_size (count_pass newest oldest files r).0
          + total_size (count_pass newest oldest files r).1
        ≡ total_size (keep is_full files)
  unfolding count_pass
  total-counted files r =
      let y = tier_prune newest oldest (keep is_yearly files) r.keep_yearly in
      let m = tier_prune newest oldest (keep is_monthly files) r.keep_monthly in
      let w = tier_prune newest oldest (keep is_weekly files) r.keep_weekly in
      let d = tier_prune newest oldest (keep is_daily files) (max_backups_of newest oldest r) in
      omega (
        arith,
        total-append y.0 (m.0 ++ (w.0 ++ d.0)),
        total-append m.0 (w.0 ++ d.0),
        total-append w.0 d.0,
        total-append y.1 (m.1 ++ (w.1 ++ d.1)),
        total-append m.1 (w.1 ++ d.1),
        total-append w.1 d.1,
        total-tier (keep is_yearly files) r.keep_yearly,
        total-tier (keep is_monthly files) r.keep_monthly,
        total-tier (keep is_weekly files) r.keep_weekly,
        total-tier (keep is_daily files) (max_backups_of newest oldest r),
        total-tiers files,
      )

  size_cap_prune-cap :
      (kept : List File) (cap : ℕ)
      → total_size kept < two_64
      → total_size kept ≤ cap + total_size (size_cap_prune newest oldest kept cap)
  unfolding size_cap_prune
  size_cap_prune-cap kept cap h =
      let exact = add_sizes-exact 0 kept (omega arith) in
      let same = total-Perm (oldest kept) kept (oldest-perm kept) in
      ground (
        arith,
        exact,
        prune_oldest-cap cap (add_sizes 0 kept) (oldest kept) (omega arith) (omega arith),
      )

  -- With the size cap enabled and positive, sizes whose sum fits in 64 bits, and a sort that
  -- permutes its list, the full backups that are not selected for deletion take at most the cap:
  -- the full ones together are at most the cap and what is selected.
  pub selection_meets_cap :
      (files : List File) (r : BackupRetention) (cap : ℕ)
      → 0 < cap
      → total_size files < two_64
      → total_size (keep is_full files)
        ≤ cap + total_size (select_for_deletion newest oldest files r cap true)
  unfolding select_for_deletion
  selection_meets_cap files r cap positive small =
      let counted = count_pass newest oldest files r in
      let whole = total-counted files r in
      let full = total-keep-le is_full files in
      ground (
        arith,
        positive,
        whole,
        total-append counted.1 (size_cap_prune newest oldest counted.0 cap),
        size_cap_prune-cap counted.0 cap (omega (arith, whole, full, small)),
      )
