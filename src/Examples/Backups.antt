-- ===== src/Examples/Backups.antt =====
-- Three backups over a cap, with dates sorted by insertion.
use mathlib.Core.List.{Perm}
use mathlib.Core.List.Perm
use redxt.Common.{
  ◌+◌, ◌≤◌, Bool, true, false, List, [], ◌∷◌, pos, ltb_ℤ, bytes, keep, if◌then◌else◌, arith,
}
use redxt.Backup.{
  File, BackupRetention, class_daily, class_weekly, class_incremental, select_for_deletion,
}
use redxt.Backup.Laws.{total_size, is_full, selection_meets_cap}

module _ (before : File → File → Bool) where
  abbrev insert_file : File → List File → List File
  insert_file f [] = f ∷ []
  insert_file f (g ∷ gs) =
      let rest = insert_file f gs in if before g f then g ∷ rest else f ∷ g ∷ gs

  abbrev sort_files : List File → List File
  sort_files [] = []
  sort_files (f ∷ fs) = insert_file f (sort_files fs)

  insert_file-perm : (f : File) (fs : List File) → Perm (insert_file f fs) (f ∷ fs)
  insert_file-perm f [] = Perm.rfl
  insert_file-perm f (g ∷ gs) =
      placed (before g f) (Perm.trans (Perm.cons g (insert_file-perm f gs)) (Perm.swap f g gs))
    where
      placed :
          (b : Bool)
          → Perm (g ∷ insert_file f gs) (f ∷ g ∷ gs)
          → Perm (if b then g ∷ insert_file f gs else f ∷ g ∷ gs) (f ∷ g ∷ gs)
      placed true p = p
      placed false p = Perm.rfl

  sort_files-perm : (fs : List File) → Perm (sort_files fs) fs
  sort_files-perm [] = Perm.rfl
  sort_files-perm (f ∷ fs) =
      Perm.trans (insert_file-perm f (sort_files fs)) (Perm.cons f (sort_files-perm fs))

abbrev later : File → File → Bool
later f g = ltb_ℤ g.date f.date

abbrev earlier : File → File → Bool
earlier f g = ltb_ℤ f.date g.date

abbrev monday : File
monday = record { name = bytes "mo"; path = []; date = pos 1; size = 40; class = class_daily }

abbrev files : List File
files =
    monday
    ∷ record monday { name = bytes "tu"; date = pos 2 }
    ∷ record monday { name = bytes "su"; date = pos 0; class = class_weekly }
    ∷ record monday { name = bytes "hourly"; class = class_incremental }
    ∷ []

abbrev retention : BackupRetention
retention = record {
  max_backups = pos 2;
  keep_weekly = pos 1;
  keep_monthly = pos 0;
  keep_yearly = pos 0;
}

selection_meets_cap_example :
    total_size (keep is_full files)
    ≤ 50
      + total_size
          (select_for_deletion (sort_files later) (sort_files earlier) files retention 50 true)
selection_meets_cap_example =
    selection_meets_cap (sort_files later) (sort_files earlier) (sort_files-perm later)
      (sort_files-perm earlier) files retention 50 (omega arith) (omega arith)
