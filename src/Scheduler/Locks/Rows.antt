-- ===== src/Scheduler/Locks/Rows.antt =====
-- The leases that the table of locks notes, and what is found in the table after a statement.
use redxt.Common.{
  differ, ℕ, ◌≡◌, ◌≢◌, refl, sym, ◌∙◌, ap, Bool, true, false, ◌&&◌, not, List, [], ◌∷◌, ◌++◌, any,
  find, keep, update_where, Option, none, some, Text, ◌=ᵗ◌, text_eq_iff, text_ne, if◌then◌else◌,
  arith,
}
use mathlib.Core.Option
use redxt.Scheduler.Locks.{LockRow, named, taken, release_lock}
use redxt.Scheduler.Locks.Leases.{Lease, Leases, held_by}

-- The lease that a row stands for, and the leases of a table.
abbrev pub lease_of : Option LockRow → Option (Lease Text)
lease_of none = none
lease_of (some r) = some (record { holder = r.holder; expires_at = r.expires_at })

abbrev pub view : List LockRow → Leases Text
view rows n = lease_of (find (named n) rows)

-- The answers with the leases of the table.
abbrev pub viewed : {A : Type 0} → A × List LockRow → A × Leases Text
viewed (a, rows) = (a, view rows)

abbrev pub same_name : LockRow → LockRow → Bool
same_name r s = named r.name s

-- The primary key: no name occurs twice.
abbrev pub names_differ : List LockRow → Bool
names_differ = differ same_name

module _ (written : Text → ℕ → Text) (before : Text → Text → Bool) where
  module _ (name : Text) where
    pub find-update_same :
        (holder : Text) (now : ℕ) (rows : List LockRow)
        → find (named name) (update_where (named name) (taken written before holder now) rows)
          ≡ Option.map (taken written before holder now) (find (named name) rows)
    find-update_same holder now [] = refl
    find-update_same holder now (r ∷ rows) = ground (arith, find-update_same holder now rows)

    named_other : (n : Text) (r : LockRow) → name ≢ n → named name r ≡ true → named n r ≡ false
    named_other n r ne e =
        text_ne r.name n (λ same. ne (sym ((text_eq_iff r.name name).0 e) ∙ same))

    pub find-update_other :
        (n holder : Text) (now : ℕ) (rows : List LockRow)
        → name ≢ n
        → find (named n) (update_where (named name) (taken written before holder now) rows)
          ≡ find (named n) rows
    find-update_other n holder now [] ne = refl
    find-update_other n holder now (r ∷ rows) ne =
        ground (arith, named_other n r ne, find-update_other n holder now rows ne)

    pub find-append_other :
        (n : Text) (r : LockRow) (rows : List LockRow)
        → (named n r) ≡ false
        → find (named n) (rows ++ r ∷ []) ≡ find (named n) rows
    find-append_other n r [] h = ground arith
    find-append_other n r (s ∷ rows) h = ground (arith, find-append_other n r rows)

    find-keep_missing :
        (q : LockRow → Bool) (rows : List LockRow)
        → any (named name) rows ≡ false
        → find (named name) (keep q rows) ≡ none
    find-keep_missing q [] h = refl
    find-keep_missing q (r ∷ rows) h = ground (arith, find-keep_missing q rows)

    any-named :
        (r : LockRow) (rows : List LockRow)
        → named name r ≡ true
        → any (named r.name) rows ≡ any (named name) rows
    any-named r rows e = ap (λ n. any (named n) rows) ((text_eq_iff r.name name).0 e)

    pub find-keep_same :
        (holder : Text) (rows : List LockRow)
        → names_differ rows ≡ true
        → find (named name) (release_lock name holder rows) ≡ (
            if held_by holder (lease_of (find (named name) rows))
            then none
            else find (named name) rows)
    unfolding release_lock
    find-keep_same holder [] u = refl
    find-keep_same holder (r ∷ rows) u = ground (
      arith,
      find-keep_missing (λ x. not (named name x && x.holder =ᵗ holder)) rows,
      any-named r rows,
      find-keep_same holder rows,
    )

    pub find-keep_other :
        (n holder : Text) (rows : List LockRow)
        → name ≢ n
        → find (named n) (release_lock name holder rows) ≡ find (named n) rows
    unfolding release_lock
    find-keep_other n holder [] ne = refl
    find-keep_other n holder (r ∷ rows) ne =
        ground (arith, named_other n r ne, find-keep_other n holder rows ne)
