-- ===== src/Scheduler/Locks.antt =====
-- src/scheduler/lock.go: the table cluster_locks, and the two statements on it. Instants are counts of
-- nanoseconds. acquireLock binds them as they are, so what the table holds is a text that the driver
-- writes of an instant, in the time zone of the node that binds it, and the database compares texts:
-- `written` and `before` stand for the two.
pub mod Leases
pub mod Rows
mod Steps
pub mod Held
pub mod Refinement
pub mod Exclusion
use redxt.Common.{
  ℕ, ◌+◌, ◌≡◌, Bool, true, false, ◌&&◌, ◌||◌, not, List, [], ◌∷◌, ◌++◌, Option, none, some, find,
  keep, update_where, ltb, Text, ◌=ᵗ◌, if◌then◌else◌,
}

-- `none` is an expiry that is NULL.
pub record LockRow : Type 0 where
  pub name : Text
  pub holder : Text
  pub acquired_at : Text
  pub expires_at : Option Text

abbrev pub lock_ttl : ℕ
lock_ttl = 300000000000

abbrev pub named : Text → LockRow → Bool
named name r = r.name =ᵗ name

-- The texts of the instants of a set compare as the instants do, whichever nodes wrote them. For
-- local times the set may be the time between two changes of the clocks of nodes in one zone.
abbrev pub KeepsOrder : (ℕ → Type 0) → (Text → ℕ → Text) → (Text → Text → Bool) → Type 0
KeepsOrder P written before =
    (a b : Text) (x y : ℕ) → P x → P y → before (written a x) (written b y) ≡ ltb x y

unfoldable pub release_lock : Text → Text → List LockRow → List LockRow
release_lock name holder rows = keep (λ r. not (named name r && r.holder =ᵗ holder)) rows

-- One call by some node, with what it answers: a release answers nothing of interest.
pub data LockCall : Type 0 where
  acquires : Text → Text → ℕ → LockCall
  releases : Text → Text → LockCall

-- What a call binds is of that set: the present and the end of the lease.
abbrev pub IsTimely : (ℕ → Type 0) → LockCall → Type 0
IsTimely P (acquires name holder now) = P now × P (now + lock_ttl)
IsTimely P (releases name holder) = Unit

module _ (written : Text → ℕ → Text) (before : Text → Text → Bool) where
  -- `expires_at IS NULL OR expires_at < acquired_at`
  abbrev pub lapsed : Option Text → Text → Bool
  lapsed none now = true
  lapsed (some e) now = before e now

  abbrev pub taken : Text → ℕ → LockRow → LockRow
  taken holder now r = record r {
    holder = holder;
    acquired_at = written holder now;
    expires_at = some (written holder (now + lock_ttl));
  }

  -- The update, if its WHERE clause lets it through.
  abbrev pub won : Text → Text → ℕ → List LockRow → Bool → Bool × List LockRow
  won name holder now rows true = (true, update_where (named name) (taken holder now) rows)
  won name holder now rows false = (false, rows)

  abbrev pub upsert : Text → Text → ℕ → List LockRow → Option LockRow → Bool × List LockRow
  upsert name holder now rows none = (
    true,
    rows
        ++ taken holder now (record {
          name = name;
          holder = holder;
          acquired_at = written holder now;
          expires_at = none;
        })
          ∷ [],
  )
  upsert name holder now rows (some r) =
      won name holder now rows (r.holder =ᵗ holder || lapsed r.expires_at (written holder now))

  -- INSERT … ON CONFLICT(name) DO UPDATE … WHERE …, and whether a row was affected.
  unfoldable pub acquire_lock : Text → Text → ℕ → List LockRow → Bool × List LockRow
  acquire_lock name holder now rows = upsert name holder now rows (find (named name) rows)

  unfoldable pub lock_step : LockCall → List LockRow → Bool × List LockRow
  lock_step (acquires name holder now) rows = acquire_lock name holder now rows
  lock_step (releases name holder) rows = (true, release_lock name holder rows)

  -- The answers to a sequence of calls, and the table that they leave.
  unfoldable pub lock_run : List LockCall → List LockRow → List Bool × List LockRow
  lock_run [] rows = ([], rows)
  lock_run (c ∷ cs) rows =
      let first = lock_step c rows in let rest = lock_run cs first.1 in (first.0 ∷ rest.0, rest.1)
