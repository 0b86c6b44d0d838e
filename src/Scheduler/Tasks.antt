-- ===== src/Scheduler/Tasks.antt =====
-- src/scheduler/scheduler.go, task.go and store.go: the tasks of one node, their rows, and a run.
-- Instants are counts of nanoseconds from Go's zero time on. What a handler answers and how long it
-- takes is given to a run; log lines and metrics are left out.
pub mod Laws
use redxt.Common.{
  ℕ, ◌+◌, ◌-◌, ◌/◌, Bool, true, false, ◌&&◌, not, List, [], ◌∷◌, ◌++◌, any, find, keep, map,
  update_where, Option, none, some, ltb, Text, bytes, ◌=ᵗ◌, if◌then◌else◌,
}
use redxt.Scheduler.Cron.{Schedule, Civil, next}
use redxt.Scheduler.Locks.{LockRow, acquire_lock, release_lock}

pub record Task : Type 0 where
  pub name : Text
  pub schedule : Text
  pub enabled : Bool
  pub cluster_aware : Bool
  pub retry_on_fail : Bool

-- `next` starts as Go's zero time.
pub record Entry : Type 0 where
  pub task : Task
  pub sched : Schedule
  pub next_at : ℕ
  pub running : Bool

pub record TaskRow : Type 0 where
  pub name : Text
  pub schedule : Text
  pub enabled : Bool
  pub last_run_at : Option ℕ
  pub next_run_at : Option ℕ

pub record HistoryRow : Type 0 where
  pub task_name : Text
  pub node_id : Text
  pub status : Text
  pub message : Text
  pub duration_ms : ℕ
  pub started_at : ℕ
  pub finished_at : ℕ

-- What the nodes of a cluster share.
pub record Tables : Type 0 where
  pub tasks : List TaskRow
  pub history : List HistoryRow
  pub locks : List LockRow

abbrev pub row_named : Text → TaskRow → Bool
row_named name r = r.name =ᵗ name

-- `INSERT … ON CONFLICT(name) DO NOTHING`
unfoldable pub seed_task : Text → Text → Bool → Tables → Tables
seed_task name schedule enabled t = if any (row_named name) t.tasks then t else record t {
  tasks =
      t.tasks
      ++ record {
        name = name;
        schedule = schedule;
        enabled = enabled;
        last_run_at = none;
        next_run_at = none;
      }
        ∷ [];
}

unfoldable pub load_task : Text → Tables → Option TaskRow
load_task name t = find (row_named name) t.tasks

unfoldable pub set_next_run : Text → ℕ → Tables → Tables
set_next_run name at t = record t {
  tasks = update_where (row_named name) (λ r. record r { next_run_at = some at }) t.tasks;
}

abbrev million : ℕ
million = 1000000

unfoldable pub record_run : Text → Text → Text → Text → ℕ → ℕ → Tables → Tables
record_run name node_id status message started finished t = record t {
  history =
      t.history
      ++ record {
        task_name = name;
        node_id = node_id;
        status = status;
        message = message;
        duration_ms = (finished - started) / million;
        started_at = started;
        finished_at = finished;
      }
        ∷ [];
  tasks = update_where (row_named name) (λ r. record r { last_run_at = some finished }) t.tasks;
}

-- A persisted time that is not older than the window is kept; otherwise the next one after now.
unfoldable pub resume_next : (ℕ → Civil) → Schedule → Option ℕ → ℕ → ℕ → Option ℕ
resume_next civil sched none window now = next civil sched now
resume_next civil sched (some persisted) window now =
    if ltb persisted (now - window) then next civil sched now else some persisted

-- A node: its entries, and the names of the tasks that it is running.
pub record Node : Type 0 where
  pub entries : List Entry
  pub in_flight : List Text

-- The condition of `tick`.
unfoldable pub is_due : ℕ → Entry → Bool
is_due now e = e.task.enabled && not e.running && not (ltb now e.next_at)

abbrev pub start : Entry → Entry
start e = record e { running = true }

abbrev pub entry_name : Entry → Text
entry_name e = e.task.name

unfoldable pub tick : ℕ → Node → Node
tick now n = record {
  entries = update_where (is_due now) start n.entries;
  in_flight = n.in_flight ++ map entry_name (keep (is_due now) n.entries);
}

-- Without the first occurrence.
unfoldable pub remove_one : Text → List Text → List Text
remove_one name [] = []
remove_one name (t ∷ ts) = let rest = remove_one name ts in if t =ᵗ name then ts else t ∷ rest

abbrev next_or : ℕ → Option ℕ → ℕ
next_or old none = old
next_or old (some at) = at

abbrev pub finish_entry : (ℕ → Civil) → ℕ → Entry → Entry
finish_entry civil started e = record e {
  running = false;
  next_at = next_or e.next_at (next civil e.sched started);
}

abbrev pub entry_named : Text → Entry → Bool
entry_named name e = e.task.name =ᵗ name

-- The deferred end of runEntry, on the entries: a schedule without a next run leaves the old one.
unfoldable pub finish : (ℕ → Civil) → Text → ℕ → Node → Node
finish civil name started n = record {
  entries = update_where (entry_named name) (finish_entry civil started) n.entries;
  in_flight = remove_one name n.in_flight;
}

-- What happens during a run: the errors of the handler's two calls (`none` is success), whether the
-- scheduler is stopped while it waits to retry, and what the clock shows as it begins and ends.
pub record Outcome : Type 0 where
  pub first_error : Option Text
  pub second_error : Option Text
  pub stopped : Bool
  pub started : ℕ
  pub finished : ℕ

abbrev recorded : Task → Text → ℕ → ℕ → Option Text → Tables → Tables
recorded task node_id started finished none t =
    record_run task.name node_id (bytes "ok") [] started finished t
recorded task node_id started finished (some e) t =
    record_run task.name node_id (bytes "failed") e started finished t

abbrev retried : Task → Text → ℕ → Outcome → Option Text → Tables → Tables
retried task node_id started o none t = recorded task node_id started o.finished none t
retried task node_id started o (some e) t =
    if not task.retry_on_fail
    then recorded task node_id started o.finished (some e) t
    else if o.stopped
    then t
    else recorded task node_id started o.finished o.second_error t

unfoldable pub execute : Task → Text → ℕ → Outcome → Tables → Tables
execute task node_id started o t = retried task node_id started o o.first_error t

unfoldable pub lock_name : Task → Text
lock_name task = bytes "scheduler:" ++ task.name

-- The run under the lock, if it was got.
abbrev pub exclusively : Task → Text → ℕ → Outcome → Tables → Bool × List LockRow → Tables
exclusively task node_id now o t (false, locks) = record t { locks = locks }
exclusively task node_id now o t (true, locks) =
    let ran = execute task node_id o.started o (record t { locks = locks }) in
    record ran { locks = release_lock (lock_name task) node_id ran.locks }

abbrev persist : Text → Option ℕ → Tables → Tables
persist name none t = t
persist name (some at) t = set_next_run name at t

-- How the driver writes an instant that a node binds, and how the database compares the texts.
module _ (written : Text → ℕ → Text) (before : Text → Text → Bool) where
  unfoldable pub occurrence : Task → Text → ℕ → Outcome → Tables → Tables
  occurrence task node_id now o t =
      if task.cluster_aware
      then exclusively task node_id now o t
          (acquire_lock written before (lock_name task) node_id now t.locks)
      else execute task node_id o.started o t

  -- runEntry, on the tables: the occurrence, and then the next time.
  unfoldable pub run_entry : (ℕ → Civil) → Text → Entry → ℕ → Outcome → Tables → Tables
  run_entry civil node_id e now o t =
      persist e.task.name (next civil e.sched now) (occurrence e.task node_id now o t)
