-- ===== src/Scheduler/Locks/Leases.antt =====
-- What the cluster locks promise: every name has at most one lease, a node gets it when it is free,
-- its own or over, and gives back only its own. `S` is how instants are noted and compared: the
-- specification proper notes the instants themselves.
use redxt.Common.{
  ℕ, ◌+◌, Bool, true, false, ◌||◌, List, [], ◌∷◌, Option, none, some, Text, ◌=ᵗ◌, if◌then◌else◌,
}
use redxt.Scheduler.Locks.{LockCall, acquires, releases, lock_ttl}

pub record Lease (S : Type 0) : Type 0 where
  pub holder : Text
  pub expires_at : Option S

abbrev pub Leases : Type 0 → Type 0
Leases S = Text → Option (Lease S)

-- The lease of one name is replaced.
abbrev pub put : {S : Type 0} → Text → Option (Lease S) → Leases S → Leases S
put name l leases n = if name =ᵗ n then l else leases n

abbrev pub held_by : {S : Type 0} → Text → Option (Lease S) → Bool
held_by holder none = false
held_by holder (some l) = l.holder =ᵗ holder

-- An instant noted as itself.
abbrev pub itself : Text → ℕ → ℕ
itself holder t = t

module _ {S : Type 0} (written : Text → ℕ → S) (before : S → S → Bool) where
  abbrev pub is_over : Option S → S → Bool
  is_over none now = true
  is_over (some e) now = before e now

  abbrev pub obtainable : Text → ℕ → Option (Lease S) → Bool
  obtainable holder now none = true
  obtainable holder now (some l) = l.holder =ᵗ holder || is_over l.expires_at (written holder now)

  abbrev pub granted : Text → Text → ℕ → Leases S → Bool → Bool × Leases S
  granted name holder now leases true = (
    true,
    put name
        (some (record { holder = holder; expires_at = some (written holder (now + lock_ttl)) }))
        leases,
  )
  granted name holder now leases false = (false, leases)

  unfoldable pub lease_step : LockCall → Leases S → Bool × Leases S
  lease_step (acquires name holder now) leases =
      granted name holder now leases (obtainable holder now (leases name))
  lease_step (releases name holder) leases =
      (true, if held_by holder (leases name) then put name none leases else leases)

  unfoldable pub lease_run : List LockCall → Leases S → List Bool × Leases S
  lease_run [] leases = ([], leases)
  lease_run (c ∷ cs) leases =
      let first = lease_step c leases in
      let rest = lease_run cs first.1 in (first.0 ∷ rest.0, rest.1)
