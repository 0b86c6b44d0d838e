-- ===== src/Scheduler/Locks/Exclusion.antt =====
-- A cluster lock excludes the other nodes until it lapses or is given back.
use redxt.Common.{
  ℕ, ◌+◌, ◌≤◌, ◌≡◌, ◌≢◌, refl, sym, ◌∙◌, ap, Bool, true, false, List, [], ◌∷◌, none, All, Text,
  text_refl, if◌then◌else◌, arith,
}
use redxt.Scheduler.Locks.{
  LockRow, LockCall, acquires, releases, KeepsOrder, IsTimely, lock_ttl, acquire_lock, release_lock,
  lock_step, lock_run,
}
use redxt.Scheduler.Locks.Leases.{Leases, put, obtainable, held_by, granted, lease_step}
use redxt.Scheduler.Locks.Rows.{view, names_differ}
use redxt.Scheduler.Locks.Held.{IsHarmless, IsHeld, not_obtainable, run-IsHeld}
use redxt.Scheduler.Locks.Steps.{step-differ, lock_step-view, lock_run-view}

module _ (P : ℕ → Type 0) (written : Text → ℕ → Text) (before : Text → Text → Bool) where
  -- A lease that was just obtained.
  obtained :
      (name a : Text) (t : ℕ) (leases : Leases Text)
      → P (t + lock_ttl)
      → (lease_step written before (acquires name a t) leases).0 ≡ true
      → IsHeld P written before name a
          (t + lock_ttl)
          ((lease_step written before (acquires name a t) leases).1 name)
  unfolding lease_step
  obtained name a t leases p h = granted_held (obtainable written before a t (leases name)) h
    where
      granted_held :
          (b : Bool)
          → (granted written before name a t leases b).0 ≡ true
          → IsHeld P written before name a
              (t + lock_ttl)
              ((granted written before name a t leases b).1 name)
      granted_held true g = (t + lock_ttl, p, a, rw (text_refl name) refl, omega arith)
      granted_held false g = cc

  refused :
      KeepsOrder P written before
      → (name a b : Text) (e now : ℕ) (leases : Leases Text) → b ≢ a
      → P now
      → now ≤ e
      → IsHeld P written before name a e (leases name)
      → (lease_step written before (acquires name b now) leases).0 ≡ false
  unfolding lease_step
  refused order name a b e now leases ne q early held =
      rw (not_obtainable P written before name a e order b now (leases name) ne q early held) refl

  moved :
      (name a : Text) (e : ℕ) {l l' : Leases Text}
      → l ≡ l'
      → IsHeld P written before name a e (l' name)
      → IsHeld P written before name a e (l name)
  moved name a e same held = rw same held

  run-differ :
      (cs : List LockCall) (rows : List LockRow)
      → names_differ rows ≡ true
      → names_differ (lock_run written before cs rows).1 ≡ true
  unfolding lock_run
  run-differ [] rows u = u
  run-differ (c ∷ cs) rows u = run-differ cs _ (step-differ written before c rows u)

  -- After a node has acquired a cluster lock, another node's attempt no later than five minutes
  -- after that is refused, whatever calls come in between on other names, acquisitions by the
  -- holder that last as long, attempts by other nodes within that time and releases by other
  -- nodes; names in the table differ, and the end of the lease, the time of the attempt and the
  -- times and ends that the calls in between bind belong to a set of instants whose texts, as the
  -- driver writes them for the nodes, compare in the database as the instants do.
  pub lease_excludes :
      KeepsOrder P written before
      → (name a b : Text) (t now : ℕ) (rows : List LockRow) (cs : List LockCall)
      → names_differ rows ≡ true
      → P (t + lock_ttl)
      → P now
      → All (IsTimely P) cs
      → (acquire_lock written before name a t rows).0 ≡ true
      → All (IsHarmless name a (t + lock_ttl)) cs
      → b ≢ a
      → now ≤ t + lock_ttl
      → (acquire_lock written before name b now
          (lock_run written before cs (acquire_lock written before name a t rows).1).1).0
        ≡ false
  unfolding lock_step
  lease_excludes order name a b t now rows cs u q p timely won harmless ne early =
      let u1 = step-differ written before (acquires name a t) rows u in
      let at_first = lock_step-view written before (acquires name a t) rows u in
      let at_last = lock_step-view written before (acquires name b now) _ (run-differ cs _ u1) in
      let held = moved name a _ (ap (λ (r : Bool × Leases Text). r.1) at_first) (
        obtained name a t (view rows) q
          (sym (ap (λ (r : Bool × Leases Text). r.0) at_first) ∙ won)) in
      let later =
        moved name a _
          (ap (λ (r : List Bool × Leases Text). r.1) (lock_run-view written before cs _ u1))
          (run-IsHeld P written before name a _ order cs _ timely harmless held) in
      ap (λ (r : Bool × Leases Text). r.0) at_last ∙ refused order name a b _ now _ ne p early later

  given_back :
      (name a : Text) (e : ℕ) (leases : Leases Text)
      → IsHeld P written before name a e (leases name)
      → (lease_step written before (releases name a) leases).1 name ≡ none
  unfolding lease_step
  given_back name a e leases (x, p, by, found, lasts) =
      gone (held_by a (leases name)) (ap (held_by a) found ∙ text_refl a)
    where
      gone : (b : Bool) → b ≡ true → (if b then put name none leases else leases) name ≡ none
      gone true h = rw (text_refl name) refl
      gone false h = cc

  free_obtained :
      (name b : Text) (now : ℕ) (leases : Leases Text)
      → leases name ≡ none
      → (lease_step written before (acquires name b now) leases).0 ≡ true
  unfolding lease_step
  free_obtained name b now leases free = rw free refl

abbrev Anytime : ℕ → Type 0
Anytime t = Unit

module _ (written : Text → ℕ → Text) (before : Text → Text → Bool) where
  -- A cluster lock that its holder has acquired and released is won by the next node that asks,
  -- at any time and however the texts of instants are written and compared; names in the table
  -- differ.
  pub released_is_free :
      (name a b : Text) (t now : ℕ) (rows : List LockRow)
      → names_differ rows ≡ true
      → (acquire_lock written before name a t rows).0 ≡ true
      → (acquire_lock written before name b now
          (release_lock name a (acquire_lock written before name a t rows).1)).0
        ≡ true
  unfolding lock_step
  released_is_free name a b t now rows u won =
      let u1 = step-differ written before (acquires name a t) rows u in
      let at_first = lock_step-view written before (acquires name a t) rows u in
      let at_release = lock_step-view written before (releases name a) _ u1 in
      let at_last =
        lock_step-view written before (acquires name b now) _
          (step-differ written before (releases name a) _ u1) in
      let held =
        moved Anytime written before name a _ (ap (λ (r : Bool × Leases Text). r.1) at_first) (
          obtained Anytime written before name a t (view rows) tt
            (sym (ap (λ (r : Bool × Leases Text). r.0) at_first) ∙ won)) in
      let freed =
        ap (λ (r : Bool × Leases Text). r.1 name) at_release
        ∙ given_back Anytime written before name a _ _ held in
      ap (λ (r : Bool × Leases Text). r.0) at_last
      ∙ free_obtained Anytime written before name b now _ freed
