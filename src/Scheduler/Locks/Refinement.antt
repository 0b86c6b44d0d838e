-- ===== src/Scheduler/Locks/Refinement.antt =====
-- The table of locks implements the leases, where texts of instants compare as the instants do.
use redxt.Common.{
  All, ℕ, ◌+◌, ◌≡◌, refl, ◌∙◌, ap, Bool, true, false, ◌||◌, List, [], ◌∷◌, Option, none, some, Text,
  ◌=ᵗ◌, ltb, if◌then◌else◌,
}
use redxt.Scheduler.Locks.{
  LockRow, LockCall, acquires, releases, lock_ttl, lock_run, KeepsOrder, IsTimely,
}
use redxt.Scheduler.Locks.Leases.{
  Lease, Leases, put, itself, is_over, obtainable, held_by, granted, lease_step, lease_run,
}
use redxt.Scheduler.Locks.Rows.{view, viewed, names_differ}
use redxt.Scheduler.Locks.Steps.{lock_run-view}

module _ (P : ℕ → Type 0) (written : Text → ℕ → Text) (before : Text → Text → Bool) where
  -- A lease as it is noted, and as it is: a text for the end stands for the instant that some node
  -- wrote as that text, one of the set.
  abbrev pub EndShown : Option Text → Option ℕ → Type 0
  EndShown none none = Unit
  EndShown none (some x) = ⊥
  EndShown (some e) none = ⊥
  EndShown (some e) (some x) = P x × (a : Text) × (e ≡ written a x)

  abbrev pub LeaseShown : Option (Lease Text) → Option (Lease ℕ) → Type 0
  LeaseShown none none = Unit
  LeaseShown none (some m) = ⊥
  LeaseShown (some l) none = ⊥
  LeaseShown (some l) (some m) = (l.holder ≡ m.holder) × EndShown l.expires_at m.expires_at

  -- A table that shows the leases.
  abbrev pub Shows : List LockRow → Leases ℕ → Type 0
  Shows rows leases = (n : Text) → LeaseShown (view rows n) (leases n)

  abbrev AreShown : Leases Text → Leases ℕ → Type 0
  AreShown noted leases = (n : Text) → LeaseShown (noted n) (leases n)

  put-AreShown :
      (name : Text) (l : Option (Lease Text)) (m : Option (Lease ℕ)) (noted : Leases Text)
      (leases : Leases ℕ)
      → LeaseShown l m
      → AreShown noted leases
      → AreShown (put name l noted) (put name m leases)
  put-AreShown name l m noted leases new old n = chosen (name =ᵗ n)
    where
      chosen : (b : Bool) → LeaseShown (if b then l else noted n) (if b then m else leases n)
      chosen true = new
      chosen false = old n

  held_by-shown :
      (holder : Text) (l : Option (Lease Text)) (m : Option (Lease ℕ))
      → LeaseShown l m
      → held_by holder l ≡ held_by holder m
  held_by-shown holder none none h = refl
  held_by-shown holder none (some m) h = absurd h
  held_by-shown holder (some l) none h = absurd h
  held_by-shown holder (some l) (some m) h = ap (λ x. x =ᵗ holder) h.0

  module _ (order : KeepsOrder P written before) where
    over-shown :
        (holder : Text) (now : ℕ) (own : Bool) (e : Option Text) (x : Option ℕ)
        → P now
        → EndShown e x
        → (own || is_over written before e (written holder now)) ≡ (own || is_over itself ltb x now)
    over-shown holder now own none none p h = refl
    over-shown holder now own none (some x) p h = absurd h
    over-shown holder now own (some e) none p h = absurd h
    over-shown holder now own (some e) (some x) p (q, a, same) =
        ap (λ b. own || b) (ap (λ t. before t (written holder now)) same ∙ order a holder x now q p)

    obtainable-shown :
        (holder : Text) (now : ℕ) (l : Option (Lease Text)) (m : Option (Lease ℕ))
        → P now
        → LeaseShown l m
        → obtainable written before holder now l ≡ obtainable itself ltb holder now m
    obtainable-shown holder now none none p h = refl
    obtainable-shown holder now none (some m) p h = absurd h
    obtainable-shown holder now (some l) none p h = absurd h
    obtainable-shown holder now (some l) (some m) p (same, e) =
        over-shown holder now (l.holder =ᵗ holder) l.expires_at m.expires_at p e
        ∙ ap (λ x. x =ᵗ holder || is_over itself ltb m.expires_at now) same

    -- The same answers, and leases that are shown again.
    abbrev Alike : {A : Type 0} → A × Leases Text → A × Leases ℕ → Type 0
    Alike r s = (r.0 ≡ s.0) × AreShown r.1 s.1

    granted-Alike :
        (name holder : Text) (now : ℕ) (noted : Leases Text) (leases : Leases ℕ) (b c : Bool)
        → P (now + lock_ttl)
        → b ≡ c
        → AreShown noted leases
        → Alike
            (granted written before name holder now noted b)
            (granted itself ltb name holder now leases c)
    granted-Alike name holder now noted leases true true p e old =
        (refl, put-AreShown name _ _ noted leases (refl, (p, holder, refl)) old)
    granted-Alike name holder now noted leases false false p e old = (refl, old)
    granted-Alike name holder now noted leases true false p e old = absurd (cc e)
    granted-Alike name holder now noted leases false true p e old = absurd (cc e)

    given-AreShown :
        (name : Text) (noted : Leases Text) (leases : Leases ℕ) (b c : Bool)
        → b ≡ c
        → AreShown noted leases
        → AreShown
            (if b then put name none noted else noted)
            (if c then put name none leases else leases)
    given-AreShown name noted leases true true e old =
        put-AreShown name none none noted leases tt old
    given-AreShown name noted leases false false e old = old
    given-AreShown name noted leases true false e old = absurd (cc e)
    given-AreShown name noted leases false true e old = absurd (cc e)

    step-Alike :
        (c : LockCall) (noted : Leases Text) (leases : Leases ℕ)
        → IsTimely P c
        → AreShown noted leases
        → Alike (lease_step written before c noted) (lease_step itself ltb c leases)
    unfolding lease_step
    step-Alike (acquires name holder now) noted leases (p, q) old =
        granted-Alike name holder now noted leases _ _ q
          (obtainable-shown holder now (noted name) (leases name) p (old name)) old
    step-Alike (releases name holder) noted leases p old = (
      refl,
      given-AreShown name noted leases _ _
          (held_by-shown holder (noted name) (leases name) (old name)) old,
    )

    run-Alike :
        (cs : List LockCall) (noted : Leases Text) (leases : Leases ℕ)
        → All (IsTimely P) cs
        → AreShown noted leases
        → Alike (lease_run written before cs noted) (lease_run itself ltb cs leases)
    unfolding lease_run
    run-Alike [] noted leases p old = (refl, old)
    run-Alike (c ∷ cs) noted leases p old =
        let first = step-Alike c noted leases p.0 old in
        let rest = run-Alike cs _ _ p.1 first.1 in ((λ i. first.0 i ∷ rest.0 i), rest.1)

    -- On a table in which no name occurs twice and which shows given leases, every sequence of
    -- lock statements gives the answers that the specification gives for the instants themselves,
    -- and leaves a table that shows the leases that it leaves: one lease for a name, obtained
    -- when it is free, one's own or over, and given back by its holder only. The instants that
    -- are bound, and the ends that the table shows, belong to a set whose texts, as the driver
    -- writes them for the nodes, compare in the database as the instants do.
    pub run-refines :
        (cs : List LockCall) (rows : List LockRow) (leases : Leases ℕ)
        → All (IsTimely P) cs
        → names_differ rows ≡ true
        → Shows rows leases
        → ((lock_run written before cs rows).0 ≡ (lease_run itself ltb cs leases).0)
          × Shows (lock_run written before cs rows).1 (lease_run itself ltb cs leases).1
    run-refines cs rows leases p u old =
        let noted = lock_run-view written before cs rows u in
        let same = run-Alike cs (view rows) leases p old in
        (ap (λ (r : List Bool × Leases Text). r.0) noted ∙ same.0, moved _ _ noted same.1)
      where
        moved :
            (r : List Bool × Leases Text) (ms : Leases ℕ)
            → ◌≡◌ {A = List Bool × Leases Text} (viewed (lock_run written before cs rows)) r
            → AreShown r.1 ms
            → Shows (lock_run written before cs rows).1 ms
        moved r ms e shown n = rw (ap (λ (r : List Bool × Leases Text). r.1 n) e) (shown n)
