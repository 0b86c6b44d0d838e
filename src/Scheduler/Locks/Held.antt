-- ===== src/Scheduler/Locks/Held.antt =====
-- While a lease lasts, the calls of other nodes leave it as it is.
use redxt.Common.{
  ℕ, ◌+◌, ◌≤◌, ◌≡◌, ◌≢◌, refl, sym, ◌∙◌, ap, Bool, true, false, List, [], ◌∷◌, Option, none, some,
  All, Text, ◌=ᵗ◌, text_eq_iff, text_ne, if◌then◌else◌, arith, ◌⊎◌, inl, inr,
}
use redxt.Scheduler.Locks.{LockCall, acquires, releases, KeepsOrder, IsTimely, lock_ttl}
use redxt.Scheduler.Locks.Leases.{
  Lease, Leases, put, obtainable, held_by, granted, lease_step, lease_run,
}

-- A call that does not end a lease of `a` on `name` that lasts until `e`: one on another name, an
-- acquisition by `a` that lasts as long, one by another node by that time, a release by another node.
abbrev pub IsHarmless : Text → Text → ℕ → LockCall → Type 0
IsHarmless name a e (acquires n h now) =
    (n ≢ name) ⊎ (((h ≡ a) × (e ≤ now + lock_ttl)) ⊎ ((h ≢ a) × (now ≤ e)))
IsHarmless name a e (releases n h) = (n ≢ name) ⊎ (h ≢ a)

module _ (P : ℕ → Type 0) (written : Text → ℕ → Text) (before : Text → Text → Bool) where
  module _ (name a : Text) (e : ℕ) where
    -- The lease is `a`'s and lasts until `e` at least.
    abbrev pub IsHeld : Option (Lease Text) → Type 0
    IsHeld l =
        (x : ℕ) × P x
        × (by : Text) × (l ≡ some (record { holder = a; expires_at = some (written by x) }))
        × (e ≤ x)

    put-IsHeld :
        (n : Text) (l : Option (Lease Text)) (leases : Leases Text)
        → (n ≡ name → IsHeld l)
        → IsHeld (leases name)
        → IsHeld (put n l leases name)
    put-IsHeld n l leases new old = chosen (n =ᵗ name) refl
      where
        chosen : (b : Bool) → (n =ᵗ name) ≡ b → IsHeld (if b then l else leases name)
        chosen true same = new ((text_eq_iff n name).0 same)
        chosen false same = old

    -- What another node's calls meet.
    pub not_obtainable :
        KeepsOrder P written before
        → (h : Text) (now : ℕ) (l : Option (Lease Text)) → h ≢ a
        → P now
        → now ≤ e
        → IsHeld l
        → obtainable written before h now l ≡ false
    not_obtainable order h now l ne q early (x, p, by, found, lasts) =
        ap (obtainable written before h now) found
        ∙ ground (arith, order by h x now p q, text_ne a h (λ same. ne (sym same)))

    not_held_by : (h : Text) (l : Option (Lease Text)) → h ≢ a → IsHeld l → held_by h l ≡ false
    not_held_by h l ne (x, p, by, found, lasts) =
        ap (held_by h) found ∙ text_ne a h (λ same. ne (sym same))

    clash : {b : Bool} → b ≡ true → b ≡ false → ⊥
    clash t f = absurd (cc (sym t ∙ f))

    step-IsHeld :
        KeepsOrder P written before
        → (c : LockCall) (leases : Leases Text) → IsTimely P c
        → IsHarmless name a e c
        → IsHeld (leases name)
        → IsHeld ((lease_step written before c leases).1 name)
    unfolding lease_step
    step-IsHeld order (acquires n h now) leases timely harmless held =
        won (obtainable written before h now (leases n)) refl
      where
        renewed :
            (n ≢ name) ⊎ (((h ≡ a) × (e ≤ now + lock_ttl)) ⊎ ((h ≢ a) × (now ≤ e)))
            → obtainable written before h now (leases n) ≡ true
            → n ≡ name
            → IsHeld (some (record { holder = h; expires_at = some (written h (now + lock_ttl)) }))
        renewed (inl other) free same = absurd (other same)
        renewed (inr (inl (own, lasts))) free same =
            (now + lock_ttl, timely.1, h, rw own refl, lasts)
        renewed (inr (inr (ne, early))) free same = absurd (
            clash free (
              ap (λ m. obtainable written before h now (leases m)) same
              ∙ not_obtainable order h now (leases name) ne timely.0 early held))

        won :
            (b : Bool)
            → obtainable written before h now (leases n) ≡ b
            → IsHeld ((granted written before n h now leases b).1 name)
        won true free = put-IsHeld n _ leases (renewed harmless free) held
        won false free = held
    step-IsHeld order (releases n h) leases timely harmless held = gone (held_by h (leases n)) refl
      where
        lost : (n ≢ name) ⊎ (h ≢ a) → held_by h (leases n) ≡ true → n ≡ name → IsHeld none
        lost (inl other) mine same = absurd (other same)
        lost (inr ne) mine same =
            absurd (
              clash mine
                (ap (λ m. held_by h (leases m)) same ∙ not_held_by h (leases name) ne held))

        gone :
            (b : Bool)
            → held_by h (leases n) ≡ b
            → IsHeld ((if b then put n none leases else leases) name)
        gone true mine = put-IsHeld n none leases (lost harmless mine) held
        gone false mine = held

    pub run-IsHeld :
        KeepsOrder P written before
        → (cs : List LockCall) (leases : Leases Text) → All (IsTimely P) cs
        → All (IsHarmless name a e) cs
        → IsHeld (leases name)
        → IsHeld ((lease_run written before cs leases).1 name)
    unfolding lease_run
    run-IsHeld order [] leases timely harmless held = held
    run-IsHeld order (c ∷ cs) leases timely harmless held =
        run-IsHeld order cs _ timely.1 harmless.1
          (step-IsHeld order c leases timely.0 harmless.0 held)
