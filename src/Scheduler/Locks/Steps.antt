-- ===== src/Scheduler/Locks/Steps.antt =====
-- The table of locks keeps the leases as it notes them: on the notes, whatever they are, every
-- statement does what the specification does.
use redxt.Common.{
  differ-append, differ-update, differ-keep, ℕ, ◌≡◌, ◌≢◌, refl, sym, ◌∙◌, ap, Bool, true, false,
  ◌||◌, List, [], ◌∷◌, ◌++◌, any, find, update_where, Option, none, some, Text, ◌=ᵗ◌, text_eq_iff,
  text_ne, text_refl, text_apart, if◌then◌else◌, arith, inl, inr, Bool-cases,
}
use mathlib.Core.Option
use std.Path.{fun_ext}
use redxt.Scheduler.Locks.{
  LockRow, named, lapsed, taken, upsert, won, acquire_lock, release_lock, LockCall, acquires,
  releases, lock_step, lock_run,
}
use redxt.Scheduler.Locks.Leases.{
  Lease, Leases, put, obtainable, held_by, granted, lease_step, lease_run,
}
use redxt.Scheduler.Locks.Rows.{
  lease_of, view, viewed, same_name, names_differ, find-update_same, find-update_other,
  find-append_other, find-keep_same, find-keep_other,
}

module _ (written : Text → ℕ → Text) (before : Text → Text → Bool) where
  find-append_none :
      (p : LockRow → Bool) (rows : List LockRow) (r : LockRow)
      → find p rows ≡ none
      → p r ≡ true
      → find p (rows ++ r ∷ []) ≡ some r
  find-append_none p [] r h e = ground arith
  find-append_none p (s ∷ rows) r h e = ground (arith, find-append_none p rows r)

  pub pair_path : {A B : Type 0} {a b : A} {c d : B} → a ≡ b → c ≡ d → ◌≡◌ {A = A × B} (a, c) (b, d)
  pair_path p q = λ i. (p i, q i)

  -- One call: the same answer, and the leases of the new table are those that the call leaves.
  module _ (name holder : Text) where
    -- A change of the lease of `name` only.
    put-view :
        (l : Option (Lease Text)) (leases leases' : Leases Text) (n : Text)
        → leases' name ≡ l
        → (name ≢ n → leases' n ≡ leases n)
        → leases' n ≡ put name l leases n
    put-view l leases leases' n at_name others = elim (Bool-cases (name =ᵗ n)) [
      | inl same ↦ rw same (ap leases' (sym ((text_eq_iff name n).0 same)) ∙ at_name)
      | inr other ↦ rw other (others (text_apart name n other))
    ]

    release-view :
        (rows : List LockRow) (n : Text)
        → names_differ rows ≡ true
        → view (release_lock name holder rows) n
          ≡ (lease_step written before (releases name holder) (view rows)).1 n
    unfolding lease_step
    release-view rows n u = released _ refl
      where
        released :
            (b : Bool)
            → held_by holder (view rows name) ≡ b
            → view (release_lock name holder rows) n
              ≡ (if b then put name none (view rows) else view rows) n
        released true e =
            put-view none (view rows) (view (release_lock name holder rows)) n
              (ap lease_of (
                find-keep_same written before name holder rows u
                ∙ ap (λ b. if b then none else find (named name) rows) e))
              (λ ne. ap lease_of (find-keep_other written before name n holder rows ne))
        released false e = elim (Bool-cases (name =ᵗ n)) [
          | inl same ↦
              ap (view (release_lock name holder rows)) (sym ((text_eq_iff name n).0 same))
              ∙ ap lease_of (
                  find-keep_same written before name holder rows u
                  ∙ ap (λ b. if b then none else find (named name) rows) e)
              ∙ ap (view rows) ((text_eq_iff name n).0 same)
          | inr other ↦
              ap lease_of
                (find-keep_other written before name n holder rows (text_apart name n other))
        ]

    upsert-view :
        (now : ℕ) (rows : List LockRow) (n : Text) (o : Option LockRow)
        → find (named name) rows ≡ o
        → view (upsert written before name holder now rows o).1 n
          ≡ (granted written before name holder now
                (view rows)
                (obtainable written before holder now (lease_of o))).1
              n
    upsert-view now rows n none e =
        put-view _ (view rows) (view (upsert written before name holder now rows none).1) n
          (ap lease_of (find-append_none (named name) rows _ e (text_refl name)))
          (λ ne. ap lease_of (find-append_other written before name n _ rows (text_ne name n ne)))
    upsert-view now rows n (some r) e =
        updated (r.holder =ᵗ holder || lapsed written before r.expires_at (written holder now))
      where
        updated :
            (b : Bool)
            → view (won written before name holder now rows b).1 n
              ≡ (granted written before name holder now (view rows) b).1 n
        updated true =
            put-view _ (view rows)
              (view (update_where (named name) (taken written before holder now) rows)) n
              (ap lease_of (
                find-update_same written before name holder now rows
                ∙ ap (Option.map (taken written before holder now)) e))
              (λ ne. ap lease_of (find-update_other written before name n holder now rows ne))
        updated false = refl

    upsert-answer :
        (now : ℕ) (rows : List LockRow) (leases : Leases Text) (o : Option LockRow)
        → (upsert written before name holder now rows o).0
          ≡ (granted written before name holder now leases
              (obtainable written before holder now (lease_of o))).0
    upsert-answer now rows leases none = refl
    upsert-answer now rows leases (some r) =
        answered (r.holder =ᵗ holder || lapsed written before r.expires_at (written holder now))
      where
        answered :
            (b : Bool)
            → (won written before name holder now rows b).0
              ≡ (granted written before name holder now leases b).0
        answered true = refl
        answered false = refl

  missing_any : (p : LockRow → Bool) (rows : List LockRow) → find p rows ≡ none → any p rows ≡ false
  missing_any p [] h = refl
  missing_any p (r ∷ rows) h = ground (arith, missing_any p rows)

  text_comm : (s t : Text) → (s =ᵗ t) ≡ (t =ᵗ s)
  text_comm s t = elim (Bool-cases (s =ᵗ t)) [
    | inl e ↦ e ∙ sym ((text_eq_iff t s).1 (sym ((text_eq_iff s t).0 e)))
    | inr e ↦ e ∙ sym (text_ne t s (λ same. text_apart s t e (sym same)))
  ]

  upsert-differ :
      (name holder : Text) (now : ℕ) (rows : List LockRow) (o : Option LockRow)
      → find (named name) rows ≡ o
      → names_differ rows ≡ true
      → names_differ (upsert written before name holder now rows o).1 ≡ true
  upsert-differ name holder now rows none e u =
      differ-append same_name rows _ (λ a b. text_comm b.name a.name)
        (missing_any (named name) rows e) u
  upsert-differ name holder now rows (some r) e u =
      updated (r.holder =ᵗ holder || lapsed written before r.expires_at (written holder now))
    where
      updated : (b : Bool) → names_differ (won written before name holder now rows b).1 ≡ true
      updated true = differ-update same_name _ _ (λ a b. refl) (λ a b. refl) rows u
      updated false = u

  pub step-differ :
      (c : LockCall) (rows : List LockRow)
      → names_differ rows ≡ true
      → names_differ (lock_step written before c rows).1 ≡ true
  unfolding lock_step acquire_lock release_lock
  step-differ (acquires name holder now) rows u = upsert-differ name holder now rows _ refl u
  step-differ (releases name holder) rows u = differ-keep same_name _ rows u

  pub lock_step-view :
      (c : LockCall) (rows : List LockRow)
      → names_differ rows ≡ true
      → viewed (lock_step written before c rows) ≡ lease_step written before c (view rows)
  unfolding lock_step acquire_lock lease_step
  lock_step-view (acquires name holder now) rows u =
      pair_path (upsert-answer name holder now rows (view rows) (find (named name) rows))
        (fun_ext (λ n. upsert-view name holder now rows n (find (named name) rows) refl))
  lock_step-view (releases name holder) rows u =
      pair_path refl (fun_ext (λ n. release-view name holder rows n u))

  -- Every sequence of lock statements: the same answers, and the leases of the table that is left.
  pub lock_run-view :
      (cs : List LockCall) (rows : List LockRow)
      → names_differ rows ≡ true
      → viewed (lock_run written before cs rows) ≡ lease_run written before cs (view rows)
  unfolding lock_run lease_run
  lock_run-view [] rows u = refl
  lock_run-view (c ∷ cs) rows u =
      ap (λ (r : List Bool × Leases Text). ((lock_step written before c rows).0 ∷ r.0, r.1))
        (lock_run-view cs _ (step-differ c rows u))
      ∙ ap
          (λ (s : Bool × Leases Text).
            (s.0 ∷ (lease_run written before cs s.1).0, (lease_run written before cs s.1).1))
          (lock_step-view c rows u)
