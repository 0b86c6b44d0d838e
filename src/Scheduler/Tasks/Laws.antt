-- ===== src/Scheduler/Tasks/Laws.antt =====
-- A task does not overlap itself on a node, and a restart does not bring back what is long overdue.
use redxt.Common.{
  ℕ, ◌+◌, ◌-◌, ◌≤◌, ◌≡◌, ◌≢◌, refl, sym, ◌∙◌, ap, Bool, true, false, ◌&&◌, List, [], ◌∷◌, ◌++◌, any,
  keep, map, update_where, count_where, Option, none, some, ltb, ltb→ge, ℤ, Text, ◌=ᵗ◌, text_eq_iff,
  text_ne, text_apart, Bool-cases, ◌⊎◌, inl, inr, if◌then◌else◌, arith, differ, differ-update,
}
use redxt.Scheduler.Cron.{Schedule, Civil, next, parse_schedule}
use redxt.Scheduler.Cron.Parsing.{next_is_later}
use redxt.Scheduler.Tasks.{
  Entry, Node, is_due, start, entry_name, entry_named, finish_entry, tick, finish, remove_one,
  resume_next,
}

-- How the state of a node moves: a poll, or the end of a run that is in flight.
pub data NodeStep (civil : ℕ → Civil) : Node → Node → Type 0 where
  polled : (now : ℕ) (n : Node) → NodeStep civil n (tick now n)
  finished :
      (name : Text) (started : ℕ) (n : Node)
      → any (λ t. t =ᵗ name) n.in_flight ≡ true
      → NodeStep civil n (finish civil name started n)

pub data NodeRun (civil : ℕ → Civil) : Node → Node → Type 0 where
  stays : (n : Node) → NodeRun civil n n
  moves : (n m k : Node) → NodeRun civil n m → NodeStep civil m k → NodeRun civil n k

abbrev pub runs_of : Text → List Text → ℕ
runs_of name ts = count_where (λ t. t =ᵗ name) ts

abbrev pub same_task : Entry → Entry → Bool
same_task d e = entry_named (entry_name d) e

-- The number of runs that the flags of the entries of a name admit.
abbrev flagged : Text → Entry → Bool
flagged name e = entry_named name e && e.running

-- As many runs of a name are in flight as entries of that name are marked as running.
pub record IsAccounted (n : Node) : Type 0 where
  pub names : differ same_task n.entries ≡ true
  pub flights : (name : Text) → runs_of name n.in_flight ≡ count_where (flagged name) n.entries

count-append :
    (p : Text → Bool) (xs ys : List Text)
    → count_where p (xs ++ ys) ≡ count_where p xs + count_where p ys
count-append p [] ys = omega arith
count-append p (x ∷ xs) ys = ground (arith, count-append p xs ys)

module _ (name : Text) where
  count-tick :
      (now : ℕ) (es : List Entry)
      → count_where (flagged name) (update_where (is_due now) start es)
        ≡ count_where (flagged name) es + runs_of name (map entry_name (keep (is_due now) es))
  unfolding is_due
  count-tick now [] = refl
  count-tick now (e ∷ es) = ground (arith, count-tick now es)

  count-finish :
      (civil : ℕ → Civil) (started : ℕ) (es : List Entry)
      → count_where (flagged name) (update_where (entry_named name) (finish_entry civil started) es)
        ≡ 0
  count-finish civil started [] = refl
  count-finish civil started (e ∷ es) = ground (arith, count-finish civil started es)

  count-resting :
      (es : List Entry) → any (λ e. e.running) es ≡ false → count_where (flagged name) es ≡ 0
  count-resting [] h = refl
  count-resting (e ∷ es) h = ground (arith, count-resting es)

  count-absent :
      (es : List Entry) → any (entry_named name) es ≡ false → count_where (flagged name) es ≡ 0
  count-absent [] h = refl
  count-absent (e ∷ es) h = ground (arith, count-absent es)

  any-same_task :
      (e : Entry) (es : List Entry)
      → entry_named name e ≡ true
      → any (same_task e) es ≡ any (entry_named name) es
  any-same_task e es h = ap (λ n. any (entry_named n) es) ((text_eq_iff (entry_name e) name).0 h)

  count-le-one : (es : List Entry) → differ same_task es ≡ true → count_where (flagged name) es ≤ 1
  count-le-one [] u = omega arith
  count-le-one (e ∷ es) u = ground (arith, count-absent es, any-same_task e es, count-le-one es)

  remove_one-same : (ts : List Text) → runs_of name ts ≤ 1 → runs_of name (remove_one name ts) ≡ 0
  unfolding remove_one
  remove_one-same [] h = refl
  remove_one-same (t ∷ ts) h = ground (arith, remove_one-same ts)

  -- Another name.
  module _ (other : Text) (ne : name ≢ other) where
    apart : (t : Text) → (t =ᵗ name) ≡ true → (t =ᵗ other) ≡ false
    apart t h = text_ne t other (λ e. ne (sym ((text_eq_iff t name).0 h) ∙ e))

    remove_one-other : (ts : List Text) → runs_of other (remove_one name ts) ≡ runs_of other ts
    unfolding remove_one
    remove_one-other [] = refl
    remove_one-other (t ∷ ts) = ground (arith, remove_one-other ts, apart t)

    count-finish_other :
        (civil : ℕ → Civil) (started : ℕ) (es : List Entry)
        → count_where
            (flagged other)
            (update_where (entry_named name) (finish_entry civil started) es)
          ≡ count_where (flagged other) es
    count-finish_other civil started [] = refl
    count-finish_other civil started (e ∷ es) =
        ground (arith, count-finish_other civil started es, apart (entry_name e))

module _ (civil : ℕ → Civil) where
  tick-IsAccounted : (now : ℕ) (n : Node) → IsAccounted n → IsAccounted (tick now n)
  unfolding tick
  tick-IsAccounted now n i = record {
    names =
        differ-update same_task (is_due now) start (λ a b. refl) (λ a b. refl) n.entries i.names;
    flights = λ name. omega (
      arith,
      i.flights name,
      count-append (λ t. t =ᵗ name) n.in_flight (map entry_name (keep (is_due now) n.entries)),
      count-tick name now n.entries,
    );
  }

  finish-IsAccounted :
      (name : Text) (started : ℕ) (n : Node)
      → IsAccounted n
      → IsAccounted (finish civil name started n)
  unfolding finish
  finish-IsAccounted name started n i = record {
    names = differ-update same_task _ _ (λ a b. refl) (λ a b. refl) n.entries i.names;
    flights = λ other. either other (Bool-cases (name =ᵗ other));
  }
    where
      either :
          (other : Text)
          → ((name =ᵗ other) ≡ true) ⊎ ((name =ᵗ other) ≡ false)
          → runs_of other (remove_one name n.in_flight)
            ≡ count_where
                (flagged other)
                (update_where (entry_named name) (finish_entry civil started) n.entries)
      either other (inl same) = rw (← (text_eq_iff name other).0 same) (
          remove_one-same name n.in_flight
            (omega (arith, i.flights name, count-le-one name n.entries i.names))
          ∙ sym (count-finish name civil started n.entries))
      either other (inr differs) =
          let ne = text_apart name other differs in
          remove_one-other name other ne n.in_flight
          ∙ i.flights other
          ∙ sym (count-finish_other name other ne civil started n.entries)

  run-IsAccounted : (n m : Node) → NodeRun civil n m → IsAccounted n → IsAccounted m
  run-IsAccounted n m (stays _) i = i
  run-IsAccounted n k (moves _ m _ run (polled now _)) i =
      tick-IsAccounted now m (run-IsAccounted n m run i)
  run-IsAccounted n k (moves _ m _ run (finished name started _ flying)) i =
      finish-IsAccounted name started m (run-IsAccounted n m run i)

  -- On a node whose entries have different names and which starts with nothing running, after any
  -- polls and ends of runs at most one run of every task is in flight.
  pub never_overlaps :
      (n m : Node) (name : Text)
      → differ same_task n.entries ≡ true
      → n.in_flight ≡ []
      → any (λ e. e.running) n.entries ≡ false
      → NodeRun civil n m
      → runs_of name m.in_flight ≤ 1
  never_overlaps n m name names idle resting run =
      let i =
        run-IsAccounted n m run (record { names = names; flights = λ t. started_at_rest t }) in
      omega (arith, i.flights name, count-le-one name m.entries i.names)
    where
      started_at_rest : (t : Text) → runs_of t n.in_flight ≡ count_where (flagged t) n.entries
      started_at_rest t = ap (runs_of t) idle ∙ sym (count-resting t n.entries resting)

-- A task is resumed at a time no further in the past than the catch-up window.
pub resume_is_recent :
    (parse_duration : Text → Option ℤ) (civil : ℕ → Civil) (raw : Text) (s : Schedule)
    (persisted : Option ℕ) (window now t : ℕ)
    → parse_schedule parse_duration raw ≡ some s
    → resume_next civil s persisted window now ≡ some t
    → now ≤ t + window
unfolding resume_next
resume_is_recent parse_duration civil raw s none window now t parsed h =
    omega (arith, next_is_later parse_duration raw s civil now t parsed h)
resume_is_recent parse_duration civil raw s (some p) window now t parsed h =
    resumed (ltb p (now - window)) refl h
  where
    resumed :
        (b : Bool)
        → ltb p (now - window) ≡ b
        → (if b then next civil s now else some p) ≡ some t
        → now ≤ t + window
    resumed true old e = omega (arith, next_is_later parse_duration raw s civil now t parsed e)
    resumed false recent e = ground (arith, ltb→ge p (now - window) recent)
