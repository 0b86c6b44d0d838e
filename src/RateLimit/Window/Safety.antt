-- ===== src/RateLimit/Window/Safety.antt =====
-- No window of a bucket ever holds more requests than its limit.
use redxt.Common.{
  ℕ, suc, ℤ, pos, ◌+◌, ◌≤◌, ◌+ℤ◌, ◌-ℤ◌, ◌≤ℤ◌, ◌<ℤ◌, ltb_ℤ, leb_ℤ, +ℤ_parts, -ℤ_parts, Bool, true,
  false, ◌&&◌, ◌≡◌, ◌≢◌, refl, sym, ap, ◌∙◌, inl, inr, List, [], ◌∷◌, ◌++◌, count_where, length,
  arith, Text, Bool-cases, if◌then◌else◌,
}
use redxt.RateLimit.Window.{
  MemoryStore, new_memory_store, window_key, stamps_of, live, is_off, allow, purge,
}
use redxt.RateLimit.Window.Laws.{
  live-live, live-snoc, live_now, allow-full, allow-room, stamps_of-allow_other, stamps_of-purge,
}

-- The requests admitted after `start`, up to `start + window`.
abbrev pub admitted_within : ℤ → ℤ → List ℤ → ℕ
admitted_within start window log = count_where (λ t. ltb_ℤ start t && leb_ℤ t (start +ℤ window)) log

module _ (identifier bucket : Text) (limit window : ℤ) where
  -- The log after one more request at `now`.
  abbrev pub logged : List ℤ → ℤ → MemoryStore → List ℤ
  logged log now s =
      if (allow identifier bucket limit window now s).0.allowed then log ++ now ∷ [] else log

  -- The stores that a bucket's life leads to, with the times of the requests that it admitted and
  -- the time of the last one. The clock does not go back; other buckets are served in between, and
  -- a purge takes stamps that have left the window.
  pub data Served : MemoryStore → List ℤ → ℤ → Type 0 where
    start : (t : ℤ) → Served new_memory_store [] t
    asked :
        {s : MemoryStore} {log : List ℤ} {t : ℤ} (now : ℤ)
        → Served s log t
        → t ≤ℤ now
        → Served (allow identifier bucket limit window now s).1 (logged log now s) now
    asked_other :
        {s : MemoryStore} {log : List ℤ} {t : ℤ} (i b : Text) (l w now : ℤ)
        → Served s log t
        → window_key identifier bucket ≢ window_key i b
        → Served (allow i b l w now s).1 log t
    purged :
        {s : MemoryStore} {log : List ℤ} {t : ℤ} (cutoff : ℤ)
        → Served s log t
        → cutoff ≤ℤ t -ℤ window
        → Served (purge cutoff s) log t

  abbrev key : Text
  key = window_key identifier bucket

  -- The stamps that count from now on are those of the log, and no window is over the limit.
  record Kept (s : MemoryStore) (log : List ℤ) (t : ℤ) : Type 0 where
    same : (c : ℤ) → t -ℤ window ≤ℤ c → live c (stamps_of key s) ≡ live c log
    bounded : (from : ℤ) → pos (admitted_within from window log) ≤ℤ limit

count-snoc :
    (p : ℤ → Bool) (xs : List ℤ) (x : ℤ)
    → count_where p (xs ++ x ∷ []) ≡ count_where p xs + (if p x then 1 else 0)
count-snoc p [] x = ground arith
count-snoc p (y ∷ xs) x = ground (arith, count-snoc p xs x)

-- The requests of a window that starts at `c` or later are live at `c`.
count-live :
    (from window c : ℤ) (xs : List ℤ)
    → c ≤ℤ from
    → admitted_within from window xs ≤ length (live c xs)
unfolding live
count-live from window c [] h = ground arith
count-live from window c (x ∷ xs) h = ground (arith, count-live from window c xs h)

-- A window with `now` in it starts no earlier than `now - window`.
start-window : (from window now : ℤ) → leb_ℤ now (from +ℤ window) ≡ true → now -ℤ window ≤ℤ from
start-window from window now h = ground (arith, +ℤ_parts from window, -ℤ_parts now window)

-- One request more, where fewer than the limit are live.
bounded-snoc :
    (limit window now from : ℤ) (log : List ℤ)
    → pos (admitted_within from window log) ≤ℤ limit
    → pos (suc (length (live (now -ℤ window) log))) ≤ℤ limit
    → pos (admitted_within from window (log ++ now ∷ [])) ≤ℤ limit
bounded-snoc limit window now from log h room = elim (Bool-cases (leb_ℤ now (from +ℤ window))) [
  | inl e ↦ ground (
    arith,
    count-snoc (λ t. ltb_ℤ from t && leb_ℤ t (from +ℤ window)) log now,
    count-live from window (now -ℤ window) log (start-window from window now e),
  )
  | inr e ↦ ground (arith, count-snoc (λ t. ltb_ℤ from t && leb_ℤ t (from +ℤ window)) log now)
]

cutoffs_grow : (t now window c : ℤ) → t ≤ℤ now → now -ℤ window ≤ℤ c → t -ℤ window ≤ℤ c
cutoffs_grow t now window c h e = ground (arith, -ℤ_parts t window, -ℤ_parts now window)

same_snoc :
    (c now window : ℤ) (log stamps : List ℤ)
    → now -ℤ window ≤ℤ c
    → live c stamps ≡ live c log
    → live c (live (now -ℤ window) stamps ++ now ∷ []) ≡ live c (log ++ now ∷ [])
same_snoc c now window log stamps e h =
    rw live-snoc (rw (live-live c (now -ℤ window) stamps e) (rw h (sym (live-snoc c now log))))

-- Whichever way the verdict goes: the stored stamps and the log agree, and the bound holds.
module _ (identifier bucket : Text) (limit window : ℤ) where
  decided :
      (s : MemoryStore) (log : List ℤ) (t now : ℤ)
      → is_off limit window ≡ false
      → Kept identifier bucket limit window s log t
      → t ≤ℤ now
      → Kept identifier bucket limit window
          (allow identifier bucket limit window now s).1
          (logged identifier bucket limit window log now s)
          now
  decided s log t now on k h =
      elim (Bool-cases
        (leb_ℤ limit (pos (length (live_now identifier bucket limit window now s))))) [
          | inl full ↦
              let (verdict, left) = allow-full identifier bucket limit window now s on full in
              rw verdict (record {
                same = λ c e.
                    rw left (
                      live-live c (now -ℤ window) _ e ∙ k.same c (cutoffs_grow t now window c h e));
                bounded = k.bounded;
              })
          | inr room ↦
              let (verdict, left) = allow-room identifier bucket limit window now s on room in
              rw verdict (record {
                same = λ c e.
                    rw left
                      (same_snoc c now window log _ e (k.same c (cutoffs_grow t now window c h e)));
                bounded = λ from. bounded-snoc limit window now from log (k.bounded from) (
                    rw (← k.same (now -ℤ window) (cutoffs_grow t now window _ h (ground arith)))
                      (ground arith));
              })
        ]

  kept :
      (s : MemoryStore) (log : List ℤ) (t : ℤ)
      → pos 0 <ℤ limit
      → pos 0 <ℤ window
      → Served identifier bucket limit window s log t
      → Kept identifier bucket limit window s log t
  unfolding stamps_of
  kept _ _ _ hl hw (start t) = record { same = λ c _. refl; bounded = λ from. ground arith }
  kept _ _ _ hl hw (asked now r h) = decided _ _ _ now (ground arith) (kept _ _ _ hl hw r) h
  kept _ log t hl hw (asked_other {s} i b l w now r other) =
      let k = kept s log t hl hw r in
      record {
        same = λ c e. ap (live c) (stamps_of-allow_other _ i b l w now s other) ∙ k.same c e;
        bounded = k.bounded;
      }
  kept _ log t hl hw (purged {s} cutoff r h) =
      let k = kept s log t hl hw r in
      record {
        same = λ c e.
            rw (stamps_of-purge (window_key identifier bucket) cutoff s)
              (live-live c cutoff _ (ground arith) ∙ k.same c e);
        bounded = k.bounded;
      }

  -- For a positive limit and window, no window of that length ever holds more admitted requests
  -- of a bucket than the limit, over every history in which the clock does not go back, requests
  -- for other keys come in between, and purges take only what has left the window.
  pub sliding_window :
      (s : MemoryStore) (log : List ℤ) (t from : ℤ)
      → pos 0 <ℤ limit
      → pos 0 <ℤ window
      → Served identifier bucket limit window s log t
      → pos (admitted_within from window log) ≤ℤ limit
  sliding_window s log t from hl hw r = (kept s log t hl hw r).bounded from
