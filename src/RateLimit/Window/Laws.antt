-- ===== src/RateLimit/Window/Laws.antt =====
-- Sliding windows: what one verdict says, and what each call does to the stamps of a key.
use redxt.Common.{
  ℤ, pos, ◌-ℤ◌, ◌≤ℤ◌, ltb_ℤ, leb_ℤ, true, false, ◌≡◌, ◌≢◌, refl, inl, inr, List, [], ◌∷◌, ◌++◌,
  Option, none, some, length, keep-append, arith, Text, text_eq_iff, text_ne, Bool-cases,
  if◌then◌else◌,
}
use redxt.RateLimit.Window.{
  MemoryStore, window_key, or_nil, some_left, purged_entry, stamps_of, put, live, decide, is_off,
  allow, purge,
}

pub live-live : (c d : ℤ) (xs : List ℤ) → d ≤ℤ c → live c (live d xs) ≡ live c xs
unfolding live
live-live c d [] h = refl
live-live c d (x ∷ xs) h = ground (arith, live-live c d xs h)

pub live-snoc :
    (c x : ℤ) (xs : List ℤ)
    → live c (xs ++ x ∷ []) ≡ live c xs ++ (if ltb_ℤ c x then x ∷ [] else [])
unfolding live
live-snoc c x xs = rw (keep-append (λ stamp. ltb_ℤ c stamp) xs (x ∷ [])) refl

pub stamps_of-put : (key : Text) (v : List ℤ) (s : MemoryStore) → stamps_of key (put key v s) ≡ v
unfolding stamps_of put
stamps_of-put key v s = rw ((text_eq_iff key key).1 refl) refl

pub stamps_of-put_other :
    (k key : Text) (v : List ℤ) (s : MemoryStore)
    → k ≢ key
    → stamps_of k (put key v s) ≡ stamps_of k s
unfolding stamps_of put
stamps_of-put_other k key v s h = rw (text_ne k key h) refl

or_nil-some_left : (xs : List ℤ) → or_nil (some_left xs) ≡ xs
or_nil-some_left [] = refl
or_nil-some_left (x ∷ xs) = refl

pub stamps_of-purge :
    (key : Text) (c : ℤ) (s : MemoryStore) → stamps_of key (purge c s) ≡ live c (stamps_of key s)
unfolding stamps_of purge live
stamps_of-purge key c s = purged (s key)
  where
    purged : (o : Option (List ℤ)) → or_nil (purged_entry c o) ≡ live c (or_nil o)
    purged none = refl
    purged (some xs) = or_nil-some_left (live c xs)

-- A request for another key leaves the stamps of this one alone.
pub stamps_of-allow_other :
    (k identifier bucket : Text) (limit window now : ℤ) (s : MemoryStore)
    → k ≢ window_key identifier bucket
    → stamps_of k (allow identifier bucket limit window now s).1 ≡ stamps_of k s
unfolding allow
stamps_of-allow_other k identifier bucket limit window now s h =
    elim (Bool-cases (is_off limit window)) [
      | inl e ↦ rw e refl
      | inr e ↦ rw e (stamps_of-put_other k (window_key identifier bucket) _ s h)
    ]

-- The verdict turns on how many stamps are live, and what is stored with it.
module _ (identifier bucket : Text) (limit window now : ℤ) (s : MemoryStore) where
  abbrev pub live_now : List ℤ
  live_now = live (now -ℤ window) (stamps_of (window_key identifier bucket) s)

  pub allow-full :
      is_off limit window ≡ false
      → leb_ℤ limit (pos (length live_now)) ≡ true
      → ((allow identifier bucket limit window now s).0.allowed ≡ false)
        × (stamps_of (window_key identifier bucket) (allow identifier bucket limit window now s).1
            ≡ live_now)
  unfolding allow decide
  allow-full on full =
      rw on (rw full (refl, stamps_of-put (window_key identifier bucket) live_now s))

  pub allow-room :
      is_off limit window ≡ false
      → leb_ℤ limit (pos (length live_now)) ≡ false
      → ((allow identifier bucket limit window now s).0.allowed ≡ true)
        × (stamps_of (window_key identifier bucket) (allow identifier bucket limit window now s).1
            ≡ live_now ++ now ∷ [])
  unfolding allow decide
  allow-room on room =
      rw on (rw room (refl, stamps_of-put (window_key identifier bucket) (live_now ++ now ∷ []) s))
