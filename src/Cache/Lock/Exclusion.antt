-- ===== src/Cache/Lock/Exclusion.antt =====
-- Who can take a lock while another node has it.
use redxt.Common.{
  ℤ, pos, ◌+ℤ◌, ◌≤ℤ◌, ◌<ℤ◌, is_zero, true, false, ◌≡◌, ◌≢◌, refl, sym, ◌∙◌, inl, inr, List, [], ◌∷◌,
  some, All, arith, Text, ◌=ᵗ◌, text_eq_iff, text_ne, Bool-cases,
}
use redxt.Cache.Memory.{
  MemoryCache, MemoryEntry, expired, get, new_entry, set, delete, is_absent, set_nx, sweep,
}
use redxt.Cache.Keys.{lock_key}
use redxt.Cache.Lock.{acquire, release, release_sees}

-- What else happens to the cache while a node has a lock.
pub data LockEvent : Type 0 where
  tried : Text → Text → ℤ → LockEvent
  released : Text → Text → LockEvent
  stored : Text → Text → ℤ → LockEvent
  deleted : Text → LockEvent
  swept : LockEvent

pub record Timed : Type 0 where
  pub now : ℤ
  pub event : LockEvent

abbrev pub apply : LockEvent → ℤ → MemoryCache → MemoryCache
apply (tried node name ttl) now c = (acquire node name ttl now c).1
apply (released node name) now c = release node name now c
apply (stored key value ttl) now c = set key value ttl now c
apply (deleted key) now c = delete key c
apply swept now c = sweep now c

unfoldable pub after : List Timed → MemoryCache → MemoryCache
after [] c = c
after (t ∷ ts) c = after ts (apply t.event t.now c)

-- An event of another node: no release by the holder, no direct write to the lock's key.
abbrev pub IsForeign : Text → Text → LockEvent → Type 0
IsForeign holder key (tried node name ttl) = Unit
IsForeign holder key (released node name) = node ≢ holder
IsForeign holder key (stored k value ttl) = k ≢ key
IsForeign holder key (deleted k) = k ≢ key
IsForeign holder key swept = Unit

not_expired : (e : MemoryEntry) (now : ℤ) → now ≤ℤ e.expires → expired e now ≡ false
unfolding expired
not_expired e now h = ground arith

module _ (key : Text) (e : MemoryEntry) (now : ℤ) (c : MemoryCache) where
  set_nx-held :
      (k v : Text) (ttl : ℤ)
      → c key ≡ some e
      → now ≤ℤ e.expires
      → (set_nx k v ttl now c).1 key ≡ some e
  unfolding set_nx set
  set_nx-held k v ttl h live = elim (Bool-cases (key =ᵗ k)) [
    | inl same ↦ rw (← (text_eq_iff key k).0 same) (rw h (rw (not_expired e now live) h))
    | inr other ↦ elim (Bool-cases (is_absent (c k) now)) [
      | inl gone ↦ rw gone (rw other h)
      | inr kept ↦ rw kept h
    ]
  ]

  sweep-held : c key ≡ some e → now ≤ℤ e.expires → sweep now c key ≡ some e
  unfolding sweep
  sweep-held h live = rw h (rw (not_expired e now live) refl)

  release-held :
      (holder node name : Text)
      → node ≢ holder
      → c key ≡ some e
      → e.value ≡ holder
      → now ≤ℤ e.expires
      → release node name now c key ≡ some e
  unfolding release release_sees get delete
  release-held holder node name ne h value live = elim (Bool-cases (key =ᵗ lock_key name)) [
    | inl same ↦ rw (← (text_eq_iff key (lock_key name)).0 same) (
        rw h
          (rw (not_expired e now live) (rw (text_ne e.value node (λ eq. ne (sym eq ∙ value))) h)))
    | inr other ↦ elim (Bool-cases (release_sees node name now c)) [
      | inl sees ↦ rw sees (rw other h)
      | inr blind ↦ rw blind h
    ]
  ]

-- A holder's entry outlives every foreign event up to its expiry.
module _ (holder name : Text) (e : MemoryEntry) where
  step-held :
      (event : LockEvent) (now : ℤ) (c : MemoryCache)
      → IsForeign holder (lock_key name) event
      → now ≤ℤ e.expires
      → e.value ≡ holder
      → c (lock_key name) ≡ some e
      → apply event now c (lock_key name) ≡ some e
  unfolding acquire set delete
  step-held (tried node other ttl) now c foreign live value h =
      set_nx-held (lock_key name) e now c (lock_key other) node ttl h live
  step-held (released node other) now c foreign live value h =
      release-held (lock_key name) e now c holder node other foreign h value live
  step-held (stored k v ttl) now c foreign live value h =
      rw (text_ne (lock_key name) k (λ same. foreign (sym same))) h
  step-held (deleted k) now c foreign live value h =
      rw (text_ne (lock_key name) k (λ same. foreign (sym same))) h
  step-held swept now c foreign live value h = sweep-held (lock_key name) e now c h live

  after-held :
      (ts : List Timed) (c : MemoryCache)
      → All (λ t. IsForeign holder (lock_key name) t.event × (t.now ≤ℤ e.expires)) ts
      → e.value ≡ holder
      → c (lock_key name) ≡ some e
      → after ts c (lock_key name) ≡ some e
  unfolding after
  after-held [] c all value h = h
  after-held (t ∷ ts) c all value h =
      after-held ts (apply t.event t.now c) all.1 value
        (step-held t.event t.now c all.0.0 all.0.1 value h)

acquired :
    (node name : Text) (ttl now : ℤ) (c : MemoryCache)
    → (acquire node name ttl now c).0 ≡ true
    → (acquire node name ttl now c).1 (lock_key name) ≡ some (new_entry node ttl now)
unfolding acquire set_nx set
acquired node name ttl now c won = elim (Bool-cases (is_absent (c (lock_key name)) now)) [
  | inl gone ↦ rw gone (rw ((text_eq_iff (lock_key name) (lock_key name)).1 refl) refl)
  | inr kept ↦
      let lost : (acquire node name ttl now c).0 ≡ false = rw kept refl in absurd (cc (lost, won))
]

refused_while_held :
    (node name : Text) (ttl now : ℤ) (c : MemoryCache) (e : MemoryEntry)
    → c (lock_key name) ≡ some e
    → now ≤ℤ e.expires
    → (acquire node name ttl now c).0 ≡ false
unfolding acquire set_nx
refused_while_held node name ttl now c e h live = rw h (rw (not_expired e now live) refl)

-- After a node has acquired a lock for a positive time, no node acquires it before that time is
-- over, whatever attempts, releases by other nodes, writes and deletions of other keys and sweeps
-- come in between, each release running without interruption.
pub lock_excludes :
    (holder node name : Text) (ttl t ttl2 now : ℤ) (ts : List Timed) (c : MemoryCache)
    → pos 0 <ℤ ttl
    → (acquire holder name ttl t c).0 ≡ true
    → All (λ s. IsForeign holder (lock_key name) s.event × (s.now ≤ℤ t +ℤ ttl)) ts
    → now ≤ℤ t +ℤ ttl
    → (acquire node name ttl2 now (after ts (acquire holder name ttl t c).1)).0 ≡ false
lock_excludes holder node name ttl t ttl2 now ts c life won foreign live =
    let expires : (new_entry holder ttl t).expires ≡ t +ℤ ttl = ground arith in
    refused_while_held node name ttl2 now (after ts (acquire holder name ttl t c).1)
      (new_entry holder ttl t)
      (after-held holder name (new_entry holder ttl t) ts (acquire holder name ttl t c).1
        (rw expires foreign) refl (acquired holder name ttl t c won))
      (rw expires live)

is_past :
    (e : MemoryEntry) (now : ℤ)
    → is_zero e.expires ≡ false
    → e.expires <ℤ now
    → expired e now ≡ true
unfolding expired
is_past e now finite late = ground arith

-- Reading and deleting are two calls, and the lock may change hands between them.
free_after_delete :
    (node name : Text) (ttl now : ℤ) (c : MemoryCache)
    → (acquire node name ttl now (delete (lock_key name) c)).0 ≡ true
unfolding acquire set_nx delete
free_after_delete node name ttl now c =
    rw ((text_eq_iff (lock_key name) (lock_key name)).1 refl) refl

-- If a node reads its own lock no later than the expiry, another node acquires the lock after the
-- expiry, and only then the first node's deletion runs, then a third node acquires the lock at
-- once, at any time and so while the second still holds it.
pub late_release_frees :
    (slow fast third name : Text) (e : MemoryEntry) (read ttl taken ttl2 now : ℤ) (c : MemoryCache)
    → c (lock_key name) ≡ some e
    → e.value ≡ slow
    → is_zero e.expires ≡ false
    → read ≤ℤ e.expires
    → e.expires <ℤ taken
    → (release_sees slow name read c ≡ true)
      × ((acquire fast name ttl taken c).0 ≡ true)
      × ((acquire third name ttl2 now (delete (lock_key name) (acquire fast name ttl taken c).1)).0
          ≡ true)
unfolding release_sees get acquire set_nx
late_release_frees slow fast third name e read ttl taken ttl2 now c h value finite early late = (
  rw h (rw (not_expired e read early) (rw value ((text_eq_iff slow slow).1 refl))),
  rw h (rw (is_past e taken finite late) refl),
  free_after_delete third name ttl2 now (acquire fast name ttl taken c).1,
)
