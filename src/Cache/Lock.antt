-- ===== src/Cache/Lock.antt =====
-- src/cache/lock.go: the lock of one name, claimed by the nodes. Release reads the key and then
-- deletes it, in two calls of the cache: `release_sees` and `delete` are these steps, and `release`
-- is both with nothing in between.
pub mod Exclusion
use redxt.Common.{
  ℤ, Bool, true, false, List, [], ◌∷◌, ◌++◌, Option, none, some, Result, ok, err, Text, bytes, ◌=ᵗ◌,
  if◌then◌else◌,
}
use redxt.Cache.Keys.{lock_key}
use redxt.Cache.Memory.{MemoryCache, get, delete, set_nx, set, sweep}

unfoldable pub acquire : Text → Text → ℤ → ℤ → MemoryCache → Bool × MemoryCache
acquire node name ttl now c = set_nx (lock_key name) node ttl now c

abbrev is_node : Text → Option Text → Bool
is_node node none = false
is_node node (some value) = value =ᵗ node

unfoldable pub release_sees : Text → Text → ℤ → MemoryCache → Bool
release_sees node name now c = is_node node (get (lock_key name) now c)

unfoldable pub release : Text → Text → ℤ → MemoryCache → MemoryCache
release node name now c = if release_sees node name now c then delete (lock_key name) c else c

-- `fn` gives its result, the time at which it ends and the cache that it leaves.
unfoldable pub with_lock :
    {E : Type 0}
    → Text
    → Text
    → ℤ
    → ℤ
    → (MemoryCache → Result E (Unit {0}) × ℤ × MemoryCache)
    → MemoryCache
    → Result E (Unit {0}) × MemoryCache
with_lock node name ttl now fn c =
    if (acquire node name ttl now c).0
    then (
      (fn (acquire node name ttl now c).1).0,
      release node name (fn (acquire node name ttl now c).1).1
          (fn (acquire node name ttl now c).1).2,
    )
    else (ok tt, c)
