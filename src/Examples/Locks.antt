-- ===== src/Examples/Locks.antt =====
-- Two nodes and the lock of the nightly backup.
use redxt.Common.{
  ℤ, pos, ◌+ℤ◌, ◌≤ℤ◌, ◌≡◌, ◌≢◌, refl, true, false, List, [], ◌∷◌, some, none, Text, bytes, arith,
}
use redxt.Cache.Keys.{lock_key}
use redxt.Cache.Memory.{MemoryCache, MemoryEntry, set_nx, delete}
use redxt.Cache.Lock.{acquire, release_sees}
use redxt.Cache.Lock.Exclusion.{
  tried, released, swept, Timed, after, lock_excludes, late_release_frees,
}

abbrev backup : Text
backup = bytes "backup"

abbrev empty : MemoryCache
empty key = none

abbrev node_a : Text
node_a = bytes "a"

abbrev node_b : Text
node_b = bytes "b"

-- The second node tries, releases what it does not hold, and the janitor passes.
abbrev meanwhile : List Timed
meanwhile =
    record { now = pos 10; event = tried node_b backup (pos 60) }
    ∷ record { now = pos 20; event = released node_b backup }
    ∷ record { now = pos 30; event = swept }
    ∷ []

won : (acquire node_a backup (pos 60) (pos 5) empty).0 ≡ true
unfolding acquire set_nx
won = refl

distinct : node_b ≢ node_a
distinct e = ground arith

within : (now : ℤ) → now ≤ℤ pos 60 → now ≤ℤ pos 5 +ℤ pos 60
unfolding ◌+ℤ◌
within now h = omega arith

lock_excludes_example :
    (acquire node_b backup
      (pos 60)
      (pos 40)
      (after meanwhile (acquire node_a backup (pos 60) (pos 5) empty).1)).0
    ≡ false
lock_excludes_example =
    lock_excludes node_a node_b backup (pos 60) (pos 5) (pos 60) (pos 40) meanwhile empty
      (omega arith) won
      (
        (tt, within (pos 10) (omega arith)),
        ((distinct, within (pos 20) (omega arith)), ((tt, within (pos 30) (omega arith)), tt)),
      )
      (within (pos 40) (omega arith))

abbrev held_by_a : MemoryEntry
held_by_a = record { value = node_a; expires = pos 65 }

abbrev held_cache : MemoryCache
held_cache key = some held_by_a

late_release_frees_example :
    (release_sees node_a backup (pos 65) held_cache ≡ true)
    × ((acquire node_b backup (pos 60) (pos 66) held_cache).0 ≡ true)
    × ((acquire
          (bytes "c")
          backup
          (pos 60)
          (pos 67)
          (delete (lock_key backup) (acquire node_b backup (pos 60) (pos 66) held_cache).1)).0
        ≡ true)
late_release_frees_example =
    late_release_frees node_a node_b (bytes "c") backup held_by_a (pos 65) (pos 60) (pos 66)
      (pos 60) (pos 67) held_cache refl refl refl (omega arith) (omega arith)
