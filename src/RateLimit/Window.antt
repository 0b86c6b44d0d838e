-- ===== src/RateLimit/Window.antt =====
-- src/server/middleware/ratelimit.go: MemoryStore, the sliding-window log. Times and windows count
-- nanoseconds; the mutex makes each call one step.
pub mod Laws
pub mod Safety
use redxt.Common.{
  ℕ, ℤ, pos, ◌+ℤ◌, ◌-ℤ◌, ltb_ℤ, leb_ℤ, Bool, true, false, ◌||◌, List, [], ◌∷◌, ◌++◌, Option, none,
  some, keep, length, Text, ◌=ᵗ◌, if◌then◌else◌,
}

pub record Decision : Type 0 where
  pub allowed : Bool
  pub bucket : Text
  pub limit : ℤ
  pub remaining : ℤ
  pub retry_after : ℤ

-- The windows by key; `none` is a missing key.
abbrev pub MemoryStore : Type 0
MemoryStore = Text → Option (List ℤ)

abbrev pub new_memory_store : MemoryStore
new_memory_store key = none

-- identifier + "\x00" + bucket
abbrev pub window_key : Text → Text → Text
window_key identifier bucket = identifier ++ 0 ∷ bucket

-- Reading a missing key gives an empty slice.
abbrev or_nil : Option (List ℤ) → List ℤ
or_nil none = []
or_nil (some stamps) = stamps

unfoldable pub stamps_of : Text → MemoryStore → List ℤ
stamps_of key s = or_nil (s key)

unfoldable pub put : Text → List ℤ → MemoryStore → MemoryStore
put key stamps s = λ k. if k =ᵗ key then some stamps else s k

-- The stamps after the cutoff.
unfoldable pub live : ℤ → List ℤ → List ℤ
live cutoff stamps = keep (λ stamp. ltb_ℤ cutoff stamp) stamps

-- How long until the oldest stamp leaves the window, no less than zero. (A refusal has one.)
unfoldable pub retry_of : List ℤ → ℤ → ℤ → ℤ
retry_of [] window now = pos 0
retry_of (oldest ∷ _) window now =
    let retry = oldest +ℤ window -ℤ now in if ltb_ℤ retry (pos 0) then pos 0 else retry

-- The verdict on the stamps that are left, and the stamps that it stores.
unfoldable pub decide : Text → ℤ → ℤ → ℤ → List ℤ → Decision × List ℤ
decide bucket limit window now kept =
    if leb_ℤ limit (pos (length kept))
    then (
      record {
        allowed = false;
        bucket = bucket;
        limit = limit;
        remaining = pos 0;
        retry_after = retry_of kept window now;
      },
      kept,
    )
    else (
      record {
        allowed = true;
        bucket = bucket;
        limit = limit;
        remaining = limit -ℤ pos (length (kept ++ now ∷ []));
        retry_after = pos 0;
      },
      kept ++ now ∷ [],
    )

abbrev pub is_off : ℤ → ℤ → Bool
is_off limit window = leb_ℤ limit (pos 0) || leb_ℤ window (pos 0)

-- MemoryStore.Allow, which never fails.
unfoldable pub allow : Text → Text → ℤ → ℤ → ℤ → MemoryStore → Decision × MemoryStore
allow identifier bucket limit window now s =
    if is_off limit window
    then (
      record {
        allowed = true;
        bucket = bucket;
        limit = limit;
        remaining = pos 0;
        retry_after = pos 0;
      },
      s,
    )
    else let key = window_key identifier bucket in
      let verdict = decide bucket limit window now (live (now -ℤ window) (stamps_of key s)) in
      (verdict.0, put key verdict.1 s)

-- A key without stamps is deleted.
abbrev some_left : List ℤ → Option (List ℤ)
some_left [] = none
some_left (x ∷ xs) = some (x ∷ xs)

abbrev purged_entry : ℤ → Option (List ℤ) → Option (List ℤ)
purged_entry cutoff none = none
purged_entry cutoff (some stamps) = some_left (live cutoff stamps)

-- MemoryStore.Purge
unfoldable pub purge : ℤ → MemoryStore → MemoryStore
purge cutoff s = λ key. purged_entry cutoff (s key)
