-- ===== src/Cache/Memory.antt =====
-- src/cache/memory.go: the in-process driver. Its map is a function from keys to entries, a time of 0
-- is the zero time, and each call under the mutex is one step. Stored bytes are copies, so no entry
-- is shared with a caller. Ping does nothing.
use redxt.Common.{
  ℤ, pos, ◌+ℤ◌, ltb_ℤ, is_zero, Bool, true, false, ◌&&◌, not, Option, none, some, Text, ◌=ᵗ◌,
  has_prefix, if◌then◌else◌,
}

pub record MemoryEntry : Type 0 where
  pub value : Text
  pub expires : ℤ

abbrev pub MemoryCache : Type 0
MemoryCache = Text → Option MemoryEntry

-- Past its expiry: `now.After(expires)`.
unfoldable pub expired : MemoryEntry → ℤ → Bool
expired e now = not (is_zero e.expires) && ltb_ℤ e.expires now

abbrev pub live_value : Option MemoryEntry → ℤ → Option Text
live_value none now = none
live_value (some e) now = if expired e now then none else some e.value

unfoldable pub get : Text → ℤ → MemoryCache → Option Text
get key now c = live_value (c key) now

-- A life of zero or less is no expiry.
abbrev pub new_entry : Text → ℤ → ℤ → MemoryEntry
new_entry value ttl now = record {
  value = value;
  expires = if ltb_ℤ (pos 0) ttl then now +ℤ ttl else pos 0;
}

unfoldable pub set : Text → Text → ℤ → ℤ → MemoryCache → MemoryCache
set key value ttl now c = λ k. if k =ᵗ key then some (new_entry value ttl now) else c k

unfoldable pub delete : Text → MemoryCache → MemoryCache
delete key c = λ k. if k =ᵗ key then none else c k

unfoldable pub delete_prefix : Text → MemoryCache → MemoryCache
delete_prefix prefix c = λ k. if has_prefix k prefix then none else c k

abbrev pub is_absent : Option MemoryEntry → ℤ → Bool
is_absent none now = true
is_absent (some e) now = expired e now

-- SetNX, with whether it stored.
unfoldable pub set_nx : Text → Text → ℤ → ℤ → MemoryCache → Bool × MemoryCache
set_nx key value ttl now c =
    if is_absent (c key) now then (true, set key value ttl now c) else (false, c)

abbrev pub swept_entry : ℤ → Option MemoryEntry → Option MemoryEntry
swept_entry now none = none
swept_entry now (some e) = if expired e now then none else some e

-- What the janitor does at each tick.
unfoldable pub sweep : ℤ → MemoryCache → MemoryCache
sweep now c = λ k. swept_entry now (c k)

-- Close drops every entry.
unfoldable pub close : MemoryCache → MemoryCache
close c = λ k. none
