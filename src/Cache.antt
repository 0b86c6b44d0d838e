-- ===== src/Cache.antt =====
-- Package cache (src/cache): the in-process driver and the lock on top of it.
pub mod Keys
pub mod Memory
pub mod Lock
