-- ===== src/SharedKv.antt =====
-- storage/sharedkv: the counters and the prefix ranges of the key-value store.
pub mod Counter
pub mod Prefix
mod Tests
