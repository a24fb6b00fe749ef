-- ===== src/HashRing.antt =====
-- storage/selector/hashring: the ring of hashes that places objects on storage buckets.
pub mod Ring
pub mod Nearest
pub mod Synced
pub mod Walk
pub mod Select
mod Tests
