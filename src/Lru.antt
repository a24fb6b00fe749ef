-- ===== src/Lru.antt =====
-- pkg/algorithm/lru: the cache that evicts the entries of the lowest frequency.
pub mod Cache
pub mod Order
pub mod Bound
mod Tests
