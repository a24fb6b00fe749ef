-- ===== src/Processors.antt =====
-- server/middleware/caching/processor.go: the chain of processors around the cache.
pub mod Chain
pub mod Order
mod Tests
