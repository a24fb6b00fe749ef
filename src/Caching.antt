-- ===== src/Caching.antt =====
-- server/middleware/caching: the cache state of a request, its processors, and the response that
-- is put together from stored chunks and the origin.
pub mod Chunks
pub mod Respond
pub mod Assemble
mod Tests
