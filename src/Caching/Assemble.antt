-- ===== src/Caching/Assemble.antt =====
-- The response that is put together from chunk files and the origin is the range that was asked.
mod Search
pub mod Segments
mod Contents
pub mod Total
pub mod Body
