-- ===== src/Savepart.antt =====
-- pkg/iobuf/savepart_reader.go and savepart_async_reader.go: a body is stored in blocks while it is
-- read. server/middleware/caching/caching.go: what happens to each block (`flushbufferSlice`).
pub mod Reader
pub mod Align
pub mod Blocks
pub mod Flush
pub mod Stream
pub mod Chunks
pub mod Closed
pub mod Async
pub mod Queue
pub mod Honest
pub mod Written
mod Tests
