-- ===== src/Iobuf.antt =====
-- pkg/iobuf: chunk bitmaps and blocks, and the readers that cut and join response bodies.
pub mod Bitmap
pub mod Block
pub mod Hits
pub mod Groups
mod Tests
