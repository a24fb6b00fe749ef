-- ===== src/Readers.antt =====
-- pkg/iobuf: the readers that cut and join bodies, as states that answer one read at a time.
pub mod Stream
pub mod Limit
pub mod Skip
pub mod Parts
pub mod Window
pub mod Windowed
pub mod Cut
pub mod Sample
mod Tests
