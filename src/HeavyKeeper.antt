-- ===== src/HeavyKeeper.antt =====
-- pkg/algorithm/heavykeeper: the sketch that counts hot keys.
pub mod Sketch
pub mod Bound
pub mod Growth
mod Tests
