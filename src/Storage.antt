-- ===== src/Storage.antt =====
-- storage and api/defined/v1/storage: buckets on disk, their tiers, and how objects move between them.
pub mod Mark
pub mod Index
pub mod Disk
pub mod Discard
pub mod Copy
pub mod Migrate
pub mod Keyed
pub mod Tiers
pub mod Evict
pub mod Purge
mod Tests
