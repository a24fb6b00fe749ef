-- ===== src/Metadata.antt =====
-- api/defined/v1/storage/object: the metadata of a cached object, and the status of a cache hit.
pub mod Object
pub mod Complete
mod Tests
