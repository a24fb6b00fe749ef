-- ===== src/ChunkFlight.antt =====
-- server/middleware/caching/chunk_flight.go: callers that want ranges of one object share one fetch.
-- The flight of one key; flights of different keys share nothing but the map.
pub mod Flight
pub mod Union
pub mod Shared
mod Tests
