-- ===== src/CacheControl.antt =====
-- pkg/x/http/cachecontrol: what the directives of a Cache-Control header say.
pub mod Directives
pub mod Cacheable
mod Tests
