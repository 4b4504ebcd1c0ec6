-- ===== src/Cache.antt =====
-- src/ds: the caches. `Status` is CacheStatus, `Lru` LRU_Cache, `Hashed` HashLRU_Cache.
pub mod Status
pub mod Lru
pub mod Hashed
pub mod Timed
mod Tests
