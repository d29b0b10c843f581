-- ===== src/Caching.antt =====
-- The two cache layers: caching/ and domain/interfaces/cache_store.py.
pub mod Hashing
pub mod Keys
pub mod ExactCache
pub mod SemanticCache
