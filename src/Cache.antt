-- ===== src/Cache.antt =====
-- The per-sequence key/value caches: contiguous (include/engine/kv_cache.hpp) and paged
-- (include/engine/paged_kv_cache.hpp, src/kvcache/paged_kv_cache.cpp).
pub mod Contiguous
pub mod Paged
pub mod Blocks
pub mod Sides
pub mod Refines
pub mod Start
pub mod Tests
