-- ===== src/Manager.antt =====
-- include/engine/block_manager.hpp and src/kvcache/block_manager.cpp: one physical pool of K/V
-- blocks that serves many sequences, with prefix caching.
pub mod State
pub mod Hash
pub mod Prefix
pub mod Evict
pub mod Pool
pub mod Store
pub mod Owned
pub mod Tests
