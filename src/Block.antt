-- ===== src/Block.antt =====
-- The KV-cache block subsystem, TokenSim/block/*.py: one module for each source file.
pub mod Physical
pub mod FreeQueue
pub mod Pool
pub mod Allocator
pub mod PrefixCache
pub mod Table
pub mod CacheManager
pub mod Manager
