-- ===== src/Cache.antt =====
-- The two-tier object cache, internal/cache.
pub mod Meta
pub mod Shard
pub mod Ring
pub mod Ram
pub mod Tier
pub mod Router
pub mod Disk
