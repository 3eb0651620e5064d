-- ===== src/Cache.antt =====
-- redis/cache.py: the client-side cache. `DefaultCache` is a record of its ordered dictionary and
-- its configuration; a method that may raise is an `Action`.
pub mod Policy
pub mod Config
pub mod Store
pub mod Bounds
pub mod Invalidation
pub mod Recency
pub mod Entries
mod Examples
