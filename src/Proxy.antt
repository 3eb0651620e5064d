-- ===== src/Proxy.antt =====
-- redis/connection.py: `CacheProxyConnection`, the connection that answers from the client-side cache.
-- All proxies of a pool share one cache, and each has a connection of its own.
pub mod Connection
pub mod Server
pub mod Invalidations
pub mod Coherence
pub mod Sending
pub mod Reading
pub mod Remembering
pub mod Transfer
pub mod Execution
pub mod Asking
pub mod Answers
pub mod Histories
pub mod Hazards
mod Examples
