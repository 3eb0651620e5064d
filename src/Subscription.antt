-- ===== src/Subscription.antt =====
-- redis/client.py: `PubSub`.
pub mod Client
pub mod Tables
pub mod Server
mod Examples
