-- ===== src/Cluster.antt =====
-- redis/cluster.py and redis/crc.py: the slot of a key, the node of a slot, and the redirections.
pub mod Slot
pub mod Balancer
pub mod Nodes
pub mod Moved
pub mod Initialize
pub mod Sections
pub mod Coverage
pub mod Startup
pub mod Execution
pub mod Redirections
pub mod Command
pub mod Attempts
mod Examples
