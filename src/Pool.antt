-- ===== src/Pool.antt =====
-- redis/connection.py: `ConnectionPool` and `BlockingConnectionPool`. The sockets are a parameter: what
-- the calls of a connection answer stands in an argument, `Io`.
pub mod Connection
pub mod Store
pub mod Counts
pub mod Leases
pub mod Queue
mod Examples
