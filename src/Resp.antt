-- ===== src/Resp.antt =====
-- The wire protocol: redis/connection.py (packing of commands) and redis/_parsers (socket buffer,
-- RESP2 parser, error replies).
pub mod Decimal
pub mod Encode
pub mod Errors
pub mod Parser
mod Examples
pub mod Resp3
pub mod Buffer
