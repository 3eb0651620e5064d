-- ===== src/Commands.antt =====
-- redis/commands/core.py and redis/utils.py: the words of commands.
pub mod Expiry
mod Examples
