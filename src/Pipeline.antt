-- ===== src/Pipeline.antt =====
-- redis/client.py: `Pipeline`. A command names what the client watches for; replies, and what becomes of
-- them (the response callbacks), belong to the caller and the server and are parameters.
pub mod State
pub mod Calls
pub mod Transaction
pub mod Execute
pub mod Merged
pub mod Watched
pub mod Attempts
pub mod Retries
pub mod Safety
pub mod Finally
mod Examples
