-- ===== src/Retry.antt =====
-- redis/retry.py and redis/backoff.py. The times are integers in a unit of the caller's choice, and
-- `random` is a parameter. A `while True` that never ends is cut off by the list of attempts.
pub mod Backoff
pub mod Calls
mod Examples
