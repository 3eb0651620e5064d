-- ===== src/Pool/Connection.antt =====
-- redis/connection.py: what a pool asks of a connection before it hands it out, and of the process.
use redis_py.Common.{ℕ, Bool, true, false, if◌then◌else◌}
use redis_py.Common.Equality.{ℕ_Eq}
use redis_py.Common.Outcome.{Result, ok, err}

pub data PoolError : Type 0 where
  connection_error timeout_error os_error other_error child_deadlocked_error full : PoolError

-- A connection object, with its identity and the process that made it.
pub record Connection : Type 0 where
  pub id : ℕ
  pub pid : ℕ

-- What `os.getpid()` answers, and whether `_fork_lock` is acquired within five seconds.
pub record Process : Type 0 where
  pub pid : ℕ
  pub is_lock_acquired : Bool

-- What the sockets answer to `connect`, `can_read`, and both again after `disconnect`.
pub record Io : Type 0 where
  pub connect : Result PoolError (Unit {0})
  pub can_read : Result PoolError Bool
  pub connect_again : Result PoolError (Unit {0})
  pub can_read_again : Result PoolError Bool

-- `except (ConnectionError, TimeoutError, OSError)`
abbrev is_caught : PoolError → Bool
is_caught connection_error = true
is_caught timeout_error = true
is_caught os_error = true
is_caught other_error = false
is_caught child_deadlocked_error = false
is_caught full = false

abbrev read_again : Result PoolError Bool → Result PoolError (Unit {0})
read_again (ok true) = err connection_error
read_again (ok false) = ok tt
read_again (err e) = err e

abbrev reconnect : Io → Result PoolError (Unit {0})
reconnect io = elim io.connect_again [ ok _ ↦ read_again io.can_read_again | err e ↦ err e ]

-- A connection with data to read is not ready; the pool with a cache lets that pass.
abbrev check_ready : Bool → Io → Result PoolError Bool → Result PoolError (Unit {0})
check_ready has_cache io (ok true) = if has_cache then ok tt else reconnect io
check_ready has_cache io (ok false) = ok tt
check_ready has_cache io (err e) = if is_caught e then reconnect io else err e

-- The part of `get_connection` that both pools have, up to the handler that releases.
unfoldable pub ensure_ready : Bool → Io → Result PoolError (Unit {0})
ensure_ready has_cache io = elim io.connect [
  | ok _ ↦ check_ready has_cache io io.can_read
  | err e ↦ err e
]
