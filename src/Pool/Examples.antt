-- ===== src/Pool/Examples.antt =====
-- Two pools that hand out their connections.
use redis_py.Pool.Counts.{count}
use redis_py.Common.{ℕ, ◌≡◌, refl, true, false, none, some, [], ◌∷◌, arith, length}
use redis_py.Common.Outcome.{ok, err}
use redis_py.Pool.Connection.{Connection, Process, Io, timeout_error, ensure_ready}
use redis_py.Pool.Store
use redis_py.Pool.Store.{ConnectionPool, Config, has}
use redis_py.Pool.Leases.{IsPool, get_connection-IsLent, IsLent}
use redis_py.Pool.Queue
use redis_py.Pool.Queue.{BlockingConnectionPool, IsQueue, get_connection-IsServed}

abbrev config : Config
config = record { max_connections = 2; has_cache = false }

abbrev process : Process
process = record { pid = 40; is_lock_acquired = true }

abbrev child : Process
child = record { pid = 41; is_lock_acquired = true }

abbrev conn : ℕ → Connection
conn i = record { id = i; pid = 40 }

-- Data are left on the connection, and the second connection attempt times out.
abbrev io : Io
io = record {
  connect = ok tt;
  can_read = ok true;
  connect_again = err timeout_error;
  can_read_again = ok false;
}

abbrev quiet : Io
quiet = record {
  connect = ok tt;
  can_read = ok false;
  connect_again = ok tt;
  can_read_again = ok false;
}

abbrev pool : ConnectionPool
pool = record { created = 2; available = conn 1 ∷ []; in_use = conn 0 ∷ []; pid = 40; made = 2 }

pool-IsPool : IsPool config pool
unfolding count
pool-IsPool = record {
  once = λ i. ground arith;
  old = λ i l. ground arith;
  counted = refl;
  bounded = ground arith;
  own_available = (refl, tt);
  own_in_use = (refl, tt);
}

get_connection-IsLent_example :
    IsPool config (Store.get_connection config process quiet pool).1
    × (has 1 (conn 0 ∷ []) ≡ false)
    × (has 1 (Store.get_connection config process quiet pool).1.in_use ≡ true)
    × (has 1 (Store.get_connection config process quiet pool).1.available ≡ false)
unfolding IsLent Store.get_connection Store.checkpid Store.popped ensure_ready
get_connection-IsLent_example = get_connection-IsLent config process quiet pool pool-IsPool

abbrev blocking_pool : BlockingConnectionPool
blocking_pool = record {
  queue = some (conn 0) ∷ none ∷ [];
  connections = conn 0 ∷ [];
  pid = 40;
  made = 1;
}

get_connection-IsServed_example :
    IsQueue 2 (Queue.get_connection 2 process io blocking_pool).1
    × (length (Queue.get_connection 2 process io blocking_pool).1.queue ≡ 2)
unfolding Queue.IsServed Queue.get_connection Queue.checkpid Queue.found ensure_ready
get_connection-IsServed_example =
    get_connection-IsServed 2 process io blocking_pool
      (record { bounded = ground arith; own = (refl, (tt, tt)) })
