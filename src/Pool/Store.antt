-- ===== src/Pool/Store.antt =====
-- redis/connection.py: `ConnectionPool`. The event that `release` dispatches and the closing of sockets are
-- left out.
use redis_py.Common.{ℕ, suc, Bool, true, false, List, [], ◌∷◌, leb, if◌then◌else◌}
use redis_py.Common.Equality.{◌==◌, ℕ_Eq}
use redis_py.Common.Outcome.{Result, ok, err, Action, ◌>>=◌, ◌>>◌}
use redis_py.Pool.Connection.{
  Connection, Process, Io, PoolError, ensure_ready, connection_error, child_deadlocked_error,
}

pub record Config : Type 0 where
  pub max_connections : ℕ
  pub has_cache : Bool

-- `_available_connections` newest first, the end that `append` and `pop` work on. `made` counts the
-- connection objects that the constructor was called for: it names the next one.
pub record ConnectionPool : Type 0 where
  pub created : ℕ
  pub available : List Connection
  pub in_use : List Connection
  pub pid : ℕ
  pub made : ℕ

-- `connection in xs`, for objects that are equal only to themselves
unfoldable pub has : ℕ → List Connection → Bool
has i [] = false
has i (c ∷ cs) = if c.id == i then true else has i cs

unfoldable pub removed : ℕ → List Connection → List Connection
removed i [] = []
removed i (c ∷ cs) = if c.id == i then cs else c ∷ removed i cs

abbrev pub added : Connection → List Connection → List Connection
added c cs = if has c.id cs then cs else c ∷ cs

unfoldable pub reset : Process → ConnectionPool → ConnectionPool
reset p s = record s { created = 0; available = []; in_use = []; pid = p.pid }

unfoldable pub checkpid : Process → Action PoolError ConnectionPool (Unit {0})
checkpid p s =
    if s.pid == p.pid
    then (ok tt, s)
    else if p.is_lock_acquired
    then (ok tt, reset p s)
    else (err child_deadlocked_error, s)

unfoldable pub make_connection : Config → Process → Action PoolError ConnectionPool Connection
make_connection c p s = if leb c.max_connections s.created then (err connection_error, s) else (
  ok (record { id = s.made; pid = p.pid }),
  record s { created = suc s.created; made = suc s.made },
)

unfoldable pub owns_connection : Connection → ConnectionPool → Bool
owns_connection c s = c.pid == s.pid

-- The connection that the pool does not own is disconnected and dropped.
unfoldable pub put_back : Connection → ConnectionPool → ConnectionPool
put_back c s =
    let kept = record s { in_use = removed c.id s.in_use } in
    if has c.id s.in_use
    then if owns_connection c s then record kept { available = c ∷ s.available } else kept
    else s

unfoldable pub release : Process → Connection → Action PoolError ConnectionPool (Unit {0})
release p c = do checkpid p; λ s. (ok tt, put_back c s)

-- the pool after the newest idle connection is taken from it
abbrev pub taken : List Connection → ConnectionPool → ConnectionPool
taken xs s = record s { available = xs }

-- `_available_connections.pop()`, or a new connection
unfoldable pub popped :
    Config → Process → List Connection → Action PoolError ConnectionPool Connection
popped c p [] s = make_connection c p s
popped c p (x ∷ xs) s = (ok x, taken xs s)

-- `_in_use_connections.add(connection)`
abbrev pub handed : Connection → ConnectionPool → ConnectionPool
handed x s = record s { in_use = added x s.in_use }

-- The connection goes back to the pool where an error is raised.
abbrev pub lend :
    Process → Connection → Result PoolError (Unit {0}) → Action PoolError ConnectionPool Connection
lend p c (ok _) s = (ok c, s)
lend p c (err e) s = (err e, (release p c s).1)

unfoldable pub get_connection : Config → Process → Io → Action PoolError ConnectionPool Connection
get_connection c p io = do
  checkpid p
  x ← λ s. popped c p s.available s
  λ s. lend p x (ensure_ready c.has_cache io) (handed x s)
