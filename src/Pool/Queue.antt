-- ===== src/Pool/Queue.antt =====
-- redis/connection.py: `BlockingConnectionPool`. `pool.get` and its waiting are one step: the queue that
-- the argument shows is what the pool finds when it stops waiting.
use Prim.Native.Nat.{◌≤◌}
use redis_py.Common.{
  ℕ, zero, suc, ◌<◌, ◌≤◌, ◌≡◌, refl, false, not, Bool-cases, List, [], ◌∷◌, Option, none, some, ltb,
  length, arith, All, ==_iff, inl, inr, if◌then◌else◌, max, lt→ltb, ap, sym, ◌∙◌, subst, true,
}
use redis_py.Common.Equality.{◌==◌, ℕ_Eq}
use redis_py.Common.Outcome.{Result, ok, err, Action, ◌>>=◌, ◌>>◌, continue}
use redis_py.Pool.Connection.{
  Connection, Process, Io, PoolError, ensure_ready, connection_error, full, child_deadlocked_error,
}

-- The queue newest first; `none` stands for a connection that is still to be made.
pub record BlockingConnectionPool : Type 0 where
  pub queue : List (Option Connection)
  pub connections : List Connection
  pub pid : ℕ
  pub made : ℕ

pub placeholders : ℕ → List (Option Connection)
placeholders zero = []
placeholders (suc n) = none ∷ placeholders n

unfoldable pub reset : ℕ → Process → BlockingConnectionPool → BlockingConnectionPool
reset max p s = record s { queue = placeholders max; connections = []; pid = p.pid }

unfoldable pub checkpid : ℕ → Process → Action PoolError BlockingConnectionPool (Unit {0})
checkpid max p s =
    if s.pid == p.pid
    then (ok tt, s)
    else if p.is_lock_acquired
    then (ok tt, reset max p s)
    else (err child_deadlocked_error, s)

unfoldable pub make_connection :
    Process → BlockingConnectionPool → Connection × BlockingConnectionPool
make_connection p s =
    let x : Connection = record { id = s.made; pid = p.pid } in
    (x, record s { connections = x ∷ s.connections; made = suc s.made })

-- `put_nowait`, and `Full` where there is no room
unfoldable pub put_nowait :
    ℕ → Option Connection → Action PoolError BlockingConnectionPool (Unit {0})
put_nowait max o s =
    if ltb (length s.queue) max then (ok tt, record s { queue = o ∷ s.queue }) else (err full, s)

-- A connection of another process leaves a placeholder; `Full` is dropped for one of this process.
unfoldable pub put_back : ℕ → Connection → Action PoolError BlockingConnectionPool (Unit {0})
put_back max x s =
    if not (x.pid == s.pid) then put_nowait max none s else (ok tt, (put_nowait max (some x) s).1)

unfoldable pub release :
    ℕ → Process → Connection → Action PoolError BlockingConnectionPool (Unit {0})
release max p x = do checkpid max p; put_back max x

unfoldable pub found :
    Process → List (Option Connection) → Action PoolError BlockingConnectionPool Connection
found p [] s = (err connection_error, s)
found p (none ∷ q) s = let (x, t) = make_connection p (record s { queue = q }) in (ok x, t)
found p (some x ∷ q) s = (ok x, record s { queue = q })

abbrev pub lend :
    ℕ
    → Process
    → Connection
    → Result PoolError (Unit {0})
    → Action PoolError BlockingConnectionPool Connection
lend max p x (ok _) s = (ok x, s)
lend max p x (err e) s = (err e, (release max p x s).1)

unfoldable pub get_connection :
    ℕ → Process → Io → Action PoolError BlockingConnectionPool Connection
get_connection max p io = do
  checkpid max p
  x ← λ s. found p s.queue s
  lend max p x (ensure_ready false io)

abbrev pub IsOwn : ℕ → Option Connection → Type 0
IsOwn pid none = Unit
IsOwn pid (some x) = x.pid ≡ pid

-- There are at most `max_connections` places, and the connections in them are of this process.
pub record IsQueue (max : ℕ) (s : BlockingConnectionPool) : Type 0 where
  pub bounded : length s.queue ≤ max
  pub own : All (IsOwn s.pid) s.queue

-- What `get_connection` makes of the queue `q`: a place less, or an error and as many places.
unfoldable pub IsServed :
    ℕ → List (Option Connection) → Result PoolError Connection × BlockingConnectionPool → Type 0
IsServed max q (ok x, t) = IsQueue max t × (suc (length t.queue) ≡ length q) × (x.pid ≡ t.pid)
IsServed max q (err e, t) = IsQueue max t × (length t.queue ≡ length q)

put_back-IsQueue :
    (max : ℕ) (x : Connection) (s : BlockingConnectionPool)
    → length s.queue < max
    → IsQueue max s
    → IsQueue max (put_back max x s).1 × (length (put_back max x s).1.queue ≡ suc (length s.queue))
unfolding put_back put_nowait
put_back-IsQueue max x s l h = elim (Bool-cases (x.pid == s.pid)) [
  | inl q ↦
      rw (put_back, put_nowait, q, lt→ltb (length s.queue) max l)
        (record { bounded = ground arith; own = ((==_iff x.pid s.pid).0 q, h.own) }, refl)
  | inr q ↦
      rw (put_back, put_nowait, q, lt→ltb (length s.queue) max l)
        (record { bounded = ground arith; own = (tt, h.own) }, refl)
]

lend-IsServed :
    (max : ℕ) (p : Process) (x : Connection) (o : Option Connection) (q : List (Option Connection))
    (r : Result PoolError (Unit {0})) (t : BlockingConnectionPool)
    → x.pid ≡ t.pid
    → t.pid ≡ p.pid
    → t.queue ≡ q
    → suc (length q) ≤ max
    → IsQueue max t
    → IsServed max (o ∷ q) (lend max p x r t)
unfolding IsServed release checkpid
lend-IsServed max p x o q (ok _) t own here e l h = (h, ap (λ l. suc (length l)) e, own)
lend-IsServed max p x o q (err _) t own here e l h =
    let (g, n) = put_back-IsQueue max x t (subst (λ r. suc (length r) ≤ max) (sym e) l) h in
    rw (release, checkpid, (==_iff t.pid p.pid).1 here) (g, n ∙ ap (λ r. suc (length r)) e)

shown :
    {max : ℕ} (s : BlockingConnectionPool) (q : List (Option Connection))
    → s.queue ≡ q
    → IsQueue max s
    → (length q ≤ max) × All (IsOwn s.pid) q
shown {max} s q e h =
    (subst (λ r. length r ≤ max) e h.bounded, subst (λ r. All (IsOwn s.pid) r) e h.own)

found-IsServed :
    (max : ℕ) (p : Process) (io : Io) (q : List (Option Connection)) (s : BlockingConnectionPool)
    → s.pid ≡ p.pid
    → s.queue ≡ q
    → IsQueue max s
    → IsServed max q
        (continue (found p q s).0 (λ x. lend max p x (ensure_ready false io)) (found p q s).1)
unfolding found make_connection IsServed
found-IsServed max p io [] s here e h = (h, ap length e)
found-IsServed max p io (none ∷ q) s here e h =
    let (l, own) = shown s (none ∷ q) e h in
    lend-IsServed max p (record { id = s.made; pid = p.pid }) none q (ensure_ready false io)
      (make_connection p (record s { queue = q })).1 (sym here) here refl l
      (record { bounded = ground arith; own = own.1 })
found-IsServed max p io (some x ∷ q) s here e h =
    let (l, own) = shown s (some x ∷ q) e h in
    lend-IsServed max p x (some x) q (ensure_ready false io) (record s { queue = q }) own.0 here
      refl l (record { bounded = ground arith; own = own.1 })

placeholders-places :
    (max pid : ℕ) → (length (placeholders max) ≡ max) × All (IsOwn pid) (placeholders max)
unfolding placeholders
placeholders-places zero pid = (refl, tt)
placeholders-places (suc n) pid = let (l, own) = placeholders-places n pid in (ap suc l, (tt, own))

reset-IsQueue : (max : ℕ) (p : Process) (s : BlockingConnectionPool) → IsQueue max (reset max p s)
unfolding reset
reset-IsQueue max p s =
    let (l, own) = placeholders-places max p.pid in
    record { bounded = ground (arith, l); own = own }

-- A queue of at most `max_connections` places, whose connections are of the pool's process, stays one
-- under `get_connection`, which takes from what `_checkpid` leaves: one place with a connection of
-- this process, or it raises and no place is lost, whatever the sockets answer and also after a
-- fork.
pub get_connection-IsServed :
    (max : ℕ) (p : Process) (io : Io) (s : BlockingConnectionPool)
    → IsQueue max s
    → IsServed max (checkpid max p s).1.queue (get_connection max p io s)
unfolding checkpid get_connection IsServed reset
get_connection-IsServed max p io s h = elim (Bool-cases (s.pid == p.pid)) [
  | inl q ↦
      rw (checkpid, get_connection, q)
        (found-IsServed max p io s.queue s ((==_iff s.pid p.pid).0 q) refl h)
  | inr q ↦ elim (Bool-cases p.is_lock_acquired) [
    | inl z ↦
        let free = record p { is_lock_acquired = true } in
        rw (checkpid, get_connection, q, z)
          (found-IsServed max free io (placeholders max) (reset max free s) refl refl
            (reset-IsQueue max free s))
    | inr z ↦ rw (checkpid, get_connection, q, z) (h, refl)
  ]
]
