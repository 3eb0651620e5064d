-- ===== src/Pool/Leases.antt =====
-- redis/connection.py: what `ConnectionPool` keeps true of the connections that it made.
use redis_py.Pool.Counts.{count, has→count, count-removed, length-removed, All-removed}
use redis_py.Common.Outcome.{Result, ok, err, continue}
use redis_py.Pool.Store.{
  Config, ConnectionPool, has, reset, owns_connection, put_back, handed, make_connection, popped,
  popped, added, checkpid, release, lend, get_connection,
}
use redis_py.Common.{
  ℕ, ◌+◌, ◌≤◌, ◌≡◌, refl, true, false, List, [], ◌∷◌, length, arith, All, ==_iff, inl, inr,
  Bool-cases, subst, sym, leb, leb→gt,
}
use redis_py.Common.Equality.{◌==◌, ℕ_Eq}
use redis_py.Pool.Connection.{Connection, Process, PoolError, Io, ensure_ready}

-- Every connection is idle or in use and not both, as many as were created, at most
-- `max_connections`, and each made by the process that the pool is in.
pub record IsPool (c : Config) (s : ConnectionPool) : Type 0 where
  pub once : (i : ℕ) → count i s.available + count i s.in_use ≤ 1
  pub old : (i : ℕ) → s.made ≤ i → count i s.available + count i s.in_use ≡ 0
  pub counted : length s.available + length s.in_use ≡ s.created
  pub bounded : s.created ≤ c.max_connections
  pub own_available : All (λ x. x.pid ≡ s.pid) s.available
  pub own_in_use : All (λ x. x.pid ≡ s.pid) s.in_use

reset-IsPool : (c : Config) (p : Process) (s : ConnectionPool) → IsPool c (reset p s)
unfolding reset count
reset-IsPool c p s = record {
  once = λ i. ground arith;
  old = λ i l. refl;
  counted = refl;
  bounded = ground arith;
  own_available = tt;
  own_in_use = tt;
}

put_back-IsPool :
    (c : Config) (x : Connection) (s : ConnectionPool)
    → (has x.id s.in_use ≡ true → x.pid ≡ s.pid)
    → IsPool c s
    → IsPool c (put_back x s)
unfolding count put_back owns_connection
put_back-IsPool c x s o h = elim (Bool-cases (has x.id s.in_use)) [
  | inl q ↦
      rw (put_back, owns_connection, q, (==_iff x.pid s.pid).1 (o q))
        record {
          once = λ i. ground (arith, h.once i, count-removed i x.id s.in_use q);
          old = λ i l. ground (arith, h.old i l, count-removed i x.id s.in_use q);
          counted = ground (arith, h.counted, length-removed x.id s.in_use q);
          bounded = h.bounded;
          own_available = (o q, h.own_available);
          own_in_use = All-removed (λ y. y.pid ≡ s.pid) x.id s.in_use h.own_in_use;
        }
  | inr q ↦ rw (put_back, q) h
]

idle-has :
    (x : Connection) (xs in_use : List Connection)
    → count x.id (x ∷ xs) + count x.id in_use ≤ 1
    → has x.id in_use ≡ false
unfolding count
idle-has x xs in_use h = elim (Bool-cases (has x.id in_use)) [
  | inl q ↦ ground (arith, has→count x.id in_use q, ==_iff x.id x.id)
  | inr q ↦ q
]

-- What `popped` gives: a connection that was not in use, or an error.
IsTaken : Config → ConnectionPool → Result PoolError Connection × ConnectionPool → Type 0
IsTaken c s (ok x, t) = IsPool c (handed x t) × (has x.id s.in_use ≡ false) × (x.pid ≡ t.pid)
IsTaken c s (err e, t) = IsPool c t

made-has : (c : Config) (s : ConnectionPool) → IsPool c s → has s.made s.in_use ≡ false
made-has c s h = elim (Bool-cases (has s.made s.in_use)) [
  | inl q ↦ ground (arith, has→count s.made s.in_use q, h.old s.made)
  | inr q ↦ q
]

made-IsTaken :
    (c : Config) (p : Process) (s : ConnectionPool)
    → s.pid ≡ p.pid
    → IsPool c s
    → IsTaken c s (make_connection c p s)
unfolding IsTaken count make_connection
made-IsTaken c p s o h = elim (Bool-cases (leb c.max_connections s.created)) [
  | inl q ↦ rw (make_connection, q) h
  | inr q ↦
      rw (make_connection, q, made-has c s h)
        (
          record {
            once = λ i. ground (arith, h.once i, h.old i, ==_iff s.made i);
            old = λ i l. ground (arith, h.old i, ==_iff s.made i);
            counted = ground (arith, h.counted);
            bounded = leb→gt c.max_connections s.created q;
            own_available = h.own_available;
            own_in_use = (sym o, h.own_in_use);
          },
          refl,
          sym o,
        )
]

popped-IsTaken :
    (c : Config) (p : Process) (cs : List Connection) (s : ConnectionPool)
    → s.pid ≡ p.pid
    → cs ≡ s.available
    → IsPool c s
    → IsTaken c s (popped c p cs s)
unfolding IsTaken count popped
popped-IsTaken c p [] s o e h = made-IsTaken c p s o h
popped-IsTaken c p (x ∷ xs) s o e h =
    let own = subst (λ l. All (λ y. y.pid ≡ s.pid) l) (sym e) h.own_available in
    let n =
      idle-has x xs s.in_use
        (subst (λ l. count x.id l + count x.id s.in_use ≤ 1) (sym e) (h.once x.id)) in
    (
      rw n record {
        once =
            λ i. ground (arith, subst (λ l. count i l + count i s.in_use ≤ 1) (sym e) (h.once i));
        old = λ i l.
            ground (arith, subst (λ a. count i a + count i s.in_use ≡ 0) (sym e) (h.old i l));
        counted =
            ground (arith, subst (λ l. length l + length s.in_use ≡ s.created) (sym e) h.counted);
        bounded = h.bounded;
        own_available = own.1;
        own_in_use = (own.0, h.own_in_use);
      },
      n,
      own.0,
    )

checkpid-IsPool :
    (c : Config) (p : Process) (s : ConnectionPool) → IsPool c s → IsPool c (checkpid p s).1
unfolding checkpid reset
checkpid-IsPool c p s h = elim (Bool-cases (s.pid == p.pid)) [
  | inl q ↦ rw (checkpid, q) h
  | inr q ↦ elim (Bool-cases p.is_lock_acquired) [
    | inl z ↦ rw (checkpid, q, z) (reset-IsPool c p s)
    | inr z ↦ rw (checkpid, q, z) h
  ]
]

-- `release` keeps the pool well-formed, whether the connection is one of the pool's, is given back a
-- second time, or belongs to no pool or to the parent process: where its number is in use, it is the
-- connection of this process.
pub release-IsPool :
    (c : Config) (p : Process) (x : Connection) (s : ConnectionPool)
    → (has x.id s.in_use ≡ true → x.pid ≡ s.pid)
    → IsPool c s
    → IsPool c (release p x s).1
unfolding release checkpid reset has
release-IsPool c p x s o h = elim (Bool-cases (s.pid == p.pid)) [
  | inl q ↦ rw (release, checkpid, q) (put_back-IsPool c x s o h)
  | inr q ↦ elim (Bool-cases p.is_lock_acquired) [
    | inl z ↦
        rw (release, checkpid, q, z)
          (put_back-IsPool c x (reset p s) (λ e. cc) (reset-IsPool c p s))
    | inr z ↦ rw (release, checkpid, q, z) h
  ]
]

-- What `get_connection` gives: a connection that is in use from now on and was not before, or an
-- error.
unfoldable pub IsLent :
    Config → ConnectionPool → Result PoolError Connection × ConnectionPool → Type 0
IsLent c s (ok x, t) =
    IsPool c t
    × (has x.id s.in_use ≡ false)
    × (has x.id t.in_use ≡ true)
    × (has x.id t.available ≡ false)
IsLent c s (err e, t) = IsPool c t

has-added : (x : Connection) (cs : List Connection) → has x.id (added x cs) ≡ true
unfolding has
has-added x cs = elim (Bool-cases (has x.id cs)) [
  | inl q ↦ rw q q
  | inr q ↦ rw q (ground (arith, ==_iff x.id x.id))
]

lent-idle :
    (c : Config) (i : ℕ) (s : ConnectionPool)
    → IsPool c s
    → has i s.in_use ≡ true
    → has i s.available ≡ false
lent-idle c i s h q = elim (Bool-cases (has i s.available)) [
  | inl e ↦ ground (arith, h.once i, has→count i s.available e, has→count i s.in_use q)
  | inr e ↦ e
]

lend-IsLent :
    (c : Config) (p : Process) (x : Connection) (r : Result PoolError (Unit {0}))
    (s t : ConnectionPool)
    → x.pid ≡ t.pid
    → has x.id s.in_use ≡ false
    → IsPool c (handed x t)
    → IsLent c s (lend p x r (handed x t))
unfolding IsLent
lend-IsLent c p x (ok _) s t o n h =
    (h, n, has-added x t.in_use, lent-idle c x.id (handed x t) h (has-added x t.in_use))
lend-IsLent c p x (err e) s t o n h = release-IsPool c p x (handed x t) (λ _. o) h

continue-IsLent :
    (c : Config) (p : Process) (io : Io) (s : ConnectionPool)
    (m : Result PoolError Connection × ConnectionPool)
    → IsTaken c s m
    → IsLent c s (continue m.0 (λ x t. lend p x (ensure_ready c.has_cache io) (handed x t)) m.1)
unfolding IsTaken IsLent
continue-IsLent c p io s (ok x, t) (h, n, o) =
    lend-IsLent c p x (ensure_ready c.has_cache io) s t o n h
continue-IsLent c p io s (err e, t) h = h

-- `get_connection` keeps a well-formed pool well-formed, whatever the sockets answer and also after a
-- fork: a connection that it returns was not in use in the pool that `_checkpid` leaves, is now in
-- use and not idle.
pub get_connection-IsLent :
    (c : Config) (p : Process) (io : Io) (s : ConnectionPool)
    → IsPool c s
    → IsLent c (checkpid p s).1 (get_connection c p io s)
unfolding checkpid get_connection reset IsLent
get_connection-IsLent c p io s h = elim (Bool-cases (s.pid == p.pid)) [
  | inl q ↦
      rw (checkpid, get_connection, q)
        (continue-IsLent c p io s (popped c p s.available s)
          (popped-IsTaken c p s.available s ((==_iff s.pid p.pid).0 q) refl h))
  | inr q ↦ elim (Bool-cases p.is_lock_acquired) [
    | inl z ↦
        let free = record p { is_lock_acquired = true } in
        rw (checkpid, get_connection, q, z)
          (continue-IsLent c free io (reset free s) (popped c free [] (reset free s))
            (popped-IsTaken c free [] (reset free s) refl refl (reset-IsPool c free s)))
    | inr z ↦ rw (checkpid, get_connection, q, z) h
  ]
]
