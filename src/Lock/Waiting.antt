-- ===== src/Lock/Waiting.antt =====
-- redis/lock.py: the loop of `acquire`.
use redis_py.Common.{
  ℕ, ◌≡◌, ◌≢◌, refl, Bool, true, false, Option, none, some, Option-cases, Bool-cases, arith, inl,
  inr, List, [], ◌∷◌, ◌++◌, ◌+◌, ◌<◌, ap, not, ◌||◌, lt→ltb,
}
use redis_py.Common.Equality.{Eq}
use redis_py.Lock.KeyCommands.{Commands}
use redis_py.Lock.{
  Config, expiry, Round, Held, acquire_loop, do_acquire, owned, acquire, Config, expiry, Held,
  Round, gives_up, or_default, either, stop_trying_at,
}

module _ {Token : Type 0} ⦃e : Eq Token⦄ (server : Commands Token) where
  open server use {Db, get, set_nx, set_nx-free, set_nx-taken}

  taken : {b : Bool} → b ≡ false → b ≢ true
  taken h g = cc

  do_acquire-get :
      (c : Config) (t : Token) (d : Db)
      → (do_acquire server c t d).0 ≡ true
      → get (do_acquire server c t d).1 ≡ some t
  unfolding do_acquire
  do_acquire-get c t d h = elim (Option-cases (get d)) [
    | inl q ↦ (set_nx-free t (expiry c.timeout) d q).1
    | inr (u, q) ↦ elim (taken (ap (λ p. p.0) (set_nx-taken t u (expiry c.timeout) d q)) h) [ ]
  ]

  acquired-owned :
      (t : Token) (d : Db)
      → get d ≡ some t
      → owned server (record { db = d; token = some t }) ≡ true
  unfolding owned
  acquired-owned t d g = rw g (ground (arith, e.beq_iff t t))

  or_true : (b : Bool) → (b || true) ≡ true
  or_true true = refl
  or_true false = refl

  acquire_loop-owned :
      (c : Config) (t : Token) (sleep : ℕ) (blocking : Bool) (stop : Option ℕ)
      (rounds : List (Round server)) (s : Held server)
      → (acquire_loop server c t sleep blocking stop rounds s).0 ≡ some true
      → owned server (acquire_loop server c t sleep blocking stop rounds s).1 ≡ true
  unfolding acquire_loop
  acquire_loop-owned c t sleep blocking stop [] s =
      elim (Bool-cases (do_acquire server c t s.db).0) [
        | inl q ↦
            rw (acquire_loop, q)
              (λ h. acquired-owned t (do_acquire server c t s.db).1 (do_acquire-get c t s.db q))
        | inr q ↦ elim (Bool-cases blocking) [
          | inl y ↦ rw (acquire_loop, q, y) (λ h. cc)
          | inr y ↦ rw (acquire_loop, q, y) (λ h. cc)
        ]
      ]
  acquire_loop-owned c t sleep blocking stop (r ∷ rounds) s =
      elim (Bool-cases (do_acquire server c t s.db).0) [
        | inl q ↦
            rw (acquire_loop, q)
              (λ h. acquired-owned t (do_acquire server c t s.db).1 (do_acquire-get c t s.db q))
        | inr q ↦ elim (Bool-cases (not blocking || gives_up stop (r.now + sleep))) [
          | inl y ↦ rw (acquire_loop, q, y) (λ h. cc)
          | inr y ↦
              rw (acquire_loop, q, y)
                (acquire_loop-owned c t sleep blocking stop rounds
                  (record s { db = r.meanwhile (do_acquire server c t s.db).1 }))
        ]
      ]

  -- Where `acquire` returns `True`, whatever happened while it waited, the key holds the token of the
  -- thread: the thread owns the lock.
  pub acquire-owned :
      (c : Config) (sleep : Option ℕ) (blocking : Option Bool) (blocking_timeout : Option ℕ)
      (t : Token) (start : ℕ) (rounds : List (Round server)) (s : Held server)
      → (acquire server c sleep blocking blocking_timeout t start rounds s).0 ≡ some true
      → owned server (acquire server c sleep blocking blocking_timeout t start rounds s).1 ≡ true
  unfolding acquire
  acquire-owned c sleep blocking blocking_timeout t start rounds s =
      acquire_loop-owned c t (or_default sleep c.sleep) (or_default blocking c.blocking)
        (stop_trying_at start (either blocking_timeout c.blocking_timeout)) rounds s

  acquire_loop-ends :
      (c : Config) (t : Token) (sleep : ℕ) (blocking : Bool) (deadline : ℕ)
      (before rest : List (Round server)) (r : Round server) (s : Held server)
      → deadline < r.now + sleep
      → (acquire_loop server c t sleep blocking (some deadline) (before ++ r ∷ rest) s).0 ≢ none
  unfolding acquire_loop
  acquire_loop-ends c t sleep blocking deadline [] rest r s late =
      elim (Bool-cases (do_acquire server c t s.db).0) [
        | inl q ↦ rw (acquire_loop, q) (λ h. cc)
        | inr q ↦
            rw (acquire_loop, q, lt→ltb deadline (r.now + sleep) late, or_true (not blocking))
              (λ h. cc)
      ]
  acquire_loop-ends c t sleep blocking deadline (b ∷ before) rest r s late =
      elim (Bool-cases (do_acquire server c t s.db).0) [
        | inl q ↦ rw (acquire_loop, q) (λ h. cc)
        | inr q ↦ elim (Bool-cases (not blocking || gives_up (some deadline) (b.now + sleep))) [
          | inl y ↦ rw (acquire_loop, q, y) (λ h. cc)
          | inr y ↦
              rw (acquire_loop, q, y)
                (acquire_loop-ends c t sleep blocking deadline before rest r
                  (record s { db = b.meanwhile (do_acquire server c t s.db).1 }) late)
        ]
      ]

  -- With a blocking timeout `acquire` returns: at the latest in the round in which the clock, with the
  -- sleep that would come next, is past the start by more than the timeout.
  pub acquire-ends :
      (c : Config) (sleep : Option ℕ) (blocking : Option Bool) (timeout : ℕ) (t : Token) (start : ℕ)
      (before rest : List (Round server)) (r : Round server) (s : Held server)
      → start + timeout < r.now + or_default sleep c.sleep
      → (acquire server c sleep blocking (some timeout) t start (before ++ r ∷ rest) s).0 ≢ none
  unfolding acquire
  acquire-ends c sleep blocking timeout t start before rest r s late =
      acquire_loop-ends c t (or_default sleep c.sleep) (or_default blocking c.blocking)
        (start + timeout) before rest r s late
