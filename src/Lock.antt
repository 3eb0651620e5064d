-- ===== src/Lock.antt =====
-- redis/lock.py: `Lock`. The server is a parameter: its commands on the key of the lock, with the
-- behaviour that the Redis documentation gives them. The Lua scripts are translated from their text.
-- Times are counted in microseconds, and those that go to the server in milliseconds. A timeout below
-- a millisecond, for which the server would refuse PX 0, and a thread without a token of its own, whose
-- methods would raise AttributeError, are left out.
pub mod KeyCommands
pub mod Safety
pub mod Exclusion
pub mod Waiting
mod Examples
use redis_py.Common.{
  ℕ, ◌+◌, ◌/◌, Bool, true, false, not, ◌||◌, Option, none, some, List, [], ◌∷◌, ltb, if◌then◌else◌,
}
use redis_py.Common.Equality.{Eq, ◌==◌, ℕ_Eq}
use redis_py.Common.Outcome.{Result, ok, err, Action, pure, raise, ◌>>=◌, ◌>>◌}
use KeyCommands.{Commands, Ttl, missing, persistent, left}

pub data LockError : Type 0 where
  lock_error lock_not_owned : LockError

pub record Config : Type 0 where
  pub timeout : Option ℕ
  pub sleep : ℕ
  pub blocking : Bool
  pub blocking_timeout : Option ℕ
  pub raise_on_release_error : Bool

abbrev pub milliseconds : ℕ → ℕ
milliseconds t = t / 1000

-- `if self.timeout:` is false at `None` and at zero
abbrev pub expiry : Option ℕ → Option ℕ
expiry none = none
expiry (some t) = if t == 0 then none else some (milliseconds t)

abbrev pub gives_up : Option ℕ → ℕ → Bool
gives_up none next_try_at = false
gives_up (some stop_trying_at) next_try_at = ltb stop_trying_at next_try_at

abbrev pub or_default {ℓ} : {A : Type ℓ} → Option A → A → A
or_default none a = a
or_default (some b) a = b

abbrev pub either : Option ℕ → Option ℕ → Option ℕ
either none o = o
either (some b) o = some b

abbrev pub stop_trying_at : ℕ → Option ℕ → Option ℕ
stop_trying_at start none = none
stop_trying_at start (some b) = some (start + b)

module _ {Token : Type 0} ⦃e : Eq Token⦄ (server : Commands Token) where
  open server use {Db, get, set_nx, del, pttl, pexpire}

  -- The database, and the token in `self.local` of one thread.
  pub record Held : Type 0 where
    pub db : Db
    pub token : Option Token

  -- `not token or token ~= ARGV[1]`
  abbrev pub is_other : Option Token → Token → Bool
  is_other none t = true
  is_other (some u) t = not (u == t)

  -- LUA_RELEASE_SCRIPT
  unfoldable pub lua_release : Token → Db → Bool × Db
  lua_release t d = if is_other (get d) t then (false, d) else (true, del d)

  -- the new time to live, with "0" or "1" for `replace`
  abbrev pub extended : Ttl → ℕ → Bool → Option ℕ
  extended missing additional replace = none
  extended persistent additional replace = none
  extended (left expiration) additional replace =
      some (if replace then additional else additional + expiration)

  abbrev pub expire_in : Option ℕ → Db → Bool × Db
  expire_in none d = (false, d)
  expire_in (some n) d = (true, pexpire n d)

  -- LUA_EXTEND_SCRIPT
  unfoldable pub lua_extend : Token → ℕ → Bool → Db → Bool × Db
  lua_extend t additional replace d =
      if is_other (get d) t then (false, d) else expire_in (extended (pttl d) additional replace) d

  -- LUA_REACQUIRE_SCRIPT
  unfoldable pub lua_reacquire : Token → ℕ → Db → Bool × Db
  lua_reacquire t n d = if is_other (get d) t then (false, d) else (true, pexpire n d)

  unfoldable pub do_acquire : Config → Token → Db → Bool × Db
  do_acquire c t d = set_nx t (expiry c.timeout) d

  unfoldable pub locked : Held → Bool
  locked s = elim (get s.db) [ none ↦ false | some t ↦ true ]

  -- `stored_token == self.local.token`, where there is a local token
  abbrev pub holds : Option Token → Option Token → Bool
  holds none stored = false
  holds (some t) stored = not (is_other stored t)

  unfoldable pub owned : Held → Bool
  owned s = holds s.token (get s.db)

  unfoldable pub answered :
      LockError → (Bool × Db) → Option Token → Result LockError (Unit {0}) × Held
  answered x (true, d) t = (ok tt, record { db = d; token = t })
  answered x (false, d) t = (err x, record { db = d; token = t })

  -- The token is forgotten before the script runs.
  unfoldable pub release : Action LockError Held (Unit {0})
  unfolding answered
  release s = elim s.token [
    | none ↦ (err lock_error, s)
    | some t ↦ answered lock_not_owned (lua_release t s.db) none
  ]

  unfoldable pub extend : Config → ℕ → Bool → Action LockError Held (Unit {0})
  unfolding answered
  extend c additional_time replace_ttl s = elim s.token [
    | none ↦ (err lock_error, s)
    | some t ↦ elim c.timeout [
      | none ↦ (err lock_error, s)
      | some _ ↦
          answered lock_not_owned (lua_extend t (milliseconds additional_time) replace_ttl s.db)
            (some t)
    ]
  ]

  unfoldable pub reacquire : Config → Action LockError Held (Unit {0})
  unfolding answered
  reacquire c s = elim s.token [
    | none ↦ (err lock_error, s)
    | some t ↦ elim c.timeout [
      | none ↦ (err lock_error, s)
      | some timeout ↦
          answered lock_not_owned (lua_reacquire t (milliseconds timeout) s.db) (some t)
    ]
  ]

  -- `__exit__`: with `raise_on_release_error` off, the error of `release` is logged and dropped.
  unfoldable pub exit : Config → Action LockError Held (Unit {0})
  exit c s = ((if c.raise_on_release_error then (release s).0 else ok tt), (release s).1)

  -- What happens between two attempts: the clock that is read after a failure, and what time and the
  -- other clients make of the database during the sleep.
  pub record Round : Type 0 where
    pub now : ℕ
    pub meanwhile : Db → Db

  -- The loop of `acquire`, over the rounds of waiting that there are; `none` when it still waits after
  -- the last one.
  unfoldable pub acquire_loop :
      Config → Token → ℕ → Bool → Option ℕ → List Round → Held → Option Bool × Held
  acquire_loop c t sleep blocking stop [] s =
      let d = (do_acquire c t s.db).1 in
      if (do_acquire c t s.db).0
      then (some true, record { db = d; token = some t })
      else ((if blocking then none else some false), record s { db = d })
  acquire_loop c t sleep blocking stop (r ∷ rounds) s =
      let d = (do_acquire c t s.db).1 in
      let rest = acquire_loop c t sleep blocking stop rounds (record s { db = r.meanwhile d }) in
      if (do_acquire c t s.db).0
      then (some true, record { db = d; token = some t })
      else if not blocking || gives_up stop (r.now + sleep)
      then (some false, record s { db = d })
      else rest

  -- `acquire`: `start` is the first reading of the clock, and `token` the argument or a new UUID.
  unfoldable pub acquire :
      Config
      → Option ℕ
      → Option Bool
      → Option ℕ
      → Token
      → ℕ
      → List Round
      → Held
      → Option Bool × Held
  unfolding acquire_loop
  acquire c sleep blocking blocking_timeout token start rounds s =
      acquire_loop c token (or_default sleep c.sleep) (or_default blocking c.blocking)
        (stop_trying_at start (either blocking_timeout c.blocking_timeout)) rounds s
