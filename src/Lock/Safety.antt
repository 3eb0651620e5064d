-- ===== src/Lock/Safety.antt =====
-- redis/lock.py: what a call of one thread does to a key that holds its token, or the token of another.
use redis_py.Common.{
  ℕ, ◌≡◌, ◌≢◌, refl, sym, ◌∙◌, Bool, true, false, Option, none, some, Option-cases, Bool-cases,
  arith, inl, inr, ap, [],
}
use redis_py.Common.Equality.{Eq, ◌==◌, ℕ_Eq}
use redis_py.Common.Outcome.{ok, err}
use redis_py.Lock.KeyCommands.{Commands}
use redis_py.Lock.{
  answered, is_other, Config, Held, exit, expiry, acquire_loop, acquire, milliseconds,
  lock_not_owned,
}
unfoldable use redis_py.Lock.{
  release, extend, reacquire, do_acquire, lua_release, lua_extend, lua_reacquire,
}

-- The calls of a thread.
pub data Call (Token : Type 0) : Type 0 where
  acquires : Config → Token → Call Token
  releases : Call Token
  extends : Config → ℕ → Bool → Call Token
  reacquires : Config → Call Token
  exits : Config → Call Token

module _ {Token : Type 0} ⦃e : Eq Token⦄ (server : Commands Token) where
  open server use {Db, get, set_nx, del, get-del, set_nx-free, set_nx-taken}

  is_other_self : (t : Token) → is_other server (some t) t ≡ false
  is_other_self t = ground (arith, e.beq_iff t t)

  is_other-≢ : (o : Option Token) (t : Token) → o ≢ some t → is_other server o t ≡ true
  is_other-≢ none t h = refl
  is_other-≢ (some u) t h = elim (Bool-cases (u == t)) [
    | inl q ↦ elim (h (ap some ((e.beq_iff u t).0 q))) [ ]
    | inr q ↦ rw q refl
  ]

  -- The three scripts leave the server as it is where the key does not hold the token they are given.
  lua_release-other : (t : Token) (d : Db) → get d ≢ some t → lua_release server t d ≡ (false, d)
  unfolding lua_release
  lua_release-other t d h = rw (is_other-≢ (get d) t h) refl

  lua_extend-other :
      (t : Token) (n : ℕ) (r : Bool) (d : Db)
      → get d ≢ some t
      → lua_extend server t n r d ≡ (false, d)
  unfolding lua_extend
  lua_extend-other t n r d h = rw (is_other-≢ (get d) t h) refl

  lua_reacquire-other :
      (t : Token) (n : ℕ) (d : Db) → get d ≢ some t → lua_reacquire server t n d ≡ (false, d)
  unfolding lua_reacquire
  lua_reacquire-other t n d h = rw (is_other-≢ (get d) t h) refl

  -- A token that is not `u` is not what the key with `u` holds.
  other :
      {t u : Token} {d : Db} {o : Option Token}
      → get d ≡ some u
      → o ≢ some u
      → o ≡ some t
      → get d ≢ some t
  other g n q h = n (q ∙ sym h ∙ g)

  -- The release of a thread whose token the key does not hold fails, and leaves the server as it is.
  pub release-not_owner :
      (t : Token) (s : Held server)
      → s.token ≡ some t
      → get s.db ≢ some t
      → release server s ≡ (err lock_not_owned, record { db = s.db; token = none })
  unfolding release answered
  release-not_owner t s q h = rw (q, lua_release-other t s.db h) refl

  release-others :
      (u : Token) (s : Held server)
      → get s.db ≡ some u
      → s.token ≢ some u
      → ((release server s).1.db ≡ s.db) × ((release server s).1.token ≢ some u)
  unfolding release answered
  release-others u s g n = elim (Option-cases s.token) [
    | inl q ↦ rw q (refl, λ h. n (q ∙ h))
    | inr (t, q) ↦ rw (q, lua_release-other t s.db (other g n q)) (refl, λ h. cc)
  ]

  extend-others :
      (u : Token) (c : Config) (k : ℕ) (r : Bool) (s : Held server)
      → get s.db ≡ some u
      → s.token ≢ some u
      → ((extend server c k r s).1.db ≡ s.db) × ((extend server c k r s).1.token ≢ some u)
  unfolding extend answered
  extend-others u c k r s g n = elim (Option-cases s.token) [
    | inl q ↦ rw q (refl, λ h. n (q ∙ h))
    | inr (t, q) ↦ elim (Option-cases c.timeout) [
      | inl z ↦ rw (q, z) (refl, λ h. n (q ∙ h))
      | inr (y, z) ↦
          rw (q, z, lua_extend-other t (milliseconds k) r s.db (other g n q)) (refl, λ h. n (q ∙ h))
    ]
  ]

  reacquire-others :
      (u : Token) (c : Config) (s : Held server)
      → get s.db ≡ some u
      → s.token ≢ some u
      → ((reacquire server c s).1.db ≡ s.db) × ((reacquire server c s).1.token ≢ some u)
  unfolding reacquire answered
  reacquire-others u c s g n = elim (Option-cases s.token) [
    | inl q ↦ rw q (refl, λ h. n (q ∙ h))
    | inr (t, q) ↦ elim (Option-cases c.timeout) [
      | inl z ↦ rw (q, z) (refl, λ h. n (q ∙ h))
      | inr (y, z) ↦
          rw (q, z, lua_reacquire-other t (milliseconds y) s.db (other g n q))
            (refl, λ h. n (q ∙ h))
    ]
  ]

  -- The release of the thread whose token the key holds succeeds, frees the key, and forgets the
  -- token.
  pub release-owner :
      (t : Token) (s : Held server)
      → s.token ≡ some t
      → get s.db ≡ some t
      → ((release server s).0 ≡ ok tt)
        × (get (release server s).1.db ≡ none)
        × ((release server s).1.token ≡ none)
  unfolding release lua_release answered
  release-owner t s h g = rw (h, g, is_other_self t) (refl, get-del s.db, refl)

  -- Each is one step of the thread; an attempt of `acquire` is one that does not wait.
  unfoldable pub call : Call Token → Held server → Held server
  call (acquires c t) s = (acquire server c none (some false) none t 0 [] s).1
  call releases s = (release server s).1
  call (extends c n r) s = (extend server c n r s).1
  call (reacquires c) s = (reacquire server c s).1
  call (exits c) s = (exit server c s).1

  -- While the key holds `u`, a thread that does not hold `u` changes nothing at the server, and does
  -- not come to hold `u`.
  pub call-others :
      (u : Token) (a : Call Token) (s : Held server)
      → get s.db ≡ some u
      → s.token ≢ some u
      → ((call a s).db ≡ s.db) × ((call a s).token ≢ some u)
  unfolding call acquire acquire_loop do_acquire exit
  call-others u (acquires c t) s g n =
      rw (call, acquire, acquire_loop, do_acquire, set_nx-taken t u (expiry c.timeout) s.db g)
        (refl, n)
  call-others u releases s g n = release-others u s g n
  call-others u (extends c k r) s g n = extend-others u c k r s g n
  call-others u (reacquires c) s g n = reacquire-others u c s g n
  call-others u (exits c) s g n = release-others u s g n
