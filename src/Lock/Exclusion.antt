-- ===== src/Lock/Exclusion.antt =====
-- redis/lock.py: several threads with the same lock, each with a token of its own, and every
-- interleaving of their calls with the passing of time.
use redis_py.Common.{
  ℕ, ◌≡◌, ◌≢◌, refl, sym, ◌∙◌, Bool, true, false, Option, none, some, Option-cases, Bool-cases,
  arith, inl, inr, ap, if◌then◌else◌, ◌⊎◌, ==_iff,
}
use redis_py.Common.Equality.{Eq, ◌==◌, ℕ_Eq}
use redis_py.Lock.KeyCommands.{Commands}
use redis_py.Lock.{
  answered, Config, Held, exit, acquire_loop, acquire, milliseconds, lock_not_owned, LockError,
  owned, holds,
}
unfoldable use redis_py.Lock.{
  release, extend, reacquire, do_acquire, lua_release, lua_extend, lua_reacquire,
}
use redis_py.Lock.Safety.{Call, acquires, releases, extends, reacquires, exits, call-others}
unfoldable use redis_py.Lock.Safety.{call}

module _ {Token : Type 0} ⦃e : Eq Token⦄ (server : Commands Token) where
  open server use {Db, get, set_nx}

  -- The threads by number, each with its own `self.local`.
  pub record World : Type 0 where
    pub db : Db
    pub tokens : ℕ → Option Token

  unfoldable pub view : ℕ → World → Held server
  view i w = record { db = w.db; token = w.tokens i }

  unfoldable pub after : ℕ → Held server → World → World
  after i s w = record { db = s.db; tokens = λ j. if i == j then s.token else w.tokens j }

  -- `acquire` is called with a token that no other thread has: a new UUID.
  abbrev pub IsFresh : Call Token → ℕ → World → Type 0
  IsFresh (acquires c t) i w = (j : ℕ) → i ≢ j → w.tokens j ≢ some t
  IsFresh releases i w = Unit
  IsFresh (extends c n r) i w = Unit
  IsFresh (reacquires c) i w = Unit
  IsFresh (exits c) i w = Unit

  -- A thread makes a call, or the database changes by what others do and as time passes.
  pub data Step : World → World → Type 0 where
    calls :
        (i : ℕ) (a : Call Token) (w : World)
        → IsFresh a i w
        → Step w (after i (call server a (view i w)) w)
    passes : (d : Db) (w : World) → Step w (record w { db = d })

  pub data Steps : World → World → Type 0 where
    start : (w : World) → Steps w w
    next : {w v x : World} → Steps w v → Step v x → Steps w x

  -- No two threads have the same token.
  unfoldable pub IsDistinct : World → Type 0
  IsDistinct w = (i j : ℕ) (t : Token) → w.tokens i ≡ some t → w.tokens j ≡ some t → i ≡ j

  answered-token :
      (x : LockError) (p : Bool × Db) (o : Option Token) → (answered server x p o).1.token ≡ o
  unfolding answered
  answered-token x (true, d) o = refl
  answered-token x (false, d) o = refl

  release-token : (s : Held server) → (release server s).1.token ≡ none
  unfolding release
  release-token s = elim (Option-cases s.token) [
    | inl q ↦ rw q refl
    | inr (t, q) ↦ rw q (answered-token lock_not_owned (lua_release server t s.db) none)
  ]

  extend-token :
      (c : Config) (n : ℕ) (r : Bool) (s : Held server) → (extend server c n r s).1.token ≡ s.token
  unfolding extend
  extend-token c n r s = elim (Option-cases s.token) [
    | inl q ↦ rw q refl
    | inr (t, q) ↦ elim (Option-cases c.timeout) [
      | inl z ↦ rw (q, z) refl
      | inr (y, z) ↦
          rw (q, z)
            (answered-token lock_not_owned (lua_extend server t (milliseconds n) r s.db) (some t))
    ]
  ]

  reacquire-token : (c : Config) (s : Held server) → (reacquire server c s).1.token ≡ s.token
  unfolding reacquire
  reacquire-token c s = elim (Option-cases s.token) [
    | inl q ↦ rw q refl
    | inr (t, q) ↦ elim (Option-cases c.timeout) [
      | inl z ↦ rw (q, z) refl
      | inr (y, z) ↦
          rw (q, z)
            (answered-token lock_not_owned (lua_reacquire server t (milliseconds y) s.db) (some t))
    ]
  ]

  acquire-token :
      (c : Config) (t : Token) (s : Held server)
      → ((call server (acquires c t) s).token ≡ some t)
        ⊎ ((call server (acquires c t) s).token ≡ s.token)
  unfolding call acquire acquire_loop
  acquire-token c t s = elim (Bool-cases (do_acquire server c t s.db).0) [
    | inl q ↦ rw (call, acquire, acquire_loop, q) (inl refl)
    | inr q ↦ rw (call, acquire, acquire_loop, q) (inr refl)
  ]

  not_none : {u : Token} → none ≢ some u
  not_none h = cc

  -- After a call that brings a fresh token or none, a thread's token is no other thread's.
  call-token :
      (a : Call Token) (i j : ℕ) (w : World) (u : Token)
      → IsFresh a i w
      → IsDistinct w
      → (call server a (view i w)).token ≡ some u
      → w.tokens j ≡ some u
      → i ≡ j
  unfolding call IsDistinct view exit
  call-token (acquires c t) i j w u f d h k = elim (acquire-token c t (view i w)) [
    | inl q ↦ ground (arith, f j)
    | inr q ↦ d i j u (sym q ∙ h) k
  ]
  call-token releases i j w u f d h k = elim (not_none (sym (release-token (view i w)) ∙ h)) [ ]
  call-token (extends c n r) i j w u f d h k = d i j u (sym (extend-token c n r (view i w)) ∙ h) k
  call-token (reacquires c) i j w u f d h k = d i j u (sym (reacquire-token c (view i w)) ∙ h) k
  call-token (exits c) i j w u f d h k = elim (not_none (sym (release-token (view i w)) ∙ h)) [ ]

  after_self :
      (i j : ℕ) (c : Held server) (w : World) → (i == j) ≡ true → (after i c w).tokens j ≡ c.token
  unfolding after
  after_self i j c w h = rw h refl

  after-other :
      (i j : ℕ) (c : Held server) (w : World)
      → (i == j) ≡ false
      → (after i c w).tokens j ≡ w.tokens j
  unfolding after
  after-other i j c w h = rw h refl

  Step-IsDistinct : (w v : World) → Step w v → IsDistinct w → IsDistinct v
  unfolding IsDistinct
  Step-IsDistinct w v (calls i a _ f) d j k t p q =
      let c = call server a (view i w) in
      elim (Bool-cases (i == j)) [
        | inl x ↦ elim (Bool-cases (i == k)) [
          | inl y ↦ ground (arith, ==_iff i j, ==_iff i k)
          | inr y ↦
              sym ((==_iff i j).0 x)
              ∙ call-token a i k w t f d (sym (after_self i j c w x) ∙ p)
                  (sym (after-other i k c w y) ∙ q)
        ]
        | inr x ↦ elim (Bool-cases (i == k)) [
          | inl y ↦
              sym (
                call-token a i j w t f d (sym (after_self i k c w y) ∙ q)
                  (sym (after-other i j c w x) ∙ p))
              ∙ (==_iff i k).0 y
          | inr y ↦ d j k t (sym (after-other i j c w x) ∙ p) (sym (after-other i k c w y) ∙ q)
        ]
      ]
  Step-IsDistinct w v (passes b _) d j k t p q = d j k t p q

  Steps-IsDistinct : (w v : World) → Steps w v → IsDistinct w → IsDistinct v
  Steps-IsDistinct w v (start _) d = d
  Steps-IsDistinct w v (next {v = u} r q) d = Step-IsDistinct u v q (Steps-IsDistinct w u r d)

  holds-token :
      (o stored : Option Token)
      → holds server o stored ≡ true
      → (t : Token) × (o ≡ some t) × (stored ≡ some t)
  holds-token none stored h = cc
  holds-token (some t) none h = cc
  holds-token (some t) (some u) h = (t, refl, ap some ((e.beq_iff u t).0 (ground arith)))

  -- At the start no thread has a token.
  unfoldable pub idle : Db → World
  idle d = record { db = d; tokens = λ i. none }

  -- The other threads make calls, and the key of the lock keeps what it holds while time passes.
  pub data OtherSteps (i : ℕ) : World → World → Type 0 where
    stays : (w : World) → OtherSteps i w w
    calls_other :
        {w v : World} (j : ℕ) (a : Call Token)
        → OtherSteps i w v
        → i ≢ j
        → IsFresh a j v
        → OtherSteps i w (after j (call server a (view j v)) v)
    keeps :
        {w v : World} (d : Db)
        → OtherSteps i w v
        → get d ≡ get v.db
        → OtherSteps i w (record v { db = d })

  -- The thread `i` has the token `t`, which no other thread has, and so has the key.
  record IsOwner (i : ℕ) (t : Token) (w : World) : Type 0 where
    token : w.tokens i ≡ some t
    stored : get w.db ≡ some t
    distinct : IsDistinct w

  not_its_token : (i j : ℕ) (t : Token) (w : World) → IsOwner i t w → i ≢ j → w.tokens j ≢ some t
  unfolding IsDistinct
  not_its_token i j t w h n q = n (h.distinct i j t h.token q)

  not_same : (i j : ℕ) → i ≢ j → (j == i) ≡ false
  not_same i j n = ground (arith, n, ==_iff j i)

  call-IsOwner :
      (i j : ℕ) (a : Call Token) (t : Token) (w : World)
      → IsOwner i t w
      → i ≢ j
      → IsFresh a j w
      → IsOwner i t (after j (call server a (view j w)) w)
  unfolding after view
  call-IsOwner i j a t w h n f =
      let (same, _) = call-others server t a (view j w) h.stored (not_its_token i j t w h n) in
      record {
        token = after-other j i (call server a (view j w)) w (not_same i j n) ∙ h.token;
        stored = ap get same ∙ h.stored;
        distinct =
            Step-IsDistinct w (after j (call server a (view j w)) w) (calls j a w f) h.distinct;
      }

  OtherSteps-IsOwner :
      (i : ℕ) (t : Token) (w v : World) → OtherSteps i w v → IsOwner i t w → IsOwner i t v
  OtherSteps-IsOwner i t w v (stays _) h = h
  OtherSteps-IsOwner i t w v (calls_other {v = u} j a q n f) h =
      call-IsOwner i j a t u (OtherSteps-IsOwner i t w u q h) n f
  OtherSteps-IsOwner i t w v (keeps {v = u} d q same) h =
      let g = OtherSteps-IsOwner i t w u q h in
      record {
        token = g.token;
        stored = same ∙ g.stored;
        distinct = Step-IsDistinct u (record u { db = d }) (passes d u) g.distinct;
      }

  holds-other : (o : Option Token) (t : Token) → o ≢ some t → holds server o (some t) ≡ false
  holds-other none t n = refl
  holds-other (some u) t n = elim (Bool-cases (t == u)) [
    | inl q ↦ elim (n (sym (ap some ((e.beq_iff t u).0 q)))) [ ]
    | inr q ↦ rw q refl
  ]

  holds_self : (t : Token) → holds server (some t) (some t) ≡ true
  holds_self t = ground (arith, e.beq_iff t t)

  owned-IsOwner :
      (i j : ℕ) (t : Token) (w : World) → IsOwner i t w → owned server (view j w) ≡ (i == j)
  unfolding owned view
  owned-IsOwner i j t w h = elim (Bool-cases (i == j)) [
    | inl q ↦
        let here : w.tokens j ≡ some t = ap w.tokens (sym ((==_iff i j).0 q)) ∙ h.token in
        rw (q, here, h.stored) (holds_self t)
    | inr q ↦
        rw (q, h.stored)
          (holds-other (w.tokens j) t
            (not_its_token i j t w h (λ same. ground (arith, q, same, ==_iff i j))))
  ]

  -- Mutual exclusion: where a thread owns the lock, in any state that the threads' calls and the passing
  -- of time lead to, it still owns the lock after whatever calls the other threads make, and no other
  -- thread owns it, as long as the key neither expires nor is changed by other clients in that time.
  -- `acquire` is called with a token that no other thread has.
  pub OtherSteps-owned_once :
      (d : Db) (w v : World) (i j : ℕ)
      → Steps (idle d) w
      → owned server (view i w) ≡ true
      → OtherSteps i w v
      → owned server (view j v) ≡ (i == j)
  unfolding IsDistinct view idle owned
  OtherSteps-owned_once d w v i j r g q =
      let (t, token, stored) = holds-token (w.tokens i) (get w.db) g in
      owned-IsOwner i j t v (
        OtherSteps-IsOwner i t w v q (record {
          token = token;
          stored = stored;
          distinct = Steps-IsDistinct (idle d) w r (λ i j t p q. elim (not_none p) [ ]);
        }))
