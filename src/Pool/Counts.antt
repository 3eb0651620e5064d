-- ===== src/Pool/Counts.antt =====
-- redis/connection.py: the lists of a pool counted, and after a connection is removed from one.
use redis_py.Pool.Store.{has, removed}
use redis_py.Common.{
  ℕ, suc, ◌+◌, ◌<◌, ◌≡◌, refl, true, false, List, [], ◌∷◌, length, arith, All, ==_iff,
  if◌then◌else◌, inl, inr, Bool-cases,
}
use redis_py.Common.Equality.{◌==◌, ℕ_Eq}
use redis_py.Pool.Connection.{Connection}

-- how often the connection number `i` is in a list
unfoldable pub count : ℕ → List Connection → ℕ
count i [] = 0
count i (c ∷ cs) = if c.id == i then suc (count i cs) else count i cs

pub has-count : (i : ℕ) (cs : List Connection) → (has i cs ≡ false) → (count i cs ≡ 0)
unfolding has count
has-count i [] h = refl
has-count i (c ∷ cs) h = ground (arith, has-count i cs)

pub has→count : (i : ℕ) (cs : List Connection) → (has i cs ≡ true) → (0 < count i cs)
unfolding has count
has→count i [] h = cc
has→count i (c ∷ cs) h = ground (arith, has→count i cs)

pub count-removed :
    (i j : ℕ) (cs : List Connection)
    → has j cs ≡ true
    → count i (removed j cs) + (if j == i then 1 else 0) ≡ count i cs
unfolding has count removed
count-removed i j [] h = cc
count-removed i j (c ∷ cs) h =
    ground (arith, count-removed i j cs, ==_iff c.id j, ==_iff c.id i, ==_iff j i)

pub length-removed :
    (j : ℕ) (cs : List Connection) → has j cs ≡ true → suc (length (removed j cs)) ≡ length cs
unfolding has removed
length-removed j [] h = cc
length-removed j (c ∷ cs) h = ground (arith, length-removed j cs)

pub All-removed :
    (P : Connection → Type 0) (j : ℕ) (cs : List Connection) → All P cs → All P (removed j cs)
unfolding removed
All-removed P j [] h = tt
All-removed P j (c ∷ cs) (h, hs) = elim (Bool-cases (c.id == j)) [
  | inl q ↦ rw q hs
  | inr q ↦ rw q (h, All-removed P j cs hs)
]
