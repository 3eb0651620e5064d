-- ===== src/Sentinel/Slaves.antt =====
-- redis/sentinel.py: `Sentinel.filter_slaves` and `discover_slaves`. What the sentinels answer is a parameter.
use redis_py.Common.{
  ℕ, ◌≡◌, refl, sym, ◌∙◌, ap, Bool, true, false, ◌||◌, List, [], ◌∷◌, ◌++◌, All, if◌then◌else◌, ◌∙◌,
}
use redis_py.Common.Outcome.{Result, ok, err}
use redis_py.Sentinel.{
  SentinelError, connection_error, timeout_error, response_error, other_error,
  master_not_found_error,
}

pub record SlaveState : Type 0 where
  pub address : ℕ
  pub is_odown : Bool
  pub is_sdown : Bool

-- The addresses of those that are not down.
unfoldable pub filter_slaves : List SlaveState → List ℕ
filter_slaves [] = []
filter_slaves (x ∷ xs) =
    let rest = filter_slaves xs in if x.is_odown || x.is_sdown then rest else x.address ∷ rest

-- `except (ConnectionError, ResponseError, TimeoutError)`
abbrev pub is_passed_over : SentinelError → Bool
is_passed_over connection_error = true
is_passed_over timeout_error = true
is_passed_over response_error = true
is_passed_over other_error = false
is_passed_over master_not_found_error = false

-- `if slaves: return slaves`
abbrev pub unless_empty : List ℕ → Result SentinelError (List ℕ) → Result SentinelError (List ℕ)
unless_empty [] rest = rest
unless_empty (a ∷ slaves) rest = ok (a ∷ slaves)

abbrev pub slaves_or :
    Result SentinelError (List SlaveState)
    → Result SentinelError (List ℕ)
    → Result SentinelError (List ℕ)
slaves_or (ok slaves) rest = unless_empty (filter_slaves slaves) rest
slaves_or (err e) rest = if is_passed_over e then rest else err e

abbrev pub is_empty : List ℕ → Bool
is_empty [] = true
is_empty (a ∷ slaves) = false

-- A sentinel that gives no slave and no error that is raised.
abbrev pub is_silent : Result SentinelError (List SlaveState) → Bool
is_silent (ok slaves) = is_empty (filter_slaves slaves)
is_silent (err e) = is_passed_over e

abbrev slaves_of : Result SentinelError (List ℕ) → List ℕ
slaves_of (ok slaves) = slaves
slaves_of (err e) = []

found-injective :
    (r : Result SentinelError (List ℕ)) (xs : List ℕ) (ys : List ℕ)
    → r ≡ ok xs
    → r ≡ ok ys
    → xs ≡ ys
found-injective r xs ys p q = sym (ap slaves_of p) ∙ ap slaves_of q

module _ (sentinel_slaves : ℕ → Result SentinelError (List SlaveState)) where
  unfoldable pub discover_slaves : List ℕ → Result SentinelError (List ℕ)
  discover_slaves [] = ok []
  discover_slaves (x ∷ xs) = let rest = discover_slaves xs in slaves_or (sentinel_slaves x) rest

  -- A list of slaves comes from a sentinel of the list, and those before it are silent.
  abbrev pub IsFrom : List ℕ → List ℕ → Type 0
  IsFrom sentinels slaves =
      (before : List ℕ) × (x : ℕ) × (after : List ℕ) × (states : List SlaveState) × (sentinels
        ≡ before ++ (x ∷ after))
      × (sentinel_slaves x ≡ ok states)
      × (filter_slaves states ≡ slaves)
      × All (λ y. is_silent (sentinel_slaves y) ≡ true) before

  later :
      (x : ℕ) (xs slaves : List ℕ)
      → is_silent (sentinel_slaves x) ≡ true
      → IsFrom xs slaves
      → IsFrom (x ∷ xs) slaves
  later x xs slaves h (before, y, after, states, q, r, f, all) =
      (x ∷ before, y, after, states, ap (λ ys. x ∷ ys) q, r, f, (h, all))

  filtered-first :
      (x : ℕ) (xs : List ℕ) (states : List SlaveState) (found : List ℕ) (a : ℕ) (slaves : List ℕ)
      → sentinel_slaves x ≡ ok states
      → filter_slaves states ≡ found
      → unless_empty found (discover_slaves xs) ≡ ok (a ∷ slaves)
      → (discover_slaves xs ≡ ok (a ∷ slaves) → IsFrom xs (a ∷ slaves))
      → IsFrom (x ∷ xs) (a ∷ slaves)
  filtered-first x xs states [] a slaves q f h k =
      later x xs (a ∷ slaves) (rw q (ap is_empty f)) (k h)
  filtered-first x xs states (b ∷ found) a slaves q f h k = (
    [],
    x,
    xs,
    states,
    refl,
    q,
    f ∙ found-injective (ok (b ∷ found)) (b ∷ found) (a ∷ slaves) refl h,
    tt,
  )

  failed-first :
      (x : ℕ) (xs : List ℕ) (e : SentinelError) (b : Bool) (a : ℕ) (slaves : List ℕ)
      → sentinel_slaves x ≡ err e
      → is_passed_over e ≡ b
      → (if b then discover_slaves xs else err e) ≡ ok (a ∷ slaves)
      → (discover_slaves xs ≡ ok (a ∷ slaves) → IsFrom xs (a ∷ slaves))
      → IsFrom (x ∷ xs) (a ∷ slaves)
  failed-first x xs e true a slaves q p h k = later x xs (a ∷ slaves) (rw q p) (k h)
  failed-first x xs e false a slaves q p h k = cc

  answered-first :
      (x : ℕ) (xs : List ℕ) (r : Result SentinelError (List SlaveState)) (a : ℕ) (slaves : List ℕ)
      → sentinel_slaves x ≡ r
      → slaves_or r (discover_slaves xs) ≡ ok (a ∷ slaves)
      → (discover_slaves xs ≡ ok (a ∷ slaves) → IsFrom xs (a ∷ slaves))
      → IsFrom (x ∷ xs) (a ∷ slaves)
  answered-first x xs (err e) a slaves q h k =
      failed-first x xs e (is_passed_over e) a slaves q refl h k
  answered-first x xs (ok states) a slaves q h k =
      filtered-first x xs states (filter_slaves states) a slaves q refl h k

  -- Where slaves are found, they are the ones of one sentinel that are not down, in its order, and
  -- every sentinel before it was out of reach, did not know the service, or had no slave that is up.
  pub discover_slaves-first :
      (sentinels : List ℕ) (a : ℕ) (slaves : List ℕ)
      → discover_slaves sentinels ≡ ok (a ∷ slaves)
      → IsFrom sentinels (a ∷ slaves)
  unfolding discover_slaves
  discover_slaves-first [] a slaves h = cc
  discover_slaves-first (x ∷ xs) a slaves h =
      answered-first x xs (sentinel_slaves x) a slaves refl h (discover_slaves-first xs a slaves)
