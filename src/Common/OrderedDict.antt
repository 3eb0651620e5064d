-- ===== src/Common/OrderedDict.antt =====
-- Python's `collections.OrderedDict`: the entries in order, oldest first.
use redis_py.Common.Tests.{if◌then◌else◌}
use redis_py.Common.Lists.{length, length-append}
use redis_py.Common.Equality.{Eq, ◌==◌}
use Prim.Native.Nat.{suc}
use mathlib.Core.Path.{◌≡◌, refl}
use mathlib.Core.Option.{Option, none, some}
use mathlib.Core.List.{List, [], ◌∷◌, ◌++◌, map}
use native.Mathlib.Omega.{arith}

abbrev pub Dict : Type 0 → Type 0 → Type 0
Dict K V = List (K × V)

module _ {K V : Type 0} ⦃e : Eq K⦄ where
  unfoldable pub get : K → Dict K V → Option V
  get k [] = none
  get k ((j, v) ∷ d) = if j == k then some v else get k d

  -- `d[k] = v` keeps the place of a key that is there.
  unfoldable pub put : K → V → Dict K V → Dict K V
  put k v [] = (k, v) ∷ []
  put k v ((j, w) ∷ d) = if j == k then (j, v) ∷ d else (j, w) ∷ put k v d

  -- the dictionary after `del d[k]` where `k` is there
  unfoldable pub without : K → Dict K V → Dict K V
  without k [] = []
  without k ((j, v) ∷ d) = if j == k then d else (j, v) ∷ without k d

  -- the dictionary after `d.move_to_end(k)` where `k` is there
  unfoldable pub moved_to_end : K → V → Dict K V → Dict K V
  moved_to_end k v d = without k d ++ (k, v) ∷ []

module _ {K V : Type 0} where
  abbrev pub keys : Dict K V → List K
  keys = map (λ p. p.0)

module _ {K V : Type 0} ⦃e : Eq K⦄ where
  -- No key stands twice.
  abbrev pub IsDict : Dict K V → Type 0
  IsDict [] = Unit
  IsDict ((k, v) ∷ d) = (get k d ≡ none) × IsDict d

  pub get-without :
      (k j : K) (d : Dict K V) → IsDict d → get j (without k d) ≡ (if k == j then none else get j d)
  unfolding get without
  get-without k j [] h = ground arith
  get-without k j ((i, v) ∷ d) h =
      ground (arith, e.beq_iff i k, e.beq_iff i j, e.beq_iff k j, get-without k j d h.1)

  pub get-put :
      (k j : K) (v : V) (d : Dict K V) → get j (put k v d) ≡ (if k == j then some v else get j d)
  unfolding get put
  get-put k j v [] = refl
  get-put k j v ((i, w) ∷ d) =
      ground (arith, e.beq_iff i k, e.beq_iff i j, e.beq_iff k j, get-put k j v d)

  pub get-append :
      (k : K) (d : Dict K V) (p : K × V)
      → get k (d ++ p ∷ []) ≡ elim (get k d) [ none ↦ get k (p ∷ []) | some w ↦ some w ]
  unfolding get
  get-append k [] p = refl
  get-append k ((i, v) ∷ d) p = ground (arith, get-append k d p)

  pub get-moved_to_end :
      (k j : K) (v : V) (d : Dict K V)
      → IsDict d
      → get j (moved_to_end k v d) ≡ (if k == j then some v else get j d)
  unfolding moved_to_end
  get-moved_to_end k j v d h =
      rw (get-append j (without k d) (k, v), get-without k j d h)
        (unfold get in ground (arith, e.beq_iff k j))

  pub put-IsDict : (k : K) (v : V) (d : Dict K V) → IsDict d → IsDict (put k v d)
  unfolding put get
  put-IsDict k v [] h = (refl, tt)
  put-IsDict k v ((i, w) ∷ d) h =
      ground (arith, e.beq_iff i k, e.beq_iff k i, get-put k i v d, put-IsDict k v d h.1)

  pub without-IsDict : (k : K) (d : Dict K V) → IsDict d → IsDict (without k d)
  unfolding without
  without-IsDict k [] h = tt
  without-IsDict k ((i, w) ∷ d) h = ground (arith, get-without k i d h.1, without-IsDict k d h.1)

  pub append-IsDict :
      (d : Dict K V) (k : K) (v : V) → IsDict d → get k d ≡ none → IsDict (d ++ (k, v) ∷ [])
  unfolding get
  append-IsDict [] k v h n = (refl, tt)
  append-IsDict ((i, w) ∷ d) k v h n =
      ground (arith, e.beq_iff i k, e.beq_iff k i, get-append i d (k, v), append-IsDict d k v h.1)

  pub moved_to_end-IsDict : (k : K) (v : V) (d : Dict K V) → IsDict d → IsDict (moved_to_end k v d)
  unfolding moved_to_end
  moved_to_end-IsDict k v d h =
      append-IsDict (without k d) k v (without-IsDict k d h)
        (rw (get-without k k d h) (ground (arith, e.beq_iff k k)))

  pub length-put :
      (k : K) (v : V) (d : Dict K V)
      → length (put k v d) ≡ elim (get k d) [ none ↦ suc (length d) | some w ↦ length d ]
  unfolding put get
  length-put k v [] = refl
  length-put k v ((i, w) ∷ d) = ground (arith, length-put k v d)

  pub length-without :
      (k : K) (d : Dict K V) {w : V} → get k d ≡ some w → suc (length (without k d)) ≡ length d
  unfolding without get
  length-without k [] h = cc
  length-without k ((i, v) ∷ d) {w} h = ground (arith, length-without k d {w = w})

  pub length-moved_to_end :
      (k : K) (v : V) (d : Dict K V) {w : V}
      → get k d ≡ some w
      → length (moved_to_end k v d) ≡ length d
  unfolding moved_to_end
  length-moved_to_end k v d h =
      omega (arith, length-without k d h, length-append (without k d) ((k, v) ∷ []))
