-- ===== src/Cache/Invalidation/ByCacheKey.antt =====
-- `delete_by_cache_keys`: each key is looked up, which makes it the most recent one, and popped.
use redis_py.Cache.Bounds.{IsCache, get_lem}
use redis_py.Common.Outcome.{pure, ok, ◌>>=◌}
use redis_py.Common.{Bool-cases, ap₂}
use redis_py.Common.{
  ◌≡◌, refl, ◌∙◌, inl, inr, Bool, true, false, Option, none, some, List, [], ◌∷◌, arith,
  if◌then◌else◌, Option-cases,
}
use redis_py.Common.OrderedDict
use redis_py.Common.OrderedDict.{
  Dict, IsDict, get-without, without-IsDict, length-without, get-moved_to_end, moved_to_end-IsDict,
  length-moved_to_end,
}
use redis_py.Cache.Config.{CacheKey_Eq, CacheKey, same_key_iff, CacheEntry}
use redis_py.Common.Equality.{◌==◌, is_in}
use redis_py.Cache.Store.{DefaultCache, pop, delete_one, delete_by_cache_keys}

-- For each key whether it has an entry, where a key that stands before it in the list has none left.
abbrev expected : (CacheKey → Bool) → List CacheKey → List Bool
expected has [] = []
expected has (k ∷ ks) = has k ∷ expected (λ j. if k == j then false else has j) ks

expected-same :
    (has had : CacheKey → Bool) (ks : List CacheKey)
    → ((j : CacheKey) → has j ≡ had j)
    → expected has ks ≡ expected had ks
expected-same has had [] h = refl
expected-same has had (k ∷ ks) h =
    ap₂ (λ b bs. b ∷ bs) (h k)
      (expected-same (λ j. if k == j then false else has j) (λ j. if k == j then false else had j)
        ks (λ j. rw (h j) refl))

module _ {V : Type 0} where
  abbrev after_delete : CacheKey → DefaultCache V → Option (CacheEntry V) → DefaultCache V
  after_delete k c none = c
  after_delete k c (some v) = record c {
    collection = OrderedDict.without k (OrderedDict.moved_to_end k v c.collection);
  }

  abbrev is_some : Option (CacheEntry V) → Bool
  is_some none = false
  is_some (some v) = true

  abbrev dropped : CacheKey → DefaultCache V → DefaultCache V
  dropped k c = after_delete k c (OrderedDict.get k c.collection)

  get-moved_to_end_self :
      (k : CacheKey) (v : CacheEntry V) (d : Dict CacheKey (CacheEntry V))
      → IsDict d
      → OrderedDict.get k (OrderedDict.moved_to_end k v d) ≡ some v
  get-moved_to_end_self k v d h = rw (get-moved_to_end k k v d h) (ground (arith, same_key_iff k k))

  delete-present :
      (k : CacheKey) (v : CacheEntry V) (d : DefaultCache V)
      → OrderedDict.get k d.collection ≡ some v
      → delete_one k (some v) d
        ≡ (ok true, record d { collection = OrderedDict.without k d.collection })
  unfolding delete_one pop
  delete-present k v d h = rw (h, pop)

  delete_by_cache_keys-cons :
      (k : CacheKey) (ks : List CacheKey) (c : DefaultCache V)
      → IsCache c
      → delete_by_cache_keys (k ∷ ks) c
        ≡ (do
          response ← delete_by_cache_keys ks
          pure (is_some (OrderedDict.get k c.collection) ∷ response))
            (dropped k c)
  unfolding delete_by_cache_keys delete_one
  delete_by_cache_keys-cons k ks c h = elim (Option-cases (OrderedDict.get k c.collection)) [
    | inl e ↦ rw (get_lem k c, e, delete_one)
    | inr (v, e) ↦ rw (
      get_lem k c,
      e,
      delete-present k v (record c { collection = OrderedDict.moved_to_end k v c.collection })
          (get-moved_to_end_self k v c.collection h.distinct),
    )
  ]

  get-dropped :
      (k j : CacheKey) (c : DefaultCache V)
      → IsCache c
      → OrderedDict.get j (dropped k c).collection
        ≡ (if k == j then none else OrderedDict.get j c.collection)
  get-dropped k j c h = elim (Option-cases (OrderedDict.get k c.collection)) [
    | inl e ↦ rw e (ground (arith, same_key_iff k j, e))
    | inr (v, e) ↦
        rw
          (
            e,
            get-without k j _ (moved_to_end-IsDict k v c.collection h.distinct),
            get-moved_to_end k j v c.collection h.distinct,
          )
          (ground arith)
  ]

  dropped-IsCache : (k : CacheKey) (c : DefaultCache V) → IsCache c → IsCache (dropped k c)
  dropped-IsCache k c h = elim (Option-cases (OrderedDict.get k c.collection)) [
    | inl e ↦ rw e h
    | inr (v, e) ↦ rw e (record {
      distinct =
          without-IsDict k (OrderedDict.moved_to_end k v c.collection)
            (moved_to_end-IsDict k v c.collection h.distinct);
      bounded = omega (
        arith,
        h.bounded,
        length-moved_to_end k v c.collection e,
        length-without k (OrderedDict.moved_to_end k v c.collection)
            (get-moved_to_end_self k v c.collection h.distinct),
      );
    })
  ]

  expected-dropped :
      (k : CacheKey) (ks : List CacheKey) (c : DefaultCache V)
      → IsCache c
      → expected (λ j. is_some (OrderedDict.get j (dropped k c).collection)) ks
        ≡ expected (λ j. if k == j then false else is_some (OrderedDict.get j c.collection)) ks
  expected-dropped k ks c h = expected-same _ _ ks (λ j.
      rw (get-dropped k j c h)
        (elim (Bool-cases (k == j)) [ inl e ↦ rw e refl | inr e ↦ rw e refl ]))

  -- The deletion never raises and answers once for each key, `True` where the key has an entry and is
  -- not in the list before, `False` otherwise; afterwards none of the keys has an entry, every other
  -- key has the entry that it had, and the cache is well formed.
  pub delete_by_cache_keys_lem :
      (ks : List CacheKey) (c : DefaultCache V)
      → IsCache c
      → ((delete_by_cache_keys ks c).0
          ≡ ok (expected (λ j. is_some (OrderedDict.get j c.collection)) ks))
        × IsCache (delete_by_cache_keys ks c).1
        × ((j : CacheKey)
            → OrderedDict.get j (delete_by_cache_keys ks c).1.collection
              ≡ (if is_in j ks then none else OrderedDict.get j c.collection))
  delete_by_cache_keys_lem [] c h = unfold delete_by_cache_keys in (refl, h, λ j. refl)
  delete_by_cache_keys_lem (k ∷ ks) c h =
      let (answer, well_formed, entries) =
        delete_by_cache_keys_lem ks (dropped k c) (dropped-IsCache k c h) in
      rw (delete_by_cache_keys-cons k ks c h, answer, expected-dropped k ks c h)
        (refl, well_formed, λ j. entries j ∙ rw (get-dropped k j c h) (ground arith))
