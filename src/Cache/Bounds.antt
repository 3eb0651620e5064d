-- ===== src/Cache/Bounds.antt =====
-- The well-formedness of the cache, and what `set` and `get` do to it.
use redis_py.Common.{
  ℕ, suc, ◌≤◌, ◌≡◌, refl, true, false, Option, none, some, [], ◌∷◌, arith, ltb, length,
  if◌then◌else◌, Bool-cases, Option-cases, inl, inr, ◌<◌, ap, ◌++◌,
}
use redis_py.Common.Outcome.{ok}
use redis_py.Common.OrderedDict
use redis_py.Common.OrderedDict.{
  Dict, IsDict, get-append, get-without, get-put, get-moved_to_end, put-IsDict, moved_to_end-IsDict,
  length-put, length-moved_to_end,
}
use redis_py.Cache.Config.{
  CacheKey, CacheEntry, CacheConfig, CacheKey_Eq, same_key_iff, is_exceeds_max_size,
}
use redis_py.Cache.Policy.{touch, evict_next, popitem_first}
use redis_py.Cache.Store.{DefaultCache, is_cachable, store, evict_exceeding, set, get}

pub record IsCache {V : Type 0} (c : DefaultCache V) : Type 0 where
  pub distinct : IsDict c.collection
  pub bounded : length c.collection ≤ c.config.max_size

module _ {V : Type 0} where
  -- the collection after the oldest entry is dropped, if there are too many
  abbrev pub trimmed : ℕ → Dict CacheKey (CacheEntry V) → Dict CacheKey (CacheEntry V)
  trimmed n [] = []
  trimmed n (p ∷ d) = if ltb n (length (p ∷ d)) then d else p ∷ d

  trimmed-IsDict : (n : ℕ) (d : Dict CacheKey (CacheEntry V)) → IsDict d → IsDict (trimmed n d)
  trimmed-IsDict n [] h = tt
  trimmed-IsDict n ((k, v) ∷ d) h = ground arith

  length-trimmed :
      (n : ℕ) (d : Dict CacheKey (CacheEntry V)) → length d ≤ suc n → length (trimmed n d) ≤ n
  length-trimmed n [] h = omega arith
  length-trimmed n (p ∷ d) h = ground arith

  -- the collection after a successful `set`
  abbrev pub collection_after_set : CacheEntry V → DefaultCache V → Dict CacheKey (CacheEntry V)
  collection_after_set entry c = trimmed c.config.max_size (
      OrderedDict.moved_to_end entry.cache_key entry
        (OrderedDict.put entry.cache_key entry c.collection))

  get-put_self :
      (k : CacheKey) (v : CacheEntry V) (d : Dict CacheKey (CacheEntry V))
      → OrderedDict.get k (OrderedDict.put k v d) ≡ some v
  get-put_self k v d = rw get-put (ground (arith, same_key_iff k k))

  evict_exceeding-trimmed :
      (c : DefaultCache V)
      → evict_exceeding c
        ≡ (ok tt, record c { collection = trimmed c.config.max_size c.collection })
  unfolding evict_exceeding is_exceeds_max_size evict_next popitem_first
  evict_exceeding-trimmed c = go c.config c.collection
    where
      go :
          (f : CacheConfig) (d : Dict CacheKey (CacheEntry V))
          → evict_exceeding (record { collection = d; config = f })
            ≡ (ok tt, record { collection = trimmed f.max_size d; config = f })
      go f [] = ground arith
      go f (p ∷ d) = ground arith

  touch_present :
      (k : CacheKey) (v : CacheEntry V) (d : Dict CacheKey (CacheEntry V))
      → OrderedDict.get k d ≡ some v
      → touch k (some d) ≡ (ok tt, some (OrderedDict.moved_to_end k v d))
  unfolding touch
  touch_present k v d h = rw h

  pub set_cachable :
      (entry : CacheEntry V) (c : DefaultCache V)
      → is_cachable c entry.cache_key ≡ true
      → set entry c ≡ (ok true, record c { collection = collection_after_set entry c })
  unfolding set store
  set_cachable entry c h = rw (
    h,
    touch_present _ entry _ (get-put_self entry.cache_key entry c.collection),
    evict_exceeding-trimmed,
  )

  pub set_refused :
      (entry : CacheEntry V) (c : DefaultCache V)
      → is_cachable c entry.cache_key ≡ false
      → set entry c ≡ (ok false, c)
  unfolding set
  set_refused entry c h = rw h

  -- the collection after `get`
  abbrev pub collection_after_get :
      CacheKey → Dict CacheKey (CacheEntry V) → Option (CacheEntry V) → Dict CacheKey (CacheEntry V)
  collection_after_get k d none = d
  collection_after_get k d (some v) = OrderedDict.moved_to_end k v d

  pub get_lem :
      (k : CacheKey) (c : DefaultCache V)
      → get k c ≡ (
        ok (OrderedDict.get k c.collection),
        record c {
          collection = collection_after_get k c.collection (OrderedDict.get k c.collection);
        },
      )
  unfolding get
  get_lem k c = elim (Option-cases (OrderedDict.get k c.collection)) [
    | inl e ↦ rw (e, get)
    | inr (v, e) ↦ rw (e, get, touch_present k v c.collection e)
  ]

  collection_after_set-distinct :
      (entry : CacheEntry V) (c : DefaultCache V)
      → IsCache c
      → IsDict (collection_after_set entry c)
  collection_after_set-distinct entry c h =
      trimmed-IsDict c.config.max_size _ (
        moved_to_end-IsDict entry.cache_key entry _ (put-IsDict entry.cache_key entry _ h.distinct))

  -- before the trim there is at most one entry too many
  pub length-after_put :
      (entry : CacheEntry V) (c : DefaultCache V)
      → IsCache c
      → length (
          OrderedDict.moved_to_end entry.cache_key entry
            (OrderedDict.put entry.cache_key entry c.collection))
        ≤ suc c.config.max_size
  length-after_put entry c h =
      rw
        (
          length-moved_to_end entry.cache_key entry _
              (get-put_self entry.cache_key entry c.collection),
          length-put entry.cache_key entry c.collection,
        )
        (ground (arith, h.bounded))

  collection_after_set-bounded :
      (entry : CacheEntry V) (c : DefaultCache V)
      → IsCache c
      → length (collection_after_set entry c) ≤ c.config.max_size
  collection_after_set-bounded entry c h =
      length-trimmed c.config.max_size _ (length-after_put entry c h)

  -- `set` never raises, answers whether the command of the entry may be cached, and leaves a cache
  -- with distinct keys that holds at most `max_size` entries.
  pub set-IsCache :
      (entry : CacheEntry V) (c : DefaultCache V)
      → IsCache c
      → ((set entry c).0 ≡ ok (is_cachable c entry.cache_key)) × IsCache (set entry c).1
  set-IsCache entry c h = elim (Bool-cases (is_cachable c entry.cache_key)) [
    | inl e ↦
        rw (set_cachable entry c e, e)
          (
            refl,
            record {
              distinct = collection_after_set-distinct entry c h;
              bounded = collection_after_set-bounded entry c h;
            },
          )
    | inr e ↦ rw (set_refused entry c e, e) (refl, h)
  ]

  -- `get` never raises, answers with the entry of the key, and leaves a well-formed cache in which
  -- every key has the entry that it had.
  pub get-IsCache :
      (k : CacheKey) (c : DefaultCache V)
      → IsCache c
      → ((get k c).0 ≡ ok (OrderedDict.get k c.collection))
        × IsCache (get k c).1
        × ((j : CacheKey)
            → OrderedDict.get j (get k c).1.collection ≡ OrderedDict.get j c.collection)
  get-IsCache k c h = rw get_lem (elim (Option-cases (OrderedDict.get k c.collection)) [
    | inl e ↦ rw e (refl, h, λ j. refl)
    | inr (v, e) ↦ rw e (
      refl,
      record {
        distinct = moved_to_end-IsDict k v c.collection h.distinct;
        bounded = rw (length-moved_to_end k v c.collection e) h.bounded;
      },
      λ j.
          rw (get-moved_to_end k j v c.collection h.distinct) (ground (arith, same_key_iff k j, e)),
    )
  ])

  get-trimmed_last :
      (n : ℕ) (k : CacheKey) (v : CacheEntry V) (d : Dict CacheKey (CacheEntry V))
      → 0 < n
      → OrderedDict.get k d ≡ none
      → OrderedDict.get k (trimmed n (d ++ (k, v) ∷ [])) ≡ some v
  unfolding OrderedDict.get
  get-trimmed_last n k v [] h e = ground (arith, same_key_iff k k)
  get-trimmed_last n k v ((j, w) ∷ d) h e =
      ground (arith, get-append k d (k, v), get-append k ((j, w) ∷ d) (k, v), same_key_iff k k)

  -- An entry that may be cached is there right after `set`, whatever was evicted for it, if the
  -- cache may hold an entry at all.
  pub get-set :
      (entry : CacheEntry V) (c : DefaultCache V)
      → IsCache c
      → is_cachable c entry.cache_key ≡ true
      → 0 < c.config.max_size
      → (get entry.cache_key (set entry c).1).0 ≡ ok (some entry)
  get-set entry c h allowed room =
      rw (set_cachable entry c allowed, get_lem)
        (ap ok (
          unfold OrderedDict.moved_to_end in
          get-trimmed_last c.config.max_size entry.cache_key entry
            (OrderedDict.without entry.cache_key
              (OrderedDict.put entry.cache_key entry c.collection))
            room
            (rw
              (get-without entry.cache_key entry.cache_key _
                (put-IsDict entry.cache_key entry _ h.distinct))
              (ground (arith, same_key_iff entry.cache_key entry.cache_key)))))
