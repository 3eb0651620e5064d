-- ===== src/Cache/Recency.antt =====
-- The cache seen as a list of keys, least recently used first: what `set` and `get` do to that list.
use redis_py.Cache.Policy.{CacheError}
use redis_py.Common.Outcome.{Result}
use redis_py.Cache.Store.{DefaultCache, is_cachable, set, get}
use redis_py.Common.{
  ℕ, ◌-◌, ◌≡◌, List, [], ◌∷◌, ◌++◌, length, drop, if◌then◌else◌, arith, ap, ◌≤◌, suc, Bool-cases,
  ltb, inl, refl, inr, ltb→lt, length-map, true, false, none, some, Option-cases, ap₂, ◌∙◌, Bool,
  Option,
}
use redis_py.Common.Equality.{◌==◌, is_in}
use redis_py.Common.OrderedDict
use redis_py.Common.OrderedDict.{Dict, keys}
use redis_py.Cache.Config.{
  CacheKey, CacheEntry, CacheKey_Eq, same_key_iff, is_allowed_to_cache, CacheConfig,
}
use redis_py.Cache.Bounds.{
  trimmed, IsCache, set_cachable, set_refused, get_lem, length-after_put, set-IsCache, get-IsCache,
}

-- The abstract view: an LRU list of at most `n` keys.
abbrev pub removed : CacheKey → List CacheKey → List CacheKey
removed k [] = []
removed k (j ∷ ks) = if j == k then ks else j ∷ removed k ks

abbrev pub used : CacheKey → List CacheKey → List CacheKey
used k ks = removed k ks ++ k ∷ []

abbrev pub most_recent : ℕ → List CacheKey → List CacheKey
most_recent n ks = drop (length ks - n) ks

module _ {V : Type 0} where
  keys-without :
      (k : CacheKey) (d : Dict CacheKey (CacheEntry V))
      → keys (OrderedDict.without k d) ≡ removed k (keys d)
  unfolding OrderedDict.without
  keys-without k [] = refl
  keys-without k ((j, v) ∷ d) = ground (arith, keys-without k d)

  removed-put :
      (k : CacheKey) (v : CacheEntry V) (d : Dict CacheKey (CacheEntry V))
      → removed k (keys (OrderedDict.put k v d)) ≡ removed k (keys d)
  unfolding OrderedDict.put
  removed-put k v [] = ground (arith, same_key_iff k k)
  removed-put k v ((j, w) ∷ d) = ground (arith, removed-put k v d)

  keys-append :
      (d : Dict CacheKey (CacheEntry V)) (k : CacheKey) (v : CacheEntry V)
      → keys (d ++ (k, v) ∷ []) ≡ keys d ++ k ∷ []
  keys-append [] k v = refl
  keys-append ((j, w) ∷ d) k v = ap (λ ks. j ∷ ks) (keys-append d k v)

  keys-moved_to_end :
      (k : CacheKey) (v : CacheEntry V) (d : Dict CacheKey (CacheEntry V))
      → keys (OrderedDict.moved_to_end k v d) ≡ used k (keys d)
  unfolding OrderedDict.moved_to_end
  keys-moved_to_end k v d = rw (keys-append, keys-without)

  keys-trimmed :
      (n : ℕ) (d : Dict CacheKey (CacheEntry V))
      → length d ≤ suc n
      → keys (trimmed n d) ≡ most_recent n (keys d)
  keys-trimmed n [] h = let zero_over : 0 - n ≡ 0 = omega arith in rw zero_over
  keys-trimmed n (p ∷ d) h = elim (Bool-cases (ltb n (suc (length d)))) [
    | inl e ↦
        let one : suc (length (keys d)) - n ≡ 1 = omega (
          arith,
          length-map (λ (q : CacheKey × CacheEntry V). q.0) d,
          ltb→lt n (suc (length d)) e,
        ) in
        rw (e, one)
    | inr e ↦
        let none_over : suc (length (keys d)) - n ≡ 0 =
          ground (arith, length-map (λ (q : CacheKey × CacheEntry V). q.0) d, e) in
        rw (e, none_over)
  ]

-- A call on the cache, and what it does to the cache and to the abstract list.
pub data Call (V : Type 0) : Type 0 where
  sets : CacheEntry V → Call V
  gets : CacheKey → Call V

module _ {V : Type 0} where
  unfoldable pub step : DefaultCache V → Call V → DefaultCache V
  step c (sets entry) = (set entry c).1
  step c (gets key) = (get key c).1

  unfoldable pub run : DefaultCache V → List (Call V) → DefaultCache V
  run c [] = c
  run c (call ∷ calls) = run (step c call) calls

  -- The specification: a `set` that is allowed and a `get` that hits make the key the most recent
  -- one, and a `set` then keeps the `n` most recent keys.
  abbrev pub lru_step : ℕ → List CacheKey → Call V → List CacheKey
  lru_step n ks (sets entry) =
      if is_allowed_to_cache entry.cache_key.command
      then most_recent n (used entry.cache_key ks)
      else ks
  lru_step n ks (gets key) = if is_in key ks then used key ks else ks

  abbrev pub lru_run : ℕ → List CacheKey → List (Call V) → List CacheKey
  lru_run n ks [] = ks
  lru_run n ks (call ∷ calls) = lru_run n (lru_step n ks call) calls

  is_in-keys :
      (k : CacheKey) (d : Dict CacheKey (CacheEntry V))
      → is_in k (keys d) ≡ elim (OrderedDict.get k d) [ none ↦ false | some v ↦ true ]
  unfolding OrderedDict.get
  is_in-keys k [] = refl
  is_in-keys k ((j, v) ∷ d) = ground (arith, is_in-keys k d)

  keys-set :
      (c : DefaultCache V) (entry : CacheEntry V)
      → IsCache c
      → keys (set entry c).1.collection
        ≡ lru_step c.config.max_size (keys c.collection) (sets entry)
  unfolding is_cachable
  keys-set c entry h = elim (Bool-cases (is_allowed_to_cache entry.cache_key.command)) [
    | inl e ↦ rw (
      set_cachable entry c e,
      e,
      keys-trimmed c.config.max_size _ (length-after_put entry c h),
      keys-moved_to_end,
      removed-put,
    )
    | inr e ↦ rw (set_refused entry c e, e)
  ]

  keys-get :
      (c : DefaultCache V) (k : CacheKey)
      → keys (get k c).1.collection ≡ lru_step c.config.max_size (keys c.collection) (gets k)
  keys-get c k =
      rw (get_lem, is_in-keys)
        (elim (Option-cases (OrderedDict.get k c.collection)) [
          | inl e ↦ rw e
          | inr (v, e) ↦ rw e (keys-moved_to_end k v c.collection)
        ])

  step-IsCache : (c : DefaultCache V) (call : Call V) → IsCache c → IsCache (step c call)
  unfolding step
  step-IsCache c (sets entry) h = (set-IsCache entry c h).1
  step-IsCache c (gets key) h = (get-IsCache key c h).1

  config-step : (c : DefaultCache V) (call : Call V) → (step c call).config ≡ c.config
  unfolding step
  config-step c (sets entry) = elim (Bool-cases (is_cachable c entry.cache_key)) [
    | inl e ↦
        ap (λ (r : Result CacheError Bool × DefaultCache V). r.1.config) (set_cachable entry c e)
    | inr e ↦
        ap (λ (r : Result CacheError Bool × DefaultCache V). r.1.config) (set_refused entry c e)
  ]
  config-step c (gets key) =
      ap (λ (r : Result CacheError (Option (CacheEntry V)) × DefaultCache V). r.1.config)
        (get_lem key c)

  keys-step :
      (c : DefaultCache V) (call : Call V)
      → IsCache c
      → keys (step c call).collection ≡ lru_step c.config.max_size (keys c.collection) call
  unfolding step
  keys-step c (sets entry) h = keys-set c entry h
  keys-step c (gets key) h = keys-get c key

  -- After any `set` and `get` calls on a well-formed cache the keys, oldest first, are those of an
  -- LRU list of at most `max_size` keys after the same calls, and the cache is well formed.
  pub run-lru_run :
      (c : DefaultCache V) (calls : List (Call V))
      → IsCache c
      → (keys (run c calls).collection ≡ lru_run c.config.max_size (keys c.collection) calls)
        × IsCache (run c calls)
  unfolding run
  run-lru_run c [] h = (refl, h)
  run-lru_run c (call ∷ calls) h =
      let (same_keys, well_formed) = run-lru_run (step c call) calls (step-IsCache c call h) in
      (
        same_keys
            ∙ ap₂ (λ (f : CacheConfig) (ks : List CacheKey). lru_run f.max_size ks calls)
                (config-step c call) (keys-step c call h),
        well_formed,
      )
