-- ===== src/Cache/Store.antt =====
-- redis/cache.py: `DefaultCache` over its ordered dictionary and its LRU policy. The
-- loop of `delete_by_redis_keys` that decodes and looks up its keys changes nothing, and stands here as
-- two loops.
use redis_py.Common.{
  ℕ, Bool, true, false, Option, none, some, List, [], ◌∷◌, ◌++◌, map, length, if◌then◌else◌,
}
use redis_py.Common.Equality.{is_in}
use redis_py.Common.Outcome.{ok, err, Action, pure, ◌>>=◌, ◌>>◌, raise}
use redis_py.Common.OrderedDict
use redis_py.Common.OrderedDict.{Dict}
use redis_py.Cache.Config.{
  RedisKey_Eq, decoded_key, CacheKey, CacheEntry, CacheConfig, CacheKey_Eq, is_exceeds_max_size,
  is_allowed_to_cache, RedisKey, decoded_key,
}
use redis_py.Cache.Policy.{unicode_decode_error, CacheError, key_error, evict_next, touch}

pub record DefaultCache (V : Type 0) : Type 0 where
  pub collection : Dict CacheKey (CacheEntry V)
  pub config : CacheConfig

abbrev pub both_decoded : Option RedisKey → Option (List RedisKey) → Option (List RedisKey)
both_decoded none redis_keys = none
both_decoded (some redis_key) none = none
both_decoded (some redis_key) (some redis_keys) = some (redis_key ∷ redis_keys)

unfoldable pub decoded_keys : List RedisKey → Option (List RedisKey)
decoded_keys [] = some []
decoded_keys (redis_key ∷ redis_keys) =
    both_decoded (decoded_key redis_key) (decoded_keys redis_keys)

module _ {V : Type 0} where
  -- `__init__`: the cache gives itself to its policy, which from then on is never without a cache.
  unfoldable pub new_cache : CacheConfig → DefaultCache V
  new_cache config = record { collection = []; config = config }

  unfoldable pub size : DefaultCache V → ℕ
  size c = length c.collection

  abbrev pub collection_or : DefaultCache V → Option (Dict CacheKey (CacheEntry V)) → DefaultCache V
  collection_or c none = c
  collection_or c (some d) = record c { collection = d }

  -- a method of the policy, called by the cache that it is attached to
  abbrev pub by_policy :
      {A : Type 0}
      → Action CacheError (Option (Dict CacheKey (CacheEntry V))) A
      → Action CacheError (DefaultCache V) A
  by_policy m c = ((m (some c.collection)).0, collection_or c (m (some c.collection)).1)

  unfoldable pub is_cachable : DefaultCache V → CacheKey → Bool
  is_cachable c key = is_allowed_to_cache key.command

  unfoldable pub store : CacheEntry V → Action CacheError (DefaultCache V) Unit
  store entry c =
      (ok tt, record c { collection = OrderedDict.put entry.cache_key entry c.collection })

  unfoldable pub evict_exceeding : Action CacheError (DefaultCache V) Unit
  evict_exceeding c =
      if is_exceeds_max_size c.config (length c.collection)
      then (do by_policy evict_next; pure tt) c
      else (ok tt, c)

  unfoldable pub set : CacheEntry V → Action CacheError (DefaultCache V) Bool
  set entry c =
      if is_cachable c entry.cache_key
      then (do store entry; by_policy (touch entry.cache_key); evict_exceeding; pure true) c
      else (ok false, c)

  unfoldable pub get : CacheKey → Action CacheError (DefaultCache V) (Option (CacheEntry V))
  get key c = elim (OrderedDict.get key c.collection) [
    | none ↦ (ok none, c)
    | some entry ↦ (do by_policy (touch key); pure (some entry)) c
  ]

  -- `self._cache.pop(key)`
  unfoldable pub pop : CacheKey → Action CacheError (DefaultCache V) Unit
  pop key c = elim (OrderedDict.get key c.collection) [
    | none ↦ (err key_error, c)
    | some entry ↦ (ok tt, record c { collection = OrderedDict.without key c.collection })
  ]

  unfoldable pub delete_one :
      CacheKey → Option (CacheEntry V) → Action CacheError (DefaultCache V) Bool
  delete_one key none = pure false
  delete_one key (some entry) = do pop key; pure true

  unfoldable pub delete_by_cache_keys :
      List CacheKey → Action CacheError (DefaultCache V) (List Bool)
  delete_by_cache_keys [] = pure []
  delete_by_cache_keys (key ∷ cache_keys) = do
    entry ← get key
    deleted ← delete_one key entry
    response ← delete_by_cache_keys cache_keys
    pure (deleted ∷ response)

  -- the inner loop, over the keys of the dictionary in order
  unfoldable pub keys_with : RedisKey → Dict CacheKey (CacheEntry V) → List CacheKey
  keys_with redis_key [] = []
  keys_with redis_key ((k, entry) ∷ d) =
      if is_in redis_key k.redis_keys then k ∷ keys_with redis_key d else keys_with redis_key d

  unfoldable pub keys_to_delete : List RedisKey → Dict CacheKey (CacheEntry V) → List CacheKey
  keys_to_delete [] d = []
  keys_to_delete (redis_key ∷ redis_keys) d = keys_with redis_key d ++ keys_to_delete redis_keys d

  unfoldable pub pop_all : List CacheKey → Action CacheError (DefaultCache V) Unit
  pop_all [] = pure tt
  pop_all (key ∷ keys) = do pop key; pop_all keys

  -- The response has one `True` for each key to delete.
  unfoldable pub delete_decoded : List RedisKey → Action CacheError (DefaultCache V) (List Bool)
  delete_decoded redis_keys c =
      (do
        pop_all (keys_to_delete redis_keys c.collection)
        pure (map (λ k. true) (keys_to_delete redis_keys c.collection)))
        c

  abbrev pub delete_if_decoded :
      Option (List RedisKey) → Action CacheError (DefaultCache V) (List Bool)
  delete_if_decoded none = raise unicode_decode_error
  delete_if_decoded (some redis_keys) = delete_decoded redis_keys

  unfoldable pub delete_by_redis_keys :
      List RedisKey → Action CacheError (DefaultCache V) (List Bool)
  delete_by_redis_keys redis_keys = delete_if_decoded (decoded_keys redis_keys)

  unfoldable pub flush : Action CacheError (DefaultCache V) ℕ
  flush c = (ok (length c.collection), record c { collection = [] })
