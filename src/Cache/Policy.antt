-- ===== src/Cache/Policy.antt =====
-- redis/cache.py: `LRUPolicy`. The policy works on the collection of the cache that it is attached to;
-- a policy with no cache is `none`.
use redis_py.Common.{
  ℕ, zero, suc, Option, none, some, List, [], ◌∷◌, ◌++◌, ltb, length, if◌then◌else◌,
}
use redis_py.Common.Outcome.{ok, err, Action}
use redis_py.Common.OrderedDict.{Dict, get, moved_to_end}
use redis_py.Cache.Config.{CacheKey, CacheEntry, CacheKey_Eq}

pub data CacheError : Type 0 where
  value_error key_error unicode_decode_error : CacheError

module _ {V : Type 0} where
  -- `collection.popitem(last=False)`, of which the callers keep the key
  unfoldable pub popitem_first : Action CacheError (Dict CacheKey (CacheEntry V)) CacheKey
  popitem_first [] = (err key_error, [])
  popitem_first ((k, entry) ∷ d) = (ok k, d)

  -- `_assert_cache` before the rest of a method, which works on the collection of the cache
  abbrev pub asserting_cache :
      {A : Type 0}
      → Action CacheError (Dict CacheKey (CacheEntry V)) A
      → Action CacheError (Option (Dict CacheKey (CacheEntry V))) A
  asserting_cache m none = (err value_error, none)
  asserting_cache m (some d) = ((m d).0, some (m d).1)

  unfoldable pub evict_next : Action CacheError (Option (Dict CacheKey (CacheEntry V))) CacheKey
  evict_next = asserting_cache popitem_first

  evict_loop : ℕ → List CacheKey → Action CacheError (Dict CacheKey (CacheEntry V)) (List CacheKey)
  evict_loop zero popped d = (ok popped, d)
  evict_loop (suc n) popped [] = (err key_error, [])
  evict_loop (suc n) popped ((k, entry) ∷ d) = evict_loop n (popped ++ k ∷ []) d

  unfoldable pub evict_many :
      ℕ → Action CacheError (Option (Dict CacheKey (CacheEntry V))) (List CacheKey)
  unfolding evict_loop
  evict_many count =
      asserting_cache
        λ d. if ltb (length d) count then (err value_error, d) else evict_loop count [] d

  unfoldable pub touch : CacheKey → Action CacheError (Option (Dict CacheKey (CacheEntry V))) Unit
  touch k = asserting_cache λ d. elim (get k d) [
    | none ↦ (err value_error, d)
    | some entry ↦ (ok tt, moved_to_end k entry d)
  ]
