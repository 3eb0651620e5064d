-- ===== src/Cache/Examples.antt =====
-- A cache of two entries, and the theorems at it.
use redis_py.Common.OrderedDict
use redis_py.Common.Outcome.{ok, err}
use redis_py.Common.{ℕ, ◌≡◌, refl, true, some, List, [], ◌∷◌, arith, false}
use redis_py.Cache.Config.{
  text, encoded, CacheKey, CacheEntry, CacheEntryStatus, is_allowed_to_cache, CacheKey_Eq,
}
use redis_py.Cache.Policy.{key_error, evict_many}
use redis_py.Cache.Store
use redis_py.Cache.Store.{DefaultCache, is_cachable, keys_with, keys_to_delete}
use redis_py.Cache.Bounds.{IsCache, set-IsCache}
use redis_py.Cache.Recency.{run, sets, gets, run-lru_run, Call}
use redis_py.Cache.Invalidation.{delete_by_redis_keys_one, delete_by_redis_keys_twice}
use redis_py.Cache.Invalidation.ByCacheKey.{delete_by_cache_keys_lem}

abbrev get_a : CacheKey
get_a = record { command = "GET"; redis_keys = text "a" ∷ [] }

abbrev mget_ab : CacheKey
mget_ab = record { command = "MGET"; redis_keys = text "a" ∷ text "b" ∷ [] }

abbrev get_c : CacheKey
get_c = record { command = "GET"; redis_keys = text "c" ∷ [] }

abbrev entry_of : CacheKey → ℕ → CacheEntry ℕ
entry_of k v = record {
  cache_key = k;
  cache_value = v;
  status = CacheEntryStatus.valid;
  connection_ref = 1;
}

abbrev two_entries : DefaultCache ℕ
two_entries = record {
  collection = (get_a, entry_of get_a 1) ∷ (mget_ab, entry_of mget_ab 2) ∷ [];
  config = record { max_size = 2 };
}

two_entries-IsCache : IsCache two_entries
unfolding OrderedDict.get
two_entries-IsCache = record { distinct = (refl, (refl, tt)); bounded = omega arith }

get_c-is_cachable : is_cachable two_entries get_c ≡ true
unfolding is_cachable is_allowed_to_cache
get_c-is_cachable = refl

set-IsCache_example : IsCache (Store.set (entry_of get_c 3) two_entries).1
set-IsCache_example = (set-IsCache (entry_of get_c 3) two_entries two_entries-IsCache).1

abbrev history : List (Call ℕ)
history = gets get_a ∷ sets (entry_of get_c 3) ∷ []

run-lru_run_example : IsCache (run two_entries history)
run-lru_run_example = (run-lru_run two_entries history two_entries-IsCache).1

-- The hit on `GET a` makes `MGET a b` the oldest entry, which the third one evicts.
oldest_is_evicted : OrderedDict.keys (run two_entries history).collection ≡ get_a ∷ get_c ∷ []
unfolding is_allowed_to_cache
oldest_is_evicted = (run-lru_run two_entries history two_entries-IsCache).0

delete_by_cache_keys_lem_example :
    (Store.delete_by_cache_keys (get_a ∷ get_c ∷ get_a ∷ []) two_entries).0
    ≡ ok (true ∷ false ∷ false ∷ [])
unfolding OrderedDict.get
delete_by_cache_keys_lem_example =
    (delete_by_cache_keys_lem (get_a ∷ get_c ∷ get_a ∷ []) two_entries two_entries-IsCache).0

delete_by_redis_keys_one_example :
    (Store.delete_by_redis_keys (encoded "b" ∷ []) two_entries).0 ≡ ok (true ∷ [])
unfolding Store.keys_with
delete_by_redis_keys_one_example =
    (delete_by_redis_keys_one (encoded "b") (text "b") two_entries refl two_entries-IsCache).0

delete_by_redis_keys_twice_example :
    (Store.delete_by_redis_keys (encoded "a" ∷ encoded "b" ∷ []) two_entries).0 ≡ err key_error
unfolding OrderedDict.get
delete_by_redis_keys_twice_example =
    delete_by_redis_keys_twice (encoded "a") (encoded "b") (text "a") (text "b") mget_ab
      (entry_of mget_ab 2) two_entries refl refl two_entries-IsCache refl refl refl

evict_many_runs : (evict_many 2 (some two_entries.collection)).0 ≡ ok (get_a ∷ mget_ab ∷ [])
unfolding evict_many
evict_many_runs = refl
