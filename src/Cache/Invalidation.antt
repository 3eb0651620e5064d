-- ===== src/Cache/Invalidation.antt =====
-- What the deletions of the cache do. The server names the keys that changed; `delete_by_redis_keys`
-- drops each entry that depends on one of them.
mod Pops
pub mod ByCacheKey
use Pops.{has_duplicate, has_duplicate-append, AllPresent, Popped, pop_all_twice, pop_all_once}
use redis_py.Cache.Bounds.{IsCache}
use redis_py.Cache.Store.{
  DefaultCache, pop_all, pop, keys_with, keys_to_delete, delete_by_redis_keys, decoded_keys,
  delete_decoded,
}
use redis_py.Cache.Config.{CacheKey, same_key_iff, CacheEntry, same_key, RedisKey, decoded_key}
use redis_py.Cache.Policy.{key_error}
use redis_py.Common.Outcome.{err, ok}
use redis_py.Common.{
  ◌≡◌, Bool, true, false, ◌||◌, none, List, [], ◌∷◌, ◌≤◌, refl, ◌≢◌, inl, inr, some, arith,
  if◌then◌else◌, Bool-cases, Option-cases, length, String, ◌∙◌, ap, subst, map, sym, ◌++◌,
}
use redis_py.Common.Equality.{Eq, ◌==◌, is_in, String_Eq}
use redis_py.Common.OrderedDict
use mathlib.Core.List.{append-nil}
use native.Mathlib.Nat.{le_trans}
use redis_py.Cache.Config.{CacheKey_Eq, RedisKey_Eq}
use redis_py.Common.OrderedDict.{get-without, without-IsDict, length-without}
use redis_py.Common.OrderedDict.{Dict, IsDict}

module _ {V : Type 0} where
  -- the keys that the inner loop finds
  is_in-keys_with :
      (r : RedisKey) (j : CacheKey) (d : Dict CacheKey (CacheEntry V))
      → IsDict d
      → is_in j (keys_with r d)
        ≡ elim (OrderedDict.get j d) [ none ↦ false | some v ↦ is_in r j.redis_keys ]
  unfolding keys_with OrderedDict.get
  is_in-keys_with r j [] h = refl
  is_in-keys_with r j ((k, v) ∷ d) h = elim (Bool-cases (same_key k j)) [
    | inl e ↦
        let same : k ≡ j = (same_key_iff k j).0 e in
        let absent : OrderedDict.get j d ≡ none =
          subst (λ i. OrderedDict.get i d ≡ none) same h.0 in
        let here : is_in r k.redis_keys ≡ is_in r j.redis_keys =
          ap (λ (i : CacheKey). is_in r i.redis_keys) same in
        ground (arith, e, absent, here, is_in-keys_with r j d h.1)
    | inr e ↦ ground (arith, e, is_in-keys_with r j d h.1)
  ]

  keys_with-once :
      (r : RedisKey) (d : Dict CacheKey (CacheEntry V))
      → IsDict d
      → has_duplicate (keys_with r d) ≡ false
  unfolding keys_with
  keys_with-once r [] h = refl
  keys_with-once r ((k, v) ∷ d) h =
      ground (arith, keys_with-once r d h.1, is_in-keys_with r k d h.1, h.0)

  delete-popped :
      (rs : List RedisKey) (c : DefaultCache V)
      → (pop_all (keys_to_delete rs c.collection) c).0 ≡ ok tt
      → delete_decoded rs c ≡ (
        ok (map (λ k. true) (keys_to_delete rs c.collection)),
        (pop_all (keys_to_delete rs c.collection) c).1,
      )
  unfolding delete_decoded
  delete-popped rs c h = rw h

  delete-failed :
      (rs : List RedisKey) (c : DefaultCache V)
      → (pop_all (keys_to_delete rs c.collection) c).0 ≡ err key_error
      → (delete_decoded rs c).0 ≡ err key_error
  unfolding delete_decoded
  delete-failed rs c h = rw h

  keys_with-AllPresent :
      (r : RedisKey) (d : Dict CacheKey (CacheEntry V)) → IsDict d → AllPresent (keys_with r d) d
  keys_with-AllPresent r d h k there e = ground (arith, is_in-keys_with r k d h, there, e)

  Popped-keys_to_delete :
      (r : RedisKey) (c : DefaultCache V)
      → IsDict c.collection
      → Popped (keys_to_delete (r ∷ []) c.collection) c
  unfolding keys_to_delete
  Popped-keys_to_delete r c h = rw append-nil (
      pop_all_once (keys_with r c.collection) c h (keys_with-once r c.collection h)
        (keys_with-AllPresent r c.collection h))

  delete-decoded :
      (r q : RedisKey) (c : DefaultCache V)
      → decoded_key r ≡ some q
      → delete_by_redis_keys (r ∷ []) c ≡ delete_decoded (q ∷ []) c
  unfolding delete_by_redis_keys decoded_keys
  delete-decoded r q c d = rw d refl

  -- One redis key that can be decoded, to `q`: nothing raises, the answer has one `True` for each entry
  -- that depends on `q`, and exactly those entries are gone from a cache that stays well formed.
  pub delete_by_redis_keys_one :
      (r q : RedisKey) (c : DefaultCache V)
      → decoded_key r ≡ some q
      → IsCache c
      → ((delete_by_redis_keys (r ∷ []) c).0 ≡ ok (map (λ k. true) (keys_with q c.collection)))
        × IsCache (delete_by_redis_keys (r ∷ []) c).1
        × ((j : CacheKey)
            → OrderedDict.get j (delete_by_redis_keys (r ∷ []) c).1.collection
              ≡ (if is_in q j.redis_keys then none else OrderedDict.get j c.collection))
  delete_by_redis_keys_one r q c d h =
      let done = Popped-keys_to_delete q c h.distinct in
      rw (delete-decoded r q c d, delete-popped (q ∷ []) c done.answer)
        (
          unfold keys_to_delete in rw append-nil,
          record {
            distinct = done.well_formed;
            bounded = rw done.same_config (le_trans done.shorter h.bounded);
          },
          λ j.
              done.entries j
              ∙ (unfold keys_to_delete in
                  rw append-nil (ground (arith, is_in-keys_with q j c.collection h.distinct))),
        )

  -- Two redis keys of one cached entry, in one message, which are decoded to `p` and `q`: the second
  -- `pop` of that entry raises `KeyError`.
  pub delete_by_redis_keys_twice :
      (r s p q : RedisKey) (k : CacheKey) (v : CacheEntry V) (c : DefaultCache V)
      → decoded_key r ≡ some p
      → decoded_key s ≡ some q
      → IsCache c
      → OrderedDict.get k c.collection ≡ some v
      → is_in p k.redis_keys ≡ true
      → is_in q k.redis_keys ≡ true
      → (delete_by_redis_keys (r ∷ s ∷ []) c).0 ≡ err key_error
  unfolding keys_to_delete delete_by_redis_keys decoded_keys
  delete_by_redis_keys_twice r s p q k v c dr ds h e hr hs =
      rw (dr, ds)
        (delete-failed (p ∷ q ∷ []) c (
          pop_all_twice (keys_to_delete (p ∷ q ∷ []) c.collection) c h.distinct (
            rw append-nil (
              has_duplicate-append k (keys_with p c.collection) (keys_with q c.collection)
                (rw (is_in-keys_with p k c.collection h.distinct, e) hr)
                (rw (is_in-keys_with q k c.collection h.distinct, e) hs)))))
