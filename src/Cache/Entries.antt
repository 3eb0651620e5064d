-- ===== src/Cache/Entries.antt =====
-- Which entries a cache has after its operations, when it is seen as a map from keys to entries.
use redis_py.Common.Equality.{◌==◌}
use redis_py.Cache.Config.{CacheKey_Eq}
use redis_py.Common.OrderedDict
use redis_py.Common.OrderedDict.{
  Dict, IsDict, get-put, get-moved_to_end, put-IsDict, moved_to_end-IsDict,
}
use redis_py.Cache.Store.{DefaultCache, is_cachable, set, get}
use redis_py.Cache.Config.{CacheKey, same_key_iff, CacheEntry}
use redis_py.Common.{ℕ, ◌≡◌, ◌⊎◌, Option, some, [], ◌∷◌, arith, true, false}
use redis_py.Cache.Bounds.{IsCache, trimmed, set_cachable, get-IsCache}

module _ {V : Type 0} where
  abbrev pub entry_at : CacheKey → DefaultCache V → Option (CacheEntry V)
  entry_at k c = OrderedDict.get k c.collection

  trimmed_entry :
      (n : ℕ) (j : CacheKey) (e : CacheEntry V) (d : Dict CacheKey (CacheEntry V))
      → IsDict d
      → OrderedDict.get j (trimmed n d) ≡ some e
      → OrderedDict.get j d ≡ some e
  unfolding OrderedDict.get
  trimmed_entry n j e [] h p = p
  trimmed_entry n j e ((k, v) ∷ d) h p = ground (arith, same_key_iff k j)

  -- the entries of `d` are some of those that `c` has at other keys, and at most `new` at its own
  abbrev pub AddsAtMost : CacheEntry V → DefaultCache V → DefaultCache V → Type 0
  AddsAtMost new c d =
      (j : CacheKey) (e : CacheEntry V)
      → entry_at j d ≡ some e
      → ((j ≡ new.cache_key) × (e ≡ new))
        ⊎ (((new.cache_key == j) ≡ false) × (entry_at j c ≡ some e))

  put_entry :
      (new : CacheEntry V) (j : CacheKey) (e : CacheEntry V) (d : Dict CacheKey (CacheEntry V))
      → IsDict d
      → OrderedDict.get j
          (OrderedDict.moved_to_end new.cache_key new (OrderedDict.put new.cache_key new d))
        ≡ some e
      → ((j ≡ new.cache_key) × (e ≡ new))
        ⊎ (((new.cache_key == j) ≡ false) × (OrderedDict.get j d ≡ some e))
  put_entry new j e d h p = ground (
    arith,
    same_key_iff new.cache_key j,
    get-moved_to_end new.cache_key j new (OrderedDict.put new.cache_key new d)
        (put-IsDict new.cache_key new d h),
    get-put new.cache_key j new d,
    p,
  )

  pub set-AddsAtMost :
      (new : CacheEntry V) (c : DefaultCache V)
      → IsCache c
      → is_cachable c new.cache_key ≡ true
      → AddsAtMost new c (set new c).1
  set-AddsAtMost new c h a j e = rw (set_cachable new c a) (λ p.
      put_entry new j e c.collection h.distinct (
        trimmed_entry c.config.max_size j e _
          (moved_to_end-IsDict new.cache_key new _
            (put-IsDict new.cache_key new c.collection h.distinct))
          p))

  -- two caches with the same entries
  pub record IsSame (c d : DefaultCache V) : Type 0 where
    pub well_formed : IsCache d
    pub entries : (j : CacheKey) → entry_at j d ≡ entry_at j c

  pub get-IsSame : (k : CacheKey) (c : DefaultCache V) → IsCache c → IsSame c (get k c).1
  get-IsSame k c h =
      let (answer, well_formed, entries) = get-IsCache k c h in
      record { well_formed = well_formed; entries = entries }
