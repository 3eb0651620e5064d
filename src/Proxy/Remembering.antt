-- ===== src/Proxy/Remembering.antt =====
-- What `read_response` keeps of a reply in the cache.
use redis_py.Common.Outcome.{ok}
use redis_py.Common.{
  ℕ, ◌≡◌, refl, sym, ◌∙◌, subst, ◌⊎◌, inl, inr, true, false, Option, none, some, [], ◌∷◌, arith,
  Option-cases,
}
use redis_py.Proxy.Connection.{Proxies, remember, keep_response}
use redis_py.Proxy.Reading.{IsRemembered}
use redis_py.Cache.Config.{CacheKey, CacheEntry, CacheEntryStatus, CacheKey_Eq, same_key_iff}
use redis_py.Cache.Store.{DefaultCache, is_cachable, get, set}
use redis_py.Cache.Bounds.{IsCache, get-IsCache, set-IsCache}
use redis_py.Cache.Entries.{entry_at, get-IsSame, AddsAtMost, set-AddsAtMost}
use redis_py.Cache.Invalidation.ByCacheKey.{delete_by_cache_keys_lem}
use redis_py.Common.Equality.{◌==◌, ℕ_Eq}

module _ {V : Type 0} where
  -- the entry that `send_command` has put in progress, if it is still there
  abbrev pub IsOwn : ℕ → CacheKey → Option (CacheEntry V) → Type 0
  IsOwn i k none = Unit
  IsOwn i k (some e) = (e.cache_key ≡ k) × (e.connection_ref ≡ i)

  abbrev filled : V → CacheEntry V → CacheEntry V
  filled x e = record e { status = CacheEntryStatus.valid; cache_value = x }

  remember-deletes :
      (i : ℕ) (k : CacheKey) (s : Proxies V)
      → IsCache s.cache
      → ((remember i (some k) none s).0 ≡ ok none)
        × IsRemembered i k none s (remember i (some k) none s).1
  unfolding remember
  remember-deletes i k s h =
      let (answer, well_formed, entries) = delete_by_cache_keys_lem (k ∷ []) s.cache h in
      rw answer (
        refl,
        record {
          well_formed = well_formed;
          entries = λ j e p. inr (ground (arith, entries j, p));
          incoming = refl;
          requests = refl;
        },
      )

  remember-absent :
      (i : ℕ) (k : CacheKey) (x : V) (s : Proxies V)
      → IsCache s.cache
      → entry_at k s.cache ≡ none
      → ((remember i (some k) (some x) s).0 ≡ ok (some x))
        × IsRemembered i k (some x) s (remember i (some k) (some x) s).1
  unfolding remember keep_response
  remember-absent i k x s h absent =
      let first = get-IsSame k s.cache h in
      rw ((get-IsCache k s.cache h).0, absent)
        (
          refl,
          record {
            well_formed = first.well_formed;
            entries = λ j e p. inr (ground (arith, first.entries j, p, absent, same_key_iff k j));
            incoming = refl;
            requests = refl;
          },
        )

  kept-entry :
      (i : ℕ) (k : CacheKey) (x : V) (old : CacheEntry V) (c d : DefaultCache V)
      → (old.cache_key ≡ k) × (old.connection_ref ≡ i)
      → ((j : CacheKey) → entry_at j d ≡ entry_at j c)
      → AddsAtMost (filled x old) d (set (filled x old) d).1
      → (j : CacheKey) (e : CacheEntry V) → entry_at j (set (filled x old) d).1 ≡ some e
      → ((j ≡ k)
          × (e.status ≡ CacheEntryStatus.valid)
          × (e.connection_ref ≡ i)
          × (◌≡◌ {A = Option V} (some x) (some e.cache_value)))
        ⊎ (((k == j) ≡ false) × (entry_at j c ≡ some e))
  kept-entry i k x old c d (own_key, own_ref) same adds j e p = elim (adds j e p) [
    | inl (at_key, is_new) ↦
        inl (at_key ∙ own_key, rw is_new refl, rw is_new own_ref, rw is_new refl)
    | inr (other, there) ↦ inr (rw (sym own_key) other, sym (same j) ∙ there)
  ]

  remember-keeps :
      (i : ℕ) (k : CacheKey) (x : V) (old : CacheEntry V) (s : Proxies V)
      → IsCache s.cache
      → entry_at k s.cache ≡ some old
      → (old.cache_key ≡ k) × (old.connection_ref ≡ i)
      → is_cachable s.cache k ≡ true
      → ((remember i (some k) (some x) s).0 ≡ ok (some x))
        × IsRemembered i k (some x) s (remember i (some k) (some x) s).1
  unfolding remember keep_response
  remember-keeps i k x old s h there own allowed =
      let first = get-IsSame k s.cache h in
      let found : is_cachable (get k s.cache).1 old.cache_key ≡ true =
        unfold is_cachable in rw own.0 allowed in
      let (answer, well_formed) = set-IsCache (filled x old) (get k s.cache).1 first.well_formed in
      let adds = set-AddsAtMost (filled x old) (get k s.cache).1 first.well_formed found in
      rw ((get-IsCache k s.cache h).0, there, answer)
        (
          refl,
          record {
            well_formed = well_formed;
            entries = kept-entry i k x old s.cache (get k s.cache).1 own first.entries adds;
            incoming = refl;
            requests = refl;
          },
        )

  -- The reply is passed on. A reply that is not `None` fills the entry that was put in progress, if
  -- that is still there; after `None` the key has no entry. The other entries are as they were, but
  -- for one that may have been evicted.
  pub remember_lem :
      (i : ℕ) (k : CacheKey) (v : Option V) (s : Proxies V)
      → IsCache s.cache
      → IsOwn i k (entry_at k s.cache)
      → is_cachable s.cache k ≡ true
      → ((remember i (some k) v s).0 ≡ ok v) × IsRemembered i k v s (remember i (some k) v s).1
  remember_lem i k none s h own allowed = remember-deletes i k s h
  remember_lem i k (some x) s h own allowed = elim (Option-cases (entry_at k s.cache)) [
    | inl absent ↦ remember-absent i k x s h absent
    | inr (old, there) ↦ remember-keeps i k x old s h there (subst (IsOwn i k) there own) allowed
  ]
