-- ===== src/Proxy/Sending.antt =====
-- What `send_command` does on each branch, once the invalidations of its own connection are read.
use redis_py.Common.Outcome.{ok}
use redis_py.Common.{ℕ, ◌≡◌, refl, sym, ◌∙◌, true, false, none, some, List, [], ◌∷◌, ◌++◌, arith}
use redis_py.Proxy.Connection.{
  Request, Proxies, updated, send_now, send_with_keys, send_found, drain_owner, transmit,
  in_progress_entry,
}
use redis_py.Proxy.Invalidations.{ArePushes, IsDrained, process_pending_invalidations_lem}
use redis_py.Proxy.Coherence.{key_of}
use redis_py.Cache.Config.{RedisKey, CacheKey, CacheEntry, CacheKey_Eq, is_allowed_to_cache}
use redis_py.Cache.Store.{DefaultCache, is_cachable, get}
use redis_py.Cache.Bounds.{IsCache, get-IsCache, set-IsCache}
use redis_py.Cache.Entries.{entry_at, IsSame, get-IsSame, AddsAtMost, set-AddsAtMost}
use redis_py.Common.Equality.{◌==◌, ℕ_Eq}

module _ {V : Type 0} where
  pub IsSame-trans : {a b c : DefaultCache V} → IsSame a b → IsSame b c → IsSame a c
  IsSame-trans p q = record {
    well_formed = q.well_formed;
    entries = λ j. q.entries j ∙ p.entries j;
  }

  -- the state in which `i` has looked the key up
  abbrev pub located : ℕ → CacheKey → Proxies V → Proxies V
  located i k s = record s {
    cache = (get k s.cache).1;
    current_command_cache_key = updated i (some k) s.current_command_cache_key;
  }

  -- the command is answered from the cache: only the order of its entries has changed.
  pub record IsLocated (i : ℕ) (k : CacheKey) (s t : Proxies V) : Type 0 where
    pub same : IsSame s.cache t.cache
    pub current : t.current_command_cache_key i ≡ some k
    pub incoming : t.incoming ≡ s.incoming
    pub requests : t.requests ≡ s.requests

  pub record IsAsked (i : ℕ) (q : Request) (new : CacheEntry V) (s t : Proxies V) : Type 0 where
    pub well_formed : IsCache t.cache
    pub entries : AddsAtMost new s.cache t.cache
    pub current : t.current_command_cache_key i ≡ some (key_of q)
    pub incoming : t.incoming ≡ s.incoming
    pub requests : t.requests ≡ updated i (s.requests i ++ q ∷ []) s.requests

module _ {V : Type 0} (dummy : V) where
  send_now-found :
      (i : ℕ) (q : Request) {ks : List RedisKey} (s : Proxies V)
      → is_allowed_to_cache q.command ≡ true
      → q.keys ≡ some ks
      → IsCache s.cache
      → send_now dummy i q s
        ≡ send_found dummy i q (key_of q) (entry_at (key_of q) s.cache) (located i (key_of q) s)
  unfolding send_now send_with_keys is_cachable
  send_now-found i q s a e h =
      rw (a, e, (get-IsCache record { command = q.command; redis_keys = _ } s.cache h).0) refl

  IsLocated-again :
      (i : ℕ) (k : CacheKey) (s : Proxies V)
      → IsCache s.cache
      → IsLocated i k s (record (located i k s) { cache = (get k (get k s.cache).1).1 })
  IsLocated-again i k s h =
      let first = get-IsSame k s.cache h in
      record {
        same = IsSame-trans first (get-IsSame k (get k s.cache).1 first.well_formed);
        current = ground arith;
        incoming = refl;
        requests = refl;
      }

  send_found-again :
      (i : ℕ) (q : Request) (k : CacheKey) (e : CacheEntry V) (s : Proxies V)
      → IsCache s.cache
      → entry_at k s.cache ≡ some e
      → send_found dummy i q k (some e) (located i k s)
        ≡ drain_owner dummy i
            (some e)
            (record (located i k s) { cache = (get k (get k s.cache).1).1 })
  unfolding send_found
  send_found-again i q k e s h there =
      let first = get-IsSame k s.cache h in
      rw ((get-IsCache k (get k s.cache).1 first.well_formed).0, first.entries k, there) refl

  -- No entry: the entry is put in progress and the command is sent.
  pub send_now-asks :
      (i : ℕ) (q : Request) {ks : List RedisKey} (s : Proxies V)
      → is_allowed_to_cache q.command ≡ true
      → q.keys ≡ some ks
      → IsCache s.cache
      → entry_at (key_of q) s.cache ≡ none
      → ((send_now dummy i q s).0 ≡ ok tt)
        × IsAsked i q (in_progress_entry dummy i (key_of q)) s (send_now dummy i q s).1
  unfolding send_found transmit
  send_now-asks i q s a e h there =
      let first = get-IsSame (key_of q) s.cache h in
      let new : CacheEntry V = in_progress_entry dummy i (key_of q) in
      let allowed : is_cachable (get (key_of q) s.cache).1 (key_of q) ≡ true =
        unfold is_cachable in a in
      let (answer, well_formed) = set-IsCache new (get (key_of q) s.cache).1 first.well_formed in
      rw (send_now-found i q s a e h, there, answer)
        (
          refl,
          record {
            well_formed = well_formed;
            entries = λ j f p.
                rw (sym (first.entries j))
                  (set-AddsAtMost new (get (key_of q) s.cache).1 first.well_formed allowed j f p);
            current = ground arith;
            incoming = refl;
            requests = refl;
          },
        )

  -- An entry of this connection: nothing is sent, whatever the arguments of the command are.
  pub send_now-own :
      (i : ℕ) (q : Request) {ks : List RedisKey} (e : CacheEntry V) (s : Proxies V)
      → is_allowed_to_cache q.command ≡ true
      → q.keys ≡ some ks
      → IsCache s.cache
      → entry_at (key_of q) s.cache ≡ some e
      → (e.connection_ref == i) ≡ true
      → ((send_now dummy i q s).0 ≡ ok tt) × IsLocated i (key_of q) s (send_now dummy i q s).1
  unfolding drain_owner
  send_now-own i q e s a k h there own =
      rw (send_now-found i q s a k h, there, send_found-again i q (key_of q) e s h there, own)
        (refl, IsLocated-again i (key_of q) s h)

  -- An entry of another connection: what waits there is read first.
  pub send_now-other :
      (i : ℕ) (q : Request) {ks : List RedisKey} (e : CacheEntry V) (s : Proxies V)
      → is_allowed_to_cache q.command ≡ true
      → q.keys ≡ some ks
      → IsCache s.cache
      → entry_at (key_of q) s.cache ≡ some e
      → (e.connection_ref == i) ≡ false
      → ArePushes (s.incoming e.connection_ref)
      → ((send_now dummy i q s).0 ≡ ok tt)
        × ((m : Proxies V) × IsLocated i (key_of q) s m
            × IsDrained e.connection_ref (s.incoming e.connection_ref) m (send_now dummy i q s).1)
  unfolding drain_owner
  send_now-other i q e s a k h there other pushes =
      let m : Proxies V = record (located i (key_of q) s) {
        cache = (get (key_of q) (get (key_of q) s.cache).1).1;
      } in
      let found = IsLocated-again i (key_of q) s h in
      let (answer, drained) =
        process_pending_invalidations_lem e.connection_ref m pushes found.same.well_formed in
      rw (send_now-found i q s a k h, there, send_found-again i q (key_of q) e s h there, other)
        (answer, (m, found, drained))
