-- ===== src/Proxy/Reading.antt =====
-- What `read_response` does on each branch.
use redis_py.Common.Outcome.{ok, err}
use redis_py.Common.{
  ℕ, ◌≡◌, refl, ◌∙◌, subst, ◌⊎◌, inl, inr, false, Option, none, some, [], ◌∷◌, Option-cases,
}
use redis_py.Proxy.Connection.{
  Proxies, updated, closed, receive, read_from_connection, read_response, read_for, read_found,
  read_second, read_by_status, read_value, read_and_remember, remember, reply, waits,
}
use redis_py.Proxy.Sending.{IsSame-trans}
use redis_py.Cache.Config.{CacheKey, CacheEntry, CacheEntryStatus, CacheKey_Eq}
use redis_py.Cache.Store.{get}
use redis_py.Cache.Bounds.{IsCache, get-IsCache}
use redis_py.Cache.Entries.{entry_at, IsSame, get-IsSame}
use redis_py.Common.Equality.{◌==◌, ℕ_Eq}

module _ {V : Type 0} where
  -- only the order of the cache's entries may have changed
  pub record IsUntouched (s t : Proxies V) : Type 0 where
    pub same : IsSame s.cache t.cache
    pub incoming : t.incoming ≡ s.incoming
    pub requests : t.requests ≡ s.requests

  IsUntouched-two_gets :
      (k : CacheKey) (s : Proxies V) → IsCache s.cache → IsSame s.cache (get k (get k s.cache).1).1
  IsUntouched-two_gets k s h =
      let first = get-IsSame k s.cache h in
      IsSame-trans first (get-IsSame k (get k s.cache).1 first.well_formed)

  read_response-found :
      (i : ℕ) (k : CacheKey) (e : CacheEntry V) (s : Proxies V)
      → IsCache s.cache
      → s.current_command_cache_key i ≡ some k
      → entry_at k s.cache ≡ some e
      → read_response i s
        ≡ read_by_status i k e.status (record s { cache = (get k (get k s.cache).1).1 })
  unfolding read_response read_for read_found read_second
  read_response-found i k e s h c there =
      let first = get-IsSame k s.cache h in
      rw
        (
          c,
          (get-IsCache k s.cache h).0,
          there,
          (get-IsCache k (get k s.cache).1 first.well_formed).0,
          first.entries k,
          there,
        )
        refl

  -- A valid entry: its value is the answer, and nothing is read from the connection.
  pub read_response-valid :
      (i : ℕ) (k : CacheKey) (e : CacheEntry V) (s : Proxies V)
      → IsCache s.cache
      → s.current_command_cache_key i ≡ some k
      → entry_at k s.cache ≡ some e
      → e.status ≡ CacheEntryStatus.valid
      → ((read_response i s).0 ≡ ok (some e.cache_value)) × IsUntouched s (read_response i s).1
  unfolding read_by_status read_value
  read_response-valid i k e s h c there valid =
      let twice = IsUntouched-two_gets k s h in
      rw
        (
          read_response-found i k e s h c there,
          valid,
          (get-IsCache k (get k (get k s.cache).1).1 twice.well_formed).0,
          twice.entries k,
          there,
        )
        (
          refl,
          record {
            same = IsSame-trans twice (get-IsSame k (get k (get k s.cache).1).1 twice.well_formed);
            incoming = refl;
            requests = refl;
          },
        )

  -- no entry, or one that waits for its reply
  abbrev pub IsPending : Option (CacheEntry V) → Type 0
  IsPending none = Unit
  IsPending (some e) = e.status ≡ CacheEntryStatus.in_progress

  -- the proxies that go on to read from the connection, and what the read comes to
  pub record ReadsOn (i : ℕ) (s : Proxies V) : Type 0 where
    pub state : Proxies V
    pub untouched : IsUntouched s state
    pub current : state.current_command_cache_key ≡ s.current_command_cache_key
    pub reads : read_response i s ≡ read_and_remember i state

  pub read_response-pending :
      (i : ℕ) (k : CacheKey) (s : Proxies V)
      → IsCache s.cache
      → s.current_command_cache_key i ≡ some k
      → IsPending (entry_at k s.cache)
      → ReadsOn i s
  unfolding read_response read_for read_found read_by_status
  read_response-pending i k s h c p = elim (Option-cases (entry_at k s.cache)) [
    | inl none_there ↦ record {
      state = record s { cache = (get k s.cache).1 };
      untouched = record { same = get-IsSame k s.cache h; incoming = refl; requests = refl };
      current = refl;
      reads = rw (c, (get-IsCache k s.cache h).0, none_there) refl;
    }
    | inr (e, there) ↦
        let waiting : e.status ≡ CacheEntryStatus.in_progress = subst IsPending there p in
        record {
          state = record s { cache = (get k (get k s.cache).1).1 };
          untouched = record {
            same = IsUntouched-two_gets k s h;
            incoming = refl;
            requests = refl;
          };
          current = refl;
          reads = read_response-found i k e s h c there ∙ rw waiting refl;
        }
  ]

  -- Nothing on the socket: the read ends by a timeout, and the connection is closed.
  pub read_and_remember-waits :
      (i : ℕ) (s : Proxies V) → s.incoming i ≡ [] → read_and_remember i s ≡ (err waits, closed i s)
  unfolding read_and_remember read_from_connection receive
  read_and_remember-waits i s e = rw e refl

  pub read_and_remember-reply :
      (i : ℕ) (k : CacheKey) (v : Option V) (s : Proxies V)
      → s.incoming i ≡ reply v ∷ []
      → s.current_command_cache_key i ≡ some k
      → read_and_remember i s
        ≡ remember i (some k) v (record s { incoming = updated i [] s.incoming })
  unfolding read_and_remember read_from_connection receive
  read_and_remember-reply i k v s e c = rw (e, c) refl

  -- the entries that are left when the reply `v` for the key `k` is read on `i`
  pub record IsRemembered (i : ℕ) (k : CacheKey) (v : Option V) (s t : Proxies V) : Type 0 where
    pub well_formed : IsCache t.cache
    pub entries :
        (j : CacheKey) (e : CacheEntry V)
        → entry_at j t.cache ≡ some e
        → ((j ≡ k)
            × (e.status ≡ CacheEntryStatus.valid)
            × (e.connection_ref ≡ i)
            × (v ≡ some e.cache_value))
          ⊎ (((k == j) ≡ false) × (entry_at j s.cache ≡ some e))
    pub incoming : t.incoming ≡ s.incoming
    pub requests : t.requests ≡ s.requests
