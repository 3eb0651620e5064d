-- ===== src/Proxy/Invalidations.antt =====
-- What `_process_pending_invalidations` does: the frames that have arrived on the connection are read,
-- and the cached entries that they invalidate are dropped.
use redis_py.Common.Outcome.{ok}
use redis_py.Common.{
  ℕ, ◌≡◌, refl, ◌∙◌, Bool, true, false, ◌||◌, Option, none, some, List, [], ◌∷◌, arith,
  if◌then◌else◌,
}
use redis_py.Proxy.Connection.{
  Frame, Proxies, handle, drain, process_pending_invalidations, on_invalidation_callback, updated,
  invalidate, reply, failure,
}
use redis_py.Cache.Config.{RedisKey, RedisKey_Eq, decoded_key, CacheKey, CacheKey_Eq}
use redis_py.Cache.Store.{DefaultCache, delete_by_redis_keys, flush}
use redis_py.Cache.Bounds.{IsCache}
use redis_py.Cache.Entries.{entry_at}
use redis_py.Cache.Invalidation.{delete_by_redis_keys_one}
use redis_py.Common.Equality.{is_in, ◌==◌, ℕ_Eq, String_Eq}
use redis_py.Common.OrderedDict

abbrev has_key : CacheKey → Option RedisKey → Bool
has_key k none = false
has_key k (some q) = is_in q k.redis_keys

module _ {V : Type 0} where
  -- the frames that a server with tracking sends of its own: the whole database, or one key that can be
  -- decoded
  abbrev pub IsPush : Frame V → Type 0
  IsPush (invalidate none) = Unit
  IsPush (invalidate (some [])) = ⊥
  IsPush (invalidate (some (r ∷ []))) = (q : RedisKey) × (decoded_key r ≡ some q)
  IsPush (invalidate (some (r ∷ s ∷ rs))) = ⊥
  IsPush (reply v) = ⊥
  IsPush (failure message) = ⊥

  abbrev pub ArePushes : List (Frame V) → Type 0
  ArePushes [] = Unit
  ArePushes (f ∷ frames) = IsPush f × ArePushes frames

  -- Does the frame invalidate the entry of the key?
  abbrev pub hits : CacheKey → Frame V → Bool
  hits k (invalidate none) = true
  hits k (invalidate (some [])) = false
  hits k (invalidate (some (r ∷ rs))) = has_key k (decoded_key r)
  hits k (reply v) = false
  hits k (failure message) = false

  abbrev pub any_hits : CacheKey → List (Frame V) → Bool
  any_hits k [] = false
  any_hits k (f ∷ frames) = hits k f || any_hits k frames

  handled : Frame V → DefaultCache V → DefaultCache V
  handled (invalidate none) c = (flush c).1
  handled (invalidate (some rs)) c = (delete_by_redis_keys rs c).1
  handled (reply v) c = c
  handled (failure message) c = c

  -- One push leaves the entries that it does not invalidate.
  handled_lem :
      (f : Frame V) (c : DefaultCache V)
      → IsPush f
      → IsCache c
      → IsCache (handled f c)
        × ((k : CacheKey) → entry_at k (handled f c) ≡ (if hits k f then none else entry_at k c))
  unfolding handled flush OrderedDict.get
  handled_lem (invalidate none) c p h = (record { distinct = tt; bounded = omega arith }, λ k. refl)
  handled_lem (invalidate (some (r ∷ []))) c (q, d) h =
      let (answer, well_formed, entries) = delete_by_redis_keys_one r q c d h in
      (well_formed, λ k. entries k ∙ rw d refl)
  handled_lem (invalidate (some [])) c p h = elim p [ ]
  handled_lem (invalidate (some (r ∷ (_ ∷ _)))) c p h = elim p [ ]
  handled_lem (reply _) c p h = elim p [ ]
  handled_lem (failure _) c p h = elim p [ ]

  handle-handled :
      (f : Frame V) (s : Proxies V)
      → IsPush f
      → IsCache s.cache
      → handle f s ≡ (ok tt, record s { cache = handled f s.cache })
  unfolding handle handled on_invalidation_callback flush
  handle-handled (invalidate none) s p h = refl
  handle-handled (invalidate (some (r ∷ []))) s (q, d) h =
      rw (delete_by_redis_keys_one r q s.cache d h).0
  handle-handled (invalidate (some [])) s p h = elim p [ ]
  handle-handled (invalidate (some (r ∷ (_ ∷ _)))) s p h = elim p [ ]
  handle-handled (reply _) s p h = elim p [ ]
  handle-handled (failure _) s p h = elim p [ ]

  -- what the proxies are after the frames of the connection `i` are read
  pub record IsDrained (i : ℕ) (frames : List (Frame V)) (s t : Proxies V) : Type 0 where
    pub well_formed : IsCache t.cache
    pub entries :
        (k : CacheKey)
        → entry_at k t.cache ≡ (if any_hits k frames then none else entry_at k s.cache)
    pub own : t.incoming i ≡ []
    pub others : (j : ℕ) → (i == j) ≡ false → t.incoming j ≡ s.incoming j
    pub requests : t.requests ≡ s.requests
    pub keys : t.current_command_cache_key ≡ s.current_command_cache_key

  drain_lem :
      (i : ℕ) (frames : List (Frame V)) (s : Proxies V)
      → ArePushes frames
      → IsCache s.cache
      → s.incoming i ≡ frames
      → ((drain i frames s).0 ≡ ok tt) × IsDrained i frames s (drain i frames s).1
  unfolding drain
  drain_lem i [] s p h e = (
    refl,
    record {
      well_formed = h;
      entries = λ k. refl;
      own = e;
      others = λ j _. refl;
      requests = refl;
      keys = refl;
    },
  )
  drain_lem i (f ∷ frames) s (p, ps) h e =
      let t : Proxies V = record s {
        cache = handled f s.cache;
        incoming = updated i frames s.incoming;
      } in
      let (well_formed, entries) = handled_lem f s.cache p h in
      let same : t.incoming i ≡ frames = ground arith in
      let (answer, rest) = drain_lem i frames t ps well_formed same in
      rw (handle-handled f (record s { incoming = updated i frames s.incoming }) p h) (
        answer,
        record {
          well_formed = rest.well_formed;
          entries = λ k. ground (arith, rest.entries k, entries k);
          own = rest.own;
          others = λ j d. rest.others j d ∙ rw d refl;
          requests = rest.requests;
          keys = rest.keys;
        },
      )

  -- Reading what has arrived raises nothing when the frames are pushes; it drops exactly the entries
  -- that the frames invalidate, and empties the socket of this connection alone.
  pub process_pending_invalidations_lem :
      (i : ℕ) (s : Proxies V)
      → ArePushes (s.incoming i)
      → IsCache s.cache
      → ((process_pending_invalidations i s).0 ≡ ok tt)
        × IsDrained i (s.incoming i) s (process_pending_invalidations i s).1
  unfolding process_pending_invalidations
  process_pending_invalidations_lem i s p h = drain_lem i (s.incoming i) s p h refl
