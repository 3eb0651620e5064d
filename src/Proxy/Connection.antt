-- ===== src/Proxy/Connection.antt =====
-- redis/connection.py: `CacheProxyConnection` over the shared cache. A proxy and its `_conn` are known
-- by one number. The socket of a connection is the list of the frames that have arrived on it and
-- are not read, and the list of the requests that were sent and have no answer yet. The locks are left
-- out: a call runs whole.
use redis_py.Common.Outcome.{ok, err, Result, Action, pure, raise, ◌>>=◌, ◌>>◌}
use redis_py.Common.Equality.{◌==◌, ℕ_Eq}
use redis_py.Common.{ℕ, String, Option, none, some, List, [], ◌∷◌, ◌++◌, if◌then◌else◌}
use redis_py.Cache.Config.{RedisKey, CacheKey, CacheEntry, CacheEntryStatus}
use redis_py.Cache.Policy.{CacheError}
use redis_py.Cache.Store.{
  DefaultCache, is_cachable, set, get, delete_by_cache_keys, delete_by_redis_keys, flush,
}

-- `send_command(*args, keys=keys)`: `command` is `args[0]`, `arguments` are the others.
pub record Request : Type 0 where
  pub command : String
  pub arguments : List String
  pub keys : Option (List RedisKey)

-- What the server sends: an invalidation, which names redis keys or (`None`) the whole database, or
-- the reply to a request, which may be an error.
pub data Frame (V : Type 0) : Type 0 where
  invalidate : Option (List RedisKey) → Frame V
  reply : Option V → Frame V
  failure : String → Frame V

-- `waits`: there is nothing to read, and the read ends by a timeout.
pub data ProxyError : Type 0 where
  cache_error : CacheError → ProxyError
  response_error : String → ProxyError
  no_cache_key attribute_error waits : ProxyError

pub record Proxies (V : Type 0) : Type 0 where
  pub cache : DefaultCache V
  pub incoming : ℕ → List (Frame V)
  pub requests : ℕ → List Request
  pub current_command_cache_key : ℕ → Option CacheKey

module _ {A : Type 0} where
  -- the objects of which the one with number `i` has the new value
  abbrev pub updated : ℕ → A → (ℕ → A) → ℕ → A
  updated i a f j = if i == j then a else f j

  abbrev pub lifted : Result CacheError A → Result ProxyError A
  lifted (ok a) = ok a
  lifted (err e) = err (cache_error e)

module _ {V A : Type 0} where
  abbrev pub on_cache : Action CacheError (DefaultCache V) A → Action ProxyError (Proxies V) A
  on_cache m s = (lifted (m s.cache).0, record s { cache = (m s.cache).1 })

module _ {V : Type 0} where
  abbrev pub put_incoming : ℕ → List (Frame V) → Action ProxyError (Proxies V) Unit
  put_incoming i frames s = (ok tt, record s { incoming = updated i frames s.incoming })

  abbrev pub set_key : ℕ → Option CacheKey → Action ProxyError (Proxies V) Unit
  set_key i k s =
      (ok tt, record s { current_command_cache_key = updated i k s.current_command_cache_key })

  -- `self._conn.send_command(*args, **kwargs)`
  unfoldable pub transmit : ℕ → Request → Action ProxyError (Proxies V) Unit
  transmit i q s = (ok tt, record s { requests = updated i (s.requests i ++ q ∷ []) s.requests })

  -- `self._conn.disconnect()`: what stood on the socket is gone.
  abbrev pub closed : ℕ → Proxies V → Proxies V
  closed i s = record s { incoming = updated i [] s.incoming; requests = updated i [] s.requests }

module _ {V A : Type 0} where
  abbrev pub closed_on_error : ℕ → Result ProxyError A × Proxies V → Result ProxyError A × Proxies V
  closed_on_error i (ok a, s) = (ok a, s)
  closed_on_error i (err (response_error message), s) = (err (response_error message), s)
  closed_on_error i (err e, s) = (err e, closed i s)

  -- `Connection.read_response` with `disconnect_on_error`; an error that the server replies is raised when
  -- it has been read, and the connection stays.
  abbrev pub or_disconnect : ℕ → Action ProxyError (Proxies V) A → Action ProxyError (Proxies V) A
  or_disconnect i m s = closed_on_error i (m s)

module _ {V : Type 0} where
  unfoldable pub on_invalidation_callback :
      Option (List RedisKey) → Action ProxyError (Proxies V) Unit
  on_invalidation_callback none = do on_cache flush; pure tt
  on_invalidation_callback (some redis_keys) = do
    on_cache (delete_by_redis_keys redis_keys)
    pure tt

  -- one `self._conn.read_response(push_request=True)`: a reply that is read here is dropped.
  unfoldable pub handle : Frame V → Action ProxyError (Proxies V) Unit
  handle (invalidate redis_keys) = on_invalidation_callback redis_keys
  handle (reply v) = pure tt
  handle (failure message) = raise (response_error message)

  -- `while can_read(): read_response(push_request=True)`, over the frames that can be read
  unfoldable pub drain : ℕ → List (Frame V) → Action ProxyError (Proxies V) Unit
  drain i [] = pure tt
  drain i (f ∷ frames) = do or_disconnect i (do put_incoming i frames; handle f); drain i frames

  unfoldable pub process_pending_invalidations : ℕ → Action ProxyError (Proxies V) Unit
  process_pending_invalidations i s = drain i (s.incoming i) s

  -- `self._conn.read_response(push_request=False)`: the invalidations before the reply are handled.
  unfoldable pub receive : ℕ → List (Frame V) → Action ProxyError (Proxies V) (Option V)
  receive i [] = raise waits
  receive i (reply v ∷ frames) = do put_incoming i frames; pure v
  receive i (failure message ∷ frames) = do put_incoming i frames; raise (response_error message)
  receive i (invalidate redis_keys ∷ frames) = do
    put_incoming i frames
    on_invalidation_callback redis_keys
    receive i frames

  unfoldable pub read_from_connection : ℕ → Action ProxyError (Proxies V) (Option V)
  read_from_connection i = or_disconnect i λ s. receive i (s.incoming i) s

  abbrev pub in_progress_entry : V → ℕ → CacheKey → CacheEntry V
  in_progress_entry dummy i k = record {
    cache_key = k;
    cache_value = dummy;
    status = CacheEntryStatus.in_progress;
    connection_ref = i;
  }

-- `dummy` is `DUMMY_CACHE_VALUE`.
module _ {V : Type 0} (dummy : V) where
  -- the entry is there: what waits on the connection that cached it, if that is another one, is read.
  unfoldable pub drain_owner : ℕ → Option (CacheEntry V) → Action ProxyError (Proxies V) Unit
  drain_owner i none = raise attribute_error
  drain_owner i (some entry) =
      if entry.connection_ref == i
      then pure tt
      else process_pending_invalidations entry.connection_ref

  unfoldable pub send_found :
      ℕ → Request → CacheKey → Option (CacheEntry V) → Action ProxyError (Proxies V) Unit
  send_found i q k none = do on_cache (set (in_progress_entry dummy i k)); transmit i q
  send_found i q k (some _) = do entry ← on_cache (get k); drain_owner i entry

  unfoldable pub send_with_keys :
      ℕ → Request → Option (List RedisKey) → Action ProxyError (Proxies V) Unit
  send_with_keys i q none = raise no_cache_key
  send_with_keys i q (some redis_keys) = do
    set_key i (some record { command = q.command; redis_keys = redis_keys })
    found ← on_cache (get record { command = q.command; redis_keys = redis_keys })
    send_found i q record { command = q.command; redis_keys = redis_keys } found

  unfoldable pub send_now : ℕ → Request → Action ProxyError (Proxies V) Unit
  send_now i q s =
      if is_cachable s.cache record { command = q.command; redis_keys = [] }
      then send_with_keys i q q.keys s
      else (do set_key i none; transmit i q) s

  unfoldable pub send_command : ℕ → Request → Action ProxyError (Proxies V) Unit
  send_command i q = do process_pending_invalidations i; send_now i q

module _ {V : Type 0} where
  -- the entry is there and is not in progress: its value, of a third lookup
  unfoldable pub read_value : ℕ → Option (CacheEntry V) → Action ProxyError (Proxies V) (Option V)
  read_value i none = raise attribute_error
  read_value i (some entry) = do set_key i none; pure (some entry.cache_value)

  -- `cache_entry.status = VALID`, `cache_entry.cache_value = response` and `set`
  unfoldable pub keep_response : V → Option (CacheEntry V) → Action ProxyError (Proxies V) Unit
  keep_response response none = pure tt
  keep_response response (some entry) = do
    on_cache (set record entry { status = CacheEntryStatus.valid; cache_value = response })
    pure tt

  unfoldable pub remember :
      ℕ → Option CacheKey → Option V → Action ProxyError (Proxies V) (Option V)
  remember i none response = pure response
  remember i (some k) none = do on_cache (delete_by_cache_keys (k ∷ [])); pure none
  remember i (some k) (some response) = do
    entry ← on_cache (get k)
    keep_response response entry
    set_key i none
    pure (some response)

  unfoldable pub read_and_remember : ℕ → Action ProxyError (Proxies V) (Option V)
  read_and_remember i = do
    response ← read_from_connection i
    λ s. remember i (s.current_command_cache_key i) response s

  unfoldable pub read_by_status :
      ℕ → CacheKey → CacheEntryStatus → Action ProxyError (Proxies V) (Option V)
  read_by_status i k CacheEntryStatus.in_progress = read_and_remember i
  read_by_status i k CacheEntryStatus.valid = do entry ← on_cache (get k); read_value i entry

  unfoldable pub read_second :
      ℕ → CacheKey → Option (CacheEntry V) → Action ProxyError (Proxies V) (Option V)
  read_second i k none = raise attribute_error
  read_second i k (some entry) = read_by_status i k entry.status

  unfoldable pub read_found :
      ℕ → CacheKey → Option (CacheEntry V) → Action ProxyError (Proxies V) (Option V)
  read_found i k none = read_and_remember i
  read_found i k (some _) = do entry ← on_cache (get k); read_second i k entry

  unfoldable pub read_for : ℕ → Option CacheKey → Action ProxyError (Proxies V) (Option V)
  read_for i none = read_and_remember i
  read_for i (some k) = do found ← on_cache (get k); read_found i k found

  unfoldable pub read_response : ℕ → Action ProxyError (Proxies V) (Option V)
  read_response i s = read_for i (s.current_command_cache_key i) s

  unfoldable pub disconnect : ℕ → Action ProxyError (Proxies V) Unit
  disconnect i = do on_cache flush; (λ s. (ok tt, closed i s))
