-- ===== src/Proxy/Hazards.antt =====
-- What goes wrong where the shared cache, the keys that stay behind and the order of the reads meet.
use redis_py.Common.Outcome.{ok, err}
use redis_py.Common.{
  ℕ, String, ◌≡◌, refl, ◌∙◌, true, false, Option, none, some, List, [], ◌∷◌, arith, ap,
  if◌then◌else◌, inl, inr, Bool-cases,
}
use redis_py.Proxy.Connection.{
  Request, Proxies, Frame, updated, read_response, remember, send_now, waits, receive,
  read_from_connection, read_and_remember, response_error,
}
use redis_py.Proxy.Server.{World, execute}
use redis_py.Proxy.Invalidations.{process_pending_invalidations_lem, any_hits}
use redis_py.Proxy.Coherence.{key_of}
use redis_py.Proxy.Sending.{send_now-own, send_now-other}
use redis_py.Proxy.Reading.{
  read_response-pending, read_response-valid, read_and_remember-waits, read_and_remember-reply,
  IsPending,
}
use redis_py.Proxy.Execution.{drained, execute-answer, serve-idle, after_send, read_in}
use redis_py.Cache.Config.{
  RedisKey, CacheKey, CacheEntry, CacheEntryStatus, CacheKey_Eq, is_allowed_to_cache,
}
use redis_py.Cache.Bounds.{IsCache}
use redis_py.Cache.Entries.{entry_at}
use redis_py.Cache.Invalidation.ByCacheKey.{delete_by_cache_keys_lem}
use redis_py.Common.Equality.{◌==◌, ℕ_Eq}

module _ {V : Type 0} where
  remember-none_keeps_key :
      (i : ℕ) (k : CacheKey) (s : Proxies V)
      → IsCache s.cache
      → ((remember i (some k) none s).0 ≡ ok none)
        × ((remember i (some k) none s).1.current_command_cache_key ≡ s.current_command_cache_key)
  unfolding remember
  remember-none_keeps_key i k s h =
      let (answer, well_formed, entries) = delete_by_cache_keys_lem (k ∷ []) s.cache h in
      rw answer (refl, refl)

  -- After the reply `None` the key of the command stays the current one of the proxy, where its entry is gone or in progress.
  pub read_response-none :
      (i : ℕ) (k : CacheKey) (s : Proxies V)
      → IsCache s.cache
      → s.current_command_cache_key i ≡ some k
      → IsPending (entry_at k s.cache)
      → s.incoming i ≡ Frame.reply none ∷ []
      → ((read_response i s).0 ≡ ok none)
        × ((read_response i s).1.current_command_cache_key i ≡ some k)
  read_response-none i k s h current pending there =
      let on = read_response-pending i k s h current pending in
      let t : Proxies V = on.state in
      let b : Proxies V = record t { incoming = updated i [] t.incoming } in
      let (result, kept) = remember-none_keeps_key i k b on.untouched.same.well_formed in
      rw
        (
          on.reads,
          read_and_remember-reply i k none t (rw on.untouched.incoming there)
              (rw on.current current),
        )
        (result, rw (kept, on.current) current)

module _ {V : Type 0} where
  read_and_remember-failure :
      (i : ℕ) (message : String) (s : Proxies V)
      → s.incoming i ≡ Frame.failure message ∷ []
      → read_and_remember i s
        ≡ (err (response_error message), record s { incoming = updated i [] s.incoming })
  unfolding read_and_remember read_from_connection receive
  read_and_remember-failure i message s e = rw e refl

module _ {V DB : Type 0} (answer : Request → DB → Option V) (dummy : V) where
  -- A valid entry of this connection answers a command, whatever the server would answer to it: the
  -- arguments of the command other than its keys are not looked at. Nothing else stands on the
  -- connection.
  pub execute-cached :
      (i : ℕ) (q : Request) {ks : List RedisKey} (e : CacheEntry V) (w : World V DB)
      → is_allowed_to_cache q.command ≡ true
      → q.keys ≡ some ks
      → IsCache w.proxies.cache
      → w.proxies.incoming i ≡ []
      → w.proxies.requests i ≡ []
      → entry_at (key_of q) w.proxies.cache ≡ some e
      → e.status ≡ CacheEntryStatus.valid
      → e.connection_ref ≡ i
      → (execute answer dummy i q w).0 ≡ ok (some e.cache_value)
  execute-cached i q e w allowed keys h silent quiet there valid own =
      let (reads, d) = process_pending_invalidations_lem i w.proxies (rw silent tt) h in
      let s : Proxies V = drained answer dummy i w in
      let before : entry_at (key_of q) s.cache ≡ some e = d.entries (key_of q) ∙ rw silent there in
      let (sends, l) =
        send_now-own dummy i q e s allowed keys d.well_formed before
          ((ℕ_Eq.beq_iff e.connection_ref i).1 own) in
      let p : Proxies V = (send_now dummy i q s).1 in
      let idle : p.requests i ≡ [] = rw (l.requests, d.requests) quiet in
      let a : Proxies V = record p { requests = updated i [] p.requests } in
      let (value, untouched) =
        read_response-valid i (key_of q) e a l.same.well_formed l.current
          (l.same.entries (key_of q) ∙ before) valid in
      rw (execute-answer answer dummy i q w reads sends, serve-idle answer dummy i w p idle) value

  waiting-read :
      (i : ℕ) (k : CacheKey) (e : CacheEntry V) (w : World V DB) (p : Proxies V)
      → IsCache p.cache
      → p.current_command_cache_key i ≡ some k
      → entry_at k p.cache ≡ some e
      → e.status ≡ CacheEntryStatus.in_progress
      → p.incoming i ≡ []
      → p.requests i ≡ []
      → (read_in answer dummy i (after_send answer dummy i w p)).0 ≡ err waits
  waiting-read i k e w p h current there waiting silent idle =
      let a : Proxies V = record p { requests = updated i [] p.requests } in
      let on = read_response-pending i k a h current (rw there waiting) in
      let nothing : on.state.incoming i ≡ [] = rw on.untouched.incoming silent in
      rw (serve-idle answer dummy i w p idle, on.reads, read_and_remember-waits i on.state nothing)
        refl

  in_progress-other :
      (i : ℕ) (q : Request) {ks : List RedisKey} (e : CacheEntry V) (w : World V DB) (s : Proxies V)
      → is_allowed_to_cache q.command ≡ true
      → q.keys ≡ some ks
      → IsCache s.cache
      → s.incoming i ≡ []
      → s.requests i ≡ []
      → entry_at (key_of q) s.cache ≡ some e
      → e.status ≡ CacheEntryStatus.in_progress
      → (e.connection_ref == i) ≡ false
      → s.incoming e.connection_ref ≡ []
      → ((send_now dummy i q s).0 ≡ ok tt)
        × ((read_in answer dummy i (after_send answer dummy i w (send_now dummy i q s).1)).0
            ≡ err waits)
  in_progress-other i q e w s allowed keys h silent quiet before waiting other none_there =
      let (sends, (m, l, dd)) =
        send_now-other dummy i q e s allowed keys h before other (rw none_there tt) in
      let p : Proxies V = (send_now dummy i q s).1 in
      let after : entry_at (key_of q) p.cache ≡ some e =
        dd.entries (key_of q)
        ∙ ap
            (λ (f : List (Frame V)).
              if any_hits (key_of q) f then none else entry_at (key_of q) m.cache)
            none_there
        ∙ (l.same.entries (key_of q) ∙ before) in
      (
        sends,
        waiting-read i (key_of q) e w p dd.well_formed (rw dd.keys l.current) after waiting
            (dd.others i other ∙ rw l.incoming silent) (rw (dd.requests, l.requests) quiet),
      )

  in_progress-own :
      (i : ℕ) (q : Request) {ks : List RedisKey} (e : CacheEntry V) (w : World V DB) (s : Proxies V)
      → is_allowed_to_cache q.command ≡ true
      → q.keys ≡ some ks
      → IsCache s.cache
      → s.incoming i ≡ []
      → s.requests i ≡ []
      → entry_at (key_of q) s.cache ≡ some e
      → e.status ≡ CacheEntryStatus.in_progress
      → (e.connection_ref == i) ≡ true
      → ((send_now dummy i q s).0 ≡ ok tt)
        × ((read_in answer dummy i (after_send answer dummy i w (send_now dummy i q s).1)).0
            ≡ err waits)
  in_progress-own i q e w s allowed keys h silent quiet before waiting own =
      let (sends, l) = send_now-own dummy i q e s allowed keys h before own in
      (
        sends,
        waiting-read i (key_of q) e w (send_now dummy i q s).1 l.same.well_formed l.current
            (l.same.entries (key_of q) ∙ before) waiting (rw l.incoming silent)
            (rw l.requests quiet),
      )

  -- A command that finds an entry in progress is not sent, and its read waits for a reply that does
  -- not come: whether another connection is between its send and its read, or an earlier command on
  -- this one has raised and left its entry. Nothing else stands on the two connections.
  execute-in_progress :
      (i : ℕ) (q : Request) {ks : List RedisKey} (e : CacheEntry V) (w : World V DB)
      → is_allowed_to_cache q.command ≡ true
      → q.keys ≡ some ks
      → IsCache w.proxies.cache
      → w.proxies.incoming i ≡ []
      → w.proxies.requests i ≡ []
      → entry_at (key_of q) w.proxies.cache ≡ some e
      → e.status ≡ CacheEntryStatus.in_progress
      → w.proxies.incoming e.connection_ref ≡ []
      → (execute answer dummy i q w).0 ≡ err waits
  execute-in_progress i q e w allowed keys h silent quiet there waiting silent_too =
      let (reads, d) = process_pending_invalidations_lem i w.proxies (rw silent tt) h in
      let s : Proxies V = drained answer dummy i w in
      let before : entry_at (key_of q) s.cache ≡ some e = d.entries (key_of q) ∙ rw silent there in
      let idle : s.requests i ≡ [] = rw d.requests quiet in
      elim (Bool-cases (e.connection_ref == i)) [
        | inl own ↦
            let (sends, done) =
              in_progress-own i q e w s allowed keys d.well_formed d.own idle before waiting own in
            rw (execute-answer answer dummy i q w reads sends) done
        | inr other ↦
            let different : (i == e.connection_ref) ≡ false =
              ground
                (arith, ℕ_Eq.beq_iff i e.connection_ref, ℕ_Eq.beq_iff e.connection_ref i, other) in
            let (sends, done) =
              in_progress-other i q e w s allowed keys d.well_formed d.own idle before waiting other
                (d.others e.connection_ref different ∙ silent_too) in
            rw (execute-answer answer dummy i q w reads sends) done
      ]

  -- After an error reply the entry of the command stays in progress, so that the same command on the
  -- same connection is not sent and its read waits for a reply that does not come. Nothing else stands
  -- on the connection, and the entry is the one that this connection has put in progress.
  pub execute-after_failure :
      (i : ℕ) (q : Request) {ks : List RedisKey} (message : String) (e : CacheEntry V)
      (w : World V DB)
      → is_allowed_to_cache q.command ≡ true
      → q.keys ≡ some ks
      → IsCache w.proxies.cache
      → w.proxies.current_command_cache_key i ≡ some (key_of q)
      → entry_at (key_of q) w.proxies.cache ≡ some e
      → e.status ≡ CacheEntryStatus.in_progress
      → e.connection_ref ≡ i
      → w.proxies.incoming i ≡ Frame.failure message ∷ []
      → w.proxies.requests i ≡ []
      → ((read_response i w.proxies).0 ≡ err (response_error message))
        × ((execute answer dummy i q (record w { proxies = (read_response i w.proxies).1 })).0
            ≡ err waits)
  execute-after_failure i q message e w allowed keys h current there waiting own failed quiet =
      let on = read_response-pending i (key_of q) w.proxies h current (rw there waiting) in
      let t : Proxies V = record on.state { incoming = updated i [] on.state.incoming } in
      let silent : t.incoming i ≡ [] = ground (arith, ℕ_Eq.beq_iff i i) in
      rw (on.reads, read_and_remember-failure i message on.state (rw on.untouched.incoming failed))
        (
          refl,
          execute-in_progress i q e (record w { proxies = t }) allowed keys
              on.untouched.same.well_formed silent (rw on.untouched.requests quiet)
              (on.untouched.same.entries (key_of q) ∙ there) waiting (rw own silent),
        )
