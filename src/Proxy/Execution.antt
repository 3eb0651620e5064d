-- ===== src/Proxy/Execution.antt =====
-- A command on a proxy from start to end: what it answers, and that the shared cache stays coherent.
use redis_py.Common.Outcome.{ok, Result, err}
use redis_py.Common.{
  ℕ, ◌≡◌, refl, ◌&&◌, ◌||◌, Option, [], ◌∷◌, sym, ap, ◌∙◌, false, none, some, List, arith,
}
use redis_py.Proxy.Connection.{
  Request, Proxies, ProxyError, closed, updated, send_command, send_now, read_response,
  process_pending_invalidations, reply, Frame, waits,
}
use redis_py.Proxy.Server.{World, attempt, disconnect_raise, serve, serve_all, execute, names_of}
use redis_py.Proxy.Invalidations.{any_hits}
use redis_py.Proxy.Coherence.{IsCoherent, key_of}
use redis_py.Proxy.Reading.{read_response-valid, read_response-pending, read_and_remember-waits}
use redis_py.Proxy.Transfer.{IsSame-IsCoherent, servable_now}
use redis_py.Cache.Config.{CacheKey, CacheEntry, CacheKey_Eq}
use redis_py.Cache.Entries.{entry_at}
use redis_py.Common.Equality.{◌==◌, ℕ_Eq, String_Eq, is_in}

module _ {V DB : Type 0} (answer : Request → DB → Option V) (dummy : V) where
  abbrev pub drained : ℕ → World V DB → Proxies V
  drained i w = (process_pending_invalidations i w.proxies).1

  abbrev pub sent : ℕ → Request → World V DB → Proxies V
  sent i q w = (send_now dummy i q (drained i w)).1

  -- the world in which the server has answered what stands on the connection
  abbrev pub after_send : ℕ → World V DB → Proxies V → World V DB
  after_send i w p = (serve answer i (record w { proxies = p })).1

  abbrev pub read_in : ℕ → World V DB → Result ProxyError (Option V) × World V DB
  read_in i u =
      ((read_response i u.proxies).0, record u { proxies = (read_response i u.proxies).1 })

  pub execute-sent :
      (i : ℕ) (q : Request) (w : World V DB)
      → (process_pending_invalidations i w.proxies).0 ≡ ok tt
      → (send_now dummy i q (drained i w)).0 ≡ ok tt
      → execute answer dummy i q w ≡ disconnect_raise i (read_in i (after_send i w (sent i q w)))
  unfolding execute attempt send_command serve
  execute-sent i q w p s = rw (p, s) refl

  pub disconnect_raise-answer :
      (i : ℕ) (r : Result ProxyError (Option V) × World V DB) → (disconnect_raise i r).0 ≡ r.0
  unfolding disconnect_raise
  disconnect_raise-answer i (ok v, w) = refl
  disconnect_raise-answer i (err waits, w) = refl
  disconnect_raise-answer i (err e, w) = refl

  pub execute-answer :
      (i : ℕ) (q : Request) (w : World V DB)
      → (process_pending_invalidations i w.proxies).0 ≡ ok tt
      → (send_now dummy i q (drained i w)).0 ≡ ok tt
      → (execute answer dummy i q w).0 ≡ (read_in i (after_send i w (sent i q w))).0
  execute-answer i q w p s = rw (execute-sent i q w p s) (disconnect_raise-answer i _)

  pub serve-idle :
      (i : ℕ) (w : World V DB) (p : Proxies V)
      → p.requests i ≡ []
      → after_send i w p ≡ record w { proxies = record p { requests = updated i [] p.requests } }
  unfolding serve serve_all
  serve-idle i w p e = rw e refl

  pub serve-one :
      (i : ℕ) (q : Request) (w : World V DB) (p : Proxies V)
      → p.requests i ≡ q ∷ []
      → p.incoming i ≡ []
      → after_send i w p ≡ record w {
        proxies = record p {
          incoming = updated i (reply (answer q w.database) ∷ []) p.incoming;
          requests = updated i [] p.requests;
        };
        tracked = λ j r. ((i == j) && is_in r (names_of q)) || w.tracked j r;
      }
  unfolding serve serve_all
  serve-one i q w p e f = rw (e, f) refl

  pub requests-cleared :
      (i : ℕ) (requests : ℕ → List Request)
      → ((j : ℕ) → requests j ≡ [])
      → (j : ℕ) → updated i [] requests j ≡ []
  requests-cleared i requests h j = ground (arith, h j)

  pub incoming-cleared :
      (i : ℕ) (incoming : ℕ → List (Frame V))
      → incoming i ≡ []
      → (j : ℕ) → updated i [] incoming j ≡ incoming j
  incoming-cleared i incoming h j = ground (arith, h, ℕ_Eq.beq_iff i j)

  module _ (Plain : Request → Type 0) (Owner : ℕ → Type 0) where
    -- The entry of the key is there, and no word of a change waits: its value is the present answer.
    pub read-hit :
        (i : ℕ) (q : Request) (e : CacheEntry V) (u : World V DB)
        → Plain q
        → IsCoherent answer Plain Owner u
        → u.proxies.current_command_cache_key i ≡ some (key_of q)
        → entry_at (key_of q) u.proxies.cache ≡ some e
        → any_hits (key_of q) (u.proxies.incoming e.connection_ref) ≡ false
        → ((read_in i (after_send i u u.proxies)).0 ≡ ok (answer q u.database))
          × IsCoherent answer Plain Owner (read_in i (after_send i u u.proxies)).1
    read-hit i q e u plain h c there spared =
        let servable = h.entries (key_of q) e there in
        let now = servable_now answer Plain Owner (key_of q) e u servable spared in
        let p : Proxies V = record u.proxies { requests = updated i [] u.proxies.requests } in
        let (value, untouched) =
          read_response-valid i (key_of q) e p h.well_formed c there servable.valid in
        rw (serve-idle i u u.proxies (h.quiet i)) (
          value ∙ ap ok (sym (now.present q plain refl)),
          IsSame-IsCoherent answer Plain Owner u (read_response i p).1 h untouched.same
              (λ j. rw untouched.incoming refl)
              (λ j. rw untouched.requests (requests-cleared i u.proxies.requests h.quiet j)),
        )

    -- The entry is gone, and nothing was sent: the read waits.
    pub read-blocked :
        (i : ℕ) (k : CacheKey) (u : World V DB)
        → IsCoherent answer Plain Owner u
        → u.proxies.current_command_cache_key i ≡ some k
        → entry_at k u.proxies.cache ≡ none
        → u.proxies.incoming i ≡ []
        → ((read_in i (after_send i u u.proxies)).0 ≡ err waits)
          × IsCoherent answer Plain Owner (read_in i (after_send i u u.proxies)).1
    read-blocked i k u h c absent silent =
        let p : Proxies V = record u.proxies { requests = updated i [] u.proxies.requests } in
        let on = read_response-pending i k p h.well_formed c (rw absent tt) in
        let t : Proxies V = on.state in
        let quiet : t.incoming i ≡ [] = rw on.untouched.incoming silent in
        rw (serve-idle i u u.proxies (h.quiet i), on.reads, read_and_remember-waits i t quiet)
          (
            refl,
            IsSame-IsCoherent answer Plain Owner u (closed i t) h on.untouched.same
                (λ j. incoming-cleared i t.incoming quiet j ∙ rw on.untouched.incoming refl)
                (requests-cleared i t.requests (λ j.
                  rw on.untouched.requests (requests-cleared i u.proxies.requests h.quiet j))),
          )
