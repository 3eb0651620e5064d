-- ===== src/Proxy/Answers.antt =====
-- What a command answers on a proxy of a shared cache, against the server that answers each time.
use redis_py.Proxy.Coherence.{key_of, IsCoherent, disconnected-IsCoherent}
use redis_py.Proxy.Server.{World, execute, disconnect_raise}
use redis_py.Proxy.Sending.{IsLocated, send_now-asks, send_now-own, send_now-other}
use redis_py.Proxy.Execution.{
  drained, after_send, read_in, execute-sent, disconnect_raise-answer, read-hit, read-blocked,
}
use redis_py.Proxy.Transfer.{IsSame-IsCoherent, drained-IsCoherent}
use redis_py.Proxy.Asking.{read-asked}
use redis_py.Common.Outcome.{Result, ok, err}
use redis_py.Common.{
  ℕ, ◌≡◌, refl, inl, inr, Bool, false, not, ◌&&◌, Option, none, some, List, arith, Option-cases,
  ◌∙◌, true, [], if◌then◌else◌, Bool-cases, sym, subst,
}
use redis_py.Proxy.Connection.{Proxies, ProxyError, Frame, Request, send_now, waits}
use redis_py.Proxy.Invalidations.{any_hits, IsDrained, process_pending_invalidations_lem}
use redis_py.Cache.Config.{RedisKey, CacheKey, CacheEntry, CacheKey_Eq, is_allowed_to_cache}
use redis_py.Cache.Entries.{entry_at}
use redis_py.Common.Equality.{◌==◌, ℕ_Eq}

module _ {V : Type 0} where
  -- The key has an entry of another connection, on which the word of a change of the key waits, while
  -- none waits on the connection `i`.
  abbrev pub is_lost : ℕ → CacheKey → (ℕ → List (Frame V)) → Option (CacheEntry V) → Bool
  is_lost i k incoming none = false
  is_lost i k incoming (some e) =
      not (any_hits k (incoming i))
      && (not (e.connection_ref == i) && any_hits k (incoming e.connection_ref))

  not_lost :
      (i : ℕ) (k : CacheKey) (s t : Proxies V)
      → IsDrained i (s.incoming i) s t
      → entry_at k t.cache ≡ none
      → is_lost i k s.incoming (entry_at k s.cache) ≡ false
  not_lost i k s t d gone = elim (Option-cases (entry_at k s.cache)) [
    | inl e ↦ rw e refl
    | inr (e, there) ↦ rw there (ground (arith, d.entries k, there, gone))
  ]

  lost-found :
      (i : ℕ) (k : CacheKey) (e : CacheEntry V) (s t : Proxies V)
      → IsDrained i (s.incoming i) s t
      → entry_at k t.cache ≡ some e
      → is_lost i k s.incoming (entry_at k s.cache)
        ≡ (not (e.connection_ref == i) && any_hits k (t.incoming e.connection_ref))
  lost-found i k e s t d there = elim (Option-cases (entry_at k s.cache)) [
    | inl gone ↦ ground (arith, d.entries k, there, gone)
    | inr (f, before) ↦ rw before (
        ground (
          arith,
          d.entries k,
          there,
          before,
          d.others e.connection_ref,
          ℕ_Eq.beq_iff i e.connection_ref,
          ℕ_Eq.beq_iff e.connection_ref i,
        ))
  ]

module _ {V DB : Type 0} (answer : Request → DB → Option V) (dummy : V) (Plain : Request → Type 0)
    (Owner : ℕ → Type 0)
    (determined : (a b : Request)
      → Plain a
      → Plain b
      → key_of a ≡ key_of b
      → (d : DB) → answer a d ≡ answer b d) where
  -- the answer and the world of a command whose first steps raised nothing
  abbrev Answers : ℕ → Request → World V DB → Bool → Proxies V → Type 0
  Answers i q w lost p =
      ((read_in answer dummy i (after_send answer dummy i w p)).0
        ≡ (if lost then err waits else ok (answer q w.database)))
      × IsCoherent answer Plain Owner (read_in answer dummy i (after_send answer dummy i w p)).1

  located-IsCoherent :
      (i : ℕ) (k : CacheKey) (u : World V DB) (p : Proxies V)
      → IsCoherent answer Plain Owner u
      → IsLocated i k u.proxies p
      → IsCoherent answer Plain Owner (record u { proxies = p })
  located-IsCoherent i k u p h l =
      IsSame-IsCoherent answer Plain Owner u p h l.same (λ j. rw l.incoming refl)
        (λ j. rw l.requests (h.quiet j))

  Answers-own :
      (i : ℕ) (q : Request) (e : CacheEntry V) (u : World V DB) (p : Proxies V)
      → Plain q
      → IsCoherent answer Plain Owner u
      → u.proxies.incoming i ≡ []
      → entry_at (key_of q) u.proxies.cache ≡ some e
      → (e.connection_ref == i) ≡ true
      → IsLocated i (key_of q) u.proxies p
      → Answers i q u false p
  Answers-own i q e u p plain h silent there own l =
      let same : e.connection_ref ≡ i = (ℕ_Eq.beq_iff e.connection_ref i).0 own in
      read-hit answer dummy Plain Owner i q e (record u { proxies = p }) plain
        (located-IsCoherent i (key_of q) u p h l) l.current (l.same.entries (key_of q) ∙ there)
        (rw (l.incoming, same, silent) refl)

  Answers-other :
      (i : ℕ) (q : Request) (e : CacheEntry V) (u : World V DB) (m p : Proxies V)
      → Plain q
      → IsCoherent answer Plain Owner u
      → u.proxies.incoming i ≡ []
      → entry_at (key_of q) u.proxies.cache ≡ some e
      → (e.connection_ref == i) ≡ false
      → IsLocated i (key_of q) u.proxies m
      → IsDrained e.connection_ref (u.proxies.incoming e.connection_ref) m p
      → Answers i q u (any_hits (key_of q) (u.proxies.incoming e.connection_ref)) p
  Answers-other i q e u m p plain h silent there other l d =
      let found = located-IsCoherent i (key_of q) u m h l in
      let now =
        drained-IsCoherent answer Plain Owner e.connection_ref (record u { proxies = m }) p found
          (subst (λ (g : ℕ → List (Frame V)). IsDrained e.connection_ref (g e.connection_ref) m p)
            (sym l.incoming) d) in
      let current : p.current_command_cache_key i ≡ some (key_of q) = rw d.keys l.current in
      let before : entry_at (key_of q) m.cache ≡ some e = l.same.entries (key_of q) ∙ there in
      elim (Bool-cases (any_hits (key_of q) (u.proxies.incoming e.connection_ref))) [
        | inl hit ↦ rw hit (
            read-blocked answer dummy Plain Owner i (key_of q) (record u { proxies = p }) now
              current (d.entries (key_of q) ∙ rw hit refl)
              (d.others i other ∙ rw l.incoming silent))
        | inr spared ↦ rw spared (
            read-hit answer dummy Plain Owner i q e (record u { proxies = p }) plain now current
              (d.entries (key_of q) ∙ rw spared before) (rw d.own refl))
      ]

  Answers-entry :
      (i : ℕ) (q : Request) {ks : List RedisKey} (e : CacheEntry V) (u : World V DB)
      → Plain q
      → is_allowed_to_cache q.command ≡ true
      → q.keys ≡ some ks
      → IsCoherent answer Plain Owner u
      → u.proxies.incoming i ≡ []
      → entry_at (key_of q) u.proxies.cache ≡ some e
      → ((send_now dummy i q u.proxies).0 ≡ ok tt)
        × Answers i q u
            (not (e.connection_ref == i)
              && any_hits (key_of q) (u.proxies.incoming e.connection_ref))
            (send_now dummy i q u.proxies).1
  Answers-entry i q e u plain allowed keys h silent there =
      elim (Bool-cases (e.connection_ref == i)) [
        | inl own ↦
            let (sends, l) =
              send_now-own dummy i q e u.proxies allowed keys h.well_formed there own in
            (sends, rw own (Answers-own i q e u _ plain h silent there own l))
        | inr other ↦
            let (sends, (m, l, d)) =
              send_now-other dummy i q e u.proxies allowed keys h.well_formed there other
                (h.pushes e.connection_ref) in
            (sends, rw other (Answers-other i q e u m _ plain h silent there other l d))
      ]

  disconnect_raise-IsCoherent :
      (i : ℕ) (r : Result ProxyError (Option V) × World V DB)
      → IsCoherent answer Plain Owner r.1
      → IsCoherent answer Plain Owner (disconnect_raise i r).1
  unfolding disconnect_raise
  disconnect_raise-IsCoherent i (ok v, w) h = h
  disconnect_raise-IsCoherent i (err waits, w) h = disconnected-IsCoherent answer Plain Owner i w h
  disconnect_raise-IsCoherent i (err e, w) h = h

  Answers-none :
      (i : ℕ) (q : Request) {ks : List RedisKey} (u : World V DB)
      → Plain q
      → Owner i
      → is_allowed_to_cache q.command ≡ true
      → q.keys ≡ some ks
      → IsCoherent answer Plain Owner u
      → u.proxies.incoming i ≡ []
      → entry_at (key_of q) u.proxies.cache ≡ none
      → ((send_now dummy i q u.proxies).0 ≡ ok tt)
        × Answers i q u false (send_now dummy i q u.proxies).1
  Answers-none i q u plain uses allowed keys h silent absent =
      let (sends, asked) = send_now-asks dummy i q u.proxies allowed keys h.well_formed absent in
      (
        sends,
        read-asked answer dummy Plain Owner i q u _ plain determined allowed uses h silent asked,
      )

  pub execute_lem :
      (i : ℕ) (q : Request) {ks : List RedisKey} (w : World V DB)
      → Plain q
      → Owner i
      → is_allowed_to_cache q.command ≡ true
      → q.keys ≡ some ks
      → IsCoherent answer Plain Owner w
      → ((execute answer dummy i q w).0 ≡ (
          if is_lost i (key_of q) w.proxies.incoming (entry_at (key_of q) w.proxies.cache)
          then err waits
          else ok (answer q w.database)))
        × IsCoherent answer Plain Owner (execute answer dummy i q w).1
  execute_lem i q w plain uses allowed keys h =
      let (reads, d) = process_pending_invalidations_lem i w.proxies (h.pushes i) h.well_formed in
      let u : World V DB = record w { proxies = drained answer dummy i w } in
      let now = drained-IsCoherent answer Plain Owner i w (drained answer dummy i w) h d in
      elim (Option-cases (entry_at (key_of q) u.proxies.cache)) [
        | inl absent ↦
            let (sends, done) = Answers-none i q u plain uses allowed keys now d.own absent in
            rw
              (
                not_lost i (key_of q) w.proxies u.proxies d absent,
                execute-sent answer dummy i q w reads sends,
              )
              (
                disconnect_raise-answer answer dummy i _ ∙ done.0,
                disconnect_raise-IsCoherent i _ done.1,
              )
        | inr (e, there) ↦
            let (sends, done) = Answers-entry i q e u plain allowed keys now d.own there in
            rw
              (
                lost-found i (key_of q) e w.proxies u.proxies d there,
                execute-sent answer dummy i q w reads sends,
              )
              (
                disconnect_raise-answer answer dummy i _ ∙ done.0,
                disconnect_raise-IsCoherent i _ done.1,
              )
      ]
