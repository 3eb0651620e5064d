-- ===== src/Proxy/Asking.antt =====
-- A command that is sent: the server answers it, and the reply goes into the cache.
use redis_py.Proxy.Sending.{IsAsked}
use redis_py.Proxy.Execution.{after_send, read_in, serve-one}
use redis_py.Common.Outcome.{ok}
use redis_py.Common.{
  ℕ, ◌≡◌, refl, ◌∙◌, inl, inr, true, ◌&&◌, ◌||◌, Option, none, some, List, [], ◌∷◌, ◌++◌, arith,
  sym, String,
}
use redis_py.Proxy.Connection.{Request, Proxies, Frame, updated, in_progress_entry}
use redis_py.Proxy.Server.{World, keys_of, names_of, texts}
use redis_py.Proxy.Coherence.{IsServable, key_of, IsCoherent}
use redis_py.Proxy.Reading.{IsPending, read_response-pending, read_and_remember-reply, IsRemembered}
use redis_py.Proxy.Remembering.{IsOwn, remember_lem}
use redis_py.Proxy.Transfer.{IsLater, IsServable-later}
use redis_py.Cache.Config.{
  RedisKey, RedisKey_Eq, text, encoded, integer, undecodable, CacheKey, CacheEntry,
  CacheEntryStatus, CacheKey_Eq, same_key_iff, is_allowed_to_cache,
}
use redis_py.Cache.Store.{DefaultCache, is_cachable}
use redis_py.Cache.Entries.{entry_at, AddsAtMost, IsSame}
use redis_py.Common.Equality.{◌==◌, ℕ_Eq, String_Eq, is_in}

-- the server tracks each text that the request gives
is_in-texts :
    (r : String) (ks : List RedisKey) → is_in (text r) ks ≡ true → is_in r (texts ks) ≡ true
is_in-texts r [] h = cc
is_in-texts r (text k ∷ ks) h = ground (arith, h, is_in-texts r ks)
is_in-texts r (encoded k ∷ ks) h = ground (arith, h, is_in-texts r ks)
is_in-texts r (integer k ∷ ks) h = ground (arith, h, is_in-texts r ks)
is_in-texts r (undecodable bs ∷ ks) h = is_in-texts r ks h

module _ {V : Type 0} (dummy : V) where
  -- what the cache has at the key that was put in progress
  put_in_progress :
      (i : ℕ) (k : CacheKey) (c d : DefaultCache V)
      → AddsAtMost (in_progress_entry dummy i k) c d
      → (o : Option (CacheEntry V)) → entry_at k d ≡ o
      → IsPending o × IsOwn i k o
  put_in_progress i k c d adds none there = (tt, tt)
  put_in_progress i k c d adds (some e) there = elim (adds k e there) [
    | inl (same, is_new) ↦ (rw is_new refl, (rw is_new refl, rw is_new refl))
    | inr (other, _) ↦ let equal : (k == k) ≡ true = (same_key_iff k k).1 refl in cc
  ]

  -- the requests and the frames of the connections once the reply is read
  emptied_requests :
      (i : ℕ) (q : Request) (requests : ℕ → List Request)
      → ((j : ℕ) → requests j ≡ [])
      → (j : ℕ) → updated i [] (updated i (requests i ++ q ∷ []) requests) j ≡ []
  emptied_requests i q requests h j = ground (arith, h j)

  emptied_incoming :
      (i : ℕ) (v : Option V) (incoming : ℕ → List (Frame V))
      → incoming i ≡ []
      → (j : ℕ) → updated i [] (updated i (Frame.reply v ∷ []) incoming) j ≡ incoming j
  emptied_incoming i v incoming h j = ground (arith, h, ℕ_Eq.beq_iff i j)

module _ {V DB : Type 0} (answer : Request → DB → Option V) (dummy : V) (Plain : Request → Type 0)
    (Owner : ℕ → Type 0) where
  -- the world after the reply is on the connection
  abbrev replied : ℕ → Request → World V DB → Proxies V → World V DB
  replied i q u p = record u {
    proxies = record p {
      incoming = updated i (Frame.reply (answer q u.database) ∷ []) p.incoming;
      requests = updated i [] p.requests;
    };
    tracked = λ j r. ((i == j) && is_in r (names_of q)) || u.tracked j r;
  }

  replied-IsLater :
      (i : ℕ) (q : Request) (u : World V DB) (p f : Proxies V)
      → IsLater u (record (replied i q u p) { proxies = f })
  replied-IsLater i q u p f = record { database = refl; tracked = λ j r h. ground (arith, h) }

  -- the new entry is what the server answers now
  new-IsServable :
      (i : ℕ) (q : Request) (u : World V DB) (p f : Proxies V) (k : CacheKey) (e : CacheEntry V)
      → Plain q
      → ((a b : Request)
          → Plain a
          → Plain b
          → key_of a ≡ key_of b
          → (d : DB) → answer a d ≡ answer b d)
      → Owner i
      → k ≡ key_of q
      → e.status ≡ CacheEntryStatus.valid
      → e.connection_ref ≡ i
      → answer q u.database ≡ some e.cache_value
      → IsServable answer Plain Owner k e (record (replied i q u p) { proxies = f })
  new-IsServable i q u p f k e plain determined uses same valid own value = record {
    valid = valid;
    owner = rw own uses;
    current = inr (
        rw (own, same)
          (record {
            present = λ a there e. determined a q there plain e u.database ∙ value;
            tracked = λ r h. ground (arith, is_in-texts r (keys_of q) h, ℕ_Eq.beq_iff i i);
          }));
  }

  kept-IsCoherent :
      (i : ℕ) (q : Request) (u : World V DB) (p b f : Proxies V)
      → Plain q
      → ((a b : Request)
          → Plain a
          → Plain b
          → key_of a ≡ key_of b
          → (d : DB) → answer a d ≡ answer b d)
      → Owner i
      → IsCoherent answer Plain Owner u
      → u.proxies.incoming i ≡ []
      → IsAsked i q (in_progress_entry dummy i (key_of q)) u.proxies p
      → IsSame p.cache b.cache
      → b.incoming ≡ updated i [] (updated i (Frame.reply (answer q u.database) ∷ []) p.incoming)
      → b.requests ≡ updated i [] p.requests
      → IsRemembered i (key_of q) (answer q u.database) b f
      → IsCoherent answer Plain Owner (record (replied i q u p) { proxies = f })
  kept-IsCoherent i q u p b f plain determined uses h silent asked same incoming requests r =
      let left : (j : ℕ) → f.incoming j ≡ u.proxies.incoming j = λ j.
        rw (r.incoming, incoming, asked.incoming)
          (emptied_incoming dummy i (answer q u.database) u.proxies.incoming silent j) in
      record {
        well_formed = r.well_formed;
        quiet = λ j.
            rw (r.requests, requests, asked.requests)
              (emptied_requests dummy i q u.proxies.requests h.quiet j);
        pushes = λ j. rw (left j) (h.pushes j);
        entries = λ k e there. elim (r.entries k e there) [
          | inl (at_key, valid, own, value) ↦
              new-IsServable i q u p f k e plain determined uses at_key valid own value
          | inr (other, before) ↦ elim (asked.entries k e (sym (same.entries k) ∙ before)) [
            | inl (at_key, is_new) ↦
                let equal : (key_of q == k) ≡ true = (same_key_iff (key_of q) k).1 (sym at_key) in
                cc
            | inr (_, old) ↦
                IsServable-later answer Plain Owner k e u (record (replied i q u p) { proxies = f })
                  (replied-IsLater i q u p f) (left e.connection_ref) (h.entries k e old)
          ]
        ];
      }

  -- The key has no entry: the command is sent, its answer is the present one, and the cache is
  -- coherent when the answer has been kept.
  pub read-asked :
      (i : ℕ) (q : Request) (u : World V DB) (p : Proxies V)
      → Plain q
      → ((a b : Request)
          → Plain a
          → Plain b
          → key_of a ≡ key_of b
          → (d : DB) → answer a d ≡ answer b d)
      → is_allowed_to_cache q.command ≡ true
      → Owner i
      → IsCoherent answer Plain Owner u
      → u.proxies.incoming i ≡ []
      → IsAsked i q (in_progress_entry dummy i (key_of q)) u.proxies p
      → ((read_in answer dummy i (after_send answer dummy i u p)).0 ≡ ok (answer q u.database))
        × IsCoherent answer Plain Owner (read_in answer dummy i (after_send answer dummy i u p)).1
  read-asked i q u p plain determined allowed uses h silent asked =
      let k : CacheKey = key_of q in
      let a : Proxies V = (replied i q u p).proxies in
      let state = put_in_progress dummy i k u.proxies.cache p.cache asked.entries _ refl in
      let on = read_response-pending i k a asked.well_formed asked.current state.0 in
      let t : Proxies V = on.state in
      let b : Proxies V = record t { incoming = updated i [] t.incoming } in
      let there : t.incoming i ≡ Frame.reply (answer q u.database) ∷ [] =
        rw on.untouched.incoming (ground (arith, ℕ_Eq.beq_iff i i)) in
      let current : t.current_command_cache_key i ≡ some k = rw on.current asked.current in
      let own : IsOwn i k (entry_at k b.cache) = rw (on.untouched.same.entries k) state.1 in
      let found : is_cachable b.cache k ≡ true = unfold is_cachable in allowed in
      let (result, kept) =
        remember_lem i k (answer q u.database) b on.untouched.same.well_formed own found in
      let one : p.requests i ≡ q ∷ [] = rw asked.requests (ground (arith, h.quiet i)) in
      rw
        (
          serve-one answer dummy i q u p one (rw asked.incoming silent),
          on.reads,
          read_and_remember-reply i k (answer q u.database) t there current,
        )
        (
          result,
          kept-IsCoherent i q u p b _ plain determined uses h silent asked on.untouched.same
              (rw on.untouched.incoming refl) on.untouched.requests kept,
        )
