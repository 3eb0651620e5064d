-- ===== src/Proxy/Histories.antt =====
-- Commands on the proxies, writes and flushes by anyone, and disconnections, in any order.
use redis_py.Common.Outcome.{ok}
use redis_py.Common.{
  ℕ, String, ◌≡◌, refl, ◌∙◌, true, false, Option, none, some, List, [], ◌∷◌, arith, All, map,
}
use redis_py.Proxy.Connection.{Request}
use redis_py.Proxy.Server.{World, execute, written, emptied, disconnected, keys_of, names_of}
use redis_py.Proxy.Coherence.{
  IsCoherent, key_of, written-IsCoherent, emptied-IsCoherent, disconnected-IsCoherent,
}
use redis_py.Proxy.Answers.{execute_lem, is_lost}
use redis_py.Cache.Config.{RedisKey, text, CacheKey, CacheEntry, CacheKey_Eq, is_allowed_to_cache}
use redis_py.Cache.Entries.{entry_at}
use redis_py.Common.Equality.{ℕ_Eq, is_in, String_Eq}

pub data Event (DB W : Type 0) : Type 0 where
  executes : ℕ → Request → Event DB W
  writes : String → W → Event DB W
  empties : DB → Event DB W
  disconnects : ℕ → Event DB W

module _ {V DB W : Type 0} (answer : Request → DB → Option V) (put : String → W → DB → DB)
    (dummy : V) where
  unfoldable pub happens : Event DB W → World V DB → World V DB
  happens (executes i q) w = (execute answer dummy i q w).1
  happens (writes r value) w = written put r value w
  happens (empties empty) w = emptied empty w
  happens (disconnects i) w = disconnected i w

  unfoldable pub run : List (Event DB W) → World V DB → World V DB
  run [] w = w
  run (event ∷ events) w = run events (happens event w)

-- The commands are plain and cachable, have keys, and are those of the connections in use.
abbrev pub IsUsual : {DB W : Type 0} → (Request → Type 0) → (ℕ → Type 0) → Event DB W → Type 0
IsUsual Plain Owner (executes i q) =
    Plain q
    × Owner i
    × (is_allowed_to_cache q.command ≡ true)
    × ((ks : List RedisKey) × (q.keys ≡ some ks))
IsUsual Plain Owner (writes r value) = Unit
IsUsual Plain Owner (empties empty) = Unit
IsUsual Plain Owner (disconnects i) = Unit

module _ {V DB W : Type 0} (answer : Request → DB → Option V) (put : String → W → DB → DB)
    (dummy : V) (Plain : Request → Type 0) (Owner : ℕ → Type 0)
    (determined : (a b : Request)
      → Plain a
      → Plain b
      → key_of a ≡ key_of b
      → (d : DB) → answer a d ≡ answer b d)
    (local : (q : Request) (r : String) (value : W) (d : DB)
      → is_in r (names_of q) ≡ false
      → answer q (put r value d) ≡ answer q d)
    (as_texts : (q : Request) → Plain q → keys_of q ≡ map text (names_of q)) where
  happens-IsCoherent :
      (event : Event DB W) (w : World V DB)
      → IsUsual Plain Owner event
      → IsCoherent answer Plain Owner w
      → IsCoherent answer Plain Owner (happens answer put dummy event w)
  unfolding happens
  happens-IsCoherent (executes i q) w (plain, uses, allowed, (ks, keys)) h =
      (execute_lem answer dummy Plain Owner determined i q w plain uses allowed keys h).1
  happens-IsCoherent (writes r value) w u h =
      written-IsCoherent answer Plain Owner put local as_texts r value w h
  happens-IsCoherent (empties empty) w u h = emptied-IsCoherent answer Plain Owner empty w h
  happens-IsCoherent (disconnects i) w u h = disconnected-IsCoherent answer Plain Owner i w h

  -- Whatever happens, in any order, keeps the shared cache coherent.
  pub run-IsCoherent :
      (events : List (Event DB W)) (w : World V DB)
      → All (IsUsual Plain Owner) events
      → IsCoherent answer Plain Owner w
      → IsCoherent answer Plain Owner (run answer put dummy events w)
  unfolding run
  run-IsCoherent [] w u h = h
  run-IsCoherent (event ∷ events) w (u, us) h =
      run-IsCoherent events (happens answer put dummy event w) us (happens-IsCoherent event w u h)

module _ {V DB W : Type 0} (answer : Request → DB → Option V) (put : String → W → DB → DB)
    (dummy : V) (Plain : Request → Type 0)
    (determined : (a b : Request)
      → Plain a
      → Plain b
      → key_of a ≡ key_of b
      → (d : DB) → answer a d ≡ answer b d)
    (local : (q : Request) (r : String) (value : W) (d : DB)
      → is_in r (names_of q) ≡ false
      → answer q (put r value d) ≡ answer q d)
    (as_texts : (q : Request) → Plain q → keys_of q ≡ map text (names_of q)) where
  own-entry :
      (i : ℕ) (k : CacheKey) (w : World V DB) (o : Option (CacheEntry V))
      → IsCoherent answer Plain (λ j. j ≡ i) w
      → entry_at k w.proxies.cache ≡ o
      → is_lost i k w.proxies.incoming o ≡ false
  own-entry i k w none h there = refl
  own-entry i k w (some e) h there =
      ground (arith, (h.entries k e there).owner, ℕ_Eq.beq_iff e.connection_ref i)

  pub run-execute :
      (i : ℕ) (q : Request) {ks : List RedisKey} (events : List (Event DB W)) (w : World V DB)
      → Plain q
      → is_allowed_to_cache q.command ≡ true
      → q.keys ≡ some ks
      → All (IsUsual Plain (λ j. j ≡ i)) events
      → IsCoherent answer Plain (λ j. j ≡ i) w
      → (execute answer dummy i q (run answer put dummy events w)).0
        ≡ ok (answer q (run answer put dummy events w).database)
  run-execute i q events w plain allowed keys usual h =
      let u : World V DB = run answer put dummy events w in
      let now =
        run-IsCoherent answer put dummy Plain (λ j. j ≡ i) determined local as_texts events w usual
          h in
      (execute_lem answer dummy Plain (λ j. j ≡ i) determined i q u plain refl allowed keys now).0
      ∙ rw (own-entry i (key_of q) u (entry_at (key_of q) u.proxies.cache) now refl) refl
