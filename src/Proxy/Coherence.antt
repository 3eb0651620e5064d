-- ===== src/Proxy/Coherence.antt =====
-- The invariant of the shared cache between two commands: an entry is the server's present answer and
-- the server will tell its connection of a change, or the word of a change waits on that connection.
-- `Plain` are the requests in use, `Owner` the connections.
use redis_py.Common.{
  ℕ, String, ◌≡◌, refl, ap, ◌∙◌, ◌⊎◌, inl, inr, true, false, ◌||◌, Option, none, some, List, [],
  ◌∷◌, ◌++◌, arith, Bool-cases, map, sym,
}
use redis_py.Proxy.Connection.{Request, Frame, disconnect}
use redis_py.Proxy.Server.{World, keys_of, names_of, written, emptied, disconnected}
use redis_py.Proxy.Invalidations.{IsPush, ArePushes, hits, any_hits}
use redis_py.Cache.Config.{
  RedisKey, RedisKey_Eq, text, encoded, CacheKey, CacheEntry, CacheEntryStatus, CacheKey_Eq,
}
use redis_py.Cache.Store.{flush}
use redis_py.Cache.Bounds.{IsCache}
use redis_py.Cache.Entries.{entry_at}
use redis_py.Common.Equality.{is_in, ◌==◌, ℕ_Eq, String_Eq}
use redis_py.Common.OrderedDict

abbrev pub key_of : Request → CacheKey
key_of q = record { command = q.command; redis_keys = keys_of q }

module _ {V DB : Type 0} (answer : Request → DB → Option V) (Plain : Request → Type 0)
    (Owner : ℕ → Type 0) where
  -- `v` is the present answer to every plain request with the cache key `k`, and the server tracks the
  -- redis keys of `k` for the connection `i`.
  pub record IsCurrent (k : CacheKey) (v : V) (i : ℕ) (w : World V DB) : Type 0 where
    pub present : (q : Request) → Plain q → key_of q ≡ k → answer q w.database ≡ some v
    pub tracked : (r : String) → is_in (text r) k.redis_keys ≡ true → w.tracked i r ≡ true

  pub record IsServable (k : CacheKey) (e : CacheEntry V) (w : World V DB) : Type 0 where
    pub valid : e.status ≡ CacheEntryStatus.valid
    pub owner : Owner e.connection_ref
    pub current :
        (any_hits k (w.proxies.incoming e.connection_ref) ≡ true)
        ⊎ IsCurrent k e.cache_value e.connection_ref w

  pub record IsCoherent (w : World V DB) : Type 0 where
    pub well_formed : IsCache w.proxies.cache
    pub quiet : (i : ℕ) → w.proxies.requests i ≡ []
    pub pushes : (i : ℕ) → ArePushes (w.proxies.incoming i)
    pub entries :
        (k : CacheKey) (e : CacheEntry V) → entry_at k w.proxies.cache ≡ some e → IsServable k e w

module _ {V : Type 0} where
  pub ArePushes-append :
      (frames : List (Frame V)) (f : Frame V)
      → ArePushes frames
      → IsPush f
      → ArePushes (frames ++ f ∷ [])
  ArePushes-append [] f h p = (p, tt)
  ArePushes-append (g ∷ frames) f (h, hs) p = (h, ArePushes-append frames f hs p)

  pub any_hits-append :
      (k : CacheKey) (frames : List (Frame V)) (f : Frame V)
      → any_hits k (frames ++ f ∷ []) ≡ (any_hits k frames || hits k f)
  any_hits-append k [] f = ground arith
  any_hits-append k (g ∷ frames) f = ground (arith, any_hits-append k frames f)

is_in-text : (r : String) (ks : List String) → is_in (text r) (map text ks) ≡ is_in r ks
is_in-text r [] = refl
is_in-text r (k ∷ ks) = ground (arith, is_in-text r ks)

-- one key is in the list and the other is not
not_in_both :
    (r s : String) (ks : List RedisKey)
    → is_in (text r) ks ≡ false
    → is_in (text s) ks ≡ true
    → (r == s) ≡ false
not_in_both r s ks h p = elim (Bool-cases (r == s)) [
  | inl e ↦ let same : r ≡ s = (String_Eq.beq_iff r s).0 e in cc
  | inr e ↦ e
]

module _ {V DB W : Type 0} (answer : Request → DB → Option V) (Plain : Request → Type 0)
    (Owner : ℕ → Type 0) (put : String → W → DB → DB)
    (local : (q : Request) (r : String) (value : W) (d : DB)
      → is_in r (names_of q) ≡ false
      → answer q (put r value d) ≡ answer q d)
    (as_texts : (q : Request) → Plain q → keys_of q ≡ map text (names_of q)) where
  -- a request whose keys are texts and do not have the text does not name it
  not_named :
      (q : Request) (r : String)
      → Plain q
      → is_in (text r) (keys_of q) ≡ false
      → is_in r (names_of q) ≡ false
  not_named q r p h =
      sym (is_in-text r (names_of q)) ∙ ap (λ ks. is_in (text r) ks) (sym (as_texts q p)) ∙ h

  IsCurrent-written :
      (r : String) (value : W) (w : World V DB) (k : CacheKey) (v : V) (i : ℕ)
      → is_in (text r) k.redis_keys ≡ false
      → IsCurrent answer Plain Owner k v i w
      → IsCurrent answer Plain Owner k v i (written put r value w)
  unfolding written
  IsCurrent-written r value w k v i out h = record {
    present = λ q p e.
        local q r value w.database
          (not_named q r p (ap (λ (j : CacheKey). is_in (text r) j.redis_keys) e ∙ out))
        ∙ h.present q p e;
    tracked = λ s there. rw (not_in_both r s k.redis_keys out there) (h.tracked s there);
  }

  incoming-written :
      (r : String) (value : W) (w : World V DB) (i : ℕ)
      → w.tracked i r ≡ true
      → (written put r value w).proxies.incoming i
        ≡ w.proxies.incoming i ++ Frame.invalidate (some (encoded r ∷ [])) ∷ []
  unfolding written
  incoming-written r value w i h = rw h refl

  any_hits-written :
      (r : String) (value : W) (w : World V DB) (k : CacheKey) (i : ℕ)
      → any_hits k (w.proxies.incoming i) ≡ true
      → any_hits k ((written put r value w).proxies.incoming i) ≡ true
  unfolding written
  any_hits-written r value w k i h = ground (
    arith,
    h,
    any_hits-append k (w.proxies.incoming i) (Frame.invalidate (some (encoded r ∷ []))),
  )

  waits_or_holds_written :
      (r : String) (value : W) (w : World V DB) (k : CacheKey) (v : V) (i : ℕ)
      → (any_hits k (w.proxies.incoming i) ≡ true) ⊎ IsCurrent answer Plain Owner k v i w
      → (any_hits k ((written put r value w).proxies.incoming i) ≡ true)
        ⊎ IsCurrent answer Plain Owner k v i (written put r value w)
  waits_or_holds_written r value w k v i (inl h) = inl (any_hits-written r value w k i h)
  waits_or_holds_written r value w k v i (inr h) = elim (Bool-cases (is_in (text r) k.redis_keys)) [
    | inl e ↦ inl (
        rw (incoming-written r value w i (h.tracked r e)) (
          any_hits-append k (w.proxies.incoming i) (Frame.invalidate (some (encoded r ∷ [])))
          ∙ ground (arith, e)))
    | inr e ↦ inr (IsCurrent-written r value w k v i e h)
  ]

  ArePushes-written :
      (r : String) (value : W) (w : World V DB) (i : ℕ)
      → ArePushes (w.proxies.incoming i)
      → ArePushes ((written put r value w).proxies.incoming i)
  unfolding written
  ArePushes-written r value w i h = elim (Bool-cases (w.tracked i r)) [
    | inl e ↦ rw e (
        ArePushes-append (w.proxies.incoming i) (Frame.invalidate (some (encoded r ∷ []))) h
          (text r, refl))
    | inr e ↦ rw e h
  ]

  -- A write by anyone keeps the invariant.
  pub written-IsCoherent :
      (r : String) (value : W) (w : World V DB)
      → IsCoherent answer Plain Owner w
      → IsCoherent answer Plain Owner (written put r value w)
  written-IsCoherent r value w h = record {
    well_formed = unfold written in h.well_formed;
    quiet = unfold written in h.quiet;
    pushes = λ i. ArePushes-written r value w i (h.pushes i);
    entries = λ k e there.
        let old = h.entries k e (unfold written in there) in
        record {
          valid = old.valid;
          owner = old.owner;
          current = waits_or_holds_written r value w k e.cache_value e.connection_ref old.current;
        };
  }

module _ {V DB : Type 0} (answer : Request → DB → Option V) (Plain : Request → Type 0)
    (Owner : ℕ → Type 0) where
  -- So does a flush of the database.
  pub emptied-IsCoherent :
      (empty : DB) (w : World V DB)
      → IsCoherent answer Plain Owner w
      → IsCoherent answer Plain Owner (emptied empty w)
  unfolding emptied
  emptied-IsCoherent empty w h = record {
    well_formed = h.well_formed;
    quiet = h.quiet;
    pushes = λ i. ArePushes-append (w.proxies.incoming i) (Frame.invalidate none) (h.pushes i) tt;
    entries = λ k e there. record {
      valid = (h.entries k e there).valid;
      owner = (h.entries k e there).owner;
      current = inl (
          any_hits-append k (w.proxies.incoming e.connection_ref) (Frame.invalidate none)
          ∙ ground arith);
    };
  }

  -- So does the disconnection of a proxy, which empties the whole cache.
  pub disconnected-IsCoherent :
      (i : ℕ) (w : World V DB)
      → IsCoherent answer Plain Owner w
      → IsCoherent answer Plain Owner (disconnected i w)
  unfolding disconnected disconnect flush OrderedDict.get
  disconnected-IsCoherent i w h = record {
    well_formed = record { distinct = tt; bounded = omega arith };
    quiet = λ j. elim (Bool-cases (i == j)) [ inl e ↦ rw e refl | inr e ↦ rw e (h.quiet j) ];
    pushes = λ j. elim (Bool-cases (i == j)) [ inl e ↦ rw e tt | inr e ↦ rw e (h.pushes j) ];
    entries = λ k e there. cc;
  }
