-- ===== src/Proxy/Transfer.antt =====
-- How the invariant of the shared cache passes from one state of the proxies to the next.
use redis_py.Common.{
  ℕ, String, ◌≡◌, refl, sym, ◌∙◌, subst, ◌⊎◌, inl, inr, true, false, Option, some, [], arith,
  Bool-cases,
}
use redis_py.Proxy.Connection.{Request, Proxies}
use redis_py.Proxy.Server.{World}
use redis_py.Proxy.Invalidations.{ArePushes, any_hits, IsDrained}
use redis_py.Proxy.Coherence.{IsCurrent, IsServable, IsCoherent}
use redis_py.Cache.Config.{CacheKey, CacheEntry, CacheKey_Eq}
use redis_py.Cache.Entries.{entry_at, IsSame}
use redis_py.Common.Equality.{◌==◌, ℕ_Eq}

module _ {V DB : Type 0} where
  -- the server tracks what it tracked, and the database is the same
  pub record IsLater (w u : World V DB) : Type 0 where
    pub database : u.database ≡ w.database
    pub tracked : (i : ℕ) (r : String) → w.tracked i r ≡ true → u.tracked i r ≡ true

  pub same-IsLater : (w : World V DB) (t : Proxies V) → IsLater w (record w { proxies = t })
  same-IsLater w t = record { database = refl; tracked = λ i r h. h }

module _ {V DB : Type 0} (answer : Request → DB → Option V) (Plain : Request → Type 0)
    (Owner : ℕ → Type 0) where
  pub IsCurrent-later :
      (k : CacheKey) (v : V) (i : ℕ) (w u : World V DB)
      → IsLater w u
      → IsCurrent answer Plain Owner k v i w
      → IsCurrent answer Plain Owner k v i u
  IsCurrent-later k v i w u l h = record {
    present = λ q p e. rw l.database (h.present q p e);
    tracked = λ r there. l.tracked i r (h.tracked r there);
  }

  waits_or_holds_later :
      (k : CacheKey) (v : V) (i : ℕ) (w u : World V DB)
      → IsLater w u
      → u.proxies.incoming i ≡ w.proxies.incoming i
      → (any_hits k (w.proxies.incoming i) ≡ true) ⊎ IsCurrent answer Plain Owner k v i w
      → (any_hits k (u.proxies.incoming i) ≡ true) ⊎ IsCurrent answer Plain Owner k v i u
  waits_or_holds_later k v i w u l same (inl h) = inl (rw same h)
  waits_or_holds_later k v i w u l same (inr h) = inr (IsCurrent-later k v i w u l h)

  pub IsServable-later :
      (k : CacheKey) (e : CacheEntry V) (w u : World V DB)
      → IsLater w u
      → u.proxies.incoming e.connection_ref ≡ w.proxies.incoming e.connection_ref
      → IsServable answer Plain Owner k e w
      → IsServable answer Plain Owner k e u
  IsServable-later k e w u l same h = record {
    valid = h.valid;
    owner = h.owner;
    current = waits_or_holds_later k e.cache_value e.connection_ref w u l same h.current;
  }

  -- the same entries, and the same frames on every connection
  pub IsSame-IsCoherent :
      (w : World V DB) (t : Proxies V)
      → IsCoherent answer Plain Owner w
      → IsSame w.proxies.cache t.cache
      → ((j : ℕ) → t.incoming j ≡ w.proxies.incoming j)
      → ((j : ℕ) → t.requests j ≡ [])
      → IsCoherent answer Plain Owner (record w { proxies = t })
  IsSame-IsCoherent w t h same incoming requests = record {
    well_formed = same.well_formed;
    quiet = requests;
    pushes = λ j. rw (incoming j) (h.pushes j);
    entries = λ k e there.
        IsServable-later k e w (record w { proxies = t }) (same-IsLater w t)
          (incoming e.connection_ref) (h.entries k e (sym (same.entries k) ∙ there));
  }

  -- an entry that is left when the connection `i` is drained
  survives :
      (i : ℕ) (w : World V DB) (t : Proxies V) (k : CacheKey) (e : CacheEntry V)
      → IsDrained i (w.proxies.incoming i) w.proxies t
      → IsServable answer Plain Owner k e w
      → any_hits k (w.proxies.incoming i) ≡ false
      → IsServable answer Plain Owner k e (record w { proxies = t })
  survives i w t k e d old spared = elim (Bool-cases (i == e.connection_ref)) [
    | inr other ↦
        IsServable-later k e w (record w { proxies = t }) (same-IsLater w t)
          (d.others e.connection_ref other) old
    | inl own ↦
        let same : i ≡ e.connection_ref = (ℕ_Eq.beq_iff i e.connection_ref).0 own in
        record {
          valid = old.valid;
          owner = old.owner;
          current = elim old.current [
            | inl hit ↦
                let missed : any_hits k (w.proxies.incoming e.connection_ref) ≡ false =
                  subst (λ j. any_hits k (w.proxies.incoming j) ≡ false) same spared in
                cc
            | inr now ↦ inr (
                IsCurrent-later k e.cache_value e.connection_ref w (record w { proxies = t })
                  (same-IsLater w t) now)
          ];
        }
  ]

  ArePushes-drained :
      (i : ℕ) (w : World V DB) (t : Proxies V) (j : ℕ)
      → IsDrained i (w.proxies.incoming i) w.proxies t
      → ArePushes (w.proxies.incoming j)
      → ArePushes (t.incoming j)
  ArePushes-drained i w t j d h = elim (Bool-cases (i == j)) [
    | inl own ↦ subst (λ n. ArePushes (t.incoming n)) ((ℕ_Eq.beq_iff i j).0 own) (rw d.own tt)
    | inr other ↦ rw (d.others j other) h
  ]

  pub drained-IsCoherent :
      (i : ℕ) (w : World V DB) (t : Proxies V)
      → IsCoherent answer Plain Owner w
      → IsDrained i (w.proxies.incoming i) w.proxies t
      → IsCoherent answer Plain Owner (record w { proxies = t })
  drained-IsCoherent i w t h d = record {
    well_formed = d.well_formed;
    quiet = λ j. rw d.requests (h.quiet j);
    pushes = λ j. ArePushes-drained i w t j d (h.pushes j);
    entries = λ k e there.
        let spared : any_hits k (w.proxies.incoming i) ≡ false =
          ground (arith, d.entries k, there) in
        let before : entry_at k w.proxies.cache ≡ some e =
          ground (arith, d.entries k, there, spared) in
        survives i w t k e d (h.entries k e before) spared;
  }

  -- An entry on whose connection no word of a change waits is the present answer.
  pub servable_now :
      (k : CacheKey) (e : CacheEntry V) (w : World V DB)
      → IsServable answer Plain Owner k e w
      → any_hits k (w.proxies.incoming e.connection_ref) ≡ false
      → IsCurrent answer Plain Owner k e.cache_value e.connection_ref w
  servable_now k e w h spared = elim h.current [ inl hit ↦ cc | inr now ↦ now ]
