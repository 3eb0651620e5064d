-- ===== src/Cache/Invalidation/Pops.antt =====
-- `pop` over a list of keys: what it does where no key stands twice, and that it raises where one does.
use redis_py.Cache.Store.{DefaultCache, pop_all, pop}
use redis_py.Cache.Config.{CacheKey, same_key_iff, CacheEntry, same_key}
use redis_py.Cache.Policy.{key_error}
use redis_py.Common.Outcome.{err, ok}
use redis_py.Common.{
  ◌≡◌, Bool, true, false, ◌||◌, none, List, [], ◌∷◌, ◌≤◌, refl, ◌≢◌, inl, inr, some, arith,
  if◌then◌else◌, Bool-cases, Option-cases, length, ◌∙◌, subst, sym, ◌++◌,
}
use redis_py.Common.Equality.{is_in, String_Eq}
use redis_py.Common.OrderedDict
use redis_py.Cache.Config.{CacheKey_Eq}
use redis_py.Common.OrderedDict.{get-without, without-IsDict, length-without}
use redis_py.Common.OrderedDict.{Dict, IsDict}

-- a key that stands twice in the list
abbrev pub has_duplicate : List CacheKey → Bool
has_duplicate [] = false
has_duplicate (k ∷ ks) = is_in k ks || has_duplicate ks

is_in_right : (k : CacheKey) (xs ys : List CacheKey) → is_in k ys ≡ true → is_in k (xs ++ ys) ≡ true
is_in_right k [] ys h = h
is_in_right k (x ∷ xs) ys h = ground (arith, is_in_right k xs ys h)

pub has_duplicate-append :
    (k : CacheKey) (xs ys : List CacheKey)
    → is_in k xs ≡ true
    → is_in k ys ≡ true
    → has_duplicate (xs ++ ys) ≡ true
has_duplicate-append k [] ys h hy = cc
has_duplicate-append k (x ∷ xs) ys h hy = elim (Bool-cases (same_key x k)) [
  | inl e ↦
      let later : is_in x (xs ++ ys) ≡ true =
        subst (λ i. is_in i (xs ++ ys) ≡ true) (sym ((same_key_iff x k).0 e))
          (is_in_right k xs ys hy) in
      rw later
  | inr e ↦ ground (arith, e, h, has_duplicate-append k xs ys)
]

module _ {V : Type 0} (k : CacheKey) (c : DefaultCache V) where
  pop_present :
      {v : CacheEntry V}
      → OrderedDict.get k c.collection ≡ some v
      → pop k c ≡ (ok tt, record c { collection = OrderedDict.without k c.collection })
  unfolding pop
  pop_present h = rw (h, pop)

  pop_absent : OrderedDict.get k c.collection ≡ none → pop k c ≡ (err key_error, c)
  unfolding pop
  pop_absent h = rw (h, pop)

  get-without_self :
      IsDict c.collection → OrderedDict.get k (OrderedDict.without k c.collection) ≡ none
  get-without_self d = rw (get-without k k c.collection d) (ground (arith, same_key_iff k k))

module _ {V : Type 0} where
  pop_all_missing :
      (k : CacheKey) (ks : List CacheKey) (c : DefaultCache V)
      → IsDict c.collection
      → is_in k ks ≡ true
      → OrderedDict.get k c.collection ≡ none
      → (pop_all ks c).0 ≡ err key_error
  unfolding pop_all
  pop_all_missing k [] c d h n = cc
  pop_all_missing k (j ∷ ks) c d h n = elim (Option-cases (OrderedDict.get j c.collection)) [
    | inl e ↦ rw (pop_absent j c e)
    | inr (v, e) ↦ rw (pop_present j c e) (
        pop_all_missing k ks (record c { collection = OrderedDict.without j c.collection })
          (without-IsDict j c.collection d) (ground (arith, same_key_iff j k, h, n, e))
          (rw (get-without j k c.collection d) (ground (arith, n))))
  ]

  pub pop_all_twice :
      (ks : List CacheKey) (c : DefaultCache V)
      → IsDict c.collection
      → has_duplicate ks ≡ true
      → (pop_all ks c).0 ≡ err key_error
  unfolding pop_all
  pop_all_twice [] c d h = cc
  pop_all_twice (j ∷ ks) c d h = elim (Option-cases (OrderedDict.get j c.collection)) [
    | inl e ↦ rw (pop_absent j c e)
    | inr (v, e) ↦ rw (pop_present j c e) (elim (Bool-cases (is_in j ks)) [
      | inl again ↦
          pop_all_missing j ks (record c { collection = OrderedDict.without j c.collection })
            (without-IsDict j c.collection d) again (get-without_self j c d)
      | inr once ↦
          pop_all_twice ks (record c { collection = OrderedDict.without j c.collection })
            (without-IsDict j c.collection d) (ground (arith, once, h))
    ])
  ]

  -- every key of the list is in the dictionary
  abbrev pub AllPresent : List CacheKey → Dict CacheKey (CacheEntry V) → Type 0
  AllPresent ks d = (k : CacheKey) → is_in k ks ≡ true → OrderedDict.get k d ≢ none

  pub record Popped (ks : List CacheKey) (c : DefaultCache V) : Type 0 where
    pub answer : (pop_all ks c).0 ≡ ok tt
    pub well_formed : IsDict (pop_all ks c).1.collection
    pub shorter : length (pop_all ks c).1.collection ≤ length c.collection
    pub same_config : (pop_all ks c).1.config ≡ c.config
    pub entries :
        (j : CacheKey)
        → OrderedDict.get j (pop_all ks c).1.collection
          ≡ (if is_in j ks then none else OrderedDict.get j c.collection)

  abbrev dropped : CacheKey → DefaultCache V → DefaultCache V
  dropped k c = record c { collection = OrderedDict.without k c.collection }

  pop_all-present :
      (k : CacheKey) (ks : List CacheKey) (c : DefaultCache V) {v : CacheEntry V}
      → OrderedDict.get k c.collection ≡ some v
      → pop_all (k ∷ ks) c ≡ pop_all ks (dropped k c)
  unfolding pop_all
  pop_all-present k ks c h = rw (pop_present k c h)

  AllPresent-without :
      (k : CacheKey) (ks : List CacheKey) (d : Dict CacheKey (CacheEntry V))
      → IsDict d
      → is_in k ks ≡ false
      → AllPresent (k ∷ ks) d
      → AllPresent ks (OrderedDict.without k d)
  AllPresent-without k ks d h fresh p j there =
      rw (get-without k j d h) (ground (arith, same_key_iff k j, p j, there, fresh))

  Popped-cons :
      (k : CacheKey) (ks : List CacheKey) (c : DefaultCache V) {v : CacheEntry V}
      → IsDict c.collection
      → OrderedDict.get k c.collection ≡ some v
      → Popped ks (dropped k c)
      → Popped (k ∷ ks) c
  Popped-cons k ks c d e r = record {
    answer = rw (pop_all-present k ks c e) r.answer;
    well_formed = rw (pop_all-present k ks c e) r.well_formed;
    shorter =
        rw (pop_all-present k ks c e) (omega (arith, r.shorter, length-without k c.collection e));
    same_config = rw (pop_all-present k ks c e) r.same_config;
    entries = λ j.
        rw (pop_all-present k ks c e)
          (r.entries j ∙ rw (get-without k j c.collection d) (ground (arith, same_key_iff k j)));
  }

  pub pop_all_once :
      (ks : List CacheKey) (c : DefaultCache V)
      → IsDict c.collection
      → has_duplicate ks ≡ false
      → AllPresent ks c.collection
      → Popped ks c
  unfolding pop_all
  pop_all_once [] c d h p = record {
    answer = refl;
    well_formed = d;
    shorter = omega arith;
    same_config = refl;
    entries = λ j. refl;
  }
  pop_all_once (k ∷ ks) c d h p = elim (Option-cases (OrderedDict.get k c.collection)) [
    | inl e ↦ absurd (p k (ground (arith, same_key_iff k k)) e)
    | inr (v, e) ↦ Popped-cons k ks c d e (
        pop_all_once ks (dropped k c) (without-IsDict k c.collection d) (ground (arith, h))
          (AllPresent-without k ks c.collection d (ground (arith, h)) p))
  ]
