-- ===== src/Subscription/Tables.antt =====
-- redis/client.py: the dictionaries and sets of `PubSub` after an update and a removal.
use redis_py.Subscription.Client.{without_names, updated, popped, is_empty}
use redis_py.Common.{
  ◌≡◌, refl, Bool, true, false, not, ◌||◌, ◌&&◌, Option, none, some, List, [], ◌∷◌, ◌++◌, arith,
}
use redis_py.Common.Equality.{Eq, ◌==◌, is_in}
use redis_py.Common.OrderedDict.{Dict, get, put, keys, get-put}

abbrev pub is_some {ℓ} : {A : Type ℓ} → Option A → Bool
is_some none = false
is_some (some a) = true

module _ {Name : Type 0} ⦃e : Eq Name⦄ where
  pub is_in-append :
      (a : Name) (xs ys : List Name) → is_in a (xs ++ ys) ≡ (is_in a xs || is_in a ys)
  is_in-append a [] ys = refl
  is_in-append a (x ∷ xs) ys = ground (arith, is_in-append a xs ys)

  pub is_in-without_names :
      (a : Name) (names xs : List Name)
      → is_in a (without_names names xs) ≡ (is_in a xs && not (is_in a names))
  unfolding without_names
  is_in-without_names a names [] = refl
  is_in-without_names a names (x ∷ xs) =
      ground (arith, is_in-without_names a names xs, e.beq_iff x a)

module _ {Name Handler : Type 0} ⦃e : Eq Name⦄ where
  -- The name is a key of the dictionary.
  abbrev pub has_name : Name → Dict Name (Option Handler) → Bool
  has_name a d = is_some (get a d)

  pub has_name-updated :
      (a : Name) (new d : Dict Name (Option Handler))
      → has_name a (updated new d) ≡ (is_in a (keys new) || has_name a d)
  unfolding updated
  has_name-updated a [] d = refl
  has_name-updated a ((k, v) ∷ new) d =
      ground (arith, has_name-updated a new (put k v d), get-put k a v d)

  pub has_name-popped :
      (a k : Name) (d : Dict Name (Option Handler))
      → has_name a (popped k d) ≡ (not (k == a) && has_name a d)
  unfolding popped get
  has_name-popped a k [] = ground arith
  has_name-popped a k ((j, v) ∷ d) =
      ground (arith, has_name-popped a k d, e.beq_iff j k, e.beq_iff j a, e.beq_iff k a)

  pub is_in-keys : (a : Name) (d : Dict Name (Option Handler)) → is_in a (keys d) ≡ has_name a d
  unfolding get
  is_in-keys a [] = refl
  is_in-keys a ((k, v) ∷ d) = ground (arith, is_in-keys a d)

  pub is_empty-has_name :
      (a : Name) (d : Dict Name (Option Handler)) → is_empty d ≡ true → has_name a d ≡ false
  unfolding get
  is_empty-has_name a [] h = refl
  is_empty-has_name a (x ∷ d) h = cc
