-- ===== src/Sentinel.antt =====
-- redis/sentinel.py: `Sentinel.discover_master`. A sentinel is known by a number;
-- what it answers is a parameter, with the address that a state has in one number. The override of the
-- address by `force_master_ip` and the text of the errors are left out.
pub mod Slaves
mod Examples
use redis_py.Common.{
  ℕ, ◌≡◌, refl, Bool, true, false, ◌||◌, not, List, [], ◌∷◌, ◌++◌, Option, none, some, ltb,
  if◌then◌else◌, Bool-cases, Option-cases, inl, inr, ap, ◌∙◌, sym, ◌≢◌,
}
use redis_py.Common.Outcome.{Result, ok, err, Action}

pub record MasterState : Type 0 where
  pub address : ℕ
  pub is_master : Bool
  pub is_sdown : Bool
  pub is_odown : Bool
  pub num_other_sentinels : ℕ

pub data SentinelError : Type 0 where
  connection_error timeout_error response_error other_error master_not_found_error : SentinelError

unfoldable pub check_master_state : ℕ → MasterState → Bool
check_master_state min_other_sentinels state =
    if not state.is_master || state.is_sdown || state.is_odown
    then false
    else not (ltb state.num_other_sentinels min_other_sentinels)

abbrev pub is_skipped : SentinelError → Bool
is_skipped connection_error = true
is_skipped timeout_error = true
is_skipped e = false

-- The sentinel and the first of the list change places; `passed` are those before it.
abbrev pub swapped : List ℕ → ℕ → List ℕ → List ℕ
swapped [] sentinel rest = sentinel ∷ rest
swapped (first ∷ passed) sentinel rest = sentinel ∷ passed ++ first ∷ rest

-- `masters`: what `sentinel_masters` answers, for the one service
module _ (masters : ℕ → Result SentinelError (Option MasterState)) (min_other_sentinels : ℕ) where
  abbrev pub accepted : Option MasterState → Option ℕ
  accepted none = none
  accepted (some state) =
      if check_master_state min_other_sentinels state then some state.address else none

  -- The answer of one sentinel: an address, none to go on, or an error to raise.
  abbrev pub asked : Result SentinelError (Option MasterState) → Result SentinelError (Option ℕ)
  asked (ok state) = ok (accepted state)
  asked (err e) = if is_skipped e then ok none else err e

  abbrev pub answered :
      Result SentinelError (Option ℕ)
      → List ℕ
      → List ℕ
      → Result SentinelError ℕ × List ℕ
      → Result SentinelError ℕ × List ℕ
  answered (ok (some address)) all found rest = (ok address, found)
  answered (ok none) all found rest = rest
  answered (err e) all found rest = (err e, all)

  -- `passed` are the sentinels that gave no address.
  unfoldable pub discover_from : List ℕ → List ℕ → Result SentinelError ℕ × List ℕ
  discover_from passed [] = (err master_not_found_error, passed)
  discover_from passed (sentinel ∷ rest) =
      let next = discover_from (passed ++ sentinel ∷ []) rest in
      answered (asked (masters sentinel)) (passed ++ sentinel ∷ rest) (swapped passed sentinel rest)
        next

  unfoldable pub discover_master : Action SentinelError (List ℕ) ℕ
  discover_master sentinels = discover_from [] sentinels

  -- The list begins with a sentinel that gave the address.
  abbrev pub LedBy : ℕ → Result SentinelError ℕ × List ℕ → Type 0
  LedBy a (r, []) = r ≢ ok a
  LedBy a (r, x ∷ xs) = r ≡ ok a → asked (masters x) ≡ ok (some a)

  swapped-LedBy :
      (a b : ℕ) (passed rest : List ℕ) (x : ℕ)
      → asked (masters x) ≡ ok (some b)
      → LedBy a (ok b, swapped passed x rest)
  swapped-LedBy a b [] rest x h = λ e. cc
  swapped-LedBy a b (p ∷ ps) rest x h = λ e. cc

  failed-LedBy : (a : ℕ) (e : SentinelError) (xs : List ℕ) → LedBy a (err e, xs)
  failed-LedBy a e [] = λ h. cc
  failed-LedBy a e (x ∷ xs) = λ h. cc

  answered-LedBy :
      (a x : ℕ) (passed rest : List ℕ) (next : Result SentinelError ℕ × List ℕ)
      (r : Result SentinelError (Option ℕ))
      → asked (masters x) ≡ r
      → LedBy a next
      → LedBy a (answered r (passed ++ x ∷ rest) (swapped passed x rest) next)
  answered-LedBy a x passed rest next (ok (some b)) h n = swapped-LedBy a b passed rest x h
  answered-LedBy a x passed rest next (ok none) h n = n
  answered-LedBy a x passed rest next (err e) h n = failed-LedBy a e (passed ++ x ∷ rest)

  discover_from-LedBy : (a : ℕ) (passed rest : List ℕ) → LedBy a (discover_from passed rest)
  unfolding discover_from
  discover_from-LedBy a passed [] = failed-LedBy a master_not_found_error passed
  discover_from-LedBy a passed (x ∷ rest) =
      answered-LedBy a x passed rest (discover_from (passed ++ x ∷ []) rest) (asked (masters x))
        refl (discover_from-LedBy a (passed ++ x ∷ []) rest)

  led :
      (a : ℕ) (p : Result SentinelError ℕ × List ℕ)
      → LedBy a p
      → p.0 ≡ ok a
      → (x : ℕ) × (xs : List ℕ) × (p.1 ≡ x ∷ xs) × (asked (masters x) ≡ ok (some a))
  led a (r, []) h e = elim (h e) [ ]
  led a (r, x ∷ xs) h e = (x, xs, refl, h e)

  -- Where `discover_master` returns an address, the sentinel that is now the first of the list has
  -- answered with it, and its state was accepted.
  pub discover_master-first :
      (a : ℕ) (sentinels : List ℕ)
      → (discover_master sentinels).0 ≡ ok a
      → (x : ℕ) × (xs : List ℕ) × ((discover_master sentinels).1 ≡ x ∷ xs)
        × (asked (masters x) ≡ ok (some a))
  unfolding discover_master
  discover_master-first a sentinels h =
      led a (discover_from [] sentinels) (discover_from-LedBy a [] sentinels) h
