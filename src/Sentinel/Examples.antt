-- ===== src/Sentinel/Examples.antt =====
-- Three sentinels, of which the third knows the master.
use redis_py.Common.{ℕ, ◌≡◌, true, false, [], ◌∷◌, Option, none, some, if◌then◌else◌, refl, List}
use redis_py.Common.Equality.{◌==◌, ℕ_Eq}
use redis_py.Sentinel.Slaves.{SlaveState}
use redis_py.Common.Outcome.{Result, ok, err}
use redis_py.Sentinel.{
  MasterState, SentinelError, timeout_error, discover_master, asked, discover_master-first,
  discover_from, check_master_state,
}

abbrev state : MasterState
state = record {
  address = 6379;
  is_master = true;
  is_sdown = false;
  is_odown = false;
  num_other_sentinels = 2;
}

abbrev masters : ℕ → Result SentinelError (Option MasterState)
masters n = if n == 3 then ok (some state) else if n == 2 then ok none else err timeout_error

discover_master-first_example :
    (x : ℕ) × (xs : List ℕ) × ((discover_master masters 1 (1 ∷ 2 ∷ 3 ∷ [])).1 ≡ x ∷ xs)
    × (asked masters 1 (masters x) ≡ ok (some 6379))
unfolding discover_master discover_from check_master_state
discover_master-first_example = discover_master-first masters 1 6379 (1 ∷ 2 ∷ 3 ∷ []) refl

abbrev down : SlaveState
down = record { address = 6380; is_odown = false; is_sdown = true }

abbrev up : SlaveState
up = record { address = 6381; is_odown = false; is_sdown = false }

abbrev slaves : ℕ → Result SentinelError (List SlaveState)
slaves n =
    if n == 3 then ok (down ∷ up ∷ []) else if n == 2 then ok (down ∷ []) else err timeout_error
