-- ===== src/Cluster/Balancer.antt =====
-- redis/cluster.py: `LoadBalancer`. The draw of `random.randint` is a parameter.
use Prim.Native.Nat.{◌-◌, ◌%◌}
use redis_py.Common.{
  ℕ, suc, ◌≤◌, Bool, true, false, ◌&&◌, [], Option, none, some, if◌then◌else◌, ◌-◌, ◌%◌, ◌<◌, ◌≡◌,
  refl, arith,
}
use redis_py.Common.Equality.{Eq, ◌==◌, ℕ_Eq}
use redis_py.Common.OrderedDict.{Dict, get, put, get-put}

pub data LoadBalancingStrategy : Type 0 where
  round_robin round_robin_replicas random_replica : LoadBalancingStrategy

-- `random.randint(a, b)` for the draw that stands in the argument
pub record Randint : Type 0 where
  pub randint : ℕ → ℕ → ℕ
  pub lower : (a b : ℕ) → a ≤ b → a ≤ randint a b
  pub upper : (a b : ℕ) → a ≤ b → randint a b ≤ b

-- `LoadBalancer`, by the names of the primaries
pub record LoadBalancer (Name : Type 0) : Type 0 where
  pub primary_to_idx : Dict Name ℕ
  pub start_index : ℕ

abbrev pub or_start : Option ℕ → ℕ → ℕ
or_start none start = start
or_start (some i) start = i

unfoldable pub get_random_replica_index : Randint → ℕ → ℕ
get_random_replica_index r list_size = r.randint 1 (list_size - 1)

module _ {Name : Type 0} ⦃e : Eq Name⦄ where
  -- The index that `setdefault` answers, past the primary where only replicas are asked for.
  unfoldable pub server_index : LoadBalancer Name → Name → Bool → ℕ
  server_index b primary replicas_only =
      let i = or_start (get primary b.primary_to_idx) b.start_index in
      if replicas_only && (i == 0) then 1 else i

  unfoldable pub get_round_robin_index : Name → ℕ → Bool → LoadBalancer Name → ℕ × LoadBalancer Name
  get_round_robin_index primary list_size replicas_only b =
      let i = server_index b primary replicas_only in
      (i, record b { primary_to_idx = put primary (suc i % list_size) b.primary_to_idx })

  unfoldable pub get_server_index :
      Randint → Name → ℕ → LoadBalancingStrategy → LoadBalancer Name → ℕ × LoadBalancer Name
  get_server_index r primary list_size random_replica b = (get_random_replica_index r list_size, b)
  get_server_index r primary list_size round_robin b =
      get_round_robin_index primary list_size false b
  get_server_index r primary list_size round_robin_replicas b =
      get_round_robin_index primary list_size true b

  unfoldable pub reset : LoadBalancer Name → LoadBalancer Name
  reset b = record b { primary_to_idx = [] }

  -- The index that a primary's list is asked for next, before the primary is passed over.
  abbrev pub next_index : Name → LoadBalancer Name → ℕ
  next_index primary b = or_start (get primary b.primary_to_idx) b.start_index

  unfoldable pub IsServer : Name → ℕ → LoadBalancingStrategy → ℕ × LoadBalancer Name → Type 0
  IsServer primary list_size round_robin (i, b) =
      (i < list_size) × (next_index primary b < list_size)
  IsServer primary list_size round_robin_replicas (i, b) =
      (0 < i) × (i < list_size) × (next_index primary b < list_size)
  IsServer primary list_size random_replica (i, b) =
      (0 < i) × (i < list_size) × (next_index primary b < list_size)

  server_index-bounds :
      (b : LoadBalancer Name) (primary : Name) (n : ℕ) (replicas_only : Bool)
      → 1 < n
      → next_index primary b < n
      → server_index b primary replicas_only < n
  unfolding server_index
  server_index-bounds b primary n true big h = ground arith
  server_index-bounds b primary n false big h = h

  server_index-replica : (b : LoadBalancer Name) (primary : Name) → 0 < server_index b primary true
  unfolding server_index
  server_index-replica b primary = ground arith

  get_round_robin_index-next :
      (primary : Name) (n : ℕ) (replicas_only : Bool) (b : LoadBalancer Name)
      → next_index primary (get_round_robin_index primary n replicas_only b).1
        ≡ suc (server_index b primary replicas_only) % n
  unfolding get_round_robin_index
  get_round_robin_index-next primary n replicas_only b =
      rw
        (
          get-put primary primary (suc (server_index b primary replicas_only) % n) b.primary_to_idx,
          (e.beq_iff primary primary).1 refl,
        )
        refl

  -- For a list of more than one node, each strategy answers an index of the list, not the primary's where
  -- only replicas are asked for, and the index that is kept for the next round is one of the list,
  -- if the one before was.
  pub get_server_index-IsServer :
      (r : Randint) (primary : Name) (n : ℕ) (strategy : LoadBalancingStrategy)
      (b : LoadBalancer Name)
      → 1 < n
      → next_index primary b < n
      → IsServer primary n strategy (get_server_index r primary n strategy b)
  unfolding get_server_index IsServer get_random_replica_index get_round_robin_index
  get_server_index-IsServer r primary n round_robin b big h = (
    server_index-bounds b primary n false big h,
    rw (get_round_robin_index-next primary n false b) (ground arith),
  )
  get_server_index-IsServer r primary n round_robin_replicas b big h = (
    server_index-replica b primary,
    server_index-bounds b primary n true big h,
    rw (get_round_robin_index-next primary n true b) (ground arith),
  )
  get_server_index-IsServer r primary n random_replica b big h =
      (ground (arith, r.lower 1 (n - 1)), ground (arith, r.upper 1 (n - 1)), h)
