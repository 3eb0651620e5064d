-- ===== src/Cluster/Nodes.antt =====
-- redis/cluster.py: `NodesManager`, its table of slots. A node is known by its name, which `ClusterNode`
-- compares. The lists of nodes are objects that slots share, so they stand in a store.
use redis_py.Common.{
  ℕ, suc, ◌-◌, Bool, true, false, ◌||◌, List, [], ◌∷◌, ◌++◌, Option, none, some, ltb, length,
  get_elem?, if◌then◌else◌,
}
use redis_py.Common.Equality.{Eq, ◌==◌, ℕ_Eq, is_in}
use redis_py.Common.OrderedDict.{Dict, get, put}
use redis_py.Common.Outcome.{Result, ok, err, Action, ◌>>◌}
use redis_py.Cluster.Balancer.{
  LoadBalancer, LoadBalancingStrategy, round_robin, Randint, get_server_index,
}

pub data ServerType : Type 0 where
  primary replica : ServerType

pub data ClusterError : Type 0 where
  slot_not_covered_error key_error index_error attribute_error : ClusterError
  redis_cluster_exception ttl_exhausted connection_error cluster_down_error response_error :
      ClusterError

-- `nodes_cache` with the `server_type` of each node; `slots_cache` with the number of each slot's list in
-- `lists`, where `next` is the first free number.
pub record NodesManager (Name : Type 0) : Type 0 where
  pub nodes_cache : Dict Name ServerType
  pub slots_cache : Dict ℕ ℕ
  pub lists : Dict ℕ (List Name)
  pub next : ℕ
  pub default_node : Option Name
  pub moved_exception : Option (Name × ℕ)
  pub read_load_balancer : LoadBalancer Name

abbrev pub or_empty : {A : Type 0} → Option (List A) → List A
or_empty none = []
or_empty (some xs) = xs

-- `read_from_replicas is True and load_balancing_strategy is None`
abbrev pub strategy_of : Bool → Option LoadBalancingStrategy → Option LoadBalancingStrategy
strategy_of read_from_replicas (some strategy) = some strategy
strategy_of true none = some round_robin
strategy_of false none = none

-- `server_type is None or server_type == PRIMARY`
abbrev pub is_primary : Option ServerType → Bool
is_primary none = true
is_primary (some primary) = true
is_primary (some replica) = false

module _ {Name : Type 0} ⦃e : Eq Name⦄ where
  -- the list that a slot has, if it has one
  unfoldable pub nodes_of : ℕ → NodesManager Name → Option (List Name)
  nodes_of slot s = elim (get slot s.slots_cache) [
    | none ↦ none
    | some r ↦ some (or_empty (get r s.lists))
  ]

  -- `xs.remove(x)` where `x` is there
  unfoldable pub removed : Name → List Name → List Name
  removed x [] = []
  removed x (y ∷ ys) = if y == x then ys else y ∷ removed x ys

  -- `xs[0] = x`
  abbrev pub set_head : Name → List Name → List Name
  set_head x [] = []
  set_head x (y ∷ ys) = x ∷ ys

  -- The redirected node goes to the front of the list that begins with the old primary, which the cache
  -- of nodes has as all nodes of a slot: only its type changes there.
  unfoldable pub failed_over : Name → Name → ℕ → List Name → NodesManager Name → NodesManager Name
  failed_over node old_primary r nodes s = record s {
    nodes_cache = put old_primary replica s.nodes_cache;
    lists = put r (set_head node (removed node (nodes ++ old_primary ∷ []))) s.lists;
    default_node = elim s.default_node [
      | none ↦ none
      | some d ↦ if d == old_primary then some node else some d
    ];
  }

  -- The slot gets a list of its own, with just the new node.
  unfoldable pub replaced : Name → ℕ → NodesManager Name → NodesManager Name
  replaced node slot s = record s {
    slots_cache = put slot s.next s.slots_cache;
    lists = put s.next (node ∷ []) s.lists;
    next = suc s.next;
  }

  unfoldable pub update_slot : Name → ℕ → ℕ → List Name → NodesManager Name → NodesManager Name
  update_slot node slot r [] s = replaced node slot s
  update_slot node slot r (old_primary ∷ nodes) s =
      if is_in node (old_primary ∷ nodes)
      then failed_over node old_primary r (old_primary ∷ nodes) s
      else replaced node slot s

  -- The redirected node is a primary from now on; it is added where the cache does not have it.
  abbrev pub promoted : Name → NodesManager Name → NodesManager Name
  promoted node s = record s { nodes_cache = put node primary s.nodes_cache }

  unfoldable pub update_moved_slots : Name → ℕ → Action ClusterError (NodesManager Name) (Unit {0})
  update_moved_slots node slot s = elim (get slot s.slots_cache) [
    | none ↦ (err key_error, promoted node s)
    | some r ↦ (
      ok tt,
      record (update_slot node slot r (or_empty (get r s.lists)) (promoted node s)) {
        moved_exception = none;
      },
    )
  ]

  unfoldable pub apply_moved : Action ClusterError (NodesManager Name) (Unit {0})
  apply_moved s = elim s.moved_exception [
    | none ↦ (ok tt, s)
    | some m ↦ update_moved_slots m.0 m.1 s
  ]

  -- The index in the list, of a primary that stands first and more nodes.
  unfoldable pub node_index :
      Randint
      → Option LoadBalancingStrategy
      → Option ServerType
      → Name
      → ℕ
      → LoadBalancer Name
      → ℕ × LoadBalancer Name
  node_index r (some strategy) server_type name size b =
      if ltb 1 size
      then get_server_index r name size strategy b
      else if is_primary server_type || (size == 1)
      then (0, b)
      else (r.randint 1 (size - 1), b)
  node_index r none server_type name size b =
      if is_primary server_type || (size == 1) then (0, b) else (r.randint 1 (size - 1), b)

  abbrev found : Option Name → Result ClusterError Name
  found none = err index_error
  found (some n) = ok n

  unfoldable pub chosen :
      Randint
      → Option LoadBalancingStrategy
      → Option ServerType
      → Option (List Name)
      → Action ClusterError (NodesManager Name) Name
  chosen r strategy server_type none s = (err slot_not_covered_error, s)
  chosen r strategy server_type (some []) s = (err slot_not_covered_error, s)
  chosen r strategy server_type (some (node ∷ nodes)) s =
      let (i, b) =
        node_index r strategy server_type node (length (node ∷ nodes)) s.read_load_balancer in
      (found (get_elem? (node ∷ nodes) i), record s { read_load_balancer = b })

  unfoldable pub get_node_from_slot :
      Randint
      → ℕ
      → Bool
      → Option LoadBalancingStrategy
      → Option ServerType
      → Action ClusterError (NodesManager Name) Name
  get_node_from_slot r slot read_from_replicas strategy server_type = do
    apply_moved
    λ s. chosen r (strategy_of read_from_replicas strategy) server_type (nodes_of slot s) s
