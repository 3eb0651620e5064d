-- ===== src/Cluster/Execution.antt =====
-- redis/cluster.py: `RedisCluster._execute_command`. What the nodes answer is a parameter, by the number of the
-- attempt, the node, and whether ASKING came first; sleeps and connections are left out.
use redis_py.Common.{
  ℕ, zero, suc, ◌%◌, Bool, true, false, List, [], ◌∷◌, ◌++◌, Option, none, some, if◌then◌else◌,
}
use redis_py.Common.{◌==◌}
use redis_py.Common.Equality.{Eq}
use redis_py.Common.OrderedDict.{get}
use redis_py.Common.Outcome.{Result, ok, err, Action, ◌>>=◌, ◌>>◌, raise}
use redis_py.Cluster.Balancer.{LoadBalancingStrategy, Randint}
use redis_py.Cluster.Nodes.{
  ServerType, ClusterError, NodesManager, removed, get_node_from_slot, attribute_error,
  ttl_exhausted, connection_error, cluster_down_error, response_error,
}
use redis_py.Cluster.Initialize.{Layout, Cluster, initialize}

-- `RedisClusterRequestTTL`
abbrev pub request_ttl : ℕ
request_ttl = 16

-- What an attempt meets: a reply, a redirection to a node, or an error.
pub data Answer (Name A : Type 0) : Type 0 where
  answered : A → Answer Name A
  moved_to asked_to : Name → Answer Name A
  try_again lost cluster_down refused : Answer Name A

-- Where the next attempt goes: to the same node, to the slot's node, or to the node that ASK named.
pub data Route (Name : Type 0) : Type 0 where
  direct by_slot : Route Name
  asking : Name → Route Name

-- A cluster, and the commands that were sent, each with its node and whether ASKING came first.
pub record Session (Name : Type 0) : Type 0 where
  pub cluster : Cluster Name
  pub journal : List (Name × Bool)

-- The command: its slot, whether its reads go to replicas and how, and `reinitialize_steps`.
pub record Request (Name A : Type 0) : Type 0 where
  pub slot : ℕ
  pub from_replicas : Bool
  pub strategy : Option LoadBalancingStrategy
  pub reinitialize_steps : ℕ
  pub draw : ℕ → Randint
  pub answers : ℕ → Name → Bool → Answer Name A

-- `_should_reinitialized`
unfoldable pub should_reinitialize : ℕ → ℕ → Bool
should_reinitialize zero counter = false
should_reinitialize (suc steps) counter = counter % suc steps == 0

abbrev pub is_asking : {Name : Type 0} → Route Name → Bool
is_asking direct = false
is_asking by_slot = false
is_asking (asking n) = true

module _ {Name : Type 0} where
  -- An action of the cluster, or of its manager.
  abbrev pub on_cluster :
      {A : Type 0} → Action ClusterError (Cluster Name) A → Action ClusterError (Session Name) A
  on_cluster m s = let (r, c) = m s.cluster in (r, record s { cluster = c })

  abbrev pub on_manager :
      {A : Type 0}
      → Action ClusterError (NodesManager Name) A
      → Action ClusterError (Session Name) A
  on_manager m s =
      let (r, k) = m s.cluster.manager in
      (r, record s { cluster = record s.cluster { manager = k } })

  unfoldable pub sends : Name → Bool → Action ClusterError (Session Name) (Unit {0})
  sends node is_asked s = (ok tt, record s { journal = s.journal ++ (node, is_asked) ∷ [] })

module _ {Name : Type 0} ⦃e : Eq Name⦄ where
  -- A node that the cache does not have is no node to connect to.
  abbrev pub known : Name → Option ServerType → Result ClusterError Name
  known node none = err attribute_error
  known node (some t) = ok node

  unfoldable pub target_node :
      {A : Type 0}
      → Request Name A
      → ℕ
      → Name
      → Route Name
      → Action ClusterError (Session Name) Name
  target_node q n node direct s = (ok node, s)
  target_node q n node by_slot s =
      on_manager (get_node_from_slot (q.draw n) q.slot q.from_replicas q.strategy none) s
  target_node q n node (asking k) s = (known k (get k s.cluster.manager.nodes_cache), s)

  module _ {Host : Type 0} (l : Layout Host Name) where
    -- `self.nodes_manager.initialize()`, and then the error
    abbrev pub initialize_and : {A : Type 0} → ClusterError → Action ClusterError (Session Name) A
    initialize_and x = on_cluster (initialize l) >> raise x

    -- After a MOVED error: the tables are read again at every `steps`-th, else the error is kept.
    abbrev pub counted : ℕ → Name → ℕ → Action ClusterError (Cluster Name) (Unit {0})
    counted steps node slot s =
        let s' = record s { reinitialize_counter = suc s.reinitialize_counter } in
        if should_reinitialize steps s'.reinitialize_counter
        then (initialize l >> λ t. (ok tt, record t { reinitialize_counter = 0 })) s'
        else (
          ok tt,
          record s' { manager = record s.manager { moved_exception = some (node, slot) } },
        )

    -- `self.nodes_manager.startup_nodes.pop(target_node.name, None)`
    abbrev pub forget_node : Name → Cluster Name → Cluster Name
    forget_node node s = record s { startup_nodes = removed node s.startup_nodes }

    -- What follows an attempt; `again` is the rest of the loop.
    unfoldable pub react :
        {A : Type 0}
        → Request Name A
        → Name
        → (Name → Route Name → Action ClusterError (Session Name) A)
        → Answer Name A
        → Action ClusterError (Session Name) A
    react q node again (answered a) s = (ok a, s)
    react q node again (moved_to k) s =
        (on_cluster (counted q.reinitialize_steps k q.slot) >> again node by_slot) s
    react q node again (asked_to k) s = again node (asking k) s
    react q node again try_again s = again node direct s
    react q node again lost s =
        initialize_and connection_error (record s { cluster = forget_node node s.cluster })
    react q node again cluster_down s = initialize_and cluster_down_error s
    react q node again refused s = (err response_error, s)

    -- The loop, with `ttl` attempts left, at the attempt `n`.
    unfoldable pub attempts :
        {A : Type 0}
        → Request Name A
        → ℕ
        → ℕ
        → Name
        → Route Name
        → Action ClusterError (Session Name) A
    attempts q zero n node route = raise ttl_exhausted
    attempts q (suc ttl) n node route = do
      target ← target_node q n node route
      sends target (is_asking route)
      react q target (attempts q ttl (suc n)) (q.answers n target (is_asking route))

    unfoldable pub execute_command :
        {A : Type 0} → Request Name A → Name → Action ClusterError (Session Name) A
    execute_command q node = attempts q request_ttl 0 node direct
