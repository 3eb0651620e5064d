-- ===== src/Cluster/Command.antt =====
-- redis/cluster.py: `RedisCluster._internal_execute_command`, with the choice of the nodes. The flag of a command
-- and its slot are arguments; what `random.choice` draws is one too.
use redis_py.Common.{
  ℕ, zero, suc, ◌-◌, Bool, true, false, ◌||◌, List, [], ◌∷◌, Option, none, some, length, get_elem?,
  if◌then◌else◌,
}
use redis_py.Common.Equality.{Eq, ◌==◌}
use redis_py.Common.OrderedDict.{Dict, put, keys}
use redis_py.Common.Outcome.{Result, ok, err, Action, ◌>>=◌, pure}
use redis_py.Cluster.Balancer.{LoadBalancingStrategy, Randint}
use redis_py.Cluster.Nodes.{
  ClusterError, get_node_from_slot, primary, replica, index_error, attribute_error,
  redis_cluster_exception, connection_error, cluster_down_error, slot_not_covered_error, key_error,
  ttl_exhausted, response_error,
}
use redis_py.Cluster.Initialize.{Layout, get_nodes_by_server_type}
use redis_py.Cluster.Execution.{Session, Request, on_manager, execute_command}

-- The group of nodes of a command, or the node of its keys.
pub data CommandFlag : Type 0 where
  random primaries replicas all_nodes default_node by_key : CommandFlag

-- A command: its flag, its slot, how it reads, and what it meets at each attempt and node.
pub record Call (Name A : Type 0) : Type 0 where
  pub flag : CommandFlag
  pub slot : ℕ
  pub from_replicas : Bool
  pub strategy : Option LoadBalancingStrategy
  pub draw : ℕ → Randint
  pub requests : ℕ → Name → Request Name A

-- `ERRORS_ALLOW_RETRY`
abbrev pub allows_retry : ClusterError → Bool
allows_retry connection_error = true
allows_retry cluster_down_error = true
allows_retry slot_not_covered_error = false
allows_retry key_error = false
allows_retry index_error = false
allows_retry attribute_error = false
allows_retry redis_cluster_exception = false
allows_retry ttl_exhausted = false
allows_retry response_error = false

module _ {Name : Type 0} where
  abbrev pub at_index : Option Name → Result ClusterError Name
  at_index none = err index_error
  at_index (some n) = ok n

  -- `random.choice`
  abbrev pub choice : Randint → List Name → Result ClusterError Name
  choice r nodes = at_index (get_elem? nodes (r.randint 0 (length nodes - 1)))

  abbrev pub alone : Result ClusterError Name → Result ClusterError (List Name)
  alone (ok n) = ok (n ∷ [])
  alone (err x) = err x

  abbrev pub defaulted : Option Name → Result ClusterError (List Name)
  defaulted none = err attribute_error
  defaulted (some n) = ok (n ∷ [])

module _ {Name : Type 0} ⦃e : Eq Name⦄ where
  unfoldable pub nodes_by_flag :
      {A : Type 0} → CommandFlag → Call Name A → ℕ → Action ClusterError (Session Name) (List Name)
  nodes_by_flag random c n s = (alone (choice (c.draw n) (keys s.cluster.manager.nodes_cache)), s)
  nodes_by_flag primaries c n s =
      (ok (get_nodes_by_server_type primary s.cluster.manager.nodes_cache), s)
  nodes_by_flag replicas c n s =
      (ok (get_nodes_by_server_type replica s.cluster.manager.nodes_cache), s)
  nodes_by_flag all_nodes c n s = (ok (keys s.cluster.manager.nodes_cache), s)
  nodes_by_flag default_node c n s = (defaulted s.cluster.manager.default_node, s)
  nodes_by_flag by_key c n s =
      let (r, t) =
        on_manager (get_node_from_slot (c.draw n) c.slot c.from_replicas c.strategy none) s in
      (alone r, t)

  -- `_determine_nodes`
  unfoldable pub determine_nodes :
      {A : Type 0} → Call Name A → ℕ → Action ClusterError (Session Name) (List Name)
  determine_nodes c n = nodes_by_flag c.flag c n

  unfoldable pub others : Option Name → List Name → List Name
  others current [] = []
  others none (n ∷ ns) = n ∷ others none ns
  others (some d) (n ∷ ns) = let rest = others (some d) ns in if n == d then rest else n ∷ rest

  abbrev pub or_replica : Randint → List Name → List Name → Option Name → Option Name
  or_replica r [] [] current = current
  or_replica r [] (n ∷ ns) current = get_elem? (n ∷ ns) (r.randint 0 (length ns))
  or_replica r (n ∷ ns) rest current = get_elem? (n ∷ ns) (r.randint 0 (length ns))

  -- A primary that is not the default node, else a replica, else the node that it was.
  unfoldable pub replace_default_node : Randint → Session Name → Session Name
  replace_default_node r s =
      let m = s.cluster.manager in
      record s {
        cluster = record s.cluster {
          manager = record m {
            default_node =
                or_replica r
                  (others m.default_node (get_nodes_by_server_type primary m.nodes_cache))
                  (others m.default_node (get_nodes_by_server_type replica m.nodes_cache))
                  m.default_node;
          };
        };
      }

  abbrev pub is_default : List Name → Option Name → Bool
  is_default [] d = false
  is_default (n ∷ []) none = false
  is_default (n ∷ []) (some d) = n == d
  is_default (n ∷ m ∷ ns) d = false

  abbrev pub replaced_if : Bool → Randint → Session Name → Session Name
  replaced_if true r s = replace_default_node r s
  replaced_if false r s = s

  module _ {Host A : Type 0} (l : Layout Host Name) (c : Call Name A) where
    -- `res[node.name] = self._execute_command(node, …)` for each node
    unfoldable pub execute_all :
        ℕ → Dict Name A → List Name → Action ClusterError (Session Name) (Dict Name A)
    execute_all n res [] = pure res
    execute_all n res (x ∷ xs) = do
      v ← execute_command l (c.requests n x) x
      execute_all n (put x v res) xs

    -- The results of one attempt, whether the command went to the default node alone, and the session.
    abbrev pub executed :
        ℕ
        → Bool
        → List Name
        → Session Name
        → Result ClusterError (Dict Name A) × Bool × Session Name
    executed n was_default [] s = (err redis_cluster_exception, was_default, s)
    executed n was_default (x ∷ xs) s =
        let (r, t) = execute_all n [] (x ∷ xs) s in
        (r, was_default || is_default (x ∷ xs) s.cluster.manager.default_node, t)

    abbrev pub determined :
        ℕ
        → Bool
        → Result ClusterError (List Name)
        → Session Name
        → Result ClusterError (Dict Name A) × Bool × Session Name
    determined n was_default (ok targets) s = executed n was_default targets s
    determined n was_default (err x) s = (err x, was_default, s)

    unfoldable pub attempt :
        ℕ → Bool → Session Name → Result ClusterError (Dict Name A) × Bool × Session Name
    attempt n was_default s = let (r, t) = determine_nodes c n s in determined n was_default r t

    abbrev pub retry_or_raise :
        ℕ
        → (Bool → Action ClusterError (Session Name) (Dict Name A))
        → Result ClusterError (Dict Name A) × Bool × Session Name
        → Result ClusterError (Dict Name A) × Session Name
    retry_or_raise n next (ok res, was_default, s) = (ok res, s)
    retry_or_raise n next (err x, was_default, s) =
        if allows_retry x
        then next was_default (replaced_if was_default (c.draw n) s)
        else (err x, s)

    abbrev pub last_try :
        Result ClusterError (Dict Name A) × Bool × Session Name
        → Result ClusterError (Dict Name A) × Session Name
    last_try (r, was_default, s) = (r, s)

    -- The attempts, with `retries` left, at the attempt `n`.
    unfoldable pub command_attempts :
        ℕ → ℕ → Bool → Action ClusterError (Session Name) (Dict Name A)
    command_attempts zero n was_default s = last_try (attempt n was_default s)
    command_attempts (suc retries) n was_default s =
        retry_or_raise n (command_attempts retries (suc n)) (attempt n was_default s)

    -- Nodes that the caller names are tried once, and else the attempts are repeated; the results by node.
    unfoldable pub internal_execute_command :
        ℕ → Option (List Name) → Action ClusterError (Session Name) (Dict Name A)
    internal_execute_command retries (some nodes) s = execute_all 0 [] nodes s
    internal_execute_command retries none s = command_attempts retries 0 false s
