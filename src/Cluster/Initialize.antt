-- ===== src/Cluster/Initialize.antt =====
-- redis/cluster.py: `NodesManager.initialize`. What the startup nodes answer to CLUSTER SLOTS is a parameter,
-- as are the names of hosts; the connections to the nodes are left out.
use redis_py.Common.{
  ℕ, zero, suc, ◌-◌, Bool, true, false, not, ◌&&◌, ◌||◌, List, [], ◌∷◌, map, Option, none, some,
  ltb, if◌then◌else◌,
}
use redis_py.Common.Equality.{Eq, ◌==◌, ℕ_Eq}
use redis_py.Common.OrderedDict.{Dict, get, put, keys}
use redis_py.Common.Outcome.{Result, ok, err, Action}
use redis_py.Cluster.Balancer
use redis_py.Cluster.Nodes.{
  ServerType, ClusterError, NodesManager, primary, replica, or_empty, index_error,
  redis_cluster_exception,
}

-- `REDIS_CLUSTER_HASH_SLOTS`
abbrev pub hash_slots : ℕ
hash_slots = 16384

-- A section of the answer to CLUSTER SLOTS: the slots from the first to the last, and their nodes.
pub record Section (Host : Type 0) : Type 0 where
  pub first : ℕ
  pub last : ℕ
  pub master : Host × ℕ
  pub replicas : List (Host × ℕ)

-- `require_full_coverage`, `dynamic_startup_nodes`, `address_remap`, what the nodes answer (or that one raised), and
-- how hosts and names belong together.
pub record Layout (Host Name : Type 0) : Type 0 where
  pub require_full_coverage : Bool
  pub dynamic_startup_nodes : Bool
  pub is_blank : Host → Bool
  pub remap_host_port : Host × ℕ → Host × ℕ
  pub get_node_name : Host × ℕ → Name
  pub host_of : Name → Host
  pub cluster_slots : Name → Option (List (Section Host))

-- The manager, its startup nodes, and `RedisCluster.reinitialize_counter`.
pub record Cluster (Name : Type 0) : Type 0 where
  pub manager : NodesManager Name
  pub startup_nodes : List Name
  pub reinitialize_counter : ℕ

-- The temporary tables: nodes with their types, slots with the number of their list, and the lists.
pub record Tables (Name : Type 0) : Type 0 where
  pub tmp_nodes_cache : Dict Name ServerType
  pub tmp_slots : Dict ℕ ℕ
  pub tmp_lists : Dict ℕ (List Name)
  pub tmp_next : ℕ
  pub disagreements : ℕ

abbrev pub is_in_slots : Option ℕ → Bool
is_in_slots none = false
is_in_slots (some r) = true

-- The slots below the bound all have a list.
unfoldable pub check_slots_coverage : ℕ → Dict ℕ ℕ → Bool
check_slots_coverage zero slots = true
check_slots_coverage (suc n) slots = is_in_slots (get n slots) && check_slots_coverage n slots

module _ {Name : Type 0} ⦃e : Eq Name⦄ where
  -- A node that is in the cache keeps its type there.
  abbrev pub get_or_create_cluster_node :
      Name → ServerType → Dict Name ServerType → Dict Name ServerType
  get_or_create_cluster_node name role nodes = elim (get name nodes) [
    | none ↦ put name role nodes
    | some t ↦ nodes
  ]

  unfoldable pub add_replicas : List Name → Dict Name ServerType → Dict Name ServerType
  add_replicas [] nodes = nodes
  add_replicas (n ∷ ns) nodes = add_replicas ns (get_or_create_cluster_node n replica nodes)

  -- `tmp_slot.name != target_node.name`
  abbrev pub differs : Name → List Name → Bool
  differs target [] = true
  differs target (n ∷ ns) = not (n == target)

  -- The sixth disagreement is one too many.
  abbrev pub disagreed : Bool → Tables Name → Result ClusterError (Tables Name)
  disagreed false t = ok t
  disagreed true t =
      if ltb 5 (suc t.disagreements)
      then err redis_cluster_exception
      else ok (record t { disagreements = suc t.disagreements })

  -- A slot that has a list already keeps it.
  abbrev pub slot_added : Option ℕ → Name → ℕ → ℕ → Tables Name → Result ClusterError (Tables Name)
  slot_added none target r i t = ok (record t { tmp_slots = put i r t.tmp_slots })
  slot_added (some q) target r i t = disagreed (differs target (or_empty (get q t.tmp_lists))) t

  unfoldable pub add_slot : Name → ℕ → ℕ → Tables Name → Result ClusterError (Tables Name)
  add_slot target r i t = slot_added (get i t.tmp_slots) target r i t

abbrev pub then_do : {E A B : Type 0} → Result E A → (A → Result E B) → Result E B
then_do (ok a) f = f a
then_do (err e) f = err e

module _ {Name : Type 0} ⦃e : Eq Name⦄ where
  -- `count` slots, from `i` on
  unfoldable pub add_slots : Name → ℕ → ℕ → ℕ → Tables Name → Result ClusterError (Tables Name)
  add_slots target r zero i t = ok t
  add_slots target r (suc count) i t =
      then_do (add_slot target r i t) (add_slots target r count (suc i))

  module _ {Host : Type 0} (l : Layout Host Name) where
    -- An empty host of a primary is the host of the startup node that answered.
    abbrev pub master_name : Name → Host × ℕ → Name
    master_name startup (host, port) =
        l.get_node_name
          (l.remap_host_port ((if l.is_blank host then l.host_of startup else host), port))

    abbrev pub replica_names : List (Host × ℕ) → List Name
    replica_names = map (λ a. l.get_node_name (l.remap_host_port a))

    -- The list of the section is one object for all its slots.
    unfoldable pub add_section :
        Name → Section Host → Tables Name → Result ClusterError (Tables Name)
    add_section startup section t =
        let target = master_name startup section.master in
        let replicas = replica_names section.replicas in
        add_slots target t.tmp_next (suc section.last - section.first) section.first (record t {
          tmp_nodes_cache =
              add_replicas replicas (get_or_create_cluster_node target primary t.tmp_nodes_cache);
          tmp_lists = put t.tmp_next (target ∷ replicas) t.tmp_lists;
          tmp_next = suc t.tmp_next;
        })

    unfoldable pub add_sections :
        Name → List (Section Host) → Tables Name → Result ClusterError (Tables Name)
    add_sections startup [] t = ok t
    add_sections startup (x ∷ xs) t = then_do (add_section startup x t) (add_sections startup xs)

    -- The tables after the answer of a startup node, and the rest of the loop where slots are missing.
    abbrev pub covered_or :
        Tables Name
        → Bool
        → Result ClusterError (Tables Name × Bool × Bool)
        → Result ClusterError (Tables Name × Bool × Bool)
    covered_or t true rest = ok (t, true, true)
    covered_or t false rest = rest

    abbrev pub read_startup_node :
        Option (List (Section Host))
        → Name
        → Bool
        → Tables Name
        → (Bool → Tables Name → Result ClusterError (Tables Name × Bool × Bool))
        → Result ClusterError (Tables Name × Bool × Bool)
    read_startup_node none n reachable t rest = rest reachable t
    read_startup_node (some sections) n reachable t rest =
        then_do (add_sections n sections t)
          (λ u. covered_or u (check_slots_coverage hash_slots u.tmp_slots) (rest true u))

    -- The startup nodes one after the other, until the slots are covered: the tables, whether they are
    -- covered, and whether a node was reachable.
    unfoldable pub read_startup_nodes :
        List Name → Bool → Tables Name → Result ClusterError (Tables Name × Bool × Bool)
    read_startup_nodes [] reachable t =
        ok (t, check_slots_coverage hash_slots t.tmp_slots, reachable)
    read_startup_nodes (n ∷ ns) reachable t =
        read_startup_node (l.cluster_slots n) n reachable t (read_startup_nodes ns)

  -- `get_nodes_by_server_type`
  unfoldable pub get_nodes_by_server_type : ServerType → Dict Name ServerType → List Name
  get_nodes_by_server_type primary [] = []
  get_nodes_by_server_type replica [] = []
  get_nodes_by_server_type primary ((n, primary) ∷ nodes) =
      n ∷ get_nodes_by_server_type primary nodes
  get_nodes_by_server_type primary ((n, replica) ∷ nodes) = get_nodes_by_server_type primary nodes
  get_nodes_by_server_type replica ((n, primary) ∷ nodes) = get_nodes_by_server_type replica nodes
  get_nodes_by_server_type replica ((n, replica) ∷ nodes) =
      n ∷ get_nodes_by_server_type replica nodes

  abbrev pub empty_tables : Tables Name
  empty_tables = record {
    tmp_nodes_cache = [];
    tmp_slots = [];
    tmp_lists = [];
    tmp_next = 0;
    disagreements = 0;
  }

  -- `self.default_node = primaries[0]`, after the tables are in place; the rest where there is one.
  abbrev pub with_default :
      Bool → Dict Name ServerType → List Name → Action ClusterError (Cluster Name) (Unit {0})
  with_default dynamic nodes [] s = (err index_error, s)
  with_default dynamic nodes (n ∷ ns) s = (
    ok tt,
    record s {
      manager = record s.manager { default_node = some n; moved_exception = none };
      startup_nodes = if dynamic then keys nodes else s.startup_nodes;
    },
  )

  abbrev pub installed : Bool → Tables Name → Action ClusterError (Cluster Name) (Unit {0})
  installed dynamic t s =
      with_default dynamic t.tmp_nodes_cache (get_nodes_by_server_type primary t.tmp_nodes_cache)
        (record s {
          manager = record s.manager {
            nodes_cache = t.tmp_nodes_cache;
            slots_cache = t.tmp_slots;
            lists = t.tmp_lists;
            next = t.tmp_next;
          };
        })

  abbrev pub accepted :
      Bool
      → Bool
      → Result ClusterError (Tables Name × Bool × Bool)
      → Action ClusterError (Cluster Name) (Unit {0})
  accepted required dynamic (err x) s = (err x, s)
  accepted required dynamic (ok (t, covered, reachable)) s =
      if not reachable || (not covered && required)
      then (err redis_cluster_exception, s)
      else installed dynamic t s

  unfoldable pub initialize :
      {Host : Type 0} → Layout Host Name → Action ClusterError (Cluster Name) (Unit {0})
  initialize l s =
      let s' = record s {
        manager = record s.manager {
          read_load_balancer = Balancer.reset s.manager.read_load_balancer;
        };
      } in
      accepted l.require_full_coverage l.dynamic_startup_nodes
        (read_startup_nodes l s.startup_nodes false empty_tables) s'
