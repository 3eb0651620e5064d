-- ===== src/Cluster/Examples.antt =====
-- A table of slots with two shards, and the redirections at it.
use redis_py.Common.{
  ℕ, ◌*◌, ◌++◌, ◌<◌, ◌≡◌, refl, false, none, some, List, [], ◌∷◌, arith, ◌+◌, true, if◌then◌else◌,
}
use redis_py.Common.{◌==◌}
use redis_py.Common.Equality.{String_Eq, ℕ_Eq}
use redis_py.Common.OrderedDict
use redis_py.Common.Outcome.{ok}
use redis_py.Cluster.Slot.{key_slot, key_slot-tag}
use redis_py.Cluster.Balancer.{
  LoadBalancer, Randint, get_server_index, round_robin_replicas, get_server_index-IsServer,
  IsServer, next_index,
}
use redis_py.Cluster.Nodes.{
  NodesManager, nodes_of, get_node_from_slot, update_slot, primary, replica, removed,
}
use redis_py.Cluster.Moved.{get_node_from_slot-moved, update_slot-failover, update_slot-twice}
use redis_py.Common.{Option, ◌≤◌, length}
use redis_py.Cluster.Initialize.{
  Section, Layout, Cluster, initialize, read_startup_nodes, add_sections, add_section, add_slots,
  add_slot, check_slots_coverage, get_nodes_by_server_type, add_replicas,
}
use redis_py.Cluster.Coverage.{first_nodes, surveyed}
use redis_py.Cluster.Startup.{initialize-nodes_of}
use redis_py.Cluster.Execution.{Session, Request, execute_command, request_ttl, should_reinitialize}
use redis_py.Cluster.Command.{Call, by_key, internal_execute_command}
use redis_py.Cluster.Attempts.{internal_execute_command-journal}
use redis_py.Cluster.Redirections.{settled_request, execute_command-settled}

-- a sum of the bytes in place of the checksum
abbrev sum : List ℕ → ℕ
sum [] = 0
sum (x ∷ xs) = x + sum xs

-- "a{x}" and "{x}b"
key_slot-tag_example :
    (key_slot sum (97 ∷ 123 ∷ 120 ∷ 125 ∷ []) 16384
      ≡ key_slot sum (123 ∷ 120 ∷ 125 ∷ 98 ∷ []) 16384)
    × (key_slot sum (97 ∷ 123 ∷ 120 ∷ 125 ∷ []) 16384 < 16384)
key_slot-tag_example =
    key_slot-tag sum 16384 (97 ∷ []) (120 ∷ []) [] [] (98 ∷ []) refl refl refl (λ h. cc)
      (ground arith)

abbrev lowest : Randint
lowest = record { randint = λ a b. a; lower = λ a b h. ground arith; upper = λ a b h. h }

abbrev balancer : LoadBalancer ℕ
balancer = record { primary_to_idx = (7000, 2) ∷ []; start_index = 0 }

balancer_next : next_index 7000 balancer < 3
unfolding OrderedDict.get
balancer_next = ground arith

get_server_index-IsServer_example :
    IsServer 7000 3 round_robin_replicas
      (get_server_index lowest 7000 3 round_robin_replicas balancer)
get_server_index-IsServer_example =
    get_server_index-IsServer lowest 7000 3 round_robin_replicas balancer (ground arith)
      balancer_next

-- Slots 0 and 1 share the list of the first shard; the nodes are known by their ports.
abbrev table : NodesManager ℕ
table = record {
  nodes_cache = (7000, primary) ∷ (7001, primary) ∷ (7002, primary) ∷ (7003, replica) ∷ [];
  slots_cache = (0, 0) ∷ (1, 0) ∷ (2, 1) ∷ [];
  lists = (0, 7000 ∷ 7001 ∷ 7003 ∷ []) ∷ (1, 7002 ∷ []) ∷ [];
  next = 2;
  default_node = some 7000;
  moved_exception = some (7001, 1);
  read_load_balancer = balancer;
}

get_node_from_slot-moved_example : (get_node_from_slot lowest 1 false none none table).0 ≡ ok 7001
unfolding OrderedDict.get
get_node_from_slot-moved_example = get_node_from_slot-moved lowest 7001 1 0 table refl refl

update_slot-failover_example :
    (nodes_of 1 (update_slot 7001 1 0 (7000 ∷ 7001 ∷ 7003 ∷ []) table)
      ≡ some (7001 ∷ 7003 ∷ 7000 ∷ []))
    × (OrderedDict.get 7001 (update_slot 7001 1 0 (7000 ∷ 7001 ∷ 7003 ∷ []) table).nodes_cache
        ≡ some primary)
    × (OrderedDict.get 7000 (update_slot 7001 1 0 (7000 ∷ 7001 ∷ 7003 ∷ []) table).nodes_cache
        ≡ some replica)
unfolding OrderedDict.get removed
update_slot-failover_example =
    update_slot-failover 7001 7000 1 0 (7001 ∷ 7003 ∷ []) table refl (λ h. ground arith) refl refl

update_slot-twice_example :
    (nodes_of 1 (update_slot 7000 1 0 (7000 ∷ 7001 ∷ 7003 ∷ []) table)
      ≡ some (7000 ∷ 7003 ∷ 7000 ∷ []))
    × (OrderedDict.get 7000 (update_slot 7000 1 0 (7000 ∷ 7001 ∷ 7003 ∷ []) table).nodes_cache
        ≡ some replica)
unfolding OrderedDict.get
update_slot-twice_example = update_slot-twice 7000 7001 1 0 (7003 ∷ []) table refl

-- One node answers, with two sections; hosts and names are numbers.
abbrev answer : ℕ → Option (List (Section ℕ))
answer n =
    if n == 7000
    then some (
        record { first = 0; last = 1; master = (0, 7000); replicas = (9, 7003) ∷ [] }
        ∷ record { first = 1; last = 2; master = (9, 7002); replicas = [] }
        ∷ [])
    else none

abbrev layout : Layout ℕ ℕ
layout = record {
  require_full_coverage = false;
  dynamic_startup_nodes = true;
  is_blank = λ host. host == 0;
  remap_host_port = λ a. a;
  get_node_name = λ a. a.1;
  host_of = λ name. 9;
  cluster_slots = answer;
}

abbrev cluster : Cluster ℕ
cluster = record { manager = table; startup_nodes = 6999 ∷ 7000 ∷ []; reinitialize_counter = 1 }

initialize-nodes_of_example :
    nodes_of 1 (initialize layout cluster).1.manager
    ≡ first_nodes 1 (surveyed layout (6999 ∷ 7000 ∷ []) [])
unfolding initialize read_startup_nodes add_sections add_section add_slots add_slot OrderedDict.get
    OrderedDict.put check_slots_coverage get_nodes_by_server_type add_replicas
initialize-nodes_of_example = initialize-nodes_of layout 1 cluster refl

abbrev session : Session ℕ
session = record { cluster = cluster; journal = [] }

abbrev request : Request ℕ ℕ
request = settled_request 1 5 (λ n. lowest) 7002 42

-- A command for slot 1 that goes to the node of its keys
abbrev call : Call ℕ ℕ
call = record {
  flag = by_key;
  slot = 1;
  from_replicas = false;
  strategy = none;
  draw = λ n. lowest;
  requests = λ n node. request;
}

internal_execute_command-journal_example :
    (length (internal_execute_command layout call 3 none session).1.journal ≤ 0 + 4 * request_ttl)
    × (length (internal_execute_command layout call 3 (some (7000 ∷ 7002 ∷ [])) session).1.journal
        ≤ 0 + 2 * request_ttl)
internal_execute_command-journal_example =
    internal_execute_command-journal layout call 3 (7000 ∷ 7002 ∷ []) session refl

execute_command-settled_example :
    ((execute_command layout request 7000 session).0 ≡ ok 42)
    × ((execute_command layout request 7000 session).1.journal
        ≡ [] ++ ((7000, false) ∷ (if 7000 == 7002 then [] else (7002, false) ∷ [])))
unfolding OrderedDict.get should_reinitialize
execute_command-settled_example =
    execute_command-settled layout 1 5 0 (λ n. lowest) 7002 7000 42 session refl refl
