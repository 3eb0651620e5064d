-- ===== src/Cluster/Startup.antt =====
-- redis/cluster.py: `NodesManager.initialize`, from what the startup nodes answer to the table of slots.
use redis_py.Common.{
  ℕ, ◌≡◌, refl, ◌∙◌, Bool, true, false, not, ◌&&◌, ◌||◌, List, [], ◌∷◌, Option, Option-cases, inl,
  inr, if◌then◌else◌,
}
use redis_py.Common.Equality.{Eq, ℕ_Eq}
use redis_py.Common.OrderedDict.{Dict, get}
use redis_py.Common.Outcome.{Result, ok, err}
use redis_py.Cluster.Nodes.{
  ServerType, ClusterError, NodesManager, nodes_of, primary, redis_cluster_exception,
}
use redis_py.Cluster.Initialize.{
  Tables, Layout, Cluster, read_startup_nodes, empty_tables, get_nodes_by_server_type, with_default,
  installed, accepted, initialize,
}
use redis_py.Cluster.Sections.{After, Span, listed}
use redis_py.Cluster.Coverage.{first_nodes, surveyed, Represents, read_startup_nodes-Represents}

module _ {Name : Type 0} ⦃e : Eq Name⦄ where
  nodes_of-listed :
      (slot : ℕ) (m : NodesManager Name) → nodes_of slot m ≡ listed (get slot m.slots_cache) m.lists
  unfolding nodes_of
  nodes_of-listed slot m = elim (Option-cases (get slot m.slots_cache)) [
    | inl q ↦ rw (nodes_of, q) refl
    | inr (r, q) ↦ rw (nodes_of, q) refl
  ]

  empty-Represents : Represents [] (empty_tables {Name = Name})
  unfolding first_nodes get
  empty-Represents = record { spans = λ slot. refl; below = λ slot q g. cc }

  with_default-nodes_of :
      (dynamic : Bool) (nodes : Dict Name ServerType) (primaries : List Name) (slot : ℕ)
      (s : Cluster Name)
      → (with_default dynamic nodes primaries s).0 ≡ ok tt
      → nodes_of slot (with_default dynamic nodes primaries s).1.manager ≡ nodes_of slot s.manager
  unfolding nodes_of
  with_default-nodes_of dynamic nodes [] slot s h = refl
  with_default-nodes_of dynamic nodes (n ∷ ns) slot s h = refl

  refused_or :
      (b : Bool) (slot : ℕ) (o : Option (List Name)) (s : Cluster Name)
      (y : Result ClusterError (Unit {0}) × Cluster Name)
      → (if b then (err redis_cluster_exception, s) else y).0 ≡ ok tt
      → (y.0 ≡ ok tt → nodes_of slot y.1.manager ≡ o)
      → nodes_of slot (if b then (err redis_cluster_exception, s) else y).1.manager ≡ o
  refused_or true slot o s y g h = cc
  refused_or false slot o s y g h = h g

  accepted-nodes_of :
      (required dynamic : Bool) (xs : List (Span Name)) (slot : ℕ) (s : Cluster Name)
      (r : Result ClusterError (Tables Name × Bool × Bool))
      → After (λ r. Represents xs r.0) r
      → (accepted required dynamic r s).0 ≡ ok tt
      → nodes_of slot (accepted required dynamic r s).1.manager ≡ first_nodes slot xs
  accepted-nodes_of required dynamic xs slot s (err x) h g = cc
  accepted-nodes_of required dynamic xs slot s (ok (t, covered, reachable)) h g =
      let t' : Cluster Name = record s {
        manager = record s.manager {
          nodes_cache = t.tmp_nodes_cache;
          slots_cache = t.tmp_slots;
          lists = t.tmp_lists;
          next = t.tmp_next;
        };
      } in
      let primaries = get_nodes_by_server_type primary t.tmp_nodes_cache in
      refused_or (not reachable || (not covered && required)) slot (first_nodes slot xs) s
        (installed dynamic t s) g
        (λ i.
          with_default-nodes_of dynamic t.tmp_nodes_cache primaries slot t' i
          ∙ nodes_of-listed slot t'.manager
          ∙ h.spans slot)

  -- Where `initialize` succeeds, the table gives a slot exactly the nodes, primary first, of the first
  -- section that has the slot, among the sections that the reachable startup nodes answered, in their
  -- order, until the answers covered every slot; it has no other slots.
  pub initialize-nodes_of :
      {Host : Type 0} (l : Layout Host Name) (slot : ℕ) (s : Cluster Name)
      → (initialize l s).0 ≡ ok tt
      → nodes_of slot (initialize l s).1.manager ≡ first_nodes slot (surveyed l s.startup_nodes [])
  unfolding initialize
  initialize-nodes_of l slot s h =
      accepted-nodes_of l.require_full_coverage l.dynamic_startup_nodes
        (surveyed l s.startup_nodes []) slot _
        (read_startup_nodes l s.startup_nodes false empty_tables)
        (read_startup_nodes-Represents l s.startup_nodes false [] empty_tables empty-Represents) h
