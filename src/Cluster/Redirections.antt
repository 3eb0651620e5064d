-- ===== src/Cluster/Redirections.antt =====
-- redis/cluster.py: `RedisCluster._execute_command` over its attempts.
use redis_py.Common.{
  ℕ, zero, suc, ◌+◌, ◌≤◌, ◌≡◌, refl, Bool, false, Bool-cases, [], ◌∷◌, ◌++◌, none, some, inl, inr,
  arith, length, length-append, subst, if◌then◌else◌, ◌∙◌, List,
}
use redis_py.Common.Equality.{Eq, ℕ_Eq, ◌==◌}
use redis_py.Common.OrderedDict.{get}
use mathlib.Core.List.{append_assoc}
use redis_py.Common.Outcome.{Result, ok, err, Action, continue, raise, ◌>>◌}
use redis_py.Cluster.Balancer.{Randint}
use redis_py.Cluster.Nodes.{ClusterError, connection_error, cluster_down_error}
use redis_py.Cluster.Initialize.{Layout, initialize}
use redis_py.Cluster.Moved.{get_node_from_slot-moved}
use redis_py.Cluster.Execution.{
  Answer, Route, Session, Request, answered, moved_to, asked_to, try_again, lost, cluster_down,
  refused, direct, by_slot, asking, should_reinitialize, target_node, sends, react, attempts,
  execute_command, is_asking, on_cluster, counted, initialize_and, forget_node, request_ttl,
}

module _ {Name : Type 0} where
  -- What an action adds to the journal.
  abbrev pub Extends :
      ℕ → {A : Type 0} → Session Name → Result ClusterError A × Session Name → Type 0
  Extends k s r = length r.1.journal ≤ length s.journal + k

  continue-Extends :
      {A B : Type 0} (k : ℕ) (r : Result ClusterError A)
      (f : A → Action ClusterError (Session Name) B) (s : Session Name)
      → ((a : A) → Extends k s (f a s))
      → Extends k s (continue r f s)
  continue-Extends k (ok a) f s h = h a
  continue-Extends k (err e) f s h = ground arith

module _ {Name : Type 0} ⦃e : Eq Name⦄ where
  target_node-journal :
      {A : Type 0} (q : Request Name A) (n : ℕ) (node : Name) (route : Route Name)
      (s : Session Name)
      → (target_node q n node route s).1.journal ≡ s.journal
  unfolding target_node
  target_node-journal q n node direct s = refl
  target_node-journal q n node by_slot s = refl
  target_node-journal q n node (asking k) s = refl

  module _ {Host : Type 0} (l : Layout Host Name) where
    initialize_and-Extends :
        (A : Type 0) (k : ℕ) (x : ClusterError) (s : Session Name)
        → Extends k s (initialize_and l {A = A} x s)
    initialize_and-Extends A k x s =
        let (r, t) = on_cluster (initialize l) s in
        continue-Extends k r (λ _. raise x) t (λ _. ground arith)

    react-Extends :
        {A : Type 0} (q : Request Name A) (k : ℕ) (node : Name)
        (again : Name → Route Name → Action ClusterError (Session Name) A) (answer : Answer Name A)
        (s : Session Name)
        → ((m : Name) (route : Route Name) (t : Session Name) → Extends k t (again m route t))
        → Extends k s (react l q node again answer s)
    unfolding react
    react-Extends q k node again (answered a) s h = ground arith
    react-Extends q k node again (moved_to m) s h =
        let (r, t) = on_cluster (counted l q.reinitialize_steps m q.slot) s in
        continue-Extends k r (λ _. again node by_slot) t (λ _. h node by_slot t)
    react-Extends q k node again (asked_to m) s h = h node (asking m) s
    react-Extends q k node again try_again s h = h node direct s
    react-Extends q k node again lost s h =
        initialize_and-Extends _ k connection_error
          (record s { cluster = forget_node l node s.cluster })
    react-Extends q k node again cluster_down s h = initialize_and-Extends _ k cluster_down_error s
    react-Extends q k node again refused s h = ground arith

    sent-Extends :
        {A : Type 0} (q : Request Name A) (ttl n : ℕ) (target : Name) (is_asked : Bool)
        (s : Session Name)
        → ((node : Name) (route : Route Name) (t : Session Name)
            → Extends ttl t (attempts l q ttl (suc n) node route t))
        → Extends (suc ttl) s (
            (sends target is_asked
                >> react l q target (attempts l q ttl (suc n)) (q.answers n target is_asked))
              s)
    unfolding sends
    sent-Extends q ttl n target is_asked s h =
        let one : Name × Bool = (target, is_asked) in
        let t = record s { journal = s.journal ++ one ∷ [] } in
        ground (
          arith,
          length-append s.journal (one ∷ []),
          react-Extends q ttl target (attempts l q ttl (suc n)) (q.answers n target is_asked) t h,
        )

    attempts-Extends :
        {A : Type 0} (q : Request Name A) (ttl n : ℕ) (node : Name) (route : Route Name)
        (s : Session Name)
        → Extends ttl s (attempts l q ttl n node route s)
    unfolding attempts
    attempts-Extends q zero n node route s = ground arith
    attempts-Extends q (suc ttl) n node route s =
        let (r, t) = target_node q n node route s in
        subst (λ js. length (attempts l q (suc ttl) n node route s).1.journal ≤ length js + suc ttl)
          (target_node-journal q n node route s)
          (continue-Extends (suc ttl) r
            (λ target.
              sends target (is_asking route)
              >> react l q target (attempts l q ttl (suc n)) (q.answers n target (is_asking route)))
            t
            (λ target.
              sent-Extends q ttl n target (is_asking route) t (attempts-Extends q ttl (suc n))))

    -- A command is sent at most sixteen times, whatever the nodes answer and however often they redirect.
    pub execute_command-journal :
        {A : Type 0} (q : Request Name A) (node : Name) (s : Session Name)
        → length (execute_command l q node s).1.journal ≤ length s.journal + request_ttl
    unfolding execute_command
    execute_command-journal q node s = attempts-Extends q request_ttl 0 node direct s

  -- Every node but the owner of the slot answers MOVED with the owner.
  abbrev pub settled : {A : Type 0} → Name → A → ℕ → Name → Bool → Answer Name A
  settled owner a n node is_asked = if node == owner then answered a else moved_to owner

  -- A command for one slot that goes to primaries.
  abbrev pub settled_request : {A : Type 0} → ℕ → ℕ → (ℕ → Randint) → Name → A → Request Name A
  settled_request slot steps draw owner a = record {
    slot = slot;
    from_replicas = false;
    strategy = none;
    reinitialize_steps = steps;
    draw = draw;
    answers = settled owner a;
  }

  module _ {Host : Type 0} (l : Layout Host Name) where
    -- The reply, and the commands that were sent.
    abbrev Replied :
        {A : Type 0} → A → List (Name × Bool) → Result ClusterError A × Session Name → Type 0
    Replied a js r = (r.0 ≡ ok a) × (r.1.journal ≡ js)

    at_owner :
        {A : Type 0} (slot steps ttl n r : ℕ) (draw : ℕ → Randint) (owner node : Name) (a : A)
        (s : Session Name)
        → s.cluster.manager.moved_exception ≡ some (owner, slot)
        → get slot s.cluster.manager.slots_cache ≡ some r
        → Replied a
            (s.journal ++ (owner, false) ∷ [])
            (attempts l (settled_request slot steps draw owner a) (suc ttl) n node by_slot s)
    unfolding attempts target_node sends react
    at_owner slot steps ttl n r draw owner node a s m h =
        rw
          (
            get_node_from_slot-moved (draw n) owner slot r s.cluster.manager m h,
            (e.beq_iff owner owner).1 refl,
          )
          (refl, refl)

    two_attempts :
        {A : Type 0} (slot steps ttl r : ℕ) (draw : ℕ → Randint) (owner node : Name) (a : A)
        (s : Session Name)
        → get slot s.cluster.manager.slots_cache ≡ some r
        → should_reinitialize steps (suc s.cluster.reinitialize_counter) ≡ false
        → Replied a
            (s.journal ++ ((node, false) ∷ (if node == owner then [] else (owner, false) ∷ [])))
            (attempts l (settled_request slot steps draw owner a) (suc (suc ttl)) 0 node direct s)
    unfolding attempts target_node sends react
    two_attempts slot steps ttl r draw owner node a s h d = elim (Bool-cases (node == owner)) [
      | inl q ↦ rw q (refl, refl)
      | inr q ↦
          let t : Session Name = record s {
            cluster = record s.cluster {
              manager = record s.cluster.manager { moved_exception = some (owner, slot) };
              reinitialize_counter = suc s.cluster.reinitialize_counter;
            };
            journal = s.journal ++ (node, false) ∷ [];
          } in
          let (o, j) = at_owner slot steps ttl 1 r draw owner node a t refl h in
          rw (q, d) (o, j ∙ append_assoc s.journal ((node, false) ∷ []) ((owner, false) ∷ []))
    ]

    -- Where a command for a slot goes to any node and the nodes agree on the owner of the slot, it is sent
    -- to that node and then, if another node owns the slot, once more to the owner, and the owner's reply is
    -- returned. The conditions: the table has the slot, the command does not read from replicas, and
    -- the tables are not due to be read again.
    pub execute_command-settled :
        {A : Type 0} (slot steps r : ℕ) (draw : ℕ → Randint) (owner node : Name) (a : A)
        (s : Session Name)
        → get slot s.cluster.manager.slots_cache ≡ some r
        → should_reinitialize steps (suc s.cluster.reinitialize_counter) ≡ false
        → ((execute_command l (settled_request slot steps draw owner a) node s).0 ≡ ok a)
          × ((execute_command l (settled_request slot steps draw owner a) node s).1.journal
              ≡ s.journal ++ ((node, false) ∷ (if node == owner then [] else (owner, false) ∷ [])))
    unfolding execute_command
    execute_command-settled slot steps r draw owner node a s h d =
        two_attempts slot steps 14 r draw owner node a s h d
