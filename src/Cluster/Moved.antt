-- ===== src/Cluster/Moved.antt =====
-- redis/cluster.py: the table of slots after a MOVED error.
use redis_py.Cluster.Balancer.{Randint}
use redis_py.Common.Outcome.{ok}
use redis_py.Cluster.Nodes.{
  NodesManager, nodes_of, removed, set_head, failed_over, replaced, update_slot, or_empty, promoted,
  update_moved_slots, apply_moved, node_index, chosen, get_node_from_slot, primary, replica,
}
use redis_py.Common.{
  ℕ, ◌≡◌, refl, Bool-cases, List, [], ◌∷◌, ◌++◌, Option, none, some, inl, inr, ==_iff, ap, ◌≢◌,
  true, false, arith,
}
use redis_py.Common.Equality.{Eq, ◌==◌, ℕ_Eq, is_in}
use redis_py.Common.OrderedDict.{get, get-put}

module _ {Name : Type 0} ⦃e : Eq Name⦄ where
  -- The list begins with the node.
  abbrev pub IsFirst : Name → Option (List Name) → Type 0
  IsFirst n none = ⊥
  IsFirst n (some []) = ⊥
  IsFirst n (some (x ∷ xs)) = x ≡ n

  beq-false : (x y : Name) → x ≢ y → (x == y) ≡ false
  beq-false x y n = elim (Bool-cases (x == y)) [
    | inl q ↦ elim (n ((e.beq_iff x y).0 q)) [ ]
    | inr q ↦ q
  ]

  removed-cons :
      (x y : Name) (ys : List Name)
      → (z : Name) × (zs : List Name) × (removed x (y ∷ ys ++ y ∷ []) ≡ z ∷ zs)
  unfolding removed
  removed-cons x y [] = elim (Bool-cases (y == x)) [
    | inl q ↦ (y, [], rw q refl)
    | inr q ↦ (y, removed x (y ∷ []), rw q refl)
  ]
  removed-cons x y (w ∷ ys) = elim (Bool-cases (y == x)) [
    | inl q ↦ (w, ys ++ y ∷ [], rw q refl)
    | inr q ↦ (y, removed x (w ∷ ys ++ y ∷ []), rw q refl)
  ]

  failed_over-nodes :
      (node old : Name) (slot r : ℕ) (nodes : List Name) (s : NodesManager Name)
      → get slot s.slots_cache ≡ some r
      → nodes_of slot (failed_over node old r (old ∷ nodes) s)
        ≡ some (set_head node (removed node (old ∷ nodes ++ old ∷ [])))
  unfolding nodes_of failed_over
  failed_over-nodes node old slot r nodes s h =
      rw
        (
          nodes_of,
          failed_over,
          h,
          get-put r r (set_head node (removed node (old ∷ nodes ++ old ∷ []))) s.lists,
          (==_iff r r).1 refl,
        )
        refl

  replaced-nodes :
      (node : Name) (slot : ℕ) (s : NodesManager Name)
      → nodes_of slot (replaced node slot s) ≡ some (node ∷ [])
  unfolding nodes_of replaced
  replaced-nodes node slot s =
      rw
        (
          nodes_of,
          replaced,
          get-put slot slot s.next s.slots_cache,
          (==_iff slot slot).1 refl,
          get-put s.next s.next (node ∷ []) s.lists,
          (==_iff s.next s.next).1 refl,
        )
        refl

  failed_over-IsFirst :
      (node old : Name) (slot r : ℕ) (nodes : List Name) (s : NodesManager Name)
      → get slot s.slots_cache ≡ some r
      → IsFirst node (nodes_of slot (failed_over node old r (old ∷ nodes) s))
  failed_over-IsFirst node old slot r nodes s h =
      let (z, zs, q) = removed-cons node old nodes in
      rw (failed_over-nodes node old slot r nodes s h, q) refl

  update_slot-IsFirst :
      (node : Name) (slot r : ℕ) (nodes : List Name) (s : NodesManager Name)
      → get slot s.slots_cache ≡ some r
      → IsFirst node (nodes_of slot (update_slot node slot r nodes s))
  unfolding update_slot
  update_slot-IsFirst node slot r [] s h = rw (replaced-nodes node slot s) refl
  update_slot-IsFirst node slot r (old ∷ nodes) s h = elim (Bool-cases (is_in node (old ∷ nodes))) [
    | inl q ↦ rw (update_slot, q) (failed_over-IsFirst node old slot r nodes s h)
    | inr q ↦ rw (update_slot, q, replaced-nodes node slot s) refl
  ]

  update_moved_slots-IsFirst :
      (node : Name) (slot r : ℕ) (s : NodesManager Name)
      → get slot s.slots_cache ≡ some r
      → ((update_moved_slots node slot s).0 ≡ ok tt)
        × IsFirst node (nodes_of slot (update_moved_slots node slot s).1)
  unfolding update_moved_slots nodes_of
  update_moved_slots-IsFirst node slot r s h =
      rw (update_moved_slots, h)
        (refl, update_slot-IsFirst node slot r (or_empty (get r s.lists)) (promoted node s) h)

  chosen-first :
      (rnd : Randint) (node : Name) (o : Option (List Name)) (s : NodesManager Name)
      → IsFirst node o
      → (chosen rnd none none o s).0 ≡ ok node
  unfolding chosen node_index
  chosen-first rnd node none s h = elim h [ ]
  chosen-first rnd node (some []) s h = elim h [ ]
  chosen-first rnd node (some (x ∷ xs)) s h = ap ok h

  -- After a MOVED error for a slot that the table has, the next command for the slot that does not ask
  -- for replicas goes to the node that the error names, whether the node was a replica of the slot,
  -- is new, or comes from another shard.
  pub get_node_from_slot-moved :
      (rnd : Randint) (node : Name) (slot r : ℕ) (s : NodesManager Name)
      → s.moved_exception ≡ some (node, slot)
      → get slot s.slots_cache ≡ some r
      → (get_node_from_slot rnd slot false none none s).0 ≡ ok node
  unfolding get_node_from_slot apply_moved
  get_node_from_slot-moved rnd node slot r s m h =
      let (o, f) = update_moved_slots-IsFirst node slot r s h in
      rw (get_node_from_slot, apply_moved, m, o)
        (chosen-first rnd node (nodes_of slot (update_moved_slots node slot s).1)
          (update_moved_slots node slot s).1 f)

  removed-append :
      (x y : Name) (xs : List Name)
      → is_in x xs ≡ true
      → removed x (xs ++ y ∷ []) ≡ removed x xs ++ y ∷ []
  unfolding removed
  removed-append x y [] h = cc
  removed-append x y (z ∷ xs) h = elim (Bool-cases (z == x)) [
    | inl q ↦ rw q refl
    | inr q ↦ rw (q, removed-append x y xs (ground (arith))) refl
  ]

  failover-list :
      (node old : Name) (nodes : List Name)
      → (old == node) ≡ false
      → is_in node nodes ≡ true
      → set_head node (removed node (old ∷ nodes ++ old ∷ []))
        ≡ node ∷ removed node nodes ++ old ∷ []
  unfolding removed
  failover-list node old nodes q m = rw (q, removed-append node old nodes m) refl

  twice-list :
      (node lost : Name) (nodes : List Name)
      → (node == node) ≡ true
      → set_head node (removed node (node ∷ lost ∷ nodes ++ node ∷ [])) ≡ node ∷ nodes ++ node ∷ []
  unfolding removed
  twice-list node lost nodes q = rw q refl

  -- A failover: where a replica of the slot becomes the primary, it changes places with the old one,
  -- which is the last of the replicas now; the other replicas keep their order, and both nodes their
  -- new types.
  pub update_slot-failover :
      (node old : Name) (slot r : ℕ) (nodes : List Name) (s : NodesManager Name)
      → get slot s.slots_cache ≡ some r
      → old ≢ node
      → is_in node nodes ≡ true
      → get node s.nodes_cache ≡ some primary
      → (nodes_of slot (update_slot node slot r (old ∷ nodes) s)
          ≡ some (node ∷ removed node nodes ++ old ∷ []))
        × (get node (update_slot node slot r (old ∷ nodes) s).nodes_cache ≡ some primary)
        × (get old (update_slot node slot r (old ∷ nodes) s).nodes_cache ≡ some replica)
  unfolding update_slot failed_over
  update_slot-failover node old slot r nodes s h n m p =
      let q = beq-false old node n in
      rw (update_slot, q, m, failed_over-nodes node old slot r nodes s h)
        (
          ap some (failover-list node old nodes q m),
          rw (get-put old node replica s.nodes_cache, q) p,
          rw (get-put old old replica s.nodes_cache, (e.beq_iff old old).1 refl) refl,
        )

  -- A second MOVED error with the same answer, when the node is the primary already: the node is marked a
  -- replica, the first of the slot's replicas is lost, and the node stands in the list twice.
  pub update_slot-twice :
      (node lost : Name) (slot r : ℕ) (nodes : List Name) (s : NodesManager Name)
      → get slot s.slots_cache ≡ some r
      → (nodes_of slot (update_slot node slot r (node ∷ lost ∷ nodes) s)
          ≡ some (node ∷ nodes ++ node ∷ []))
        × (get node (update_slot node slot r (node ∷ lost ∷ nodes) s).nodes_cache ≡ some replica)
  unfolding update_slot failed_over
  update_slot-twice node lost slot r nodes s h =
      let q = (e.beq_iff node node).1 refl in
      rw (update_slot, q, failed_over-nodes node node slot r (lost ∷ nodes) s h)
        (
          ap some (twice-list node lost nodes q),
          rw (get-put node node replica s.nodes_cache, q) refl,
        )
