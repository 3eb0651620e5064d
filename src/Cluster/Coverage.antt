-- ===== src/Cluster/Coverage.antt =====
-- redis/cluster.py: the table of slots after `NodesManager.initialize`, by what the startup nodes answered.
use redis_py.Common.{
  ℕ, zero, suc, ◌+◌, ◌-◌, ◌<◌, ◌≡◌, refl, sym, ◌∙◌, ap, ap₂, subst, Bool, true, false, ◌&&◌, List,
  [], ◌∷◌, ◌++◌, map, Option, none, some, ltb, leb, ◌==◌, ==_iff, arith, if◌then◌else◌,
}
use redis_py.Common.Equality.{Eq, ℕ_Eq}
use redis_py.Common.OrderedDict.{Dict, get, put, get-put}
use mathlib.Core.List.{append-nil, append_assoc}
use mathlib.Core.Option.{some-injective}
use redis_py.Common.Outcome.{Result}
use redis_py.Cluster.Nodes.{ServerType, ClusterError, primary}
use redis_py.Cluster.Initialize.{
  Tables, Section, Layout, hash_slots, is_in_slots, check_slots_coverage, add_slots, add_section,
  add_sections, read_startup_nodes, read_startup_node, covered_or, master_name, replica_names,
  add_replicas, get_or_create_cluster_node,
}
use redis_py.Cluster.Sections.{
  After, then_do-After, After-map, or_else, or_else_assoc, Span, contains, listed, nodes_at, Added,
  add_slots-Added,
}

module _ {Name : Type 0} where
  -- The nodes of the first span that has the slot.
  unfoldable pub first_nodes : ℕ → List (Span Name) → Option (List Name)
  first_nodes slot [] = none
  first_nodes slot (x ∷ xs) =
      or_else (if contains slot x then some x.nodes else none) (first_nodes slot xs)

  abbrev is_found : Option (List Name) → Bool
  is_found none = false
  is_found (some ns) = true

  -- Every slot below the bound is in a span.
  unfoldable pub covers : ℕ → List (Span Name) → Bool
  covers zero xs = true
  covers (suc n) xs = is_found (first_nodes n xs) && covers n xs

  first_nodes-append :
      (slot : ℕ) (xs ys : List (Span Name))
      → first_nodes slot (xs ++ ys) ≡ or_else (first_nodes slot xs) (first_nodes slot ys)
  unfolding first_nodes
  first_nodes-append slot [] ys = refl
  first_nodes-append slot (x ∷ xs) ys =
      let o : Option (List Name) = if contains slot x then some x.nodes else none in
      ap (or_else o) (first_nodes-append slot xs ys)
      ∙ sym (or_else_assoc o (first_nodes slot xs) (first_nodes slot ys))

or_else-nothing : {A : Type 0} (o : Option A) → or_else o none ≡ o
or_else-nothing none = refl
or_else-nothing (some a) = refl

below-added :
    (o : Option ℕ) (b : Bool) (q r : ℕ)
    → ((q : ℕ) → o ≡ some q → q < r)
    → or_else o (if b then some r else none) ≡ some q
    → q < suc r
below-added none true q r h g = let p : r ≡ q = some-injective r q g in ground arith
below-added none false q r h g = cc
below-added (some p) b q r h g = ground (arith, h q g)

span_slots :
    (from upto slot : ℕ)
    → (leb from slot && ltb slot (from + (suc upto - from))) ≡ (leb from slot && leb slot upto)
span_slots from upto slot = ground arith

module _ {Name : Type 0} ⦃e : Eq Name⦄ where
  -- The tables give each slot the nodes of its first span, and the number of the next list is free.
  pub record Represents (xs : List (Span Name)) (t : Tables Name) : Type 0 where
    pub spans : (slot : ℕ) → nodes_at slot t ≡ first_nodes slot xs
    pub below : (slot q : ℕ) → get slot t.tmp_slots ≡ some q → q < t.tmp_next

  is_found-listed : (o : Option ℕ) (d : Dict ℕ (List Name)) → is_in_slots o ≡ is_found (listed o d)
  is_found-listed none d = refl
  is_found-listed (some r) d = refl

  check_slots_coverage-covers :
      (n : ℕ) (xs : List (Span Name)) (t : Tables Name)
      → Represents xs t
      → check_slots_coverage n t.tmp_slots ≡ covers n xs
  unfolding check_slots_coverage covers
  check_slots_coverage-covers zero xs t h = refl
  check_slots_coverage-covers (suc n) xs t h =
      ap₂ (λ a b. a && b)
        (is_found-listed (get n t.tmp_slots) t.tmp_lists ∙ ap is_found (h.spans n))
        (check_slots_coverage-covers n xs t h)

  -- A new list is at its number, and the others are where they were.
  listed-put :
      (o : Option ℕ) (b : Bool) (r : ℕ) (ns : List Name) (d : Dict ℕ (List Name))
      → ((q : ℕ) → o ≡ some q → q < r)
      → listed (or_else o (if b then some r else none)) (put r ns d)
        ≡ or_else (listed o d) (if b then some ns else none)
  listed-put none true r ns d h = rw (get-put r r ns d, (==_iff r r).1 refl) refl
  listed-put none false r ns d h = refl
  listed-put (some q) b r ns d h =
      let n : (r == q) ≡ false = ground (arith, h q refl) in rw (get-put r q ns d, n) refl

  Added-Represents :
      (xs : List (Span Name)) (x : Span Name) (t u : Tables Name) (nodes : Dict Name ServerType)
      → Represents xs t
      → Added t.tmp_next
          (suc x.upto - x.from)
          x.from
          (record t {
            tmp_nodes_cache = nodes;
            tmp_lists = put t.tmp_next x.nodes t.tmp_lists;
            tmp_next = suc t.tmp_next;
          })
          u
      → Represents (xs ++ x ∷ []) u
  unfolding first_nodes
  Added-Represents xs x t u nodes h k = record {
    spans = λ slot.
        ap₂ listed
          (k.slots slot
            ∙ ap (λ b. or_else (get slot t.tmp_slots) (if b then some t.tmp_next else none))
                (span_slots x.from x.upto slot))
          k.same_lists
        ∙ listed-put (get slot t.tmp_slots) (contains slot x) t.tmp_next x.nodes t.tmp_lists
            (h.below slot)
        ∙ ap (λ o. or_else o (if contains slot x then some x.nodes else none)) (h.spans slot)
        ∙ sym (
            first_nodes-append slot xs (x ∷ [])
            ∙ ap (or_else (first_nodes slot xs))
                (or_else-nothing (if contains slot x then some x.nodes else none)));
    below = λ slot q g.
        subst (λ n. q < n) (sym k.same_next)
          (below-added (get slot t.tmp_slots)
            (leb x.from slot && ltb slot (x.from + (suc x.upto - x.from))) q t.tmp_next
            (h.below slot) (sym (k.slots slot) ∙ g));
  }

  module _ {Host : Type 0} (l : Layout Host Name) where
    -- A section as the startup node answered it, with the names of its nodes.
    abbrev pub span : Name → Section Host → Span Name
    span startup x = record {
      from = x.first;
      upto = x.last;
      nodes = master_name l startup x.master ∷ replica_names l x.replicas;
    }

    add_section-Represents :
        (startup : Name) (x : Section Host) (xs : List (Span Name)) (t : Tables Name)
        → Represents xs t
        → After (Represents (xs ++ span startup x ∷ [])) (add_section l startup x t)
    unfolding add_section
    add_section-Represents startup x xs t h =
        let target = master_name l startup x.master in
        let replicas = replica_names l x.replicas in
        let nodes =
          add_replicas replicas (get_or_create_cluster_node target primary t.tmp_nodes_cache) in
        let t' : Tables Name = record t {
          tmp_nodes_cache = nodes;
          tmp_lists = put t.tmp_next (target ∷ replicas) t.tmp_lists;
          tmp_next = suc t.tmp_next;
        } in
        After-map (Added t.tmp_next (suc x.last - x.first) x.first t')
          (Represents (xs ++ span startup x ∷ []))
          (add_slots target t.tmp_next (suc x.last - x.first) x.first t')
          (λ u k. Added-Represents xs (span startup x) t u nodes h k)
          (add_slots-Added target t.tmp_next (suc x.last - x.first) x.first t')

    add_sections-Represents :
        (startup : Name) (sections : List (Section Host)) (xs : List (Span Name)) (t : Tables Name)
        → Represents xs t
        → After (Represents (xs ++ map (span startup) sections)) (add_sections l startup sections t)
    unfolding add_sections
    add_sections-Represents startup [] xs t h = rw (append-nil xs) h
    add_sections-Represents startup (x ∷ sections) xs t h =
        then_do-After (Represents (xs ++ span startup x ∷ []))
          (Represents (xs ++ map (span startup) (x ∷ sections))) (add_section l startup x t)
          (add_sections l startup sections) (add_section-Represents startup x xs t h)
          (λ u k.
            subst (λ ys. After (Represents ys) (add_sections l startup sections u))
              (append_assoc xs (span startup x ∷ []) (map (span startup) sections))
              (add_sections-Represents startup sections (xs ++ span startup x ∷ []) u k))

    abbrev pub surveyed_until :
        Option (List (Section Host))
        → Name
        → List (Span Name)
        → (List (Span Name) → List (Span Name))
        → List (Span Name)
    surveyed_until none n xs rest = rest xs
    surveyed_until (some sections) n xs rest =
        let ys = xs ++ map (span n) sections in if covers hash_slots ys then ys else rest ys

    -- The sections that count: those of the reachable startup nodes, until they cover all the slots.
    unfoldable pub surveyed : List Name → List (Span Name) → List (Span Name)
    surveyed [] xs = xs
    surveyed (n ∷ ns) xs = surveyed_until (l.cluster_slots n) n xs (surveyed ns)

    covered_or-Represents :
        (b : Bool) (ys zs : List (Span Name)) (u : Tables Name)
        (r : Result ClusterError (Tables Name × Bool × Bool))
        → Represents ys u
        → After (λ r. Represents zs r.0) r
        → After (λ r. Represents (if b then ys else zs) r.0) (covered_or l u b r)
    covered_or-Represents true ys zs u r h k = h
    covered_or-Represents false ys zs u r h k = k

    read_startup_node-Represents :
        (o : Option (List (Section Host))) (n : Name) (reachable : Bool) (xs : List (Span Name))
        (t : Tables Name)
        (rest : Bool → Tables Name → Result ClusterError (Tables Name × Bool × Bool))
        (rest' : List (Span Name) → List (Span Name))
        → Represents xs t
        → ((b : Bool) (ys : List (Span Name)) (u : Tables Name)
            → Represents ys u
            → After (λ r. Represents (rest' ys) r.0) (rest b u))
        → After
            (λ r. Represents (surveyed_until o n xs rest') r.0)
            (read_startup_node l o n reachable t rest)
    read_startup_node-Represents none n reachable xs t rest rest' h k = k reachable xs t h
    read_startup_node-Represents (some sections) n reachable xs t rest rest' h k =
        let ys = xs ++ map (span n) sections in
        then_do-After (Represents ys)
          (λ r. Represents (if covers hash_slots ys then ys else rest' ys) r.0)
          (add_sections l n sections t)
          (λ u. covered_or l u (check_slots_coverage hash_slots u.tmp_slots) (rest true u))
          (add_sections-Represents n sections xs t h)
          (λ u g.
            subst
              (λ b.
                After (λ r. Represents (if covers hash_slots ys then ys else rest' ys) r.0)
                  (covered_or l u b (rest true u)))
              (sym (check_slots_coverage-covers hash_slots ys u g))
              (covered_or-Represents (covers hash_slots ys) ys (rest' ys) u (rest true u) g
                (k true ys u g)))

    pub read_startup_nodes-Represents :
        (ns : List Name) (reachable : Bool) (xs : List (Span Name)) (t : Tables Name)
        → Represents xs t
        → After (λ r. Represents (surveyed ns xs) r.0) (read_startup_nodes l ns reachable t)
    unfolding read_startup_nodes surveyed
    read_startup_nodes-Represents [] reachable xs t h = h
    read_startup_nodes-Represents (n ∷ ns) reachable xs t h =
        read_startup_node-Represents (l.cluster_slots n) n reachable xs t (read_startup_nodes l ns)
          (surveyed ns) h (λ b ys u g. read_startup_nodes-Represents ns b ys u g)
