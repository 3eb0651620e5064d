-- ===== src/Cluster/Attempts.antt =====
-- redis/cluster.py: how often `RedisCluster._internal_execute_command` sends a command.
use redis_py.Common.{
  ℕ, zero, suc, ◌+◌, ◌*◌, ◌≤◌, ◌≡◌, refl, sym, subst, Bool, true, false, Bool-cases, List, [], ◌∷◌,
  none, some, inl, inr, arith, length,
}
use redis_py.Common.Equality.{Eq}
use redis_py.Common.OrderedDict.{Dict, put}
use redis_py.Common.Outcome.{Result, ok, err, continue, Action}
use redis_py.Cluster.Nodes.{ClusterError, get_node_from_slot}
use redis_py.Cluster.Initialize.{Layout}
use redis_py.Cluster.Execution.{Session, execute_command, request_ttl}
use redis_py.Cluster.Redirections.{Extends, execute_command-journal}
use redis_py.Cluster.Command.{
  by_key, Call, allows_retry, alone, nodes_by_flag, determine_nodes, replace_default_node,
  replaced_if, execute_all, determined, attempt, retry_or_raise, last_try, command_attempts,
  internal_execute_command,
}

module _ {Name : Type 0} ⦃e : Eq Name⦄ {Host A : Type 0} (l : Layout Host Name)
    (c : Call Name A) where
  replaced_if-journal :
      (b : Bool) (n : ℕ) (s : Session Name) → (replaced_if b (c.draw n) s).journal ≡ s.journal
  unfolding replace_default_node
  replaced_if-journal true n s = refl
  replaced_if-journal false n s = refl

  then-Extends :
      {B : Type 0} (k m : ℕ) (r : Result ClusterError B)
      (f : B → Action ClusterError (Session Name) (Dict Name A)) (s t : Session Name)
      → Extends k s (r, t)
      → ((v : B) → Extends m t (f v t))
      → Extends (m + k) s (continue r f t)
  then-Extends k m (ok v) f s t h g = ground (arith, g v)
  then-Extends k m (err x) f s t h g = ground arith

  execute_all-Extends :
      (n : ℕ) (res : Dict Name A) (xs : List Name) (s : Session Name)
      → Extends (length xs * request_ttl) s (execute_all l c n res xs s)
  unfolding execute_all
  execute_all-Extends n res [] s = ground arith
  execute_all-Extends n res (x ∷ xs) s =
      let (r, t) = execute_command l (c.requests n x) x s in
      let h =
        then-Extends request_ttl (length xs * request_ttl) r
          (λ v. execute_all l c n (put x v res) xs) s t
          (execute_command-journal l (c.requests n x) x s)
          (λ v. execute_all-Extends n (put x v res) xs t) in
      ground arith

  determined-Extends :
      (n : ℕ) (b : Bool) (r : Result ClusterError Name) (s t : Session Name)
      → t.journal ≡ s.journal
      → Extends request_ttl s (last_try l c (determined l c n b (alone r) t))
  determined-Extends n b (ok m) s t h = ground (arith, execute_all-Extends n [] (m ∷ []) t)
  determined-Extends n b (err x) s t h = ground arith

  -- An attempt for one node, that of the keys.
  by_key-Extends :
      (n : ℕ) (b : Bool) (s : Session Name)
      → Extends request_ttl s (
          last_try l c
            (determined l c n b (nodes_by_flag by_key c n s).0 (nodes_by_flag by_key c n s).1))
  unfolding nodes_by_flag
  by_key-Extends n b s =
      let (r, m) =
        get_node_from_slot (c.draw n) c.slot c.from_replicas c.strategy none s.cluster.manager in
      determined-Extends n b r s (record s { cluster = record s.cluster { manager = m } }) refl

  attempt-Extends :
      (n : ℕ) (b : Bool) (s : Session Name)
      → c.flag ≡ by_key
      → Extends request_ttl s (last_try l c (attempt l c n b s))
  unfolding attempt determine_nodes
  attempt-Extends n b s h =
      subst
        (λ f.
          Extends request_ttl s
            (last_try l c (determined l c n b (nodes_by_flag f c n s).0 (nodes_by_flag f c n s).1)))
        (sym h) (by_key-Extends n b s)

  retry_or_raise-Extends :
      (k n : ℕ) (next : Bool → Action ClusterError (Session Name) (Dict Name A))
      (r : Result ClusterError (Dict Name A)) (b : Bool) (s t : Session Name)
      → Extends request_ttl s (r, t)
      → ((b : Bool) (u : Session Name) → Extends (k * request_ttl) u (next b u))
      → Extends (suc k * request_ttl) s (retry_or_raise l c n next (r, b, t))
  retry_or_raise-Extends k n next (ok res) b s t h g = ground arith
  retry_or_raise-Extends k n next (err x) b s t h g = elim (Bool-cases (allows_retry x)) [
    | inl q ↦ rw q (ground (arith, g b (replaced_if b (c.draw n) t), replaced_if-journal b n t))
    | inr q ↦ rw q (ground arith)
  ]

  command_attempts-Extends :
      (retries n : ℕ) (b : Bool) (s : Session Name)
      → c.flag ≡ by_key
      → Extends (suc retries * request_ttl) s (command_attempts l c retries n b s)
  unfolding command_attempts
  command_attempts-Extends zero n b s h = ground (arith, attempt-Extends n b s h)
  command_attempts-Extends (suc retries) n b s h =
      let (r, b', t) = attempt l c n b s in
      retry_or_raise-Extends (suc retries) n (command_attempts l c retries (suc n)) r b' s t
        (attempt-Extends n b s h) (λ b u. command_attempts-Extends retries (suc n) b u h)

  -- A command that goes to the node of its keys is sent at most sixteen times for each of the attempts,
  -- which are one more than the retries, and a command for nodes that the caller names at most
  -- sixteen times for each of these, whatever the nodes answer and however often they redirect.
  pub internal_execute_command-journal :
      (retries : ℕ) (nodes : List Name) (s : Session Name)
      → c.flag ≡ by_key
      → (length (internal_execute_command l c retries none s).1.journal
          ≤ length s.journal + suc retries * request_ttl)
        × (length (internal_execute_command l c retries (some nodes) s).1.journal
            ≤ length s.journal + length nodes * request_ttl)
  unfolding internal_execute_command
  internal_execute_command-journal retries nodes s h =
      (command_attempts-Extends retries 0 false s h, execute_all-Extends 0 [] nodes s)
