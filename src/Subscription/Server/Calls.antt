-- ===== src/Subscription/Server/Calls.antt =====
-- redis/client.py: a command and a confirmation keep the tables of a `PubSub` in agreement with the server.
use redis_py.Subscription.Tables.{
  is_in-append, is_in-without_names, has_name, has_name-updated, is_in-keys,
}
use redis_py.Common.OrderedDict.{Dict, keys}
use redis_py.Common.Outcome.{ok}
use redis_py.Subscription.Server.{
  same_kind, awaited, Call, agrees, run, subscribes, unsubscribes, Dict, served, answers,
  served_all, answers_all, World, exchange,
}
use redis_py.Subscription.Client.{
  Kind, Response, Table, PubSub, table, with_table, channel, pattern, shard_channel, message,
  subscribed, unsubscribed, pong, Command, without_names, execute_command, registered_in,
  registered, subscribe_to, marked_in, unsubscribe_from, subscribe, unsubscribe, set_subscribed,
}
use redis_py.Common.{
  ◌≡◌, refl, false, ◌||◌, ◌&&◌, List, [], ◌∷◌, ◌++◌, map, arith, if◌then◌else◌, ap, ◌∙◌, inl, inr,
  Bool, true, Option, Bool-cases,
}
use redis_py.Common.Equality.{Eq, is_in}

module _ {Name Handler : Type 0} where
  pub table-with_table :
      (j k : Kind) (f : Table Name Handler → Table Name Handler) (s : PubSub Name Handler)
      → table j (with_table k (f (table k s)) s)
        ≡ (if same_kind k j then f (table j s) else table j s)
  table-with_table channel channel f s = refl
  table-with_table channel pattern f s = refl
  table-with_table channel shard_channel f s = refl
  table-with_table pattern channel f s = refl
  table-with_table pattern pattern f s = refl
  table-with_table pattern shard_channel f s = refl
  table-with_table shard_channel channel f s = refl
  table-with_table shard_channel pattern f s = refl
  table-with_table shard_channel shard_channel f s = refl

  sent-with_table :
      (k : Kind) (t : Table Name Handler) (s : PubSub Name Handler)
      → (with_table k t s).sent ≡ s.sent
  sent-with_table channel t s = refl
  sent-with_table pattern t s = refl
  sent-with_table shard_channel t s = refl

module _ {Name : Type 0} ⦃e : Eq Name⦄ where
  awaited-append :
      (k : Kind) (a : Name) (xs ys : List (Response Name))
      → awaited k a (xs ++ ys) ≡ (awaited k a xs || awaited k a ys)
  awaited-append k a [] ys = refl
  awaited-append k a (message j b ∷ xs) ys = awaited-append k a xs ys
  awaited-append k a (subscribed j b ∷ xs) ys = awaited-append k a xs ys
  awaited-append k a (unsubscribed j b ∷ xs) ys = ground (arith, awaited-append k a xs ys)
  awaited-append k a (pong ∷ xs) ys = awaited-append k a xs ys

  awaited-subscribed :
      (k j : Kind) (a : Name) (names : List Name) → awaited k a (map (subscribed j) names) ≡ false
  awaited-subscribed k j a [] = refl
  awaited-subscribed k j a (n ∷ names) = awaited-subscribed k j a names

  awaited-unsubscribed :
      (k j : Kind) (a : Name) (names : List Name)
      → awaited k a (map (unsubscribed j) names) ≡ (same_kind j k && is_in a names)
  awaited-unsubscribed k j a [] = ground arith
  awaited-unsubscribed k j a (n ∷ names) = ground (arith, awaited-unsubscribed k j a names)

pub or_false : (b : Bool) → (b || false) ≡ b
or_false true = refl
or_false false = refl

module _ {Name : Type 0} where
  server-same_kind :
      (server : Kind → List Name) (j k : Kind) → same_kind j k ≡ true → server j ≡ server k
  server-same_kind server channel channel h = refl
  server-same_kind server pattern pattern h = refl
  server-same_kind server shard_channel shard_channel h = refl
  server-same_kind server channel pattern h = cc
  server-same_kind server channel shard_channel h = cc
  server-same_kind server pattern channel h = cc
  server-same_kind server pattern shard_channel h = cc
  server-same_kind server shard_channel channel h = cc
  server-same_kind server shard_channel pattern h = cc

module _ {Name Handler : Type 0} ⦃e : Eq Name⦄ where
  abbrev pub agrees_in : Name → List Name → Table Name Handler → Bool → Bool
  agrees_in a server t coming =
      agrees (is_in a server) (has_name a t.names) (is_in a t.pending) coming

  registered_in-agrees :
      (a : Name) (new : Dict Name (Option Handler)) (server : List Name) (t : Table Name Handler)
      (coming : Bool)
      → agrees_in a server t coming ≡ true
      → agrees_in a (server ++ keys new) (registered_in new t) (coming || false) ≡ true
  registered_in-agrees a new server t coming h =
      rw
        (
          is_in-append a server (keys new),
          has_name-updated a new t.names,
          is_in-without_names a (keys new) t.pending,
        )
        (ground arith)

  marked_in-agrees :
      (a n : Name) (names server : List Name) (t : Table Name Handler) (coming : Bool)
      → agrees_in a server t coming ≡ true
      → agrees_in a
          (without_names (n ∷ names) server)
          (marked_in (n ∷ names) t)
          (coming || is_in a (n ∷ names))
        ≡ true
  marked_in-agrees a n names server t coming h =
      rw (is_in-without_names a (n ∷ names) server, is_in-append a t.pending (n ∷ names))
        (ground arith)

  marked_all-agrees :
      (a : Name) (server : List Name) (t : Table Name Handler) (coming : Bool)
      → agrees_in a server t coming ≡ true
      → agrees_in a [] (marked_in [] t) (coming || is_in a server) ≡ true
  marked_all-agrees a server t coming h =
      rw (is_in-append a t.pending (keys t.names), is_in-keys a t.names) (ground arith)

  -- The table of a kind after a command for it that the socket took.
  abbrev pub changed : Call Name Handler → Table Name Handler → Table Name Handler
  changed (subscribes k new) = registered_in new
  changed (unsubscribes k names) = marked_in names

  abbrev pub kind_of : Call Name Handler → Kind
  kind_of (subscribes k new) = k
  kind_of (unsubscribes k names) = k

  abbrev pub command_of : Call Name Handler → Command Name
  command_of (subscribes k new) = subscribe k (keys new)
  command_of (unsubscribes k names) = unsubscribe k names

  table-set_subscribed :
      (j : Kind) (b : Bool) (s : PubSub Name Handler)
      → (table j (set_subscribed b s) ≡ table j s) × ((set_subscribed b s).sent ≡ s.sent)
  table-set_subscribed j true s = (refl, refl)
  table-set_subscribed channel false s = (refl, refl)
  table-set_subscribed pattern false s = (refl, refl)
  table-set_subscribed shard_channel false s = (refl, refl)

  table-sent :
      (j : Kind) (cs : List (Command Name)) (s : PubSub Name Handler)
      → table j (record s { has_connection = true; sent = cs }) ≡ table j s
  table-sent channel cs s = refl
  table-sent pattern cs s = refl
  table-sent shard_channel cs s = refl

  registered-table :
      (j k : Kind) (new : Dict Name (Option Handler)) (s : PubSub Name Handler)
      → (table j (registered k new s)
          ≡ (if same_kind k j then registered_in new (table j s) else table j s))
        × ((registered k new s).sent ≡ s.sent)
  unfolding registered
  registered-table j k new s =
      let t = with_table k (registered_in new (table k s)) s in
      let (p, q) = table-set_subscribed j s.is_subscribed t in
      (
        p ∙ table-with_table j k (registered_in new) s,
        q ∙ sent-with_table k (registered_in new (table k s)) s,
      )

  pub run-table :
      (j : Kind) (c : Call Name Handler) (s : PubSub Name Handler)
      → (table j (run c (ok tt) s).1
          ≡ (if same_kind (kind_of c) j then changed c (table j s) else table j s))
        × ((run c (ok tt) s).1.sent ≡ s.sent ++ command_of c ∷ [])
  unfolding run subscribe_to unsubscribe_from execute_command
  run-table j (subscribes k new) s =
      let (t, q) =
        registered-table j k new
          (record s { has_connection = true; sent = s.sent ++ subscribe k (keys new) ∷ [] }) in
      (rw t (rw (table-sent j (s.sent ++ subscribe k (keys new) ∷ []) s) refl), q)
  run-table j (unsubscribes k names) s =
      let m = with_table k (marked_in names (table k s)) s in
      (
        table-sent j (m.sent ++ unsubscribe k names ∷ []) m
            ∙ table-with_table j k (marked_in names) s,
        ap (λ cs. cs ++ unsubscribe k names ∷ [])
            (sent-with_table k (marked_in names (table k s)) s),
      )

  call-agrees :
      (k : Kind) (a : Name) (c : Call Name Handler) (server : Kind → List Name)
      (t : Table Name Handler) (coming : Bool)
      → agrees_in a (server k) t coming ≡ true
      → agrees_in a
          (served (command_of c) server k)
          (if same_kind (kind_of c) k then changed c t else t)
          (coming || awaited k a (answers (command_of c) server))
        ≡ true
  call-agrees k a (subscribes j new) server t coming h = elim (Bool-cases (same_kind j k)) [
    | inl q ↦
        rw (q, awaited-subscribed k j a (keys new))
          (registered_in-agrees a new (server k) t coming h)
    | inr q ↦ rw (q, awaited-subscribed k j a (keys new), or_false coming) h
  ]
  call-agrees k a (unsubscribes j []) server t coming h = elim (Bool-cases (same_kind j k)) [
    | inl q ↦
        rw (awaited-unsubscribed k j a (server j), q, server-same_kind server j k q)
          (marked_all-agrees a (server k) t coming h)
    | inr q ↦ rw (awaited-unsubscribed k j a (server j), q, or_false coming) h
  ]
  call-agrees k a (unsubscribes j (n ∷ names)) server t coming h =
      elim (Bool-cases (same_kind j k)) [
        | inl q ↦
            rw (awaited-unsubscribed k j a (n ∷ names), q)
              (marked_in-agrees a n names (server k) t coming h)
        | inr q ↦ rw (awaited-unsubscribed k j a (n ∷ names), q, or_false coming) h
      ]

  -- The client agrees with the server on the name.
  abbrev pub agrees_on : Kind → Name → World Name Handler → Bool
  agrees_on k a w = agrees_in a (w.server k) (table k w.client) (awaited k a w.in_flight)

  abbrev pub fresh : World Name Handler → PubSub Name Handler
  fresh w = record w.client { sent = [] }

  table-fresh : (k : Kind) (s : PubSub Name Handler) → table k (record s { sent = [] }) ≡ table k s
  table-fresh channel s = refl
  table-fresh pattern s = refl
  table-fresh shard_channel s = refl

  pub exchange-call :
      (k : Kind) (a : Name) (c : Call Name Handler) (w : World Name Handler)
      → agrees_on k a w ≡ true
      → agrees_on k a (exchange (λ s. (run c (ok tt) s).1) w) ≡ true
  unfolding exchange served_all answers_all
  exchange-call k a c w h =
      let (t, q) = run-table k c (fresh w) in
      rw
        (
          t,
          q,
          awaited-append k a w.in_flight (answers (command_of c) w.server ++ []),
          awaited-append k a (answers (command_of c) w.server) [],
          or_false (awaited k a (answers (command_of c) w.server)),
          table-fresh k w.client,
        )
        (call-agrees k a c w.server (table k w.client) (awaited k a w.in_flight) h)
