-- ===== src/Subscription/Server/Deliveries.antt =====
-- redis/client.py: `handle_message` keeps the tables of a `PubSub` in agreement with the server.
use redis_py.Subscription.Server.Calls.{agrees_in, agrees_on, table-with_table}
use redis_py.Subscription.Tables.{is_in-without_names, has_name-popped}
use redis_py.Subscription.Server.{same_kind, awaited, World}
use redis_py.Subscription.Client.{
  Kind, Response, Table, PubSub, table, channel, pattern, shard_channel, message, subscribed,
  unsubscribed, pong, confirmed_in, has_no_names, confirmed, cleared_if, handle_message,
}
use redis_py.Common.{
  ◌≡◌, refl, false, ◌||◌, List, [], ◌∷◌, arith, inl, inr, Bool, true, Bool-cases, subst,
}
use redis_py.Common.Equality.{◌==◌, Eq, is_in}

module _ {Name Handler : Type 0} ⦃e : Eq Name⦄ where
  confirmed_in-agrees :
      (a n : Name) (server : List Name) (t : Table Name Handler) (coming : Bool)
      → agrees_in a server t (n == a || coming) ≡ true
      → agrees_in a server (confirmed_in n t) coming ≡ true
  confirmed_in-agrees a n server t coming h = elim (Bool-cases (is_in n t.pending)) [
    | inl q ↦
        rw (q, has_name-popped a n t.names, is_in-without_names a (n ∷ []) t.pending)
          (ground (arith, e.beq_iff n a))
    | inr q ↦ rw q (ground (arith, e.beq_iff n a))
  ]

  table-cleared_if :
      (k : Kind) (b : Bool) (s : PubSub Name Handler) → table k (cleared_if b s) ≡ table k s
  table-cleared_if k false s = refl
  table-cleared_if channel true s = refl
  table-cleared_if pattern true s = refl
  table-cleared_if shard_channel true s = refl

  handle_message-agrees :
      (k : Kind) (a : Name) (ignore : Bool) (r : Response Name) (rest : List (Response Name))
      (server : List Name) (s : PubSub Name Handler)
      → agrees_in a server (table k s) (awaited k a (r ∷ rest)) ≡ true
      → agrees_in a server (table k (handle_message ignore r s).1) (awaited k a rest) ≡ true
  unfolding handle_message confirmed
  handle_message-agrees k a ignore (message j n) rest server s h = h
  handle_message-agrees k a ignore (subscribed j n) rest server s h = h
  handle_message-agrees k a ignore pong rest server s h = h
  handle_message-agrees k a ignore (unsubscribed j n) rest server s h =
      let s' = confirmed j n s in
      rw (table-cleared_if k (has_no_names s') s', table-with_table k j (confirmed_in n) s)
        (elim (Bool-cases (same_kind j k)) [
          | inl q ↦
              rw q (confirmed_in-agrees a n server (table k s) (awaited k a rest) (ground arith))
          | inr q ↦ rw q (ground arith)
        ])

  pub receive-agrees :
      (k : Kind) (a : Name) (ignore : Bool) (r : Response Name) (rest : List (Response Name))
      (w : World Name Handler)
      → w.in_flight ≡ r ∷ rest
      → agrees_on k a w ≡ true
      → agrees_in a (w.server k) (table k (handle_message ignore r w.client).1) (awaited k a rest)
        ≡ true
  receive-agrees k a ignore r rest w q h =
      handle_message-agrees k a ignore r rest (w.server k) w.client
        (subst (λ f. agrees_in a (w.server k) (table k w.client) (awaited k a f) ≡ true) q h)
