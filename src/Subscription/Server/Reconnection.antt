-- ===== src/Subscription/Server/Reconnection.antt =====
-- redis/client.py: after `on_connect` the server has the names of the tables again.
use redis_py.Subscription.Server.Calls.{or_false, run-table}
use redis_py.Subscription.Server.{same_kind, served_all, run, reconnected, subscribes, served}
use redis_py.Subscription.Tables.{
  has_name, has_name-updated, is_in-without_names, is_in-keys, is_in-append, is_empty-has_name,
}
use redis_py.Common.{
  ◌≡◌, refl, sym, ◌∙◌, ap, Bool, true, false, ◌||◌, ◌&&◌, Bool-cases, List, [], ◌∷◌, ◌++◌, arith,
  inl, inr,
}
use redis_py.Common.Equality.{Eq, is_in}
use redis_py.Common.OrderedDict.{keys}
use redis_py.Common.Outcome.{ok}
use redis_py.Subscription.Client.{
  on_connect, resubscribe, forgotten, Kind, Command, PubSub, is_empty, subscribe, table,
  execute_command, subscribe_to, channel, pattern, shard_channel,
}

module _ {Name : Type 0} ⦃e : Eq Name⦄ where
  served_all-append :
      (cs : List (Command Name)) (c : Command Name) (server : Kind → List Name)
      → served_all (cs ++ c ∷ []) server ≡ served c (served_all cs server)
  unfolding served_all
  served_all-append [] c server = refl
  served_all-append (d ∷ cs) c server = served_all-append cs c (served d server)

-- No name.
abbrev pub nothing : {Name : Type 0} → Kind → List Name
nothing k = []

every_kind :
    (k : Kind) (b : Bool)
    → (((false || (same_kind channel k && b)) || (same_kind pattern k && b))
        || (same_kind shard_channel k && b))
      ≡ b
every_kind channel b = ground arith
every_kind pattern b = ground arith
every_kind shard_channel b = ground arith

or_self : (b : Bool) → (b || b) ≡ b
or_self true = refl
or_self false = refl

module _ {Name Handler : Type 0} ⦃e : Eq Name⦄ where
  table-same_kind :
      (j k : Kind) (s : PubSub Name Handler) → same_kind j k ≡ true → table j s ≡ table k s
  table-same_kind channel channel s h = refl
  table-same_kind pattern pattern s h = refl
  table-same_kind shard_channel shard_channel s h = refl
  table-same_kind channel pattern s h = cc
  table-same_kind channel shard_channel s h = cc
  table-same_kind pattern channel s h = cc
  table-same_kind pattern shard_channel s h = cc
  table-same_kind shard_channel channel s h = cc
  table-same_kind shard_channel pattern s h = cc

  -- How the client and the server stand on a name of one kind.
  abbrev has_on : Kind → Name → PubSub Name Handler → Bool
  has_on k a s = has_name a (table k s).names

  abbrev is_pending_on : Kind → Name → PubSub Name Handler → Bool
  is_pending_on k a s = is_in a (table k s).pending

  abbrev is_served_on : Kind → Name → PubSub Name Handler → Bool
  is_served_on k a s = is_in a (served_all s.sent nothing k)

  has_on-empty :
      (j k : Kind) (a : Name) (s : PubSub Name Handler)
      → is_empty (table j s).names ≡ true
      → (same_kind j k && has_on k a s) ≡ false
  has_on-empty j k a s h = elim (Bool-cases (same_kind j k)) [
    | inl q ↦ rw q (rw (← table-same_kind j k s q) (is_empty-has_name a (table j s).names h))
    | inr q ↦ rw q refl
  ]

  -- The names of one kind are subscribed to again, and nothing else changes.
  record Resubscribed (j k : Kind) (a : Name) (s s' : PubSub Name Handler) : Type 0 where
    has : has_on k a s' ≡ has_on k a s
    calm : is_pending_on k a s ≡ false → is_pending_on k a s' ≡ false
    served : is_served_on k a s' ≡ (is_served_on k a s || (same_kind j k && has_on k a s))

  resubscribe-ok : (j : Kind) (s : PubSub Name Handler) → (resubscribe j (ok tt) s).0 ≡ ok tt
  unfolding subscribe_to execute_command
  resubscribe-ok j s = elim (Bool-cases (is_empty (table j s).names)) [
    | inl q ↦ rw q refl
    | inr q ↦ rw q refl
  ]

  subscribed_again :
      (j k : Kind) (a : Name) (s : PubSub Name Handler)
      → Resubscribed j k a s (run (subscribes j (table j s).names) (ok tt) s).1
  subscribed_again j k a s =
      let new = (table j s).names in
      let (t, q) = run-table k (subscribes j new) s in
      elim (Bool-cases (same_kind j k)) [
        | inl r ↦ record {
          has =
              rw
                (
                  t,
                  r,
                  has_name-updated a new (table k s).names,
                  is_in-keys a new,
                  table-same_kind j k s r,
                )
                (or_self (has_on k a s));
          calm = λ h. rw (t, r, is_in-without_names a (keys new) (table k s).pending, h) refl;
          served =
              rw
                (
                  q,
                  served_all-append s.sent (subscribe j (keys new)) nothing,
                  r,
                  is_in-append a (served_all s.sent nothing k) (keys new),
                  is_in-keys a new,
                  table-same_kind j k s r,
                )
                refl;
        }
        | inr r ↦ record {
          has = rw (t, r) refl;
          calm = λ h. rw (t, r) h;
          served =
              rw
                (
                  q,
                  served_all-append s.sent (subscribe j (keys new)) nothing,
                  r,
                  or_false (is_served_on k a s),
                )
                refl;
        }
      ]

  resubscribe-Resubscribed :
      (j k : Kind) (a : Name) (s : PubSub Name Handler)
      → Resubscribed j k a s (resubscribe j (ok tt) s).1
  unfolding run
  resubscribe-Resubscribed j k a s = elim (Bool-cases (is_empty (table j s).names)) [
    | inl q ↦ rw q (record {
      has = refl;
      calm = λ h. h;
      served = rw (has_on-empty j k a s q) (sym (or_false (is_served_on k a s)));
    })
    | inr q ↦ rw q (subscribed_again j k a s)
  ]

  forgotten-table :
      (k : Kind) (a : Name) (s : PubSub Name Handler)
      → (has_on k a (forgotten s) ≡ has_on k a s) × (is_pending_on k a (forgotten s) ≡ false)
  unfolding forgotten
  forgotten-table channel a s = (refl, refl)
  forgotten-table pattern a s = (refl, refl)
  forgotten-table shard_channel a s = (refl, refl)

  on_connect-resubscribe :
      (s : PubSub Name Handler)
      → (on_connect (ok tt) (ok tt) (ok tt) s).1
        ≡ (resubscribe shard_channel
            (ok tt)
            (resubscribe pattern (ok tt) (resubscribe channel (ok tt) (forgotten s)).1).1).1
  unfolding on_connect
  on_connect-resubscribe s =
      rw
        (
          resubscribe-ok channel (forgotten s),
          resubscribe-ok pattern (resubscribe channel (ok tt) (forgotten s)).1,
        )
        refl

  three_kinds :
      (k : Kind) (a : Name) (s0 s1 s2 s3 : PubSub Name Handler)
      → Resubscribed channel k a s0 s1
      → Resubscribed pattern k a s1 s2
      → Resubscribed shard_channel k a s2 s3
      → is_served_on k a s0 ≡ false
      → is_served_on k a s3 ≡ has_on k a s3
  three_kinds k a s0 s1 s2 s3 r1 r2 r3 z =
      let h = r2.has ∙ r1.has in
      r3.served
      ∙ ap (λ b. b || (same_kind shard_channel k && has_on k a s2)) r2.served
      ∙ ap
          (λ b.
            (b || (same_kind pattern k && has_on k a s1))
            || (same_kind shard_channel k && has_on k a s2))
          r1.served
      ∙ ap
          (λ b.
            ((b || (same_kind channel k && has_on k a s0))
              || (same_kind pattern k && has_on k a s1))
            || (same_kind shard_channel k && has_on k a s2))
          z
      ∙ ap
          (λ b.
            ((false || (same_kind channel k && has_on k a s0)) || (same_kind pattern k && b))
            || (same_kind shard_channel k && has_on k a s2))
          r1.has
      ∙ ap
          (λ b.
            ((false || (same_kind channel k && has_on k a s0))
              || (same_kind pattern k && has_on k a s0))
            || (same_kind shard_channel k && b))
          h
      ∙ every_kind k (has_on k a s0)
      ∙ sym (r3.has ∙ h)

  -- A new connection: the server has every name of the tables, and none is pending.
  pub reconnected-names :
      (k : Kind) (a : Name) (s : PubSub Name Handler)
      → s.sent ≡ []
      → (is_served_on k a (reconnected s) ≡ has_on k a (reconnected s))
        × (is_pending_on k a (reconnected s) ≡ false)
  unfolding reconnected forgotten served_all
  reconnected-names k a s h =
      let s0 = forgotten s in
      let s1 = (resubscribe channel (ok tt) s0).1 in
      let s2 = (resubscribe pattern (ok tt) s1).1 in
      let r1 = resubscribe-Resubscribed channel k a s0 in
      let r2 = resubscribe-Resubscribed pattern k a s1 in
      let r3 = resubscribe-Resubscribed shard_channel k a s2 in
      rw (on_connect-resubscribe s) (
        three_kinds k a s0 s1 s2 (resubscribe shard_channel (ok tt) s2).1 r1 r2 r3 (rw h refl),
        r3.calm (r2.calm (r1.calm (forgotten-table k a s).1)),
      )
