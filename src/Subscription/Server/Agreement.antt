-- ===== src/Subscription/Server/Agreement.antt =====
-- redis/client.py: a `PubSub` and its server after any sequence of calls, failures, receptions and reconnections.
use redis_py.Subscription.Client.{Kind, empty_table, table, channel, pattern, shard_channel}
use redis_py.Common.Equality.{Eq, is_in}
use redis_py.Common.{◌≡◌, refl, subst, Bool, true, false, [], arith}
use redis_py.Subscription.Server.Deliveries.{receive-agrees}
use redis_py.Subscription.Server.Calls.{agrees_on, exchange-call}
use redis_py.Subscription.Server.Reconnection.{reconnected-names}
use redis_py.Subscription.Server.{
  World, Step, Steps, agrees, exchange, awaited, calls, start, fails, next, receives, reconnects,
  resends, over_again, subscribes,
}
use redis_py.Subscription.Tables.{has_name}
use redis_py.Common.OrderedDict.{get}

module _ {Name Handler : Type 0} where
  -- A `PubSub` that is new, and a server that knows nothing of it.
  abbrev pub opened : World Name Handler
  opened = record {
    client = record {
      channels = empty_table;
      patterns = empty_table;
      shard_channels = empty_table;
      is_subscribed = false;
      health_check_response_counter = 0;
      has_connection = false;
      sent = [];
    };
    server = λ k. [];
    in_flight = [];
    is_live = true;
  }

agrees-same : (b coming : Bool) → agrees b b false coming ≡ true
agrees-same true coming = refl
agrees-same false coming = refl

agrees-settled : (b has pending : Bool) → agrees b has pending false ≡ true → b ≡ has
agrees-settled b has pending h = ground arith

module _ {Name : Type 0} ⦃e : Eq Name⦄ (Handler : Type 0) where
  opened-agrees :
      (k : Kind) (a : Name) → agrees_on k a (opened {Name = Name} {Handler = Handler}) ≡ true
  unfolding get
  opened-agrees channel a = refl
  opened-agrees pattern a = refl
  opened-agrees shard_channel a = refl

module _ {Name Handler : Type 0} ⦃e : Eq Name⦄ where
  reconnects-agrees :
      (k : Kind) (a : Name) (w : World Name Handler) → agrees_on k a (over_again w) ≡ true
  unfolding exchange over_again
  reconnects-agrees k a w =
      let (p, q) = reconnected-names k a (record w.client { sent = [] }) refl in
      rw (p, q) (agrees-same _ _)

  Step-agrees :
      (k : Kind) (a : Name) {w v : World Name Handler}
      → Step w v
      → (w.is_live ≡ true → agrees_on k a w ≡ true)
      → v.is_live ≡ true
      → agrees_on k a v ≡ true
  Step-agrees k a (calls c w live) h l = exchange-call k a c w (h live)
  Step-agrees k a (fails c x w) h l = cc
  Step-agrees k a (receives ignore r rest w q) h l = receive-agrees k a ignore r rest w q (h l)
  Step-agrees k a (reconnects w) h l = reconnects-agrees k a w
  Step-agrees k a (resends j new w) h l =
      exchange-call k a (subscribes j new) (over_again w) (reconnects-agrees k a w)

  Steps-agrees :
      (k : Kind) (a : Name) {w v : World Name Handler}
      → Steps w v
      → (w.is_live ≡ true → agrees_on k a w ≡ true)
      → v.is_live ≡ true
      → agrees_on k a v ≡ true
  Steps-agrees k a (start w) h = h
  Steps-agrees k a (next steps step) h = Step-agrees k a step (Steps-agrees k a steps h)

  pub Steps-has_name :
      {w : World Name Handler}
      → Steps opened w
      → w.is_live ≡ true
      → w.in_flight ≡ []
      → (k : Kind) (a : Name) → is_in a (w.server k) ≡ has_name a (table k w.client).names
  Steps-has_name {w} steps live q k a =
      let h = Steps-agrees k a steps (λ l. opened-agrees Handler k a) live in
      agrees-settled (is_in a (w.server k)) (has_name a (table k w.client).names)
        (is_in a (table k w.client).pending)
        (subst
          (λ f.
            agrees (is_in a (w.server k)) (has_name a (table k w.client).names)
              (is_in a (table k w.client).pending) (awaited k a f)
            ≡ true)
          q h)
