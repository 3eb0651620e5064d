-- ===== src/Subscription/Server.antt =====
-- redis/client.py: a `PubSub` and the server that confirms its commands, later and in order.
use redis_py.Subscription.Client.{
  Kind, Command, Response, PubSubError, PubSub, without_names, subscribe_to, unsubscribe_from,
  on_connect, handle_message, channel, pattern, shard_channel, subscribe, unsubscribe, subscribed,
  unsubscribed,
}
pub mod Calls
pub mod Deliveries
pub mod Reconnection
pub mod Agreement
use redis_py.Common.{
  ◌≡◌, Bool, true, false, not, ◌||◌, ◌&&◌, Option, List, [], ◌∷◌, ◌++◌, map, if◌then◌else◌,
}
use redis_py.Common.Equality.{Eq, ◌==◌}
use redis_py.Common.OrderedDict.{Dict}
use redis_py.Common.Outcome.{Result, ok, err, Action}

abbrev pub same_kind : Kind → Kind → Bool
same_kind channel channel = true
same_kind pattern pattern = true
same_kind shard_channel shard_channel = true
same_kind j k = false

module _ {Name : Type 0} ⦃e : Eq Name⦄ where
  -- What the server is subscribed to after a command, by kind.
  abbrev pub served : Command Name → (Kind → List Name) → Kind → List Name
  served (subscribe k names) server j = if same_kind k j then server j ++ names else server j
  served (unsubscribe k []) server j = if same_kind k j then [] else server j
  served (unsubscribe k (n ∷ names)) server j =
      if same_kind k j then without_names (n ∷ names) (server j) else server j

  -- One confirmation for each name of a command; an unsubscription from all confirms every name.
  abbrev pub answers : Command Name → (Kind → List Name) → List (Response Name)
  answers (subscribe k names) server = map (subscribed k) names
  answers (unsubscribe k []) server = map (unsubscribed k) (server k)
  answers (unsubscribe k (n ∷ names)) server = map (unsubscribed k) (n ∷ names)

  unfoldable pub served_all : List (Command Name) → (Kind → List Name) → Kind → List Name
  served_all [] server = server
  served_all (c ∷ cs) server = served_all cs (served c server)

  unfoldable pub answers_all : List (Command Name) → (Kind → List Name) → List (Response Name)
  answers_all [] server = []
  answers_all (c ∷ cs) server = answers c server ++ answers_all cs (served c server)

  -- A confirmation of the name's unsubscription is on its way.
  abbrev pub awaited : Kind → Name → List (Response Name) → Bool
  awaited k a [] = false
  awaited k a (unsubscribed j b ∷ rest) = same_kind j k && (b == a) || awaited k a rest
  awaited k a (r ∷ rest) = awaited k a rest

-- `is_live` is false after a command that the socket did not take, until the reconnection.
pub record World (Name Handler : Type 0) : Type 0 where
  pub client : PubSub Name Handler
  pub server : Kind → List Name
  pub in_flight : List (Response Name)
  pub is_live : Bool

pub data Call (Name Handler : Type 0) : Type 0 where
  subscribes : Kind → Dict Name (Option Handler) → Call Name Handler
  unsubscribes : Kind → List Name → Call Name Handler

-- A name that the server has is in the client's table and not pending; one that it has not is not
-- in the table, or pending with its confirmation on the way.
abbrev pub agrees : Bool → Bool → Bool → Bool → Bool
agrees true has pending coming = has && not pending
agrees false has pending coming = not has || pending && coming

module _ {Name Handler : Type 0} ⦃e : Eq Name⦄ where
  unfoldable pub run :
      Call Name Handler
      → Result PubSubError (Unit {0})
      → Action PubSubError (PubSub Name Handler) (Unit {0})
  run (subscribes k new) io = subscribe_to k new io
  run (unsubscribes k names) io = unsubscribe_from k names io

  -- The commands that the client sends reach the server, which answers them in order.
  unfoldable pub exchange :
      (PubSub Name Handler → PubSub Name Handler) → World Name Handler → World Name Handler
  exchange f w =
      let c = f (record w.client { sent = [] }) in
      record {
        client = c;
        server = served_all c.sent w.server;
        in_flight = w.in_flight ++ answers_all c.sent w.server;
        is_live = true;
      }

  unfoldable pub reconnected : PubSub Name Handler → PubSub Name Handler
  reconnected s = (on_connect (ok tt) (ok tt) (ok tt) s).1

  -- the server forgets a connection that is lost, and `on_connect` subscribes again
  unfoldable pub over_again : World Name Handler → World Name Handler
  over_again w = exchange reconnected (record w { server = λ k. []; in_flight = [] })

  -- `calls` is a command that the socket takes at once, `fails` one that raises, and `resends` a
  -- subscription whose send loses the connection: `_execute` connects and sends it a second time, and the
  -- tables change after that. The second send of an unsubscription is left out.
  pub data Step : World Name Handler → World Name Handler → Type 0 where
    calls :
        (c : Call Name Handler) (w : World Name Handler)
        → w.is_live ≡ true
        → Step w (exchange (λ s. (run c (ok tt) s).1) w)
    fails :
        (c : Call Name Handler) (x : PubSubError) (w : World Name Handler)
        → Step w (record w { client = (run c (err x) w.client).1; is_live = false })
    receives :
        (ignore : Bool) (r : Response Name) (rest : List (Response Name)) (w : World Name Handler)
        → w.in_flight ≡ r ∷ rest
        → Step w (record w { client = (handle_message ignore r w.client).1; in_flight = rest })
    reconnects : (w : World Name Handler) → Step w (over_again w)
    resends :
        (k : Kind) (new : Dict Name (Option Handler)) (w : World Name Handler)
        → Step w (exchange (λ s. (run (subscribes k new) (ok tt) s).1) (over_again w))

  pub data Steps : World Name Handler → World Name Handler → Type 0 where
    start : (w : World Name Handler) → Steps w w
    next : {w v x : World Name Handler} → Steps w v → Step v x → Steps w x
