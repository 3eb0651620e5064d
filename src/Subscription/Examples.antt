-- ===== src/Subscription/Examples.antt =====
-- A `PubSub` that subscribes to two channels, unsubscribes from one, loses the connection and comes back.
use redis_py.Common.OrderedDict.{put, get}
use redis_py.Subscription.Server.{
  World, Call, Steps, calls, fails, receives, reconnects, start, next, subscribes, unsubscribes,
  exchange, reconnected, run, answers_all,
}
use redis_py.Subscription.Server.Agreement.{opened, Steps-has_name}
use redis_py.Subscription.Client.{
  Response, channel, connection_error, subscribed, unsubscribed, table, handle_message, on_connect,
  forgotten, unsubscribe_from, execute_command, subscribe_to, registered, updated, confirmed,
  without_names, popped,
}
use redis_py.Subscription.Tables.{has_name}
use redis_py.Common.{ℕ, none, ◌≡◌, refl, false, List, [], ◌∷◌}
use redis_py.Common.Outcome.{ok, err}
use redis_py.Common.Equality.{ℕ_Eq, is_in}
use redis_py.Subscription.Server.{over_again}

abbrev two : Call ℕ ℕ
two = subscribes channel ((1, none) ∷ (2, none) ∷ [])

abbrev first : Call ℕ ℕ
first = unsubscribes channel (1 ∷ [])

abbrev after : Call ℕ ℕ → World ℕ ℕ → World ℕ ℕ
after c w = exchange (λ s. (run c (ok tt) s).1) w

abbrev dropped : Call ℕ ℕ → World ℕ ℕ → World ℕ ℕ
dropped c w = record w { client = (run c (err connection_error) w.client).1; is_live = false }

abbrev back : World ℕ ℕ → World ℕ ℕ
back w = exchange reconnected (record w { server = λ k. []; in_flight = [] })

abbrev read : Response ℕ → List (Response ℕ) → World ℕ ℕ → World ℕ ℕ
read r rest w = record w { client = (handle_message false r w.client).1; in_flight = rest }

abbrev came_back : World ℕ ℕ
came_back = back (dropped first (after two opened))

abbrev settled : World ℕ ℕ
settled = read (unsubscribed channel 1) [] (
    read (subscribed channel 2) (unsubscribed channel 1 ∷ []) (
      read (subscribed channel 1) (subscribed channel 2 ∷ unsubscribed channel 1 ∷ [])
        (after first came_back)))

came_back-Steps : Steps opened came_back
unfolding over_again exchange
came_back-Steps =
    next
      (next (next (start opened) (calls two opened refl))
        (fails first connection_error (after two opened)))
      (reconnects (dropped first (after two opened)))

settled-Steps : Steps opened settled
unfolding exchange answers_all reconnected on_connect forgotten run unsubscribe_from execute_command
    subscribe_to registered updated put
settled-Steps =
    next
      (next
        (next (next came_back-Steps (calls first came_back refl)) (
          receives false (subscribed channel 1) (subscribed channel 2 ∷ unsubscribed channel 1 ∷ [])
            (after first came_back) refl))
        (receives false (subscribed channel 2) (unsubscribed channel 1 ∷ [])
          (read (subscribed channel 1) (subscribed channel 2 ∷ unsubscribed channel 1 ∷ [])
            (after first came_back))
          refl))
      (receives false (unsubscribed channel 1) []
        (read (subscribed channel 2) (unsubscribed channel 1 ∷ []) (
          read (subscribed channel 1) (subscribed channel 2 ∷ unsubscribed channel 1 ∷ [])
            (after first came_back)))
        refl)

settled_left : has_name 1 (table channel settled.client).names ≡ false
unfolding get handle_message confirmed exchange run unsubscribe_from execute_command reconnected
    on_connect forgotten subscribe_to registered updated put without_names popped
settled_left = refl

Steps-has_name_example :
    is_in 2 (settled.server channel) ≡ has_name 2 (table channel settled.client).names
unfolding exchange
Steps-has_name_example = Steps-has_name settled-Steps refl refl channel 2
