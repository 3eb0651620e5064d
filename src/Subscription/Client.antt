-- ===== src/Subscription/Client.antt =====
-- redis/client.py: `PubSub`, its tables of channels, patterns and shard channels. What the socket makes of
-- a command is an argument; names are normalized. A dictionary is a list of pairs, a set a list.
use redis_py.Common.{
  ℕ, Bool, true, false, ◌&&◌, Option, none, some, List, [], ◌∷◌, ◌++◌, if◌then◌else◌,
}
use redis_py.Common.Equality.{Eq, ◌==◌, is_in}
use redis_py.Common.OrderedDict
use redis_py.Common.OrderedDict.{Dict, put, keys}
use redis_py.Common.Outcome.{Result, ok, err, Action, ◌>>◌}

pub data Kind : Type 0 where
  channel pattern shard_channel : Kind

-- A command that was sent, with its names; an unsubscription without names is one from all.
pub data Command (Name : Type 0) : Type 0 where
  subscribe unsubscribe : Kind → List Name → Command Name

-- What the server pushes: a publication, a confirmation, or the answer to a ping.
pub data Response (Name : Type 0) : Type 0 where
  message : Kind → Name → Response Name
  subscribed unsubscribed : Kind → Name → Response Name
  pong : Response Name

pub data PubSubError : Type 0 where
  connection_error pub_sub_error : PubSubError

-- The names of one kind with their handlers, and those whose unsubscription is not confirmed yet.
pub record Table (Name Handler : Type 0) : Type 0 where
  pub names : Dict Name (Option Handler)
  pub pending : List Name

pub record PubSub (Name Handler : Type 0) : Type 0 where
  pub channels : Table Name Handler
  pub patterns : Table Name Handler
  pub shard_channels : Table Name Handler
  pub is_subscribed : Bool
  pub health_check_response_counter : ℕ
  pub has_connection : Bool
  pub sent : List (Command Name)

-- What `handle_message` answers: nothing, nothing after a handler has run, or the message.
pub data Handled (Name Handler : Type 0) : Type 0 where
  ignored : Handled Name Handler
  invoked : Handler → Response Name → Handled Name Handler
  returned : Response Name → Handled Name Handler

abbrev pub is_empty {ℓ} : {A : Type ℓ} → List A → Bool
is_empty [] = true
is_empty (x ∷ xs) = false

module _ {Name : Type 0} ⦃e : Eq Name⦄ where
  -- `s.difference_update(names)`, and `s.remove(k)` for one name
  unfoldable pub without_names : List Name → List Name → List Name
  without_names names [] = []
  without_names names (x ∷ xs) =
      let rest = without_names names xs in if is_in x names then rest else x ∷ rest

module _ {Name Handler : Type 0} where
  abbrev pub empty_table : Table Name Handler
  empty_table = record { names = []; pending = [] }

  abbrev pub table : Kind → PubSub Name Handler → Table Name Handler
  table channel s = s.channels
  table pattern s = s.patterns
  table shard_channel s = s.shard_channels

  abbrev pub with_table : Kind → Table Name Handler → PubSub Name Handler → PubSub Name Handler
  with_table channel t s = record s { channels = t }
  with_table pattern t s = record s { patterns = t }
  with_table shard_channel t s = record s { shard_channels = t }

  unfoldable pub reset : PubSub Name Handler → PubSub Name Handler
  reset s = record s {
    channels = empty_table;
    patterns = empty_table;
    shard_channels = empty_table;
    is_subscribed = false;
    health_check_response_counter = 0;
    has_connection = false;
  }

  -- `execute_command`, where the socket took the command or raised
  unfoldable pub execute_command :
      Command Name
      → Result PubSubError (Unit {0})
      → Action PubSubError (PubSub Name Handler) (Unit {0})
  execute_command command (ok _) s =
      (ok tt, record s { has_connection = true; sent = s.sent ++ command ∷ [] })
  execute_command command (err e) s = (err e, record s { has_connection = true })

  -- `not self.channels and not self.patterns and not self.shard_channels`
  abbrev pub has_no_names : PubSub Name Handler → Bool
  has_no_names s =
      is_empty s.channels.names && (is_empty s.patterns.names && is_empty s.shard_channels.names)

module _ {Name Handler : Type 0} ⦃e : Eq Name⦄ where
  -- `d.update(new)`
  unfoldable pub updated :
      Dict Name (Option Handler) → Dict Name (Option Handler) → Dict Name (Option Handler)
  updated [] d = d
  updated ((k, v) ∷ new) d = updated new (put k v d)

  -- `d.pop(k, None)`
  unfoldable pub popped : Name → Dict Name (Option Handler) → Dict Name (Option Handler)
  popped k [] = []
  popped k ((j, v) ∷ d) = if j == k then popped k d else (j, v) ∷ popped k d

  abbrev pub registered_in : Dict Name (Option Handler) → Table Name Handler → Table Name Handler
  registered_in new t = record {
    names = updated new t.names;
    pending = without_names (keys new) t.pending;
  }

  -- `if not self.subscribed:` the event is set, and the counter cleared
  abbrev pub set_subscribed : Bool → PubSub Name Handler → PubSub Name Handler
  set_subscribed true s = s
  set_subscribed false s = record s { is_subscribed = true; health_check_response_counter = 0 }

  -- The tables change after the command is sent.
  unfoldable pub registered :
      Kind → Dict Name (Option Handler) → PubSub Name Handler → PubSub Name Handler
  registered k new s =
      set_subscribed s.is_subscribed (with_table k (registered_in new (table k s)) s)

  unfoldable pub subscribe_to :
      Kind
      → Dict Name (Option Handler)
      → Result PubSubError (Unit {0})
      → Action PubSubError (PubSub Name Handler) (Unit {0})
  subscribe_to k new io = do
    execute_command (subscribe k (keys new)) io
    λ s. (ok tt, registered k new s)

  abbrev pub names_or_all : List Name → Table Name Handler → List Name
  names_or_all [] t = keys t.names
  names_or_all (x ∷ xs) t = x ∷ xs

  -- The names are pending before the command is sent; no names stand for all.
  abbrev pub marked_in : List Name → Table Name Handler → Table Name Handler
  marked_in names t = record t { pending = t.pending ++ names_or_all names t }

  unfoldable pub unsubscribe_from :
      Kind
      → List Name
      → Result PubSubError (Unit {0})
      → Action PubSubError (PubSub Name Handler) (Unit {0})
  unsubscribe_from k names io s =
      execute_command (unsubscribe k names) io (with_table k (marked_in names (table k s)) s)

  -- After a reconnection: nothing is pending, and every kind that has names is subscribed to again.
  unfoldable pub forgotten : PubSub Name Handler → PubSub Name Handler
  forgotten s = record s {
    channels = record { names = s.channels.names; pending = [] };
    patterns = record { names = s.patterns.names; pending = [] };
    shard_channels = record { names = s.shard_channels.names; pending = [] };
  }

  abbrev pub resubscribe :
      Kind → Result PubSubError (Unit {0}) → Action PubSubError (PubSub Name Handler) (Unit {0})
  resubscribe k io s =
      if is_empty (table k s).names then (ok tt, s) else subscribe_to k (table k s).names io s

  unfoldable pub on_connect :
      Result PubSubError (Unit {0})
      → Result PubSubError (Unit {0})
      → Result PubSubError (Unit {0})
      → Action PubSubError (PubSub Name Handler) (Unit {0})
  on_connect io io' io'' = do
    λ s. (ok tt, forgotten s)
    resubscribe channel io
    resubscribe pattern io'
    resubscribe shard_channel io''

  -- An unsubscription that is confirmed, of a name that waits for it.
  abbrev pub confirmed_in : Name → Table Name Handler → Table Name Handler
  confirmed_in name t =
      if is_in name t.pending
      then record { names = popped name t.names; pending = without_names (name ∷ []) t.pending }
      else t

  unfoldable pub confirmed : Kind → Name → PubSub Name Handler → PubSub Name Handler
  confirmed k name s = with_table k (confirmed_in name (table k s)) s

  -- `self.subscribed_event.clear()` where no names are left
  abbrev pub cleared_if : Bool → PubSub Name Handler → PubSub Name Handler
  cleared_if true s = record s { is_subscribed = false }
  cleared_if false s = s

  -- `self.channels.get(name, None)`: no entry and no handler are the same.
  abbrev handled : Option (Option Handler) → Response Name → Handled Name Handler
  handled (some (some h)) r = invoked h r
  handled (some none) r = returned r
  handled none r = returned r

  unfoldable pub handle_message :
      Bool → Response Name → PubSub Name Handler → Handled Name Handler × PubSub Name Handler
  handle_message ignore (message k name) s =
      (handled (OrderedDict.get name (table k s).names) (message k name), s)
  handle_message ignore (subscribed k name) s =
      ((if ignore then ignored else returned (subscribed k name)), s)
  handle_message ignore (unsubscribed k name) s = (
    (if ignore then ignored else returned (unsubscribed k name)),
    let s' = confirmed k name s in cleared_if (has_no_names s') s',
  )
  handle_message ignore pong s = (returned pong, s)
