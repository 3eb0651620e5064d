-- ===== src/Pipeline/State.antt =====
-- redis/client.py: the state of a `Pipeline`, its `reset`, and how it reads a reply.
use redis_py.Common.{
  ℕ, Bool, true, false, ◌&&◌, ◌||◌, Option, none, some, List, [], ◌∷◌, String, if◌then◌else◌,
}
use redis_py.Common.Outcome.{Result, ok, err, Action}

-- The names that the pipeline looks at; `placeholder` is the "_" that stands for any name.
pub data Name : Type 0 where
  watch unwatch discard exec placeholder script_exists script_load : Name
  other : String → Name

-- What a read can raise.
pub data ReadError : Type 0 where
  connection_error timeout_error : ReadError
  response_error exec_abort_error : String → ReadError

-- `annotated` holds the number and the arguments of the command that caused the error.
pub data PipelineError : Type 0 where
  raised : ReadError → PipelineError
  annotated : ℕ → List String → PipelineError → PipelineError
  wrong_number watch_error redis_error type_error : PipelineError

pub record Command (Value : Type 0) : Type 0 where
  pub name : Name
  pub args : List String
  pub empty_response : Option Value

pub record Script : Type 0 where
  pub sha : String
  pub script : String

-- `is_watched` says that the server may hold a watch for the connection, and `is_leaked` that a
-- connection went back to the pool with one: they are no fields of the source. A staged command that
-- is no WATCH may end a watch at the server, which is not noticed, but begins none.
pub record Pipeline (Value : Type 0) : Type 0 where
  pub command_stack : List (Command Value)
  pub scripts : List Script
  pub watching : Bool
  pub explicit_transaction : Bool
  pub has_connection : Bool
  pub incoming : List (Result ReadError Value)
  pub is_watched : Bool
  pub is_leaked : Bool

-- What the server's replies are, and the options of the client.
pub record Settings (Value : Type 0) : Type 0 where
  pub transaction : Bool
  pub response_callbacks : Name → Value → Value
  pub is_none : Value → Bool
  pub items : Value → List (Result PipelineError Value)
  pub truths : Value → List Bool
  pub to_sha : Value → String
  pub retry_on_error : PipelineError → Bool
  pub retries : ℕ

-- One attempt: what the send gives, the replies that follow, and what UNWATCH gives in a `reset`.
pub record Wire (Value : Type 0) : Type 0 where
  pub send : Result ReadError (Unit {0})
  pub replies : List (Result ReadError Value)
  pub unwatched : Result ReadError (Unit {0})

-- `get_connection`, and the attempts of one call.
pub record Session (Value : Type 0) : Type 0 where
  pub lease : Result ReadError (Unit {0})
  pub wires : ℕ → Wire Value

-- `isinstance(e, ResponseError)`
abbrev pub is_response_error : PipelineError → Bool
is_response_error (raised connection_error) = false
is_response_error (raised timeout_error) = false
is_response_error (raised (response_error m)) = true
is_response_error (raised (exec_abort_error m)) = true
is_response_error (annotated n args e) = is_response_error e
is_response_error wrong_number = true
is_response_error watch_error = false
is_response_error redis_error = false
is_response_error type_error = false

abbrev pub from_read : {A : Type 0} → Result ReadError A → Result PipelineError A
from_read (ok a) = ok a
from_read (err e) = err (raised e)

module _ {Value : Type 0} where
  -- `connection.disconnect()`: the server forgets the watch.
  abbrev pub disconnected : Pipeline Value → Pipeline Value
  disconnected s = record s { is_watched = false }

  -- `if self.connection:` it goes back to the pool.
  abbrev pub released_if : Bool → Pipeline Value → Pipeline Value
  released_if true s = record s {
    has_connection = false;
    is_leaked = s.is_leaked || s.is_watched;
    is_watched = false;
  }
  released_if false s = s

  abbrev pub cleaned : Pipeline Value → Pipeline Value
  cleaned s =
      released_if s.has_connection (record s { watching = false; explicit_transaction = false })

  -- The UNWATCH of a `reset`, sent where something is watched.
  abbrev pub unwatched_if :
      Bool → Result ReadError (Unit {0}) → Action PipelineError (Pipeline Value) (Unit {0})
  unwatched_if false io s = (ok tt, cleaned s)
  unwatched_if true (ok _) s = (ok tt, cleaned (record s { is_watched = false }))
  unwatched_if true (err connection_error) s = (ok tt, cleaned (disconnected s))
  unwatched_if true (err timeout_error) s = (err (raised timeout_error), s)
  unwatched_if true (err (response_error m)) s = (err (raised (response_error m)), s)
  unwatched_if true (err (exec_abort_error m)) s = (err (raised (exec_abort_error m)), s)

  unfoldable pub reset :
      Result ReadError (Unit {0}) → Action PipelineError (Pipeline Value) (Unit {0})
  reset io s =
      unwatched_if (s.watching && s.has_connection) io
        (record s { command_stack = []; scripts = [] })

  abbrev pub taken : List (Result ReadError Value) → Action PipelineError (Pipeline Value) Value
  taken [] s = (err (raised connection_error), s)
  taken (r ∷ rest) s = (from_read r, record s { incoming = rest })

  abbrev pub read_response : Action PipelineError (Pipeline Value) Value
  read_response s = taken s.incoming s

  -- `Redis.parse_response`
  abbrev pub parsed :
      Settings Value → Name → Option Value → Result PipelineError Value → Result PipelineError Value
  parsed c name empty (ok v) = ok (c.response_callbacks name v)
  parsed c name none (err e) = err e
  parsed c name (some v) (err e) = if is_response_error e then ok v else err e

  -- A reply to UNWATCH, EXEC or DISCARD ends the watch, one to WATCH begins it. Where a WATCH got no
  -- reply the server may hold the watch.
  abbrev pub answered : Name → Pipeline Value → Pipeline Value
  answered watch s = record s { watching = true; is_watched = true }
  answered unwatch s = record s { watching = false; is_watched = false }
  answered discard s = record s { watching = false; is_watched = false }
  answered exec s = record s { watching = false; is_watched = false }
  answered placeholder s = s
  answered script_exists s = s
  answered script_load s = s
  answered (other n) s = s

  abbrev pub unanswered : Name → Bool → Pipeline Value → Pipeline Value
  unanswered watch false s = record s { is_watched = true }
  unanswered watch true s = s
  unanswered unwatch b s = s
  unanswered discard b s = s
  unanswered exec b s = s
  unanswered placeholder b s = s
  unanswered script_exists b s = s
  unanswered script_load b s = s
  unanswered (other n) b s = s

  abbrev pub noticed :
      Name → Result PipelineError Value → Action PipelineError (Pipeline Value) Value
  noticed name (ok v) s = (ok v, answered name s)
  noticed name (err e) s = (err e, unanswered name (is_response_error e) s)

  unfoldable pub parse_response :
      Settings Value → Name → Option Value → Action PipelineError (Pipeline Value) Value
  parse_response c name empty s =
      let (r, t) = read_response s in noticed name (parsed c name empty r) t

  -- `connection.send_command` and `send_packed_command`
  abbrev pub sent : Wire Value → Action PipelineError (Pipeline Value) (Unit {0})
  sent w s = (from_read w.send, record s { incoming = w.replies })

  -- `if not conn:` one is taken from the pool.
  abbrev pub leased :
      Bool → Result ReadError (Unit {0}) → Action PipelineError (Pipeline Value) (Unit {0})
  leased true io s = (ok tt, s)
  leased false (ok _) s = (ok tt, record s { has_connection = true })
  leased false (err e) s = (err (raised e), s)

  unfoldable pub connect :
      Result ReadError (Unit {0}) → Action PipelineError (Pipeline Value) (Unit {0})
  connect io s = leased s.has_connection io s
