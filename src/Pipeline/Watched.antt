-- ===== src/Pipeline/Watched.antt =====
-- redis/client.py: what the server watches for the connection of a `Pipeline`, through every method.
use redis_py.Common.{
  ◌≡◌, refl, Bool, true, false, not, ◌&&◌, ◌||◌, Bool-cases, Option, none, some, List, [], ◌∷◌, inl,
  inr, arith, if◌then◌else◌,
}
use redis_py.Common.Outcome.{Result, ok, err, Action, ◌>>=◌, continue}
use redis_py.Pipeline.State.{
  Name, PipelineError, ReadError, Pipeline, Settings, raised, annotated, wrong_number, watch_error,
  redis_error, type_error, response_error, exec_abort_error, connection_error, timeout_error,
  is_response_error, disconnected, cleaned, unwatched_if, reset, parse_response, noticed, parsed,
  answered, unanswered, from_read, watch, unwatch, discard, exec, placeholder, script_exists,
  script_load, other, taken,
}
use redis_py.Pipeline.Calls.{is_lost}

-- Nothing is leaked, and where the server may watch, the client watches, on the connection it has.
abbrev pub safe : Bool → Bool → Bool → Bool → Bool
safe leaked watched watching connection = not leaked && (not watched || watching && connection)

-- The same during an attempt, on a connection.
abbrev pub busy : Bool → Bool → Bool → Bool → Bool
busy leaked watched watching connection = not leaked && (connection && (not watched || watching))

pub response-not_lost : (e : PipelineError) → is_response_error e ≡ true → is_lost e ≡ false
response-not_lost (raised connection_error) h = cc
response-not_lost (raised timeout_error) h = cc
response-not_lost (raised (response_error m)) h = refl
response-not_lost (raised (exec_abort_error m)) h = refl
response-not_lost (annotated n args e) h = refl
response-not_lost wrong_number h = refl
response-not_lost watch_error h = refl
response-not_lost redis_error h = refl
response-not_lost type_error h = refl

module _ {Value : Type 0} where
  abbrev pub is_safe : Pipeline Value → Bool
  is_safe s = safe s.is_leaked s.is_watched s.watching s.has_connection

  abbrev pub is_busy : Pipeline Value → Bool
  is_busy s = busy s.is_leaked s.is_watched s.watching s.has_connection

  -- On a connection that may be lost.
  abbrev pub is_held : Pipeline Value → Bool
  is_held s = not s.is_leaked && s.has_connection

  -- After an attempt: the server may watch more than the client only where the connection was lost.
  abbrev pub tested : {A : Type 0} → Result PipelineError A → Pipeline Value → Bool
  tested (ok a) s = is_busy s
  tested (err e) s = if is_lost e then is_held s else is_busy s

  pub busy-safe : (s : Pipeline Value) → is_busy s ≡ true → is_safe s ≡ true
  busy-safe s h = ground arith

  pub busy-tested :
      {A : Type 0} (r : Result PipelineError A) (s : Pipeline Value)
      → is_busy s ≡ true
      → tested r s ≡ true
  busy-tested (ok a) s h = h
  busy-tested (err e) s h = ground arith

  tested-held :
      {A : Type 0} (r : Result PipelineError A) (s : Pipeline Value)
      → tested r s ≡ true
      → is_held s ≡ true
  tested-held (ok a) s h = ground arith
  tested-held (err e) s h = ground arith

  continue-tested :
      {A B : Type 0} (r : Result PipelineError A) (f : A → Action PipelineError (Pipeline Value) B)
      (s : Pipeline Value)
      → tested r s ≡ true
      → ((a : A) (t : Pipeline Value) → is_busy t ≡ true → tested (f a t).0 (f a t).1 ≡ true)
      → tested (continue r f s).0 (continue r f s).1 ≡ true
  continue-tested (ok a) f s h k = k a s h
  continue-tested (err e) f s h k = h

  pub bind-tested :
      {A B : Type 0} (m : Action PipelineError (Pipeline Value) A)
      (f : A → Action PipelineError (Pipeline Value) B) (s : Pipeline Value)
      → tested (m s).0 (m s).1 ≡ true
      → ((a : A) (t : Pipeline Value) → is_busy t ≡ true → tested (f a t).0 (f a t).1 ≡ true)
      → tested ((m >>= f) s).0 ((m >>= f) s).1 ≡ true
  bind-tested m f s h k = continue-tested (m s).0 f (m s).1 h k

  cleaned-safe :
      (s : Pipeline Value) → s.is_leaked ≡ false → s.is_watched ≡ false → is_safe (cleaned s) ≡ true
  cleaned-safe s l w = elim (Bool-cases s.has_connection) [
    | inl q ↦ rw (q, l, w) refl
    | inr q ↦ rw (q, l, w) refl
  ]

  unwatched_if-safe :
      (b : Bool) (io : Result ReadError (Unit {0})) (s : Pipeline Value)
      → b ≡ (s.watching && s.has_connection)
      → is_safe s ≡ true
      → is_safe (unwatched_if b io s).1 ≡ true
  unwatched_if-safe false io s q h = cleaned-safe s (ground arith) (ground arith)
  unwatched_if-safe true (ok _) s q h =
      cleaned-safe (record s { is_watched = false }) (ground arith) refl
  unwatched_if-safe true (err connection_error) s q h =
      cleaned-safe (disconnected s) (ground arith) refl
  unwatched_if-safe true (err timeout_error) s q h = h
  unwatched_if-safe true (err (response_error m)) s q h = h
  unwatched_if-safe true (err (exec_abort_error m)) s q h = h

  pub reset-safe :
      (io : Result ReadError (Unit {0})) (s : Pipeline Value)
      → is_safe s ≡ true
      → is_safe (reset io s).1 ≡ true
  unfolding reset
  reset-safe io s h =
      unwatched_if-safe (s.watching && s.has_connection) io
        (record s { command_stack = []; scripts = [] }) refl h

  answered-busy :
      (name : Name) (s : Pipeline Value) → is_busy s ≡ true → is_busy (answered name s) ≡ true
  answered-busy watch s h = ground arith
  answered-busy unwatch s h = ground arith
  answered-busy discard s h = ground arith
  answered-busy exec s h = ground arith
  answered-busy placeholder s h = h
  answered-busy script_exists s h = h
  answered-busy script_load s h = h
  answered-busy (other n) s h = h

  unanswered-held :
      (name : Name) (b : Bool) (s : Pipeline Value)
      → is_busy s ≡ true
      → is_held (unanswered name b s) ≡ true
  unanswered-held watch true s h = ground arith
  unanswered-held watch false s h = ground arith
  unanswered-held unwatch b s h = ground arith
  unanswered-held discard b s h = ground arith
  unanswered-held exec b s h = ground arith
  unanswered-held placeholder b s h = ground arith
  unanswered-held script_exists b s h = ground arith
  unanswered-held script_load b s h = ground arith
  unanswered-held (other n) b s h = ground arith

  unanswered-busy :
      (name : Name) (s : Pipeline Value)
      → is_busy s ≡ true
      → is_busy (unanswered name true s) ≡ true
  unanswered-busy watch s h = h
  unanswered-busy unwatch s h = h
  unanswered-busy discard s h = h
  unanswered-busy exec s h = h
  unanswered-busy placeholder s h = h
  unanswered-busy script_exists s h = h
  unanswered-busy script_load s h = h
  unanswered-busy (other n) s h = h

  noticed-tested :
      (name : Name) (r : Result ReadError Value) (c : Settings Value) (empty : Option Value)
      (s : Pipeline Value)
      → is_busy s ≡ true
      → tested
          (noticed name (parsed c name empty (from_read r)) s).0
          (noticed name (parsed c name empty (from_read r)) s).1
        ≡ true
  noticed-tested name (ok v) c empty s h = answered-busy name s h
  noticed-tested name (err connection_error) c none s h = unanswered-held name false s h
  noticed-tested name (err connection_error) c (some v) s h = unanswered-held name false s h
  noticed-tested name (err timeout_error) c none s h = unanswered-held name false s h
  noticed-tested name (err timeout_error) c (some v) s h = unanswered-held name false s h
  noticed-tested name (err (response_error m)) c none s h = unanswered-busy name s h
  noticed-tested name (err (response_error m)) c (some v) s h = answered-busy name s h
  noticed-tested name (err (exec_abort_error m)) c none s h = unanswered-busy name s h
  noticed-tested name (err (exec_abort_error m)) c (some v) s h = answered-busy name s h

  parse_next-tested :
      (incoming : List (Result ReadError Value)) (c : Settings Value) (name : Name)
      (empty : Option Value) (s : Pipeline Value)
      → is_busy s ≡ true
      → (let (r, t) = taken incoming s in
          tested
            (noticed name (parsed c name empty r) t).0
            (noticed name (parsed c name empty r) t).1)
        ≡ true
  parse_next-tested [] c name none s h = unanswered-held name false s h
  parse_next-tested [] c name (some v) s h = unanswered-held name false s h
  parse_next-tested (r ∷ rest) c name empty s h =
      noticed-tested name r c empty (record s { incoming = rest }) h

  pub parse_response-tested :
      (c : Settings Value) (name : Name) (empty : Option Value) (s : Pipeline Value)
      → is_busy s ≡ true
      → tested (parse_response c name empty s).0 (parse_response c name empty s).1 ≡ true
  unfolding parse_response
  parse_response-tested c name empty s h = parse_next-tested s.incoming c name empty s h
