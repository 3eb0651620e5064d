-- ===== src/Pipeline/Finally.antt =====
-- redis/client.py: the state that `Pipeline.execute` leaves.
use redis_py.Common.{ℕ, ◌≡◌, refl, Bool, true, false, ◌&&◌, ◌||◌, Bool-cases, List, [], inl, inr}
use redis_py.Common.Outcome.{Result, ok, err, Action, ◌>>◌}
use redis_py.Pipeline.State.{
  ReadError, Command, Pipeline, Settings, Wire, Session, disconnected, reset, cleaned, unwatched_if,
  connect, connection_error, timeout_error, response_error, exec_abort_error, PipelineError, leased,
}
use redis_py.Pipeline.Calls.{is_staged, is_supported, call_with_retry}
use redis_py.Pipeline.Execute.{
  has_scripts, execute_once, execute_and_reset, execute, disconnect_raise_reset,
}

-- The UNWATCH of a `reset` is answered, or the connection is lost.
abbrev pub is_benign : Result ReadError (Unit {0}) → Bool
is_benign (ok _) = true
is_benign (err connection_error) = true
is_benign (err timeout_error) = false
is_benign (err (response_error m)) = false
is_benign (err (exec_abort_error m)) = false

module _ {Value : Type 0} where
  -- Nothing is staged or watched, no transaction is open, and the connection is back in the pool.
  abbrev pub IsReset : Pipeline Value → Type 0
  IsReset s =
      (s.command_stack ≡ [])
      × (s.scripts ≡ [])
      × (s.watching ≡ false)
      × (s.explicit_transaction ≡ false)
      × (s.has_connection ≡ false)

  cleaned-IsReset :
      (s : Pipeline Value) → s.command_stack ≡ [] → s.scripts ≡ [] → IsReset (cleaned s)
  cleaned-IsReset s h k = elim (Bool-cases s.has_connection) [
    | inl q ↦ rw q (h, k, refl, refl, refl)
    | inr q ↦ rw q (h, k, refl, refl, refl)
  ]

  unwatched_if-IsReset :
      (b : Bool) (io : Result ReadError (Unit {0})) (s : Pipeline Value)
      → is_benign io ≡ true
      → s.command_stack ≡ []
      → s.scripts ≡ []
      → IsReset (unwatched_if b io s).1
  unwatched_if-IsReset false io s g h k = cleaned-IsReset s h k
  unwatched_if-IsReset true (ok _) s g h k = cleaned-IsReset (record s { is_watched = false }) h k
  unwatched_if-IsReset true (err connection_error) s g h k = cleaned-IsReset (disconnected s) h k
  unwatched_if-IsReset true (err timeout_error) s g h k = cc
  unwatched_if-IsReset true (err (response_error m)) s g h k = cc
  unwatched_if-IsReset true (err (exec_abort_error m)) s g h k = cc

  reset-IsReset :
      (io : Result ReadError (Unit {0})) (s : Pipeline Value)
      → is_benign io ≡ true
      → IsReset (reset io s).1
  unfolding reset
  reset-IsReset io s h =
      unwatched_if-IsReset (s.watching && s.has_connection) io
        (record s { command_stack = []; scripts = [] }) h refl refl

  leased-IsReset :
      {A : Type 0} (b : Bool) (next : Action PipelineError (Pipeline Value) A) (s : Pipeline Value)
      → ((t : Pipeline Value) → IsReset (next t).1)
      → IsReset ((leased b (ok tt) >> next) s).1
  leased-IsReset true next s h = h s
  leased-IsReset false next s h = h (record s { has_connection = true })

  execute_and_reset-IsReset :
      (c : Settings Value) (stack : List (Command Value)) (raise_on_error : Bool)
      (wires : ℕ → Wire Value) (last : Result ReadError (Unit {0})) (s : Pipeline Value)
      → is_benign last ≡ true
      → IsReset (execute_and_reset c stack raise_on_error wires last s).1
  unfolding execute_and_reset
  execute_and_reset-IsReset c stack raise_on_error wires last s g =
      let act = execute_once c (c.transaction || s.explicit_transaction) stack raise_on_error in
      reset-IsReset last
        (call_with_retry (is_supported c) act (disconnect_raise_reset c) wires c.retries 0 s).1 g

  -- `execute` of a pipeline that has something staged or watched, and no scripts, leaves it reset once
  -- it has a connection: however many attempts fail, whether it returns or raises. The conditions: the
  -- pool gives a connection, and the UNWATCH of the last reset is answered or its connection is lost.
  pub execute-IsReset :
      (c : Settings Value) (raise_on_error : Bool) (io : Session Value)
      (last : Result ReadError (Unit {0})) (scripts : Session Value) (ios : ℕ → Session Value)
      (s : Pipeline Value)
      → (is_staged s.command_stack || s.watching) ≡ true
      → has_scripts s.scripts ≡ false
      → io.lease ≡ ok tt
      → is_benign last ≡ true
      → IsReset (execute c raise_on_error io last scripts ios s).1
  unfolding execute connect
  execute-IsReset c raise_on_error io last scripts ios s h k l g =
      rw (h, k, l)
        (leased-IsReset s.has_connection
          (execute_and_reset c s.command_stack raise_on_error io.wires last) s
          (λ t. execute_and_reset-IsReset c s.command_stack raise_on_error io.wires last t g))
