-- ===== src/Pipeline/Execute.antt =====
-- redis/client.py: `Pipeline.execute`.
use redis_py.Common.{ℕ, Bool, true, false, ◌||◌, List, [], ◌∷◌, if◌then◌else◌}
use redis_py.Common.Outcome.{Result, ok, err, Action, pure, ◌>>◌}
use redis_py.Pipeline.State.{
  PipelineError, Command, Pipeline, Script, Settings, Wire, Session, ReadError, watch_error,
  disconnected, reset, connect,
}
use redis_py.Pipeline.Calls.{is_supported, call_with_retry, reset_unless, is_staged, load_scripts}
use redis_py.Pipeline.Transaction.{Item, execute_transaction, execute_pipeline}

-- `finally: self.reset()`: an error of the reset replaces what was raised or returned.
abbrev pub finally_reset :
    {A : Type 0} → Result PipelineError A → Result PipelineError (Unit {0}) → Result PipelineError A
finally_reset r (ok _) = r
finally_reset r (err e) = err e

abbrev pub has_scripts : List Script → Bool
has_scripts [] = false
has_scripts (x ∷ xs) = true

module _ {Value : Type 0} where
  unfoldable pub disconnect_raise_reset :
      Settings Value → Wire Value → PipelineError → Action PipelineError (Pipeline Value) (Unit {0})
  disconnect_raise_reset c w e s =
      if s.watching
      then (err watch_error, disconnected s)
      else reset_unless (c.retry_on_error e) e w (disconnected s)

  abbrev pub load_if :
      Bool
      → Settings Value
      → Session Value
      → (ℕ → Session Value)
      → Action PipelineError (Pipeline Value) (Unit {0})
  load_if true c io ios = load_scripts c io ios
  load_if false c io ios = pure tt

  -- `execute = self._execute_transaction` or `self._execute_pipeline`
  unfoldable pub execute_once :
      Settings Value
      → Bool
      → List (Command Value)
      → Bool
      → Wire Value
      → Action PipelineError (Pipeline Value) (List (Item Value))
  execute_once c true = execute_transaction c
  execute_once c false = execute_pipeline c

  -- The `try` of `execute`, with the `finally`; `last` is what UNWATCH gives in it.
  unfoldable pub execute_and_reset :
      Settings Value
      → List (Command Value)
      → Bool
      → (ℕ → Wire Value)
      → Result ReadError (Unit {0})
      → Action PipelineError (Pipeline Value) (List (Item Value))
  execute_and_reset c stack raise_on_error wires last s =
      let (r, t) =
        call_with_retry (is_supported c)
          (execute_once c (c.transaction || s.explicit_transaction) stack raise_on_error)
          (disconnect_raise_reset c) wires c.retries 0 s in
      let (f, u) = reset last t in (finally_reset r f, u)

  -- `io` is the session of the execution, `scripts` and `ios` those of `load_scripts`.
  unfoldable pub execute :
      Settings Value
      → Bool
      → Session Value
      → Result ReadError (Unit {0})
      → Session Value
      → (ℕ → Session Value)
      → Action PipelineError (Pipeline Value) (List (Item Value))
  execute c raise_on_error io last scripts ios s =
      let stack = s.command_stack in
      if is_staged stack || s.watching
      then (do
        load_if (has_scripts s.scripts) c scripts ios
        connect io.lease
        execute_and_reset c stack raise_on_error io.wires last)
          s
      else (ok [], s)
