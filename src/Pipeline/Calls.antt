-- ===== src/Pipeline/Calls.antt =====
-- redis/client.py: the commands of a `Pipeline` that run at once, with redis/retry.py, and those that it
-- stages.
use redis_py.Common.{
  ℕ, zero, suc, Bool, true, false, not, ◌&&◌, ◌||◌, Option, none, some, List, [], ◌∷◌, ◌++◌, map,
  String, if◌then◌else◌, ltb, ◌-◌,
}
use redis_py.Common.Equality.{◌==◌, ℕ_Eq, List_Eq}
use redis_py.Resp.Decimal.{Bytes}
use redis_py.Resp.Errors.{codes}
use redis_py.Resp.Encode.{split}
use redis_py.Common.Outcome.{Result, ok, err, Action, pure, raise, ◌>>=◌, ◌>>◌}
use redis_py.Pipeline.State.{
  Name, PipelineError, Command, Pipeline, Script, Settings, Wire, Session, raised, timeout_error,
  connection_error, watch, unwatch, watch_error, redis_error, disconnected, reset, parse_response,
  sent, connect, response_error, exec_abort_error, annotated, wrong_number, type_error, other,
  discard, exec, placeholder, script_exists, script_load,
}

-- `Retry._supported_errors`: lost connections and timeouts, and those of `retry_on_error`.
abbrev pub is_lost : PipelineError → Bool
is_lost (raised connection_error) = true
is_lost (raised timeout_error) = true
is_lost (raised (response_error m)) = false
is_lost (raised (exec_abort_error m)) = false
is_lost (annotated n args e) = false
is_lost wrong_number = false
is_lost watch_error = false
is_lost redis_error = false
is_lost type_error = false

abbrev pub is_watch : Name → Bool
is_watch watch = true
is_watch unwatch = false
is_watch discard = false
is_watch exec = false
is_watch placeholder = false
is_watch script_exists = false
is_watch script_load = false
is_watch (other n) = false

abbrev pub capital : ℕ → ℕ
capital c = if ltb 96 c && ltb c 123 then c - 32 else c

abbrev pub first_of : List Bytes → Bytes
first_of [] = []
first_of (word ∷ words) = word

-- Does the server read WATCH or MULTI, in any case and with or without arguments in the same text,
-- where the pipeline sees another name?
unfoldable pub spells_watch : Name → Bool
spells_watch watch = false
spells_watch unwatch = false
spells_watch discard = false
spells_watch exec = false
spells_watch placeholder = false
spells_watch script_exists = false
spells_watch script_load = false
spells_watch (other n) =
    let word : Bytes = map capital (first_of (split (codes n))) in
    word == codes "WATCH" || word == codes "MULTI"

-- `s.sha = …`, of the script at the index
abbrev pub with_sha : ℕ → String → List Script → List Script
with_sha n sha [] = []
with_sha zero sha (x ∷ xs) = record x { sha = sha } ∷ xs
with_sha (suc n) sha (x ∷ xs) = x ∷ with_sha n sha xs

module _ {Value : Type 0} where
  abbrev pub is_supported : Settings Value → PipelineError → Bool
  is_supported c e = is_lost e || c.retry_on_error e

  -- After an attempt: the handler of a supported error, and then the next attempt.
  abbrev pub retried :
      {A : Type 0}
      → (PipelineError → Bool)
      → (PipelineError → Action PipelineError (Pipeline Value) (Unit {0}))
      → (PipelineError → Action PipelineError (Pipeline Value) A)
      → Result PipelineError A
      → Action PipelineError (Pipeline Value) A
  retried supported fail next (ok a) s = (ok a, s)
  retried supported fail next (err e) s = if supported e then (fail e >> next e) s else (err e, s)

  -- `Retry.call_with_retry` where `retries` are left, at the attempt `n`
  unfoldable pub call_with_retry :
      {A : Type 0}
      → (PipelineError → Bool)
      → (Wire Value → Action PipelineError (Pipeline Value) A)
      → (Wire Value → PipelineError → Action PipelineError (Pipeline Value) (Unit {0}))
      → (ℕ → Wire Value)
      → ℕ
      → ℕ
      → Action PipelineError (Pipeline Value) A
  call_with_retry supported act fail wires zero n s =
      let (r, t) = act (wires n) s in retried supported (fail (wires n)) raise r t
  call_with_retry supported act fail wires (suc retries) n s =
      let (r, t) = act (wires n) s in
      retried supported (fail (wires n))
        (λ e. call_with_retry supported act fail wires retries (suc n)) r t

  -- `self.reset()`, and then the error
  abbrev pub reset_and :
      PipelineError → Wire Value → Action PipelineError (Pipeline Value) (Unit {0})
  reset_and e w = reset w.unwatched >> raise e

  abbrev pub reset_unless :
      Bool → PipelineError → Wire Value → Action PipelineError (Pipeline Value) (Unit {0})
  reset_unless true e w = pure tt
  reset_unless false e w = reset_and e w

  unfoldable pub disconnect_reset_raise :
      Settings Value → Wire Value → PipelineError → Action PipelineError (Pipeline Value) (Unit {0})
  disconnect_reset_raise c w e s =
      if s.watching
      then reset_and watch_error w (disconnected s)
      else reset_unless (c.retry_on_error e) e w (disconnected s)

  -- `_send_command_parse_response`
  unfoldable pub send_command_parse_response :
      Settings Value → Command Value → Wire Value → Action PipelineError (Pipeline Value) Value
  send_command_parse_response c command w = do
    sent w
    parse_response c command.name command.empty_response

  unfoldable pub immediate_execute_command :
      Settings Value → Command Value → Session Value → Action PipelineError (Pipeline Value) Value
  immediate_execute_command c command io = do
    connect io.lease
    call_with_retry (is_supported c) (send_command_parse_response c command)
        (disconnect_reset_raise c) io.wires c.retries 0

  unfoldable pub pipeline_execute_command :
      Command Value → Action PipelineError (Pipeline Value) (Option Value)
  pipeline_execute_command command s =
      (ok none, record s { command_stack = s.command_stack ++ command ∷ [] })

  -- A WATCH that is staged, or that the pipeline does not see, and a MULTI that it does not see, after
  -- which an UNWATCH is only queued, may leave a watch that the replies do not show.
  abbrev pub with_hidden_watch : Name → Pipeline Value → Pipeline Value
  with_hidden_watch name s =
      if spells_watch name || (is_watch name && s.explicit_transaction)
      then record s { is_watched = true }
      else s

  abbrev pub run_or_stage :
      Settings Value
      → Command Value
      → Session Value
      → Action PipelineError (Pipeline Value) (Option Value)
  run_or_stage c command io s =
      if (s.watching || is_watch command.name) && not s.explicit_transaction
      then (immediate_execute_command c command io >>= λ v. pure (some v)) s
      else pipeline_execute_command command s

  -- The reply of a command that runs at once, or `none` for one that is staged.
  unfoldable pub execute_command :
      Settings Value
      → Command Value
      → Session Value
      → Action PipelineError (Pipeline Value) (Option Value)
  execute_command c command io s = run_or_stage c command io (with_hidden_watch command.name s)

  abbrev pub is_staged : List (Command Value) → Bool
  is_staged [] = false
  is_staged (c ∷ cs) = true

  unfoldable pub multi : Action PipelineError (Pipeline Value) (Unit {0})
  multi s =
      if s.explicit_transaction || is_staged s.command_stack
      then (err redis_error, s)
      else (ok tt, record s { explicit_transaction = true })

  abbrev pub command_of : Name → List String → Command Value
  command_of name args = record { name = name; args = args; empty_response = none }

  unfoldable pub watch_names :
      Settings Value
      → List String
      → Session Value
      → Action PipelineError (Pipeline Value) (Option Value)
  watch_names c names io s =
      if s.explicit_transaction
      then (err redis_error, s)
      else execute_command c (command_of watch names) io s

  -- `self.watching and self.execute_command("UNWATCH") or True`
  unfoldable pub unwatch_all :
      Settings Value → Session Value → Action PipelineError (Pipeline Value) (Unit {0})
  unwatch_all c io s =
      if s.watching then (execute_command c (command_of unwatch []) io >> pure tt) s else (ok tt, s)

  unfoldable pub discard_all :
      Settings Value → Session Value → Action PipelineError (Pipeline Value) (Option Value)
  discard_all c io = execute_command c (command_of discard []) io

  abbrev pub set_sha : ℕ → String → Action PipelineError (Pipeline Value) (Unit {0})
  set_sha n sha s = (ok tt, record s { scripts = with_sha n sha s.scripts })

  -- The scripts that the server does not have are loaded, each with its own session.
  unfoldable pub load_missing :
      Settings Value
      → (ℕ → Session Value)
      → ℕ
      → List Script
      → List Bool
      → Action PipelineError (Pipeline Value) (Unit {0})
  load_missing c ios n [] bs = pure tt
  load_missing c ios n (x ∷ xs) [] = pure tt
  load_missing c ios n (x ∷ xs) (true ∷ bs) = load_missing c ios (suc n) xs bs
  load_missing c ios n (x ∷ xs) (false ∷ bs) = do
    v ← immediate_execute_command c (command_of script_load (x.script ∷ [])) (ios n)
    set_sha n (c.to_sha v)
    load_missing c ios (suc n) xs bs

  unfoldable pub load_scripts :
      Settings Value
      → Session Value
      → (ℕ → Session Value)
      → Action PipelineError (Pipeline Value) (Unit {0})
  load_scripts c io ios s =
      (do
        v ← immediate_execute_command c (command_of script_exists (map (λ x. x.sha) s.scripts)) io
        load_missing c ios 0 s.scripts (c.truths v))
        s
