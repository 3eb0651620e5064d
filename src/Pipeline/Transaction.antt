-- ===== src/Pipeline/Transaction.antt =====
-- redis/client.py: `_execute_transaction` and `_execute_pipeline`.
use redis_py.Common.{
  ℕ, zero, suc, Bool, true, false, Option, none, some, List, [], ◌∷◌, ◌++◌, if◌then◌else◌, length,
  ◌==◌,
}
use redis_py.Common.Outcome.{Result, ok, err, Action, pure, ◌>>=◌, ◌>>◌}
use redis_py.Pipeline.State.{
  PipelineError, Command, Pipeline, Settings, Wire, raised, exec_abort_error, response_error,
  connection_error, timeout_error, watch_error, type_error, wrong_number, placeholder, annotated,
  is_response_error, disconnected, parse_response, sent, redis_error,
}

-- `list.insert`: at the end where the list is shorter.
unfoldable pub insert : {A : Type 0} → ℕ → A → List A → List A
insert zero a xs = a ∷ xs
insert (suc i) a [] = a ∷ []
insert (suc i) a (x ∷ xs) = x ∷ insert i a xs

-- `for i, e in errors: response.insert(i, e)`
unfoldable pub inserted : {A : Type 0} → List (ℕ × A) → List A → List A
inserted [] xs = xs
inserted ((i, e) ∷ errors) xs = inserted errors (insert i e xs)

abbrev pub Item : Type 0 → Type 0
Item Value = Result PipelineError Value

abbrev pub if_no_error : {A : Type 0} → A → Result PipelineError (Unit {0}) → Result PipelineError A
if_no_error a (ok _) = ok a
if_no_error a (err e) = err e

module _ {Value : Type 0} where
  -- `annotate_exception(e, number, command)`
  abbrev pub annotate_exception : ℕ → Command Value → PipelineError → PipelineError
  annotate_exception n c e = annotated n c.args e

  -- `except ResponseError as e: errors.append((i, e))`
  abbrev pub noted :
      ℕ
      → (PipelineError → PipelineError)
      → List (ℕ × (Item Value))
      → (Item Value)
      → Action PipelineError (Pipeline Value) (List (ℕ × (Item Value)))
  noted i annotate errors (ok v) s = (ok errors, s)
  noted i annotate errors (err e) s =
      if is_response_error e then (ok (errors ++ (i, err (annotate e)) ∷ []), s) else (err e, s)

  abbrev pub queue_one :
      Settings Value
      → ℕ
      → Command Value
      → Option Value
      → List (ℕ × (Item Value))
      → Action PipelineError (Pipeline Value) (List (ℕ × (Item Value)))
  queue_one c i command (some v) errors s = (ok (errors ++ (i, ok v) ∷ []), s)
  queue_one c i command none errors s =
      let (r, t) = parse_response c placeholder none s in
      noted i (annotate_exception (suc i) command) errors r t

  unfoldable pub queue_all :
      Settings Value
      → ℕ
      → List (Command Value)
      → List (ℕ × (Item Value))
      → Action PipelineError (Pipeline Value) (List (ℕ × (Item Value)))
  queue_all c i [] errors = pure errors
  queue_all c i (command ∷ commands) errors = do
    errors' ← queue_one c i command command.empty_response errors
    queue_all c (suc i) commands errors'

  -- `raise errors[0][1]`: what is no exception cannot be raised.
  abbrev pub first_error : List (ℕ × (Item Value)) → PipelineError → PipelineError
  first_error [] e = e
  first_error ((i, err x) ∷ errors) e = x
  first_error ((i, ok v) ∷ errors) e = type_error

  abbrev pub abort_error : List (ℕ × (Item Value)) → PipelineError → PipelineError
  abort_error errors (raised (exec_abort_error m)) =
      first_error errors (raised (exec_abort_error m))
  abort_error errors (raised (response_error m)) = raised (response_error m)
  abort_error errors (raised connection_error) = raised connection_error
  abort_error errors (raised timeout_error) = raised timeout_error
  abort_error errors (annotated n args e) = annotated n args e
  abort_error errors wrong_number = wrong_number
  abort_error errors watch_error = watch_error
  abort_error errors redis_error = redis_error
  abort_error errors type_error = type_error

  abbrev pub aborted :
      List (ℕ × (Item Value)) → (Item Value) → Action PipelineError (Pipeline Value) Value
  aborted errors (ok v) s = (ok v, s)
  aborted errors (err e) s = (err (abort_error errors e), s)

  -- The first error among the responses, with the number of its command.
  unfoldable pub raise_first_error :
      ℕ → List (Command Value) → List (Item Value) → Result PipelineError (Unit {0})
  raise_first_error i commands [] = ok tt
  raise_first_error i [] (r ∷ rs) = ok tt
  raise_first_error i (c ∷ commands) (ok v ∷ rs) = raise_first_error (suc i) commands rs
  raise_first_error i (c ∷ commands) (err e ∷ rs) =
      let rest = raise_first_error (suc i) commands rs in
      if is_response_error e then err (annotate_exception (suc i) c e) else rest

  abbrev pub called : Settings Value → Command Value → (Item Value) → (Item Value)
  called c command (ok v) = ok (c.response_callbacks command.name v)
  called c command (err e) = err e

  -- The response callbacks, on what is no exception.
  unfoldable pub called_all :
      Settings Value → List (Item Value) → List (Command Value) → List (Item Value)
  called_all c [] commands = []
  called_all c (r ∷ rs) [] = []
  called_all c (r ∷ rs) (command ∷ commands) = called c command r ∷ called_all c rs commands

  abbrev pub checked_first :
      Bool → List (Command Value) → List (Item Value) → Result PipelineError (Unit {0})
  checked_first true commands response = raise_first_error 0 commands response
  checked_first false commands response = ok tt

  -- What follows the reply to EXEC: it ends the watch, none is a watch that failed, and the responses
  -- are as many as the commands once the errors are among them.
  unfoldable pub finished :
      Settings Value
      → List (Command Value)
      → Bool
      → List (ℕ × (Item Value))
      → Value
      → Action PipelineError (Pipeline Value) (List (Item Value))
  finished c commands raise_on_error errors v s =
      let t = record s { watching = false; is_watched = false } in
      let response = inserted errors (c.items v) in
      if c.is_none v
      then (err watch_error, t)
      else if length response == length commands
      then (
        if_no_error (called_all c response commands)
            (checked_first raise_on_error commands response),
        t,
      )
      else (err wrong_number, disconnected t)

  unfoldable pub execute_transaction :
      Settings Value
      → List (Command Value)
      → Bool
      → Wire Value
      → Action PipelineError (Pipeline Value) (List (Item Value))
  execute_transaction c commands raise_on_error w = do
    sent w
    errors ← (λ s. let (r, t) = parse_response c placeholder none s in noted 0 (λ e. e) [] r t)
    errors' ← queue_all c 0 commands errors
    v ← (λ s. let (r, t) = parse_response c placeholder none s in aborted errors' r t)
    finished c commands raise_on_error errors' v

  -- `except ResponseError as e: response.append(e)`
  abbrev pub kept : (Item Value) → Action PipelineError (Pipeline Value) (Item Value)
  kept (ok v) s = (ok (ok v), s)
  kept (err e) s = if is_response_error e then (ok (err e), s) else (err e, s)

  unfoldable pub responses :
      Settings Value
      → List (Command Value)
      → Action PipelineError (Pipeline Value) (List (Item Value))
  responses c [] = pure []
  responses c (command ∷ commands) = do
    r ← (λ s. let (r, t) = parse_response c command.name command.empty_response s in kept r t)
    rs ← responses c commands
    pure (r ∷ rs)

  unfoldable pub execute_pipeline :
      Settings Value
      → List (Command Value)
      → Bool
      → Wire Value
      → Action PipelineError (Pipeline Value) (List (Item Value))
  execute_pipeline c commands raise_on_error w = do
    sent w
    response ← responses c commands
    λ s. (if_no_error response (checked_first raise_on_error commands response), s)
