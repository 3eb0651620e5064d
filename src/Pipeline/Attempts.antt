-- ===== src/Pipeline/Attempts.antt =====
-- redis/client.py: one attempt of a transaction, of a pipeline and of a command that runs at once.
use redis_py.Common.{
  ℕ, suc, ◌≡◌, Bool, true, false, Bool-cases, length, ◌==◌, Option, none, some, List, [], ◌∷◌, inl,
  inr, arith, if◌then◌else◌,
}
use redis_py.Common.Outcome.{ok, err, Action, ◌>>=◌, pure}
use redis_py.Pipeline.State.{
  PipelineError, Command, Wire, Pipeline, Settings, is_response_error, parse_response, sent,
  placeholder, connection_error, timeout_error, response_error, exec_abort_error, raised, annotated,
  wrong_number, watch_error, redis_error, type_error,
}
use redis_py.Pipeline.Calls.{is_lost, send_command_parse_response}
use redis_py.Pipeline.Transaction.{
  Item, noted, queue_one, queue_all, aborted, finished, execute_transaction, kept, responses,
  execute_pipeline, if_no_error, checked_first, annotate_exception, called_all, inserted,
}
use redis_py.Pipeline.Execute.{execute_once}
use redis_py.Pipeline.Watched.{
  is_busy, is_held, tested, busy-tested, bind-tested, parse_response-tested, response-not_lost,
}

module _ {Value : Type 0} where
  sent-tested :
      (w : Wire Value) (s : Pipeline Value)
      → is_busy s ≡ true
      → tested (sent w s).0 (sent w s).1 ≡ true
  sent-tested w s h = busy-tested (sent w s).0 (record s { incoming = w.replies }) h

  response-busy :
      (e : PipelineError) (s : Pipeline Value)
      → is_response_error e ≡ true
      → (if is_lost e then is_held s else is_busy s) ≡ true
      → is_busy s ≡ true
  response-busy e s q h = ground (arith, response-not_lost e q)

  noted-tested :
      (i : ℕ) (annotate : PipelineError → PipelineError) (errors : List (ℕ × Item Value))
      (r : Item Value) (s : Pipeline Value)
      → tested r s ≡ true
      → tested (noted i annotate errors r s).0 (noted i annotate errors r s).1 ≡ true
  noted-tested i annotate errors (ok v) s h = h
  noted-tested i annotate errors (err e) s h = elim (Bool-cases (is_response_error e)) [
    | inl q ↦ rw q (response-busy e s q h)
    | inr q ↦ rw q h
  ]

  aborted-tested :
      (errors : List (ℕ × Item Value)) (r : Item Value) (s : Pipeline Value)
      → tested r s ≡ true
      → tested (aborted errors r s).0 (aborted errors r s).1 ≡ true
  aborted-tested errors (ok v) s h = h
  aborted-tested errors (err (raised (exec_abort_error m))) s h =
      busy-tested (aborted errors (err (raised (exec_abort_error m))) s).0 s h
  aborted-tested errors (err (raised (response_error m))) s h = h
  aborted-tested errors (err (raised connection_error)) s h = h
  aborted-tested errors (err (raised timeout_error)) s h = h
  aborted-tested errors (err (annotated n args e)) s h = h
  aborted-tested errors (err wrong_number) s h = h
  aborted-tested errors (err watch_error) s h = h
  aborted-tested errors (err redis_error) s h = h
  aborted-tested errors (err type_error) s h = h

  queue_one-tested :
      (c : Settings Value) (i : ℕ) (x : Command Value) (o : Option Value)
      (errors : List (ℕ × Item Value)) (s : Pipeline Value)
      → is_busy s ≡ true
      → tested (queue_one c i x o errors s).0 (queue_one c i x o errors s).1 ≡ true
  queue_one-tested c i x (some v) errors s h = h
  queue_one-tested c i x none errors s h =
      let (r, t) = parse_response c placeholder none s in
      noted-tested i (annotate_exception (suc i) x) errors r t
        (parse_response-tested c placeholder none s h)

  queue_all-tested :
      (c : Settings Value) (i : ℕ) (cs : List (Command Value)) (errors : List (ℕ × Item Value))
      (s : Pipeline Value)
      → is_busy s ≡ true
      → tested (queue_all c i cs errors s).0 (queue_all c i cs errors s).1 ≡ true
  unfolding queue_all
  queue_all-tested c i [] errors s h = h
  queue_all-tested c i (x ∷ cs) errors s h =
      bind-tested (queue_one c i x x.empty_response errors) (queue_all c (suc i) cs) s
        (queue_one-tested c i x x.empty_response errors s h) (queue_all-tested c (suc i) cs)

  finished-tested :
      (c : Settings Value) (cs : List (Command Value)) (b : Bool) (errors : List (ℕ × Item Value))
      (v : Value) (s : Pipeline Value)
      → is_busy s ≡ true
      → tested (finished c cs b errors v s).0 (finished c cs b errors v s).1 ≡ true
  unfolding finished
  finished-tested c cs b errors v s h =
      let t = record s { watching = false; is_watched = false } in
      let g : is_busy t ≡ true = ground arith in
      let response = inserted errors (c.items v) in
      elim (Bool-cases (c.is_none v)) [
        | inl q ↦ rw q g
        | inr q ↦ rw q (elim (Bool-cases (length response == length cs)) [
          | inl p ↦ rw p (
              busy-tested (if_no_error (called_all c response cs) (checked_first b cs response)) t
                g)
          | inr p ↦ rw p g
        ])
      ]

  abbrev exec_transaction :
      Settings Value
      → List (Command Value)
      → Bool
      → List (ℕ × Item Value)
      → Action PipelineError (Pipeline Value) (List (Item Value))
  exec_transaction c cs b errors = do
    v ← (λ u. let (r, t) = parse_response c placeholder none u in aborted errors r t)
    finished c cs b errors v

  exec_transaction-tested :
      (c : Settings Value) (cs : List (Command Value)) (b : Bool) (errors : List (ℕ × Item Value))
      (s : Pipeline Value)
      → is_busy s ≡ true
      → tested (exec_transaction c cs b errors s).0 (exec_transaction c cs b errors s).1 ≡ true
  exec_transaction-tested c cs b errors s h =
      let parse = parse_response c placeholder none in
      bind-tested (λ u. let (r, t) = parse u in aborted errors r t) (finished c cs b errors) s
        (aborted-tested errors (parse s).0 (parse s).1
          (parse_response-tested c placeholder none s h))
        (finished-tested c cs b errors)

  abbrev queued_transaction :
      Settings Value
      → List (Command Value)
      → Bool
      → Action PipelineError (Pipeline Value) (List (Item Value))
  queued_transaction c cs b = do
    errors ← (λ u. let (r, t) = parse_response c placeholder none u in noted 0 (λ e. e) [] r t)
    errors' ← queue_all c 0 cs errors
    v ← (λ u. let (r, t) = parse_response c placeholder none u in aborted errors' r t)
    finished c cs b errors' v

  queued_transaction-tested :
      (c : Settings Value) (cs : List (Command Value)) (b : Bool) (s : Pipeline Value)
      → is_busy s ≡ true
      → tested (queued_transaction c cs b s).0 (queued_transaction c cs b s).1 ≡ true
  queued_transaction-tested c cs b s h =
      let parse = parse_response c placeholder none in
      bind-tested (λ u. let (r, t) = parse u in noted 0 (λ e. e) [] r t)
        (λ errors. queue_all c 0 cs errors >>= λ errors'. exec_transaction c cs b errors') s
        (noted-tested 0 (λ e. e) [] (parse s).0 (parse s).1
          (parse_response-tested c placeholder none s h))
        (λ errors t g.
          bind-tested (queue_all c 0 cs errors) (exec_transaction c cs b) t
            (queue_all-tested c 0 cs errors t g) (exec_transaction-tested c cs b))

  execute_transaction-tested :
      (c : Settings Value) (cs : List (Command Value)) (b : Bool) (w : Wire Value)
      (s : Pipeline Value)
      → is_busy s ≡ true
      → tested (execute_transaction c cs b w s).0 (execute_transaction c cs b w s).1 ≡ true
  unfolding execute_transaction
  execute_transaction-tested c cs b w s h =
      bind-tested (sent w) (λ _. queued_transaction c cs b) s (sent-tested w s h)
        (λ _. queued_transaction-tested c cs b)

  kept-tested :
      (r : Item Value) (s : Pipeline Value)
      → tested r s ≡ true
      → tested (kept r s).0 (kept r s).1 ≡ true
  kept-tested (ok v) s h = h
  kept-tested (err e) s h = elim (Bool-cases (is_response_error e)) [
    | inl q ↦ rw q (response-busy e s q h)
    | inr q ↦ rw q h
  ]

  responses-tested :
      (c : Settings Value) (cs : List (Command Value)) (s : Pipeline Value)
      → is_busy s ≡ true
      → tested (responses c cs s).0 (responses c cs s).1 ≡ true
  unfolding responses
  responses-tested c [] s h = h
  responses-tested c (x ∷ cs) s h =
      bind-tested (λ u. let (r, t) = parse_response c x.name x.empty_response u in kept r t)
        (λ r. responses c cs >>= λ rs. pure (r ∷ rs)) s
        (let (r, t) = parse_response c x.name x.empty_response s in
          kept-tested r t (parse_response-tested c x.name x.empty_response s h))
        (λ r t g.
          bind-tested (responses c cs) (λ rs. pure (r ∷ rs)) t (responses-tested c cs t g)
            (λ rs u k. k))

  execute_pipeline-tested :
      (c : Settings Value) (cs : List (Command Value)) (b : Bool) (w : Wire Value)
      (s : Pipeline Value)
      → is_busy s ≡ true
      → tested (execute_pipeline c cs b w s).0 (execute_pipeline c cs b w s).1 ≡ true
  unfolding execute_pipeline
  execute_pipeline-tested c cs b w s h =
      bind-tested (sent w)
        (λ _. responses c cs >>= λ response.
          λ u. (if_no_error response (checked_first b cs response), u))
        s (sent-tested w s h)
        (λ _ t g.
          bind-tested (responses c cs)
            (λ response u. (if_no_error response (checked_first b cs response), u)) t
            (responses-tested c cs t g)
            (λ response u k. busy-tested (if_no_error response (checked_first b cs response)) u k))

  pub execute_once-tested :
      (c : Settings Value) (transaction : Bool) (cs : List (Command Value)) (b : Bool)
      (w : Wire Value) (s : Pipeline Value)
      → is_busy s ≡ true
      → tested (execute_once c transaction cs b w s).0 (execute_once c transaction cs b w s).1
        ≡ true
  unfolding execute_once
  execute_once-tested c true = execute_transaction-tested c
  execute_once-tested c false = execute_pipeline-tested c

  pub send_command-tested :
      (c : Settings Value) (x : Command Value) (w : Wire Value) (s : Pipeline Value)
      → is_busy s ≡ true
      → tested (send_command_parse_response c x w s).0 (send_command_parse_response c x w s).1
        ≡ true
  unfolding send_command_parse_response
  send_command-tested c x w s h =
      bind-tested (sent w) (λ _. parse_response c x.name x.empty_response) s (sent-tested w s h)
        (λ _ t g. parse_response-tested c x.name x.empty_response t g)
