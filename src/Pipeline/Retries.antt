-- ===== src/Pipeline/Retries.antt =====
-- redis/client.py with redis/retry.py: what the server watches after a call with its retries.
use redis_py.Common.{
  ℕ, zero, suc, ◌≡◌, refl, Bool, true, false, Bool-cases, inl, inr, arith, if◌then◌else◌,
}
use redis_py.Common.Outcome.{Result, ok, err, Action, ◌>>◌, continue, raise}
use redis_py.Pipeline.State.{
  PipelineError, ReadError, Command, Pipeline, Settings, Wire, Session, watch_error, disconnected,
  reset, connect, leased,
}
use redis_py.Pipeline.Calls.{
  is_lost, is_supported, retried, call_with_retry, reset_and, reset_unless, disconnect_reset_raise,
  send_command_parse_response, immediate_execute_command,
}
use redis_py.Pipeline.Execute.{disconnect_raise_reset}
use redis_py.Pipeline.Watched.{is_safe, is_busy, is_held, tested, busy-safe, reset-safe}
use redis_py.Pipeline.Attempts.{send_command-tested}

module _ {Value : Type 0} where
  -- After the handler of an error: the next attempt, or the end.
  abbrev pub handled : {A : Type 0} → Result PipelineError A → Pipeline Value → Bool
  handled (ok a) s = is_busy s
  handled (err e) s = is_safe s

  lost-supported :
      (c : Settings Value) (e : PipelineError) → is_supported c e ≡ false → is_lost e ≡ false
  lost-supported c e h = ground arith

  handled-next :
      {A : Type 0} (r : Result PipelineError (Unit {0}))
      (next : Action PipelineError (Pipeline Value) A) (s : Pipeline Value)
      → handled r s ≡ true
      → ((t : Pipeline Value) → is_busy t ≡ true → is_safe (next t).1 ≡ true)
      → is_safe (continue r (λ _. next) s).1 ≡ true
  handled-next (ok a) next s h k = k s h
  handled-next (err e) next s h k = h

  retried-safe :
      {A : Type 0} (c : Settings Value)
      (fail : PipelineError → Action PipelineError (Pipeline Value) (Unit {0}))
      (next : PipelineError → Action PipelineError (Pipeline Value) A) (r : Result PipelineError A)
      (s : Pipeline Value)
      → ((e : PipelineError) (t : Pipeline Value)
          → is_held t ≡ true
          → handled (fail e t).0 (fail e t).1 ≡ true)
      → ((e : PipelineError) (t : Pipeline Value) → is_busy t ≡ true → is_safe (next e t).1 ≡ true)
      → tested r s ≡ true
      → is_safe (retried (is_supported c) fail next r s).1 ≡ true
  retried-safe c fail next (ok a) s hf hn h = busy-safe s h
  retried-safe c fail next (err e) s hf hn h = elim (Bool-cases (is_supported c e)) [
    | inl q ↦ rw q (handled-next (fail e s).0 (next e) (fail e s).1 (hf e s (ground arith)) (hn e))
    | inr q ↦ rw q (ground (arith, lost-supported c e q))
  ]

  pub call_with_retry-safe :
      {A : Type 0} (c : Settings Value) (act : Wire Value → Action PipelineError (Pipeline Value) A)
      (fail : Wire Value → PipelineError → Action PipelineError (Pipeline Value) (Unit {0}))
      (wires : ℕ → Wire Value) (retries n : ℕ) (s : Pipeline Value)
      → ((w : Wire Value) (t : Pipeline Value)
          → is_busy t ≡ true
          → tested (act w t).0 (act w t).1 ≡ true)
      → ((w : Wire Value) (e : PipelineError) (t : Pipeline Value)
          → is_held t ≡ true
          → handled (fail w e t).0 (fail w e t).1 ≡ true)
      → is_busy s ≡ true
      → is_safe (call_with_retry (is_supported c) act fail wires retries n s).1 ≡ true
  unfolding call_with_retry
  call_with_retry-safe c act fail wires zero n s ha hf h =
      retried-safe c (fail (wires n)) raise (act (wires n) s).0 (act (wires n) s).1 (hf (wires n))
        (λ _ t g. busy-safe t g) (ha (wires n) s h)
  call_with_retry-safe c act fail wires (suc retries) n s ha hf h =
      retried-safe c (fail (wires n))
        (λ e. call_with_retry (is_supported c) act fail wires retries (suc n)) (act (wires n) s).0
        (act (wires n) s).1 (hf (wires n))
        (λ _ t g. call_with_retry-safe c act fail wires retries (suc n) t ha hf g)
        (ha (wires n) s h)

  raised-handled :
      (r : Result PipelineError (Unit {0})) (e : PipelineError) (s : Pipeline Value)
      → is_safe s ≡ true
      → (let (f, t) = continue {A = Unit {0}} {B = Unit {0}} r (λ _. raise e) s in handled f t)
        ≡ true
  raised-handled (ok a) e s h = h
  raised-handled (err x) e s h = h

  reset_and-handled :
      (e : PipelineError) (w : Wire Value) (s : Pipeline Value)
      → is_safe s ≡ true
      → handled (reset_and e w s).0 (reset_and e w s).1 ≡ true
  reset_and-handled e w s h =
      raised-handled (reset w.unwatched s).0 e (reset w.unwatched s).1 (reset-safe w.unwatched s h)

  reset_unless-handled :
      (b : Bool) (e : PipelineError) (w : Wire Value) (s : Pipeline Value)
      → is_busy s ≡ true
      → handled (reset_unless b e w s).0 (reset_unless b e w s).1 ≡ true
  reset_unless-handled true e w s h = h
  reset_unless-handled false e w s h = reset_and-handled e w s (busy-safe s h)

  disconnected-busy : (s : Pipeline Value) → is_held s ≡ true → is_busy (disconnected s) ≡ true
  disconnected-busy s h = ground arith

  branch-handled :
      (b : Bool) (x y : Result PipelineError (Unit {0}) × Pipeline Value)
      → handled x.0 x.1 ≡ true
      → handled y.0 y.1 ≡ true
      → (let r = if b then x else y in handled r.0 r.1) ≡ true
  branch-handled true x y h k = h
  branch-handled false x y h k = k

  disconnect_reset_raise-handled :
      (c : Settings Value) (w : Wire Value) (e : PipelineError) (s : Pipeline Value)
      → is_held s ≡ true
      → handled (disconnect_reset_raise c w e s).0 (disconnect_reset_raise c w e s).1 ≡ true
  unfolding disconnect_reset_raise
  disconnect_reset_raise-handled c w e s h =
      let g = disconnected-busy s h in
      branch-handled s.watching (reset_and watch_error w (disconnected s))
        (reset_unless (c.retry_on_error e) e w (disconnected s))
        (reset_and-handled watch_error w (disconnected s) (busy-safe (disconnected s) g))
        (reset_unless-handled (c.retry_on_error e) e w (disconnected s) g)

  pub disconnect_raise_reset-handled :
      (c : Settings Value) (w : Wire Value) (e : PipelineError) (s : Pipeline Value)
      → is_held s ≡ true
      → handled (disconnect_raise_reset c w e s).0 (disconnect_raise_reset c w e s).1 ≡ true
  unfolding disconnect_raise_reset
  disconnect_raise_reset-handled c w e s h =
      let g = disconnected-busy s h in
      branch-handled s.watching (err watch_error, disconnected s)
        (reset_unless (c.retry_on_error e) e w (disconnected s)) (busy-safe (disconnected s) g)
        (reset_unless-handled (c.retry_on_error e) e w (disconnected s) g)

  leased-next :
      {A : Type 0} (b : Bool) (io : Result ReadError (Unit {0}))
      (next : Action PipelineError (Pipeline Value) A) (s : Pipeline Value)
      → b ≡ s.has_connection
      → is_safe s ≡ true
      → ((t : Pipeline Value) → is_busy t ≡ true → is_safe (next t).1 ≡ true)
      → is_safe ((leased b io >> next) s).1 ≡ true
  leased-next true io next s q h k = k s (ground arith)
  leased-next false (ok _) next s q h k = k (record s { has_connection = true }) (ground arith)
  leased-next false (err e) next s q h k = h

  pub connect-next :
      {A : Type 0} (io : Result ReadError (Unit {0}))
      (next : Action PipelineError (Pipeline Value) A) (s : Pipeline Value)
      → is_safe s ≡ true
      → ((t : Pipeline Value) → is_busy t ≡ true → is_safe (next t).1 ≡ true)
      → is_safe ((connect io >> next) s).1 ≡ true
  unfolding connect
  connect-next io next s h k = leased-next s.has_connection io next s refl h k

  pub immediate-safe :
      (c : Settings Value) (x : Command Value) (io : Session Value) (s : Pipeline Value)
      → is_safe s ≡ true
      → is_safe (immediate_execute_command c x io s).1 ≡ true
  unfolding immediate_execute_command
  immediate-safe c x io s h =
      connect-next io.lease
        (call_with_retry (is_supported c) (send_command_parse_response c x)
          (disconnect_reset_raise c) io.wires c.retries 0)
        s h
        (λ t g.
          call_with_retry-safe c (send_command_parse_response c x) (disconnect_reset_raise c)
            io.wires c.retries 0 t (send_command-tested c x) (disconnect_reset_raise-handled c) g)
