-- ===== src/Pipeline/Safety.antt =====
-- redis/client.py: what the server watches for the connection of a `Pipeline`, over any sequence of calls.
use redis_py.Pipeline.Retries.{
  call_with_retry-safe, connect-next, immediate-safe, disconnect_raise_reset-handled,
}
use redis_py.Common.{
  ℕ, suc, ◌≡◌, refl, Bool, true, false, not, ◌&&◌, ◌||◌, some, List, [], ◌∷◌, inl, inr, arith,
  if◌then◌else◌, All, ◌⊎◌, map, String,
}
use redis_py.Common.Outcome.{Result, ok, err, Action, ◌>>=◌, ◌>>◌, pure}
use redis_py.Pipeline.State.{
  PipelineError, ReadError, Command, Pipeline, Script, Settings, Wire, Session, reset, connect,
  script_exists, script_load, watch, unwatch, discard, redis_error,
}
use redis_py.Pipeline.Calls.{
  is_supported, call_with_retry, immediate_execute_command, pipeline_execute_command,
  execute_command, is_watch, spells_watch, command_of, set_sha, load_missing, load_scripts,
  is_staged, multi, watch_names, unwatch_all, discard_all,
}
use redis_py.Pipeline.Execute.{
  disconnect_raise_reset, has_scripts, load_if, execute_once, execute_and_reset, execute,
}
use redis_py.Pipeline.Watched.{is_safe, is_busy, reset-safe}
use redis_py.Pipeline.Attempts.{execute_once-tested}

Result-cases : {E A : Type 0} (r : Result E A) → ((a : A) × (r ≡ ok a)) ⊎ ((e : E) × (r ≡ err e))
Result-cases (ok a) = inl (a, refl)
Result-cases (err e) = inr (e, refl)

module _ {Value : Type 0} where
  safe-next :
      {A B : Type 0} (m : Action PipelineError (Pipeline Value) A)
      (f : A → Action PipelineError (Pipeline Value) B) (s : Pipeline Value)
      → is_safe (m s).1 ≡ true
      → ((a : A) (t : Pipeline Value) → is_safe t ≡ true → is_safe (f a t).1 ≡ true)
      → is_safe ((m >>= f) s).1 ≡ true
  safe-next m f s h k = elim (Result-cases (m s).0) [
    | inl (a, q) ↦ rw q (k a (m s).1 h)
    | inr (e, q) ↦ rw q h
  ]

  branch-safe :
      {A : Type 0} (b : Bool) (x y : Result PipelineError A × Pipeline Value)
      → is_safe x.1 ≡ true
      → is_safe y.1 ≡ true
      → is_safe (if b then x else y).1 ≡ true
  branch-safe true x y h k = h
  branch-safe false x y h k = k

  unless-safe :
      {A : Type 0} (b : Bool) (x y : Result PipelineError A × Pipeline Value)
      → is_safe x.1 ≡ true
      → (b ≡ false → is_safe y.1 ≡ true)
      → is_safe (if b then x else y).1 ≡ true
  unless-safe true x y h k = h
  unless-safe false x y h k = k refl

  execute_command-safe :
      (c : Settings Value) (x : Command Value) (io : Session Value) (s : Pipeline Value)
      → (spells_watch x.name || (is_watch x.name && s.explicit_transaction)) ≡ false
      → is_safe s ≡ true
      → is_safe (execute_command c x io s).1 ≡ true
  unfolding execute_command pipeline_execute_command
  execute_command-safe c x io s seen h = rw seen (
      branch-safe ((s.watching || is_watch x.name) && not s.explicit_transaction)
        ((immediate_execute_command c x io >>= λ v. pure (some v)) s) (pipeline_execute_command x s)
        (safe-next (immediate_execute_command c x io) (λ v. pure (some v)) s
          (immediate-safe c x io s h) (λ _ t g. g))
        h)

  load_missing-safe :
      (c : Settings Value) (ios : ℕ → Session Value) (n : ℕ) (xs : List Script) (bs : List Bool)
      (s : Pipeline Value)
      → is_safe s ≡ true
      → is_safe (load_missing c ios n xs bs s).1 ≡ true
  unfolding load_missing
  load_missing-safe c ios n [] bs s h = h
  load_missing-safe c ios n (x ∷ xs) [] s h = h
  load_missing-safe c ios n (x ∷ xs) (true ∷ bs) s h = load_missing-safe c ios (suc n) xs bs s h
  load_missing-safe c ios n (x ∷ xs) (false ∷ bs) s h =
      let load = immediate_execute_command c (command_of script_load (x.script ∷ [])) (ios n) in
      safe-next load (λ v. set_sha n (c.to_sha v) >> load_missing c ios (suc n) xs bs) s
        (immediate-safe c (command_of script_load (x.script ∷ [])) (ios n) s h)
        (λ v t g. load_missing-safe c ios (suc n) xs bs (set_sha n (c.to_sha v) t).1 g)

  load_if-safe :
      (b : Bool) (c : Settings Value) (io : Session Value) (ios : ℕ → Session Value)
      (s : Pipeline Value)
      → is_safe s ≡ true
      → is_safe (load_if b c io ios s).1 ≡ true
  unfolding load_scripts
  load_if-safe false c io ios s h = h
  load_if-safe true c io ios s h =
      let x = command_of script_exists (map (λ x. x.sha) s.scripts) in
      safe-next (immediate_execute_command c x io)
        (λ v. load_missing c ios 0 s.scripts (c.truths v)) s (immediate-safe c x io s h)
        (λ v t g. load_missing-safe c ios 0 s.scripts (c.truths v) t g)

  execute_and_reset-safe :
      (c : Settings Value) (stack : List (Command Value)) (b : Bool) (wires : ℕ → Wire Value)
      (last : Result ReadError (Unit {0})) (s : Pipeline Value)
      → is_busy s ≡ true
      → is_safe (execute_and_reset c stack b wires last s).1 ≡ true
  unfolding execute_and_reset
  execute_and_reset-safe c stack b wires last s h =
      let act = execute_once c (c.transaction || s.explicit_transaction) stack b in
      let t =
        (call_with_retry (is_supported c) act (disconnect_raise_reset c) wires c.retries 0 s).1 in
      reset-safe last t (
        call_with_retry-safe c act (disconnect_raise_reset c) wires c.retries 0 s
          (execute_once-tested c (c.transaction || s.explicit_transaction) stack b)
          (disconnect_raise_reset-handled c) h)

  execute-safe :
      (c : Settings Value) (b : Bool) (io : Session Value) (last : Result ReadError (Unit {0}))
      (scripts : Session Value) (ios : ℕ → Session Value) (s : Pipeline Value)
      → is_safe s ≡ true
      → is_safe (execute c b io last scripts ios s).1 ≡ true
  unfolding execute
  execute-safe c b io last scripts ios s h =
      let load = load_if (has_scripts s.scripts) c scripts ios in
      let act = execute_and_reset c s.command_stack b io.wires last in
      branch-safe (is_staged s.command_stack || s.watching)
        ((load >>= λ _. connect io.lease >> act) s) (ok [], s)
        (safe-next load (λ _. connect io.lease >> act) s
          (load_if-safe (has_scripts s.scripts) c scripts ios s h)
          (λ _ t g.
            connect-next io.lease act t g
              (execute_and_reset-safe c s.command_stack b io.wires last)))
        h

  multi-safe : (s : Pipeline Value) → is_safe s ≡ true → is_safe (multi s).1 ≡ true
  unfolding multi
  multi-safe s h =
      branch-safe (s.explicit_transaction || is_staged s.command_stack) (err redis_error, s)
        (ok tt, record s { explicit_transaction = true }) h h

  watch_names-safe :
      (c : Settings Value) (names : List String) (io : Session Value) (s : Pipeline Value)
      → is_safe s ≡ true
      → is_safe (watch_names c names io s).1 ≡ true
  unfolding watch_names spells_watch
  watch_names-safe c names io s h =
      unless-safe s.explicit_transaction (err redis_error, s)
        (execute_command c (command_of watch names) io s) h
        (λ outside. execute_command-safe c (command_of watch names) io s outside h)

  unwatch_all-safe :
      (c : Settings Value) (io : Session Value) (s : Pipeline Value)
      → is_safe s ≡ true
      → is_safe (unwatch_all c io s).1 ≡ true
  unfolding unwatch_all spells_watch
  unwatch_all-safe c io s h =
      let run = execute_command c (command_of unwatch []) io in
      branch-safe s.watching ((run >> pure tt) s) (ok tt, s)
        (safe-next run (λ _. pure tt) s (execute_command-safe c (command_of unwatch []) io s refl h)
          (λ _ t g. g))
        h

-- The methods of a pipeline, with what the sockets do during each.
pub data Method (Value : Type 0) : Type 0 where
  watches : List String → Session Value → Method Value
  unwatches discards : Session Value → Method Value
  multis : Method Value
  commands : Command Value → Session Value → Method Value
  executes :
      Bool
      → Session Value
      → Result ReadError (Unit {0})
      → Session Value
      → (ℕ → Session Value)
      → Method Value
  resets : Result ReadError (Unit {0}) → Method Value

module _ {Value : Type 0} where
  abbrev pub new_pipeline : Pipeline Value
  new_pipeline = record {
    command_stack = [];
    scripts = [];
    watching = false;
    explicit_transaction = false;
    has_connection = false;
    incoming = [];
    is_watched = false;
    is_leaked = false;
  }

  -- The pipeline after a method, whether it returned or raised.
  unfoldable pub after : Settings Value → Method Value → Pipeline Value → Pipeline Value
  after c (watches names io) s = (watch_names c names io s).1
  after c (unwatches io) s = (unwatch_all c io s).1
  after c (discards io) s = (discard_all c io s).1
  after c multis s = (multi s).1
  after c (commands x io) s = (execute_command c x io s).1
  after c (executes b io last scripts ios) s = (execute c b io last scripts ios s).1
  after c (resets io) s = (reset io s).1

  unfoldable pub after_all : Settings Value → List (Method Value) → Pipeline Value → Pipeline Value
  after_all c [] s = s
  after_all c (m ∷ ms) s = after_all c ms (after c m s)

  -- `execute_command` is given no WATCH, and no command that the server reads as WATCH or MULTI.
  abbrev pub WatchesByName : Method Value → Type 0
  WatchesByName (watches names io) = Unit
  WatchesByName (unwatches io) = Unit
  WatchesByName (discards io) = Unit
  WatchesByName multis = Unit
  WatchesByName (commands x io) = (spells_watch x.name || is_watch x.name) ≡ false
  WatchesByName (executes b io last scripts ios) = Unit
  WatchesByName (resets io) = Unit

  after-safe :
      (c : Settings Value) (m : Method Value) (s : Pipeline Value)
      → WatchesByName m
      → is_safe s ≡ true
      → is_safe (after c m s) ≡ true
  unfolding after discard_all spells_watch
  after-safe c (watches names io) s u h = watch_names-safe c names io s h
  after-safe c (unwatches io) s u h = unwatch_all-safe c io s h
  after-safe c (discards io) s u h = execute_command-safe c (command_of discard []) io s refl h
  after-safe c multis s u h = multi-safe s h
  after-safe c (commands x io) s u h = execute_command-safe c x io s (ground (arith, u)) h
  after-safe c (executes b io last scripts ios) s u h = execute-safe c b io last scripts ios s h
  after-safe c (resets io) s u h = reset-safe io s h

  after_all-safe :
      (c : Settings Value) (ms : List (Method Value)) (s : Pipeline Value)
      → All WatchesByName ms
      → is_safe s ≡ true
      → is_safe (after_all c ms s) ≡ true
  unfolding after_all
  after_all-safe c [] s u h = h
  after_all-safe c (m ∷ ms) s (u, us) h =
      after_all-safe c ms (after c m s) us (after-safe c m s u h)

  not_leaked : (s : Pipeline Value) → is_safe s ≡ true → s.is_leaked ≡ false
  not_leaked s h = ground arith

  -- However the methods of a new pipeline are called, and whatever is sent, answered, lost or retried
  -- in them, no connection has gone back to the pool while the server may watch keys for it: where keys
  -- are watched by `watch` alone, and `execute_command` is given neither a WATCH nor a MULTI, in any
  -- spelling.
  pub after_all-is_leaked :
      (c : Settings Value) (ms : List (Method Value))
      → All WatchesByName ms
      → (after_all c ms new_pipeline).is_leaked ≡ false
  after_all-is_leaked c ms u =
      not_leaked (after_all c ms new_pipeline) (after_all-safe c ms new_pipeline u refl)
