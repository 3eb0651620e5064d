-- ===== src/Pipeline/Examples.antt =====
-- Pipelines on numbers: a transaction after a WATCH, and one with a command that is not sent.
use redis_py.Common.{ℕ, ◌≡◌, refl, Bool, true, false, none, some, List, [], ◌∷◌, ◌++◌, map}
use redis_py.Common.Outcome.{ok, err}
use redis_py.Pipeline.State.{Command, Pipeline, Settings, Session, connection_error, other}
use redis_py.Pipeline.Transaction.{
  Item, called_all, checked_first, if_no_error, execute_transaction,
}
use redis_py.Pipeline.Calls.{spells_watch}
use redis_py.Resp.Encode.{split}
use redis_py.Pipeline.Execute.{execute}
use redis_py.Pipeline.Merged.{merged, queued, execute_transaction-merged}
use redis_py.Pipeline.Finally.{IsReset, execute-IsReset}
use redis_py.Pipeline.Safety.{
  Method, watches, commands, executes, new_pipeline, after_all, after_all-is_leaked,
}

data Value : Type 0 where
  nil : Value
  number : ℕ → Value
  array : List ℕ → Value

abbrev elements : Value → List (Item Value)
elements nil = []
elements (number n) = []
elements (array ns) = map (λ n. ok (number n)) ns

abbrev is_nil : Value → Bool
is_nil nil = true
is_nil (number n) = false
is_nil (array ns) = false

abbrev settings : Settings Value
settings = record {
  transaction = true;
  response_callbacks = λ name v. v;
  is_none = is_nil;
  items = elements;
  truths = λ v. [];
  to_sha = λ v. "";
  retry_on_error = λ e. false;
  retries = 1;
}

abbrev get : Command Value
get = record { name = other "GET"; args = "GET" ∷ "a" ∷ []; empty_response = none }

-- An MGET of no keys
abbrev mget : Command Value
mget = record { name = other "MGET"; args = "MGET" ∷ []; empty_response = some (array []) }

abbrev staged : List (Command Value)
staged = get ∷ mget ∷ get ∷ []

execute_transaction-merged_example :
    execute_transaction settings staged false
      (record {
        send = ok tt;
        replies = ok nil ∷ (queued nil staged ++ (ok (array (7 ∷ 8 ∷ [])) ∷ []));
        unwatched = ok tt;
      })
      new_pipeline
    ≡ (
      if_no_error
          (called_all settings (merged staged (elements (array (7 ∷ 8 ∷ [])))) staged)
          (checked_first false staged (merged staged (elements (array (7 ∷ 8 ∷ []))))),
      record new_pipeline { watching = false; is_watched = false; incoming = [] },
    )
unfolding queued
execute_transaction-merged_example =
    execute_transaction-merged settings staged false nil nil (array (7 ∷ 8 ∷ [])) [] (ok tt)
      new_pipeline refl refl

merged-staged :
    merged staged (elements (array (7 ∷ 8 ∷ [])))
    ≡ ok (number 7) ∷ ok (array []) ∷ ok (number 8) ∷ []
unfolding merged
merged-staged = refl

-- The answer to WATCH is read; the transaction loses its connection.
abbrev answered_once : Session Value
answered_once = record {
  lease = ok tt;
  wires = λ n. record { send = ok tt; replies = ok nil ∷ []; unwatched = ok tt };
}

abbrev lost : Session Value
lost = record {
  lease = ok tt;
  wires = λ n. record { send = err connection_error; replies = []; unwatched = ok tt };
}

abbrev methods : List (Method Value)
methods =
    watches ("a" ∷ []) answered_once
    ∷ commands get answered_once
    ∷ executes true lost (ok tt) answered_once (λ n. answered_once)
    ∷ []

after_all-is_leaked_example : (after_all settings methods new_pipeline).is_leaked ≡ false
unfolding split spells_watch
after_all-is_leaked_example = after_all-is_leaked settings methods (tt, (refl, (tt, tt)))

abbrev with_get : Pipeline Value
with_get = record new_pipeline { command_stack = get ∷ []; explicit_transaction = true }

execute-IsReset_example :
    IsReset (execute settings true lost (ok tt) answered_once (λ n. answered_once) with_get).1
execute-IsReset_example =
    execute-IsReset settings true lost (ok tt) answered_once (λ n. answered_once) with_get refl refl
      refl refl
