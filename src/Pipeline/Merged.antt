-- ===== src/Pipeline/Merged.antt =====
-- redis/client.py: the responses of a transaction, with those of the commands that were not sent.
use redis_py.Common.{
  ℕ, zero, suc, ◌≤◌, ◌≡◌, refl, sym, ◌∙◌, ap, Bool, false, Option, none, some, Option-cases, inl,
  inr, List, [], ◌∷◌, ◌++◌, length, arith, ==_iff,
}
use mathlib.Core.List.{append-nil, append_assoc}
use redis_py.Common.Outcome.{Result, ok}
use redis_py.Pipeline.State.{ReadError, Command, Pipeline, Settings, placeholder, parse_response}
use redis_py.Pipeline.Transaction.{
  Item, insert, inserted, queue_one, queue_all, finished, called_all, checked_first, if_no_error,
  execute_transaction,
}

insert-suc :
    {A : Type 0} (i : ℕ) (a : A) (xs : List A) → length xs ≤ i → insert (suc i) a xs ≡ insert i a xs
unfolding insert
insert-suc zero a [] h = refl
insert-suc (suc i) a [] h = refl
insert-suc zero a (x ∷ xs) h = elim h [ ]
insert-suc (suc i) a (x ∷ xs) h = ap (λ ys. x ∷ ys) (insert-suc i a xs (ground arith))

length-insert :
    {A : Type 0} (i : ℕ) (a : A) (xs : List A) → length (insert i a xs) ≡ suc (length xs)
unfolding insert
length-insert zero a xs = refl
length-insert (suc i) a [] = refl
length-insert (suc i) a (x ∷ xs) = ap suc (length-insert i a xs)

module _ {Value : Type 0} where
  -- The responses of commands, each with its own response or with the next one of the server.
  abbrev pub merged_with :
      Option Value → (List (Item Value) → List (Item Value)) → List (Item Value) → List (Item Value)
  merged_with (some v) rest rs = ok v ∷ rest rs
  merged_with none rest [] = rest []
  merged_with none rest (r ∷ rs) = r ∷ rest rs

  unfoldable pub merged : List (Command Value) → List (Item Value) → List (Item Value)
  merged [] rs = rs
  merged (c ∷ cs) rs = merged_with c.empty_response (merged cs) rs

  abbrev own_response : ℕ → Option Value → List (ℕ × Item Value) → List (ℕ × Item Value)
  own_response i (some v) rest = (i, ok v) ∷ rest
  own_response i none rest = rest

  -- The commands that are not sent, with their responses.
  unfoldable own_responses : ℕ → List (Command Value) → List (ℕ × Item Value)
  own_responses i [] = []
  own_responses i (c ∷ cs) = own_response i c.empty_response (own_responses (suc i) cs)

  -- What the server answers to the commands that are sent, before EXEC.
  abbrev queued_with :
      Option Value → Value → List (Result ReadError Value) → List (Result ReadError Value)
  queued_with (some v) q rest = rest
  queued_with none q rest = ok q ∷ rest

  unfoldable pub queued : Value → List (Command Value) → List (Result ReadError Value)
  queued q [] = []
  queued q (c ∷ cs) = queued_with c.empty_response q (queued q cs)

  inserted-cons :
      (i : ℕ) (cs : List (Command Value)) (x : Item Value) (xs : List (Item Value))
      → inserted (own_responses (suc i) cs) (x ∷ xs) ≡ x ∷ inserted (own_responses i cs) xs
  unfolding inserted own_responses insert
  inserted-cons i [] x xs = refl
  inserted-cons i (c ∷ cs) x xs = elim (Option-cases c.empty_response) [
    | inl q ↦ rw q (inserted-cons (suc i) cs x xs)
    | inr (v, q) ↦ rw q (inserted-cons (suc i) cs x (insert i (ok v) xs))
  ]

  inserted-suc :
      (i : ℕ) (cs : List (Command Value)) (xs : List (Item Value))
      → length xs ≤ i
      → inserted (own_responses (suc i) cs) xs ≡ inserted (own_responses i cs) xs
  unfolding inserted own_responses
  inserted-suc i [] xs h = refl
  inserted-suc i (c ∷ cs) xs h = elim (Option-cases c.empty_response) [
    | inl q ↦ rw q (inserted-suc (suc i) cs xs (ground arith))
    | inr (v, q) ↦ rw q (
        ap (λ ys. inserted (own_responses (suc (suc i)) cs) ys) (insert-suc i (ok v) xs h)
        ∙ inserted-suc (suc i) cs (insert i (ok v) xs) (ground (arith, length-insert i (ok v) xs)))
  ]

  unsent :
      (cs : List (Command Value)) (rs : List (Item Value))
      → ((rs : List (Item Value)) → inserted (own_responses 0 cs) rs ≡ merged cs rs)
      → inserted (own_responses 1 cs) rs ≡ merged_with none (merged cs) rs
  unsent cs [] h = inserted-suc 0 cs [] (ground arith) ∙ h []
  unsent cs (r ∷ rs) h = inserted-cons 0 cs r rs ∙ ap (λ t. r ∷ t) (h rs)

  inserted-merged :
      (cs : List (Command Value)) (rs : List (Item Value))
      → inserted (own_responses 0 cs) rs ≡ merged cs rs
  unfolding inserted own_responses merged insert
  inserted-merged [] rs = refl
  inserted-merged (c ∷ cs) rs = elim (Option-cases c.empty_response) [
    | inl q ↦ rw q (unsent cs rs (inserted-merged cs))
    | inr (v, q) ↦ rw q (inserted-cons 0 cs (ok v) rs ∙ ap (λ t. ok v ∷ t) (inserted-merged cs rs))
  ]

  length-merged_with :
      (o : Option Value) (cs : List (Command Value)) (q : Value) (rs : List (Item Value))
      → ((rs : List (Item Value))
          → length rs ≡ length (queued q cs)
          → length (merged cs rs) ≡ length cs)
      → length rs ≡ length (queued_with o q (queued q cs))
      → length (merged_with o (merged cs) rs) ≡ suc (length cs)
  length-merged_with none cs q [] h n = omega arith
  length-merged_with none cs q (r ∷ rs) h n = ap suc (h rs (omega arith))
  length-merged_with (some v) cs q rs h n = ap suc (h rs n)

  length-merged :
      (cs : List (Command Value)) (q : Value) (rs : List (Item Value))
      → length rs ≡ length (queued q cs)
      → length (merged cs rs) ≡ length cs
  unfolding merged queued
  length-merged [] q rs h = h
  length-merged (c ∷ cs) q rs h = length-merged_with c.empty_response cs q rs (length-merged cs q) h

  queued_with-append :
      (o : Option Value) (q : Value) (xs ys : List (Result ReadError Value))
      → queued_with o q xs ++ ys ≡ queued_with o q (xs ++ ys)
  queued_with-append none q xs ys = refl
  queued_with-append (some v) q xs ys = refl

  queue_one-own_response :
      (c : Settings Value) (i : ℕ) (x : Command Value) (o : Option Value) (q : Value)
      (rest : List (Result ReadError Value)) (errors : List (ℕ × Item Value)) (s : Pipeline Value)
      → queue_one c i x o errors (record s { incoming = queued_with o q rest })
        ≡ (ok (errors ++ own_response i o []), record s { incoming = rest })
  unfolding parse_response
  queue_one-own_response c i x (some v) q rest errors s = refl
  queue_one-own_response c i x none q rest errors s =
      ap (λ es. (ok es, record s { incoming = rest })) (sym (append-nil errors))

  own_response-append :
      (i : ℕ) (o : Option Value) (errors rest : List (ℕ × Item Value))
      → (errors ++ own_response i o []) ++ rest ≡ errors ++ own_response i o rest
  own_response-append i none errors rest = ap (λ es. es ++ rest) (append-nil errors)
  own_response-append i (some v) errors rest = append_assoc errors ((i, ok v) ∷ []) rest

  -- The commands are queued, and those that are not sent are noted.
  queue_all-own_responses :
      (c : Settings Value) (i : ℕ) (cs : List (Command Value)) (q : Value)
      (rest : List (Result ReadError Value)) (errors : List (ℕ × Item Value)) (s : Pipeline Value)
      → queue_all c i cs errors (record s { incoming = queued q cs ++ rest })
        ≡ (ok (errors ++ own_responses i cs), record s { incoming = rest })
  unfolding queue_all queued own_responses
  queue_all-own_responses c i [] q rest errors s =
      ap (λ es. (ok es, record s { incoming = rest })) (sym (append-nil errors))
  queue_all-own_responses c i (x ∷ cs) q rest errors s =
      rw
        (
          queued_with-append x.empty_response q (queued q cs) rest,
          queue_one-own_response c i x x.empty_response q (queued q cs ++ rest) errors s,
        )
        (queue_all-own_responses c (suc i) cs q rest (errors ++ own_response i x.empty_response [])
            s
          ∙ ap (λ es. (ok es, record s { incoming = rest }))
              (own_response-append i x.empty_response errors (own_responses (suc i) cs)))

  finished_lem :
      (c : Settings Value) (cs : List (Command Value)) (raise_on_error : Bool) (q v : Value)
      (s : Pipeline Value)
      → c.is_none v ≡ false
      → length (c.items v) ≡ length (queued q cs)
      → finished c cs raise_on_error (own_responses 0 cs) v s ≡ (
        if_no_error
            (called_all c (merged cs (c.items v)) cs)
            (checked_first raise_on_error cs (merged cs (c.items v))),
        record s { watching = false; is_watched = false },
      )
  unfolding finished
  finished_lem c cs raise_on_error q v s n l =
      rw
        (
          n,
          inserted-merged cs (c.items v),
          (==_iff (length (merged cs (c.items v))) (length cs)).1
              (length-merged cs q (c.items v) l),
        )
        refl

  -- The server takes a transaction: the result is, for each command in the order of the stack, its own
  -- response where it was not sent, else the server's next item, run through the response callback of
  -- the command; nothing is watched after it, and exactly the replies of the transaction are read. With
  -- `raise_on_error` the first error among those is raised instead. The conditions: the send succeeds,
  -- MULTI and the commands that are sent are answered without an error, EXEC is answered with as many
  -- items as commands were sent, and not with none.
  pub execute_transaction-merged :
      (c : Settings Value) (cs : List (Command Value)) (raise_on_error : Bool) (m q x : Value)
      (rest : List (Result ReadError Value)) (u : Result ReadError (Unit {0})) (s : Pipeline Value)
      → c.is_none (c.response_callbacks placeholder x) ≡ false
      → length (c.items (c.response_callbacks placeholder x)) ≡ length (queued q cs)
      → execute_transaction c cs raise_on_error
          (record { send = ok tt; replies = ok m ∷ (queued q cs ++ (ok x ∷ rest)); unwatched = u })
          s
        ≡ (
          if_no_error (called_all c (merged cs (c.items (c.response_callbacks placeholder x))) cs) (
              checked_first raise_on_error cs
                (merged cs (c.items (c.response_callbacks placeholder x)))),
          record s { watching = false; is_watched = false; incoming = rest },
        )
  unfolding execute_transaction parse_response finished
  execute_transaction-merged c cs raise_on_error m q x rest u s n l =
      rw (queue_all-own_responses c 0 cs q (ok x ∷ rest) [] s) (
        finished_lem c cs raise_on_error q (c.response_callbacks placeholder x)
          (record s { incoming = rest }) n l)
