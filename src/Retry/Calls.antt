-- ===== src/Retry/Calls.antt =====
-- redis/retry.py: `Retry.call_with_retry`. What the calls of `do` answer, one after the other, stands in
-- a list.
use Prim.Native.Nat.{◌≤◌}
use Prim.Native.Nat.{◌-◌}
use redis_py.Common.{
  ℕ, zero, suc, ◌+◌, ◌≤◌, ◌≡◌, refl, Bool, true, false, Bool-cases, List, [], ◌∷◌, Option, none,
  some, ltb, length, arith, All, inl, inr, if◌then◌else◌, subst, lt→ltb, le→ltb,
}
use redis_py.Common.Outcome.{Result, ok, err}
use redis_py.Retry.Backoff.{
  Backoff, Uniform, compute, reset, cap_of, compute-cap, constant_backoff, exponential_backoff,
  full_jitter_backoff, equal_jitter_backoff, exponential_with_jitter_backoff,
  decorrelated_jitter_backoff,
}

-- `self._retries >= 0 and failures > self._retries`, where `none` is a negative number
abbrev pub is_exhausted : Option ℕ → ℕ → Bool
is_exhausted none failures = false
is_exhausted (some retries) failures = ltb retries failures

-- `if backoff > 0: sleep(backoff)`
abbrev pub slept : ℕ → List ℕ → List ℕ
slept zero sleeps = sleeps
slept (suc n) sleeps = suc n ∷ sleeps

slept-IsCapped :
    (cap t : ℕ) (ts : List ℕ) → t ≤ cap → All (λ t. t ≤ cap) ts → All (λ t. t ≤ cap) (slept t ts)
slept-IsCapped cap zero ts h hs = hs
slept-IsCapped cap (suc t) ts h hs = (h, hs)

length-slept : (t : ℕ) (ts : List ℕ) → length (slept t ts) ≤ suc (length ts)
length-slept zero ts = ground arith
length-slept (suc t) ts = ground arith

pub reset-cap : (b : Backoff) → cap_of (reset b) ≡ cap_of b
unfolding reset
reset-cap (constant_backoff x) = refl
reset-cap (exponential_backoff cap base) = refl
reset-cap (full_jitter_backoff cap base) = refl
reset-cap (equal_jitter_backoff cap base) = refl
reset-cap (exponential_with_jitter_backoff cap base) = refl
reset-cap (decorrelated_jitter_backoff cap base p) = refl

-- The handler: `fail` may raise too; `rest` is what the next turn of the loop gives.
abbrev pub failed :
    {E A : Type 0}
    → Option E
    → E
    → Bool
    → ℕ
    → Option (Result E A) × List ℕ
    → Option (Result E A) × List ℕ
failed (some x) e exhausted backoff rest = (some (err x), [])
failed none e true backoff rest = (some (err e), [])
failed none e false backoff rest = (rest.0, slept backoff rest.1)

module _ {E A : Type 0} (is_supported : E → Bool) (fail : E → Option E) (draw : ℕ → Uniform) where
  -- The result, and the sleeps in their order; `none` where the answers do not suffice.
  unfoldable pub attempts :
      Option ℕ → ℕ → Backoff → List (Result E A) → Option (Result E A) × List ℕ
  attempts retries failures b [] = (none, [])
  attempts retries failures b (ok a ∷ answers) = (some (ok a), [])
  attempts retries failures b (err e ∷ answers) =
      let (backoff, c) = compute (draw (suc failures)) (suc failures) b in
      let rest = attempts retries (suc failures) c answers in
      if is_supported e
      then failed (fail e) e (is_exhausted retries (suc failures)) backoff rest
      else (some (err e), [])

  unfoldable pub call_with_retry :
      Option ℕ → Backoff → List (Result E A) → Option (Result E A) × List ℕ
  call_with_retry retries b answers = attempts retries 0 (reset b) answers

  -- The first final answer of the first `n` after the first call, or the last of these answers.
  unfoldable pub expected : ℕ → List (Result E A) → Option (Result E A)
  expected n [] = none
  expected n (ok a ∷ answers) = some (ok a)
  expected zero (err e ∷ answers) = some (err e)
  expected (suc n) (err e ∷ answers) =
      let rest = expected n answers in if is_supported e then rest else some (err e)

  attempts-expected :
      (n failures k : ℕ) (b : Backoff) (answers : List (Result E A))
      → ((e : E) → fail e ≡ none)
      → n ≡ failures + k
      → (attempts (some n) failures b answers).0 ≡ expected k answers
  unfolding attempts expected
  attempts-expected n f k b [] h q = refl
  attempts-expected n f k b (ok a ∷ answers) h q = refl
  attempts-expected n f zero b (err e ∷ answers) h q = elim (Bool-cases (is_supported e)) [
    | inl s ↦ rw (attempts, s, h e, lt→ltb n (suc f) (ground arith)) refl
    | inr s ↦ rw (attempts, s) refl
  ]
  attempts-expected n f (suc k) b (err e ∷ answers) h q = elim (Bool-cases (is_supported e)) [
    | inl s ↦
        rw (attempts, s, h e, le→ltb n (suc f) (ground arith))
          (attempts-expected n (suc f) k (compute (draw (suc f)) (suc f) b).1 answers h
            (ground arith))
    | inr s ↦ rw (attempts, s) refl
  ]

  -- A `Retry` with `retries` not negative returns or raises what the first final answer is, success or an
  -- error that is not retried, if it is one of the first `retries` + 1; otherwise the last of these. This
  -- is where the handler `fail` does not raise.
  pub call_with_retry-expected :
      (retries : ℕ) (b : Backoff) (answers : List (Result E A))
      → ((e : E) → fail e ≡ none)
      → (call_with_retry (some retries) b answers).0 ≡ expected retries answers
  unfolding call_with_retry
  call_with_retry-expected retries b answers h =
      attempts-expected retries 0 retries (reset b) answers h (ground arith)

  failed-sleeps :
      (cap n : ℕ) (o : Option E) (e : E) (exhausted : Bool) (t : ℕ)
      (rest : Option (Result E A) × List ℕ)
      → t ≤ cap
      → (exhausted ≡ false → (suc (length rest.1) ≤ n))
      → All (λ t. t ≤ cap) rest.1
      → (length (failed o e exhausted t rest).1 ≤ n)
        × All (λ t. t ≤ cap) (failed o e exhausted t rest).1
  failed-sleeps cap n (some x) e exhausted t rest c l h = (ground arith, tt)
  failed-sleeps cap n none e true t rest c l h = (ground arith, tt)
  failed-sleeps cap n none e false t rest c l h =
      (ground (arith, length-slept t rest.1, l refl), slept-IsCapped cap t rest.1 c h)

  attempts-sleeps :
      (n failures : ℕ) (b : Backoff) (answers : List (Result E A))
      → (length (attempts (some n) failures b answers).1 ≤ n - failures)
        × All (λ t. t ≤ cap_of b) (attempts (some n) failures b answers).1
  unfolding attempts
  attempts-sleeps n f b [] = (ground arith, tt)
  attempts-sleeps n f b (ok a ∷ answers) = (ground arith, tt)
  attempts-sleeps n f b (err e ∷ answers) = elim (Bool-cases (is_supported e)) [
    | inl s ↦
        let (c, same) = compute-cap (draw (suc f)) (suc f) b in
        let next = (compute (draw (suc f)) (suc f) b).1 in
        let (few, small) = attempts-sleeps n (suc f) next answers in
        rw (attempts, s)
          (failed-sleeps (cap_of b) (n - f) (fail e) e (ltb n (suc f))
            (compute (draw (suc f)) (suc f) b).0 (attempts (some n) (suc f) next answers) c
            (λ l. ground (arith, few))
            (subst (λ x. All (λ t. t ≤ x) (attempts (some n) (suc f) next answers).1) same small))
    | inr s ↦ rw (attempts, s) (ground arith, tt)
  ]

  -- With `retries` not negative `call_with_retry` sleeps at most `retries` times, and never longer than
  -- the cap of its policy, whatever the calls answer and the handler does.
  pub call_with_retry-sleeps :
      (retries : ℕ) (b : Backoff) (answers : List (Result E A))
      → (length (call_with_retry (some retries) b answers).1 ≤ retries)
        × All (λ t. t ≤ cap_of b) (call_with_retry (some retries) b answers).1
  unfolding call_with_retry
  call_with_retry-sleeps retries b answers =
      let (few, small) = attempts-sleeps retries 0 (reset b) answers in
      (
        ground arith,
        subst (λ x. All (λ t. t ≤ x) (attempts (some retries) 0 (reset b) answers).1) (reset-cap b)
            small,
      )
