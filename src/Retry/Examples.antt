-- ===== src/Retry/Examples.antt =====
-- Runs of `call_with_retry` with failures.
use redis_py.Common.{
  ℕ, ◌≤◌, ◌≡◌, refl, Bool, Option, none, some, List, [], ◌∷◌, arith, All, ltb, length,
}
use redis_py.Common.Outcome.{Result, ok, err}
use redis_py.Retry.Backoff.{Uniform, exponential_backoff}
use redis_py.Retry.Calls.{
  call_with_retry, call_with_retry-expected, call_with_retry-sleeps, expected,
}

-- the draw is the upper end
abbrev highest : Uniform
highest = record { uniform = λ a b. b; lower = λ a b h. h; upper = λ a b h. ground arith }

abbrev is_supported : ℕ → Bool
is_supported e = ltb e 5

abbrev fail : ℕ → Option ℕ
fail e = none

abbrev answers : List (Result ℕ ℕ)
answers = err 1 ∷ err 2 ∷ ok 7 ∷ []

call_with_retry-expected_example :
    (call_with_retry is_supported fail
      (λ n. highest)
      (some 1)
      (exponential_backoff 512 8)
      answers).0
    ≡ some (err 2)
unfolding expected
call_with_retry-expected_example =
    call_with_retry-expected is_supported fail (λ n. highest) 1 (exponential_backoff 512 8) answers
      (λ e. refl)

call_with_retry-sleeps_example :
    (length
        (call_with_retry is_supported fail
          (λ n. highest)
          (some 1)
          (exponential_backoff 512 8)
          answers).1
      ≤ 1)
    × All
        (λ t. t ≤ 512)
        (call_with_retry is_supported fail
          (λ n. highest)
          (some 1)
          (exponential_backoff 512 8)
          answers).1
call_with_retry-sleeps_example =
    call_with_retry-sleeps is_supported fail (λ n. highest) 1 (exponential_backoff 512 8) answers
