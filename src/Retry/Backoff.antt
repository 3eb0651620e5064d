-- ===== src/Retry/Backoff.antt =====
-- redis/backoff.py: the policies. Times are whole numbers of some unit; where the source divides, so do
-- they, and the rest of the division is dropped. What `random.uniform` draws is a parameter.
use redis_py.Common.{ℕ, ◌+◌, ◌*◌, ◌/◌, ◌≤◌, ◌≡◌, refl, leb, arith, if◌then◌else◌}
use Prim.Native.Nat.{◌^◌}

abbrev pub min : ℕ → ℕ → ℕ
min a b = if leb a b then a else b

abbrev pub max : ℕ → ℕ → ℕ
max a b = if leb a b then b else a

-- `random.uniform(a, b)` for the draw that stands in the argument: a number between the two.
pub record Uniform : Type 0 where
  pub uniform : ℕ → ℕ → ℕ
  pub lower : (a b : ℕ) → a ≤ b → a ≤ uniform a b
  pub upper : (a b : ℕ) → a ≤ b → uniform a b ≤ b

pub data Backoff : Type 0 where
  constant_backoff : ℕ → Backoff
  exponential_backoff full_jitter_backoff equal_jitter_backoff exponential_with_jitter_backoff :
      ℕ → ℕ → Backoff
  decorrelated_jitter_backoff : ℕ → ℕ → ℕ → Backoff

abbrev pub no_backoff : Backoff
no_backoff = constant_backoff 0

-- Only the decorrelated policy has a state, `_previous_backoff`.
unfoldable pub reset : Backoff → Backoff
reset (decorrelated_jitter_backoff cap base previous) = decorrelated_jitter_backoff cap base 0
reset b = b

abbrev pub exponential : ℕ → ℕ → ℕ → ℕ
exponential cap base failures = min cap (base * 2 ^ failures)

unfoldable pub compute : Uniform → ℕ → Backoff → ℕ × Backoff
compute r failures (constant_backoff backoff) = (backoff, constant_backoff backoff)
compute r failures (exponential_backoff cap base) =
    (exponential cap base failures, exponential_backoff cap base)
compute r failures (full_jitter_backoff cap base) =
    (r.uniform 0 (exponential cap base failures), full_jitter_backoff cap base)
compute r failures (equal_jitter_backoff cap base) =
    let temp = exponential cap base failures / 2 in
    (temp + r.uniform 0 temp, equal_jitter_backoff cap base)
compute r failures (exponential_with_jitter_backoff cap base) =
    (min cap (r.uniform 0 (base * 2 ^ failures)), exponential_with_jitter_backoff cap base)
compute r failures (decorrelated_jitter_backoff cap base previous) =
    let backoff = min cap (r.uniform base (max base (previous * 3))) in
    (backoff, decorrelated_jitter_backoff cap base backoff)

-- the longest wait of a policy
abbrev pub cap_of : Backoff → ℕ
cap_of (constant_backoff backoff) = backoff
cap_of (exponential_backoff cap base) = cap
cap_of (full_jitter_backoff cap base) = cap
cap_of (equal_jitter_backoff cap base) = cap
cap_of (exponential_with_jitter_backoff cap base) = cap
cap_of (decorrelated_jitter_backoff cap base previous) = cap

-- No policy waits longer than its cap, whatever is drawn and however many failures there were, and
-- its cap stays.
pub compute-cap :
    (r : Uniform) (failures : ℕ) (b : Backoff)
    → ((compute r failures b).0 ≤ cap_of b) × (cap_of (compute r failures b).1 ≡ cap_of b)
unfolding compute
compute-cap r n (constant_backoff backoff) = (ground arith, refl)
compute-cap r n (exponential_backoff cap base) = (ground arith, refl)
compute-cap r n (full_jitter_backoff cap base) =
    (ground (arith, r.upper 0 (exponential cap base n)), refl)
compute-cap r n (equal_jitter_backoff cap base) =
    (ground (arith, r.upper 0 (exponential cap base n / 2)), refl)
compute-cap r n (exponential_with_jitter_backoff cap base) = (ground arith, refl)
compute-cap r n (decorrelated_jitter_backoff cap base previous) = (ground arith, refl)
