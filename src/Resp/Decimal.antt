-- ===== src/Resp/Decimal.antt =====
-- Python's `str(n)` on lengths, `int(b)` on the bytes of a header, and that they are inverse.
-- `int` here reads an optional sign and digits; the blanks and underscores that Python also takes
-- are refused.
use redis_py.Common.{
  ℕ, zero, suc, ◌+◌, ◌-◌, ◌*◌, ◌/◌, ◌%◌, ◌≤◌, ◌<◌, ◌≡◌, refl, ◌≢◌, inl, inr, Bool, ◌&&◌, Option,
  none, some, List, [], ◌∷◌, ◌++◌, arith, ltb, leb, if◌then◌else◌, Bool-cases, All,
}
use redis_py.Common.Equality.{◌==◌, ℕ_Eq}
use mathlib.Core.Option

abbrev pub Bytes : Type 0
Bytes = List ℕ

-- `negsuc n` is -(n + 1).
pub data ℤ : Type 0 where
  pos : ℕ → ℤ
  negsuc : ℕ → ℤ

abbrev is_digit : ℕ → Bool
is_digit c = leb b'0' c && leb c b'9'

decimal_from : ℕ → ℕ → Bytes
decimal_from zero n = []
decimal_from (suc fuel) n =
    let rest = decimal_from fuel (n / 10) ++ (b'0' + n % 10) ∷ [] in
    if ltb n 10 then (b'0' + n) ∷ [] else rest

-- `str(n).encode()`; a number has fewer digits than its value plus one.
unfoldable pub decimal : ℕ → Bytes
unfolding decimal_from
decimal n = decimal_from (suc n) n

digits : ℕ → Bytes → Option ℕ
digits acc [] = some acc
digits acc (c ∷ cs) = if is_digit c then digits (acc * 10 + (c - b'0')) cs else none

number : Bytes → Option ℕ
unfolding digits
number [] = none
number (c ∷ cs) = digits 0 (c ∷ cs)

abbrev negated : ℕ → ℤ
negated zero = pos 0
negated (suc n) = negsuc n

-- `int(b)`; `none` is `ValueError`.
unfoldable pub int : Bytes → Option ℤ
unfolding number
int [] = none
int (c ∷ cs) =
    if c == b'-'
    then Option.map negated (number cs)
    else if c == b'+'
    then Option.map pos (number cs)
    else Option.map pos (number (c ∷ cs))

digits-append :
    (acc : ℕ) (xs ys : Bytes) {n : ℕ} → digits acc xs ≡ some n → digits acc (xs ++ ys) ≡ digits n ys
unfolding digits
digits-append acc [] ys h = ground arith
digits-append acc (c ∷ cs) ys {n} h =
    ground (arith, digits-append (acc * 10 + (c - b'0')) cs ys {n = n})

digits-decimal_from : (fuel n : ℕ) → n < fuel → digits 0 (decimal_from fuel n) ≡ some n
unfolding decimal_from digits
digits-decimal_from zero n h = absurd (omega arith)
digits-decimal_from (suc fuel) n h = elim (Bool-cases (ltb n 10)) [
  | inl e ↦ ground (arith, e)
  | inr e ↦
      rw
        (
          e,
          digits-append 0 (decimal_from fuel (n / 10)) ((b'0' + n % 10) ∷ [])
              (digits-decimal_from fuel (n / 10) (ground (arith, e))),
        )
        (ground arith)
]

abbrev pub IsDigit : ℕ → Type 0
IsDigit c = (b'0' ≤ c) × (c ≤ b'9')

All-append : (P : ℕ → Type 0) (xs ys : Bytes) → All P xs → All P ys → All P (xs ++ ys)
All-append P [] ys hx hy = hy
All-append P (x ∷ xs) ys hx hy = (hx.0, All-append P xs ys hx.1 hy)

decimal_from-IsDigit : (fuel n : ℕ) → All IsDigit (decimal_from fuel n)
unfolding decimal_from
decimal_from-IsDigit zero n = tt
decimal_from-IsDigit (suc fuel) n = elim (Bool-cases (ltb n 10)) [
  | inl e ↦ rw e (ground arith)
  | inr e ↦ rw e (
      All-append IsDigit (decimal_from fuel (n / 10)) ((b'0' + n % 10) ∷ [])
        (decimal_from-IsDigit fuel (n / 10)) (ground arith))
]

pub decimal-IsDigit : (n : ℕ) → All IsDigit (decimal n)
unfolding decimal
decimal-IsDigit n = decimal_from-IsDigit (suc n) n

int-digits :
    (ds : Bytes) {n : ℕ} → All IsDigit ds → digits 0 ds ≡ some n → ds ≢ [] → int ds ≡ some (pos n)
unfolding int
int-digits [] a h e = absurd (e refl)
int-digits (c ∷ cs) a h e = ground (arith, h)

append-ne-nil : (xs : Bytes) (c : ℕ) → xs ++ c ∷ [] ≢ []
append-ne-nil [] c e = cc
append-ne-nil (x ∷ xs) c e = cc

decimal-ne-nil : (n : ℕ) → decimal n ≢ []
unfolding decimal
decimal-ne-nil n e = elim (Bool-cases (ltb n 10)) [
  | inl small ↦ ground (arith, small, e)
  | inr big ↦ append-ne-nil (decimal_from n (n / 10)) (b'0' + n % 10) (ground (arith, big, e))
]

-- What `str` writes, `int` reads.
pub int-decimal : (n : ℕ) → int (decimal n) ≡ some (pos n)
int-decimal n =
    int-digits (decimal n) (decimal-IsDigit n)
      (unfold decimal in digits-decimal_from (suc n) n (omega arith)) (decimal-ne-nil n)

pub int-minus-decimal : (n : ℕ) → int (b'-' ∷ decimal (suc n)) ≡ some (negsuc n)
int-minus-decimal n =
    int-minus-digits (decimal (suc n))
      (unfold decimal in digits-decimal_from (suc (suc n)) (suc n) (omega arith))
      (decimal-ne-nil (suc n))
  where
    int-minus-digits :
        (ds : Bytes) {n : ℕ}
        → digits 0 ds ≡ some (suc n)
        → ds ≢ []
        → int (b'-' ∷ ds) ≡ some (negsuc n)
    int-minus-digits [] h e = absurd (e refl)
    int-minus-digits (c ∷ cs) h e = unfold int in rw h
