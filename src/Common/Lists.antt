-- ===== src/Common/Lists.antt =====
-- Lists measured by native numbers, under the library's names, and predicates on their members.
use Prim.Native.Nat.{ℕ, zero, suc, ◌+◌, ◌≤◌}
use mathlib.Core.Path.{◌≡◌, refl, ap}
use mathlib.Core.List.{List, [], ◌∷◌, ◌++◌, map}
use mathlib.Core.Option.{Option, none, some}
use native.Mathlib.Omega.{arith}

module _ {ℓ} {A : Type ℓ} where
  abbrev pub length : List A → ℕ
  length [] = 0
  length (x ∷ xs) = suc (length xs)

  abbrev pub get_elem? : List A → ℕ → Option A
  get_elem? [] i = none
  get_elem? (x ∷ xs) zero = some x
  get_elem? (x ∷ xs) (suc i) = get_elem? xs i

  abbrev pub take : ℕ → List A → List A
  take zero xs = []
  take (suc n) [] = []
  take (suc n) (x ∷ xs) = x ∷ take n xs

  abbrev pub drop : ℕ → List A → List A
  drop zero xs = xs
  drop (suc n) [] = []
  drop (suc n) (x ∷ xs) = drop n xs

  pub length-append : (xs ys : List A) → length (xs ++ ys) ≡ length xs + length ys
  length-append [] ys = omega arith
  length-append (x ∷ xs) ys = omega (arith, length-append xs ys)

  pub drop-length_append : (xs ys : List A) → drop (length xs) (xs ++ ys) ≡ ys
  drop-length_append [] ys = refl
  drop-length_append (x ∷ xs) ys = drop-length_append xs ys

  pub take-length_append : (xs ys : List A) → take (length xs) (xs ++ ys) ≡ xs
  take-length_append [] ys = refl
  take-length_append (x ∷ xs) ys = ap (λ t. x ∷ t) (take-length_append xs ys)

module _ {ℓ} {A : Type ℓ} where
  pub take-append_le : (k : ℕ) (xs ys : List A) → k ≤ length xs → take k (xs ++ ys) ≡ take k xs
  take-append_le zero xs ys h = refl
  take-append_le (suc k) [] ys h = elim h [ ]
  take-append_le (suc k) (x ∷ xs) ys h = ap (λ t. x ∷ t) (take-append_le k xs ys (omega arith))

  pub drop-append_le :
      (k : ℕ) (xs ys : List A) → k ≤ length xs → drop k (xs ++ ys) ≡ drop k xs ++ ys
  drop-append_le zero xs ys h = refl
  drop-append_le (suc k) [] ys h = elim h [ ]
  drop-append_le (suc k) (x ∷ xs) ys h = drop-append_le k xs ys (omega arith)

  pub take-length_add : (xs ys : List A) (k : ℕ) → take (length xs + k) (xs ++ ys) ≡ xs ++ take k ys
  take-length_add [] ys k = let same : 0 + k ≡ k = omega arith in rw same
  take-length_add (x ∷ xs) ys k =
      let next : suc (length xs) + k ≡ suc (length xs + k) = omega arith in
      rw next (ap (λ t. x ∷ t) (take-length_add xs ys k))

  pub drop-length_add : (xs ys : List A) (k : ℕ) → drop (length xs + k) (xs ++ ys) ≡ drop k ys
  drop-length_add [] ys k = let same : 0 + k ≡ k = omega arith in rw same
  drop-length_add (x ∷ xs) ys k =
      let next : suc (length xs) + k ≡ suc (length xs + k) = omega arith in
      rw next (drop-length_add xs ys k)

  pub take-append-drop : (k : ℕ) (xs : List A) → take k xs ++ drop k xs ≡ xs
  take-append-drop zero xs = refl
  take-append-drop (suc k) [] = refl
  take-append-drop (suc k) (x ∷ xs) = ap (λ t. x ∷ t) (take-append-drop k xs)

  pub length-take_le : (k : ℕ) (xs : List A) → k ≤ length xs → length (take k xs) ≡ k
  length-take_le zero xs h = refl
  length-take_le (suc k) [] h = elim h [ ]
  length-take_le (suc k) (x ∷ xs) h = ap suc (length-take_le k xs (omega arith))

  pub take_short : (k : ℕ) (xs : List A) → length xs ≤ k → take k xs ≡ xs
  take_short zero [] h = refl
  take_short zero (x ∷ xs) h = elim h [ ]
  take_short (suc k) [] h = refl
  take_short (suc k) (x ∷ xs) h = ap (λ t. x ∷ t) (take_short k xs (omega arith))

  pub drop_short : (k : ℕ) (xs : List A) → length xs ≤ k → drop k xs ≡ []
  drop_short zero [] h = refl
  drop_short zero (x ∷ xs) h = elim h [ ]
  drop_short (suc k) [] h = refl
  drop_short (suc k) (x ∷ xs) h = drop_short k xs (omega arith)

pub length-map {ℓ κ} :
    {A : Type ℓ} {B : Type κ} (f : A → B) (xs : List A) → length (map f xs) ≡ length xs
length-map f [] = refl
length-map f (x ∷ xs) = ap suc (length-map f xs)

-- A property of every member, by recursion.
abbrev pub All {ℓ κ} : {A : Type ℓ} → (A → Type κ) → List A → Type κ
All P [] = Unit
All P (x ∷ xs) = P x × All P xs
