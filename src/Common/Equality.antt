-- ===== src/Common/Equality.antt =====
-- Decidable equality of keys as an interface, with the instances that the library needs.
use Prim.Native.Nat.{ℕ}
use Prim.Native.String.{String}
use text.Mathlib.Text.{◌==◌ as str_eq}
use text.Mathlib.TextEquality.{eq_iff}
use mathlib.Core.Path.{◌≡◌, refl}
use mathlib.Core.Logic.{◌↔◌}
use mathlib.Core.Bool.{Bool, true, false, ◌&&◌, ◌||◌}
use mathlib.Core.List.{List, [], ◌∷◌}
use native.Mathlib.Omega.{arith}
use redis_py.Common.Tests.{◌==◌ as nat_eq, ==_iff}

pub record Eq {ℓ} (A : Type ℓ) : Type ℓ where
  pub beq : A → A → Bool
  pub beq_iff : (x y : A) → (beq x y ≡ true) ↔ (x ≡ y)

infix 50 ◌==◌
abbrev pub ◌==◌ {ℓ} : {K : Type ℓ} ⦃d : Eq K⦄ → K → K → Bool
◌==◌ {K} ⦃d⦄ x y = d.beq x y

instance abbrev pub ℕ_Eq : Eq ℕ
ℕ_Eq = record { beq = nat_eq; beq_iff = ==_iff }

instance abbrev pub String_Eq : Eq String
String_Eq = record { beq = str_eq; beq_iff = eq_iff }

abbrev pub list_eq {ℓ} : {A : Type ℓ} ⦃e : Eq A⦄ → List A → List A → Bool
list_eq [] [] = true
list_eq [] (y ∷ ys) = false
list_eq (x ∷ xs) [] = false
list_eq (x ∷ xs) (y ∷ ys) = (x == y) && list_eq xs ys

pub list_eq_iff {ℓ} : {A : Type ℓ} ⦃e : Eq A⦄ (xs ys : List A) → (list_eq xs ys ≡ true) ↔ (xs ≡ ys)
list_eq_iff [] [] = (λ _. refl, λ _. refl)
list_eq_iff [] (y ∷ ys) = (λ h. cc, λ h. cc)
list_eq_iff (x ∷ xs) [] = (λ h. cc, λ h. cc)
list_eq_iff ⦃e⦄ (x ∷ xs) (y ∷ ys) = (
  λ h. ground (arith, e.beq_iff x y, list_eq_iff xs ys),
  λ h. ground (arith, e.beq_iff x y, list_eq_iff xs ys),
)

instance abbrev pub List_Eq {ℓ} : {A : Type ℓ} ⦃e : Eq A⦄ → Eq (List A)
List_Eq = record { beq = list_eq; beq_iff = list_eq_iff }

-- `x in xs`
module _ {ℓ} {A : Type ℓ} ⦃e : Eq A⦄ where
  abbrev pub is_in : A → List A → Bool
  is_in a [] = false
  is_in a (x ∷ xs) = (x == a) || is_in a xs
