-- ===== src/Common/Outcome.antt =====
-- Results of code that may raise, and methods that change an object and may raise: what was written
-- before a raise stays written, so the new state stands beside the error too.

pub data Result {ℓ κ} (E : Type ℓ) (A : Type κ) : Type (ℓ ⊔ κ) where
  ok : A → Result E A
  err : E → Result E A

abbrev pub Action : Type 0 → Type 0 → Type 0 → Type 0
Action E S A = S → Result E A × S

module _ {E S A : Type 0} where
  abbrev pub pure : A → Action E S A
  pure a s = (ok a, s)

  abbrev pub raise : E → Action E S A
  raise e s = (err e, s)

module _ {E S A B : Type 0} where
  abbrev pub continue : Result E A → (A → Action E S B) → Action E S B
  continue (ok a) f s = f a s
  continue (err e) f s = (err e, s)

  infixl 5 ◌>>=◌ ◌>>◌
  abbrev pub ◌>>=◌ : Action E S A → (A → Action E S B) → Action E S B
  ◌>>=◌ m f s = continue (m s).0 f (m s).1

  abbrev pub ◌>>◌ : Action E S A → Action E S B → Action E S B
  m >> n = m >>= λ _. n
