-- ===== src/Commands/Expiry.antt =====
-- redis/commands/core.py: `set` and `getex`, with `extract_expire_flags` of redis/utils.py. The result is
-- the list of words that `execute_command` gets; its keyword options are left out.
use redis_py.Common.{
  ℕ, ◌/◌, ◌≡◌, refl, Bool, true, false, ◌||◌, ◌&&◌, List, [], ◌∷◌, ◌++◌, Option, none, some, ltb,
  if◌then◌else◌, Bool-cases, inl, inr, ==_iff, suc, sym, ◌≢◌,
}
use redis_py.Common.Equality.{◌==◌, ℕ_Eq, String_Eq}
use redis_py.Common.Outcome.{Result, ok, err}
use Prim.Native.String.{String}

pub data DataError : Type 0 where
  data_error : DataError

-- A time as the caller gives it: an integer, a `timedelta` or a `datetime` in milliseconds, a string of
-- digits, or another string.
pub data Expiry : Type 0 where
  int : ℕ → Expiry
  timedelta : ℕ → Expiry
  datetime : ℕ → Expiry
  digits : ℕ → String → Expiry
  text : String → Expiry

-- Python's `==` on them
abbrev pub same : Expiry → Expiry → Bool
same (int m) (int n) = m == n
same (timedelta m) (timedelta n) = m == n
same (datetime m) (datetime n) = m == n
same (digits m s) (digits n t) = s == t
same (text s) (text t) = s == t
same a b = false

abbrev pub same_option : Option Expiry → Option Expiry → Bool
same_option none none = true
same_option (some a) (some b) = same a b
same_option a b = false

abbrev pub has : Option Expiry → List (Option Expiry) → Bool
has a [] = false
has a (b ∷ bs) = same_option b a || has a bs

-- `len({…})`
unfoldable pub distinct : List (Option Expiry) → ℕ
distinct [] = 0
distinct (a ∷ rest) = if has a rest then distinct rest else suc (distinct rest)

pub data Word : Type 0 where
  word : String → Word
  number : ℕ → Word
  given : Expiry → Word

unfoldable pub ex_flags : Expiry → Result DataError (List Word)
ex_flags (timedelta ms) = ok (word "EX" ∷ number (ms / 1000) ∷ [])
ex_flags (int n) = ok (word "EX" ∷ number n ∷ [])
ex_flags (digits n s) = ok (word "EX" ∷ number n ∷ [])
ex_flags (datetime ms) = err data_error
ex_flags (text s) = err data_error

unfoldable pub px_flags : Expiry → Result DataError (List Word)
px_flags (timedelta ms) = ok (word "PX" ∷ number ms ∷ [])
px_flags (int n) = ok (word "PX" ∷ number n ∷ [])
px_flags (digits n s) = err data_error
px_flags (datetime ms) = err data_error
px_flags (text s) = err data_error

abbrev pub at_seconds : Expiry → Word
at_seconds (datetime ms) = number (ms / 1000)
at_seconds e = given e

abbrev pub at_milliseconds : Expiry → Word
at_milliseconds (datetime ms) = number ms
at_milliseconds e = given e

unfoldable pub extract_expire_flags :
    Option Expiry → Option Expiry → Option Expiry → Option Expiry → Result DataError (List Word)
extract_expire_flags (some ex) px exat pxat = ex_flags ex
extract_expire_flags none (some px) exat pxat = px_flags px
extract_expire_flags none none (some exat) pxat = ok (word "EXAT" ∷ at_seconds exat ∷ [])
extract_expire_flags none none none (some pxat) = ok (word "PXAT" ∷ at_milliseconds pxat ∷ [])
extract_expire_flags none none none none = ok []

-- `len(opset) > 2 or len(opset) > 1 and keeps`
unfoldable pub is_conflict : List (Option Expiry) → Bool → Bool
is_conflict opset keeps = ltb 2 (distinct opset) || (ltb 1 (distinct opset) && keeps)

abbrev pub flag : Bool → String → List Word
flag true w = word w ∷ []
flag false w = []

abbrev pub around :
    List Word → Result DataError (List Word) → List Word → Result DataError (List Word)
around before (ok flags) after = ok (before ++ flags ++ after)
around before (err e) after = err e

unfoldable pub set :
    Word
    → Word
    → Option Expiry
    → Option Expiry
    → Bool
    → Bool
    → Bool
    → Bool
    → Option Expiry
    → Option Expiry
    → Result DataError (List Word)
set name value ex px nx xx keepttl get exat pxat =
    if is_conflict (ex ∷ px ∷ exat ∷ pxat ∷ []) keepttl
    then err data_error
    else if nx && xx
    then err data_error
    else around (word "SET" ∷ name ∷ value ∷ []) (extract_expire_flags ex px exat pxat)
        (flag keepttl "KEEPTTL" ++ flag nx "NX" ++ flag xx "XX" ++ flag get "GET")

unfoldable pub getex :
    Word
    → Option Expiry
    → Option Expiry
    → Option Expiry
    → Option Expiry
    → Bool
    → Result DataError (List Word)
getex name ex px exat pxat persist =
    if is_conflict (ex ∷ px ∷ exat ∷ pxat ∷ []) persist
    then err data_error
    else around (word "GETEX" ∷ name ∷ []) (extract_expire_flags ex px exat pxat)
        (flag persist "PERSIST")

-- Two expirations of the same number are not refused: the command has the seconds, and the milliseconds
-- are dropped. Neither `keepttl` is given, nor both `nx` and `xx`.
pub set-same :
    (name value : Word) (n : ℕ) (nx xx get : Bool)
    → (nx && xx) ≡ false
    → set name value (some (int n)) (some (int n)) nx xx false get none none
      ≡ ok (
          word "SET"
          ∷ name
          ∷ value
          ∷ word "EX"
          ∷ number n
          ∷ (flag nx "NX" ++ flag xx "XX" ++ flag get "GET"))
unfolding set extract_expire_flags ex_flags is_conflict distinct
set-same name value n nx xx get h = rw ((==_iff n n).1 refl, h) refl

-- `set` refuses two expirations that are different numbers, whatever the other options.
pub set-different :
    (name value : Word) (m n : ℕ) (nx xx keepttl get : Bool)
    → m ≢ n
    → set name value (some (int m)) (some (int n)) nx xx keepttl get none none ≡ err data_error
unfolding set is_conflict distinct
set-different name value m n nx xx keepttl get h = elim (Bool-cases (n == m)) [
  | inl q ↦ elim (h (sym ((==_iff n m).0 q))) [ ]
  | inr q ↦ rw q refl
]
