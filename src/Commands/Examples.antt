-- ===== src/Commands/Examples.antt =====
-- `set` with two times.
use redis_py.Common.{◌≡◌, refl, false, none, some, [], ◌∷◌}
use redis_py.Common.Outcome.{ok}
use redis_py.Commands.Expiry

set-same_example :
    Expiry.set
      (Expiry.word "k")
      (Expiry.word "v")
      (some (Expiry.int 10))
      (some (Expiry.int 10))
      false
      false
      false
      false
      none
      none
    ≡ ok (
        Expiry.word "SET"
        ∷ Expiry.word "k"
        ∷ Expiry.word "v"
        ∷ Expiry.word "EX"
        ∷ Expiry.number 10
        ∷ [])
set-same_example = Expiry.set-same (Expiry.word "k") (Expiry.word "v") 10 false false false refl
