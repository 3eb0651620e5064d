-- ===== src/Lock/Examples.antt =====
-- Runs of the lock at a server with one key.
use redis_py.Lock.Exclusion.{
  World, after, IsFresh, idle, OtherSteps-owned_once, stays, calls_other, next, start, calls, view,
}
use redis_py.Lock.Safety.{call, call-others, acquires}
use redis_py.Lock.Waiting.{acquire-owned, acquire-ends}
use redis_py.Common.{
  ℕ, ◌≡◌, ◌≢◌, refl, true, Option, none, some, [], ◌∷◌, arith, ◌++◌, inl, inr, false, Bool-cases,
}
use redis_py.Common.Equality.{ℕ_Eq, ◌==◌}
use redis_py.Lock.KeyCommands.{Commands, Slot, slot_server}
use redis_py.Lock.{Held, Config, Round, owned, acquire, do_acquire}

abbrev server : Commands ℕ
server = slot_server

abbrev config : Config
config = record {
  timeout = some 10000000;
  sleep = 100000;
  blocking = true;
  blocking_timeout = none;
  raise_on_release_error = true;
}

abbrev key : ℕ → Slot ℕ
key t = record { token = t; expires = some 10000 }

abbrev held : Option ℕ → Option (Slot ℕ) → Held server
held t d = record { db = d; token = t }

other_token : ◌≢◌ {A = Option ℕ} none (some 7)
other_token h = cc

call-others_example :
    ((call server (acquires config 8) (held none (some (key 7)))).db ≡ some (key 7))
    × ((call server (acquires config 8) (held none (some (key 7)))).token ≢ some 7)
call-others_example =
    call-others server 7 (acquires config 8) (held none (some (key 7))) refl other_token

abbrev quiet : ℕ → Round server
quiet t = record { now = t; meanwhile = λ d. d }

abbrev expiring : ℕ → Round server
expiring t = record { now = t; meanwhile = λ d. none }

acquire-owned_example :
    owned server
      (acquire server config none none none 8 0
        (quiet 1 ∷ expiring 100001 ∷ [])
        (held none (some (key 7)))).1
    ≡ true
unfolding acquire do_acquire
acquire-owned_example =
    acquire-owned server config none none none 8 0 (quiet 1 ∷ expiring 100001 ∷ [])
      (held none (some (key 7))) refl

acquire-ends_example :
    (acquire server config none none
      (some 150000)
      8
      0
      ((quiet 1 ∷ []) ++ quiet 100001 ∷ [])
      (held none (some (key 7)))).0
    ≢ none
acquire-ends_example =
    acquire-ends server config none none 150000 8 0 (quiet 1 ∷ []) [] (quiet 100001)
      (held none (some (key 7))) (ground arith)

abbrev world : World server
world = after server 3 (call server (acquires config 8) (held none none)) (idle server none)

fresh : IsFresh server (acquires config 8) 3 (idle server none)
unfolding idle
fresh j n h = cc

abbrev tried : World server
tried = after server 4 (call server (acquires config 9) (view server 4 world)) world

fresh_too : IsFresh server (acquires config 9) 4 world
unfolding idle after call acquire do_acquire view
fresh_too j n h = elim (Bool-cases (3 == j)) [
  | inl q ↦ ground (arith, q, h)
  | inr q ↦ ground (arith, q, h)
]

three_four : ◌≢◌ {A = ℕ} 3 4
three_four h = omega (arith, h)

OtherSteps-owned_once_example : owned server (view server 4 tried) ≡ false
unfolding view idle owned after call acquire do_acquire
OtherSteps-owned_once_example =
    OtherSteps-owned_once server none world tried 3 4
      (next (start (idle server none)) (calls 3 (acquires config 8) (idle server none) fresh)) refl
      (calls_other 4 (acquires config 9) (stays world) three_four fresh_too)
