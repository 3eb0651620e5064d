-- ===== src/Auth/Examples.antt =====
-- Renewals of a token that lives for a minute.
use redis_py.Common.{◌≡◌, refl, inl, inr, true, false, none, some, [], ◌∷◌}
use redis_py.Auth.{Token, Config, World, Manager, stop, renew_token}
use redis_py.Auth.Renewals.{renew_token-Renewed, Renewed, stop-run, due, run}

abbrev minute : Token
minute = record { expires_at = some 61000; received_at = 1000 }

abbrev at_three_quarters : Config
at_three_quarters = record {
  ratio = 3;
  ratio_base = 4;
  lower_refresh_bound = 5000;
  max_attempts = 2;
}

abbrev second_answer : World
second_answer = record {
  answers = none ∷ some minute ∷ [];
  lower_at = 2000;
  ratio_at = 2000;
  checked_at = 2001;
  scheduled_at = 2500;
  on_next = some false;
  has_on_error = true;
}

-- the initial timer is due
abbrev started : Manager
started = record {
  retries = 0;
  init_timer = some 0;
  next_timer = none;
  pending = (0, 0) ∷ [];
  made = 1;
}

renew_token-Renewed_example :
    Renewed true at_three_quarters second_answer started
      (renew_token true at_three_quarters second_answer false started).1
renew_token-Renewed_example = renew_token-Renewed true at_three_quarters second_answer false started

stop-run_example :
    (stop (
      run true at_three_quarters
        (due second_answer false ∷ due second_answer false ∷ [])
        started)).pending
    ≡ []
stop-run_example =
    stop-run at_three_quarters (due second_answer false ∷ due second_answer false ∷ []) started
      (inr (0, 0, refl, inl refl))
