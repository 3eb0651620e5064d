-- ===== src/Auth.antt =====
-- redis/auth/token_manager.py: `TokenManager`, which renews a token before it expires. Times are
-- milliseconds, and each reading of the clock is one of its own. A token is received before it expires,
-- and the refresh ratio is a fraction, whose product drops its rest. `on_error` does not raise. The
-- event loop is the list of the timers that are due, known by numbers, with the times when they are
-- due; the answers of the provider are a list.
pub mod Renewals
mod Examples
use redis_py.Common.Equality.{◌==◌, ℕ_Eq}
use redis_py.Common.{
  ℕ, suc, ◌+◌, ◌-◌, ◌*◌, ◌/◌, min, Bool, Option, none, some, List, [], ◌∷◌, ◌++◌, ltb,
  if◌then◌else◌, not, ◌&&◌, false,
}
use redis_py.Common.Outcome.{Result, ok, err, Action}

-- `expires_at` is `none` where the source has -1: the token does not expire.
pub record Token : Type 0 where
  pub expires_at : Option ℕ
  pub received_at : ℕ

-- `TokenManagerConfig` with its `RetryPolicy`; the ratio is `ratio / ratio_base`.
pub record Config : Type 0 where
  pub ratio : ℕ
  pub ratio_base : ℕ
  pub lower_refresh_bound : ℕ
  pub max_attempts : ℕ

pub data AuthError : Type 0 where
  request_token token_renewal unanswered : AuthError

-- The clock as it is read for the two delays, by `is_expired`, and by `call_later`, after the listener;
-- `on_next` is not registered, or does or does not raise.
pub record World : Type 0 where
  pub answers : List (Option Token)
  pub lower_at : ℕ
  pub ratio_at : ℕ
  pub checked_at : ℕ
  pub scheduled_at : ℕ
  pub on_next : Option Bool
  pub has_on_error : Bool

-- `pending` and `made` are the loop's: the timers that are due, and the number of the next one.
pub record Manager : Type 0 where
  pub retries : ℕ
  pub init_timer : Option ℕ
  pub next_timer : Option ℕ
  pub pending : List (ℕ × ℕ)
  pub made : ℕ

-- `self._retries` beside the result
unfoldable pub acquire_token : ℕ → List (Option Token) → ℕ → Result AuthError Token × ℕ
acquire_token max_attempts [] retries = (err unanswered, retries)
acquire_token max_attempts (some token ∷ answers) retries = (ok token, 0)
acquire_token max_attempts (none ∷ answers) retries =
    if ltb retries max_attempts
    then acquire_token max_attempts answers (suc retries)
    else (err request_token, retries)

-- the delays, where one that is negative is 0
unfoldable pub delay_for_lower_refresh : Config → ℕ → ℕ → ℕ
delay_for_lower_refresh c now expire_date = expire_date - (c.lower_refresh_bound + now)

unfoldable pub delay_for_ratio_refresh : Config → ℕ → ℕ → ℕ → ℕ
delay_for_ratio_refresh c now expire_date issue_date =
    let token_ttl : ℕ = expire_date - issue_date in
    (expire_date + (token_ttl * c.ratio) / c.ratio_base) - (token_ttl + now)

-- For the expiry -1 the first delay is negative.
unfoldable pub calculate_renewal_delay : Config → World → Option ℕ → ℕ → ℕ
calculate_renewal_delay c w none issue_date = 0
calculate_renewal_delay c w (some expire_date) issue_date =
    min (delay_for_ratio_refresh c w.ratio_at expire_date issue_date)
      (delay_for_lower_refresh c w.lower_at expire_date)

-- `token.is_expired`
unfoldable pub is_expired : Option ℕ → ℕ → Bool
is_expired none now = false
is_expired (some expires_at) now = not (ltb now expires_at)

-- `loop.call_later(delay, ...)` at the time `now`
abbrev pub call_later : ℕ → ℕ → Manager → Manager
call_later now delay s = record s {
  pending = s.pending ++ (s.made, now + delay) ∷ [];
  made = suc s.made;
}

-- `self._next_timer = loop.call_later(...)` in `_renew_token`; `_renew_token_async` keeps no timer.
unfoldable pub scheduled : Bool → ℕ → ℕ → Manager → Manager
scheduled keeps now delay s =
    if keeps
    then record (call_later now delay s) { next_timer = some s.made }
    else call_later now delay s

-- the token is there and is not expired; `told` is what calling `on_next` comes to
unfoldable pub after_token :
    Bool → Config → World → Token → Option Bool → Bool → Action AuthError Manager (Unit {0})
after_token keeps c w token none skip_initial s = (ok tt, s)
after_token keeps c w token (some raises) skip_initial s =
    if (not skip_initial) && raises
    then (err token_renewal, s)
    else if delay == 0
    then (ok tt, s)
    else (ok tt, scheduled keeps w.scheduled_at delay s)
  where
    delay : ℕ
    delay = calculate_renewal_delay c w token.expires_at token.received_at

unfoldable pub renew_with :
    Bool → Config → World → Bool → Result AuthError Token → Action AuthError Manager (Unit {0})
renew_with keeps c w skip_initial (err e) s = (err e, s)
renew_with keeps c w skip_initial (ok token) s =
    if is_expired token.expires_at w.checked_at
    then (err token_renewal, s)
    else after_token keeps c w token w.on_next skip_initial s

-- An exception goes to `on_error`, if that is registered.
abbrev pub reported :
    Bool → Result AuthError (Unit {0}) × Manager → Result AuthError (Unit {0}) × Manager
reported has_on_error (ok _, s) = (ok tt, s)
reported has_on_error (err e, s) = (if has_on_error then ok tt else err e, s)

-- `_renew_token` (`keeps` is true) and `_renew_token_async`
unfoldable pub renew_token : Bool → Config → World → Bool → Action AuthError Manager (Unit {0})
renew_token keeps c w skip_initial s =
    let (token, retries) = acquire_token c.max_attempts w.answers s.retries in
    reported w.has_on_error
      (renew_with keeps c w skip_initial token (record s { retries = retries }))

-- the timers without the one that is cancelled
unfoldable pub cancelled : Option ℕ → List (ℕ × ℕ) → List (ℕ × ℕ)
cancelled none pending = pending
cancelled (some t) [] = []
cancelled (some t) (p ∷ pending) =
    if p.0 == t then cancelled (some t) pending else p ∷ cancelled (some t) pending

unfoldable pub stop : Manager → Manager
stop s = record s { pending = cancelled s.next_timer (cancelled s.init_timer s.pending) }

-- the timer `t` is due: the loop drops it and calls the renewal
unfoldable pub fires : Bool → Config → World → Bool → ℕ → Manager → Manager
fires keeps c w skip_initial t s =
    (renew_token keeps c w skip_initial (record s { pending = cancelled (some t) s.pending })).1
