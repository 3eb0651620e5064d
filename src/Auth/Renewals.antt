-- ===== src/Auth/Renewals.antt =====
-- When tokens are renewed, and that `stop` ends it.
use redis_py.Common.{
  ℕ, ◌+◌, ◌-◌, ◌*◌, ◌/◌, ◌≤◌, ◌<◌, min, ◌≡◌, ◌⊎◌, Bool, false, Option, some, [], ◌∷◌, ◌++◌, arith,
  if◌then◌else◌, refl, sym, ◌∙◌, inl, inr, true, not, ◌&&◌, none, List, Bool-cases,
}
use redis_py.Auth.{
  Token, Config, World, Manager, AuthError, acquire_token, delay_for_lower_refresh,
  delay_for_ratio_refresh, calculate_renewal_delay, scheduled, after_token, renew_with, renew_token,
  reported, cancelled, stop, fires, is_expired,
}
use redis_py.Common.Outcome.{Result, ok, err}
use redis_py.Common.Equality.{◌==◌, ℕ_Eq}

-- A renewal that is due at `due` is set in the future. Less the time that passes between the reading
-- of the clock for a delay and `call_later`, it is due when the refresh ratio of the token's lifetime
-- has passed at the latest, and the lower bound before the token expires at the latest. A token that
-- does not expire has none.
abbrev pub IsInTime : Config → World → Option ℕ → ℕ → ℕ → Type 0
IsInTime c w none received_at due = ⊥
IsInTime c w (some expires_at) received_at due =
    (w.scheduled_at < due)
    × (due + w.lower_at + c.lower_refresh_bound ≤ expires_at + w.scheduled_at)
    × (due + w.ratio_at + (expires_at - received_at)
        ≤ expires_at + ((expires_at - received_at) * c.ratio) / c.ratio_base + w.scheduled_at)

-- No timer is added, or one, which is in time for a token that the provider has answered.
abbrev pub Renewed : Bool → Config → World → Manager → Manager → Type 0
Renewed keeps c w s t =
    ((t.pending ≡ s.pending) × (t.init_timer ≡ s.init_timer) × (t.next_timer ≡ s.next_timer))
    ⊎ ((token : Token) × (due : ℕ) × ((acquire_token c.max_attempts w.answers s.retries).0
          ≡ ok token)
        × IsInTime c w token.expires_at token.received_at due
        × (t.pending ≡ s.pending ++ (s.made, due) ∷ [])
        × (t.next_timer ≡ (if keeps then some s.made else s.next_timer)))

delay-IsInTime :
    (c : Config) (w : World) (expires_at : Option ℕ) (received_at : ℕ)
    → (calculate_renewal_delay c w expires_at received_at == 0) ≡ false
    → IsInTime c w expires_at received_at
        (w.scheduled_at + calculate_renewal_delay c w expires_at received_at)
unfolding calculate_renewal_delay delay_for_lower_refresh delay_for_ratio_refresh
delay-IsInTime c w none received_at h = cc
delay-IsInTime c w (some expires_at) received_at h =
    in_time (((expires_at - received_at) * c.ratio) / c.ratio_base) (expires_at - received_at)
      expires_at c.lower_refresh_bound w.lower_at w.ratio_at w.scheduled_at h
  where
    in_time :
        (x ttl y bound n m k : ℕ)
        → (min ((y + x) - (ttl + m)) (y - (bound + n)) == 0) ≡ false
        → (k < k + min ((y + x) - (ttl + m)) (y - (bound + n)))
          × (k + min ((y + x) - (ttl + m)) (y - (bound + n)) + n + bound ≤ y + k)
          × (k + min ((y + x) - (ttl + m)) (y - (bound + n)) + m + ttl ≤ y + x + k)
    in_time x ttl y bound n m k e = (ground (arith, e), ground (arith, e), ground (arith, e))

scheduled-Renewed :
    (keeps : Bool) (c : Config) (w : World) (token : Token) (n : ℕ) (s : Manager)
    → (acquire_token c.max_attempts w.answers s.retries).0 ≡ ok token
    → (calculate_renewal_delay c w token.expires_at token.received_at == 0) ≡ false
    → Renewed keeps c w s (
        scheduled keeps w.scheduled_at
          (calculate_renewal_delay c w token.expires_at token.received_at)
          (record s { retries = n }))
unfolding scheduled
scheduled-Renewed true c w token n s e h =
    inr (token, _, e, delay-IsInTime c w token.expires_at token.received_at h, refl, refl)
scheduled-Renewed false c w token n s e h =
    inr (token, _, e, delay-IsInTime c w token.expires_at token.received_at h, refl, refl)

after_token-Renewed :
    (keeps : Bool) (c : Config) (w : World) (token : Token) (told : Option Bool) (skip : Bool)
    (n : ℕ) (s : Manager)
    → (acquire_token c.max_attempts w.answers s.retries).0 ≡ ok token
    → Renewed keeps c w s (after_token keeps c w token told skip (record s { retries = n })).1
unfolding after_token
after_token-Renewed keeps c w token none skip n s e = inl (refl, refl, refl)
after_token-Renewed keeps c w token (some raises) skip n s e =
    elim (Bool-cases ((not skip) && raises)) [
      | inl fails ↦ rw fails (inl (refl, refl, refl))
      | inr told ↦
          rw told
            (elim (Bool-cases
              (calculate_renewal_delay c w token.expires_at token.received_at == 0)) [
                | inl zero_delay ↦ rw zero_delay (inl (refl, refl, refl))
                | inr later ↦ rw later (scheduled-Renewed keeps c w token n s e later)
              ])
    ]

renew_with-Renewed :
    (keeps : Bool) (c : Config) (w : World) (skip : Bool) (r : Result AuthError Token) (n : ℕ)
    (s : Manager)
    → (acquire_token c.max_attempts w.answers s.retries).0 ≡ r
    → Renewed keeps c w s (renew_with keeps c w skip r (record s { retries = n })).1
unfolding renew_with
renew_with-Renewed keeps c w skip (err x) n s e = inl (refl, refl, refl)
renew_with-Renewed keeps c w skip (ok token) n s e =
    elim (Bool-cases (is_expired token.expires_at w.checked_at)) [
      | inl expired ↦ rw expired (inl (refl, refl, refl))
      | inr valid ↦ rw valid (after_token-Renewed keeps c w token w.on_next skip n s e)
    ]

reported-state : (b : Bool) (r : Result AuthError (Unit {0}) × Manager) → (reported b r).1 ≡ r.1
reported-state b (ok x, s) = refl
reported-state b (err e, s) = refl

-- Whatever the provider and the listener do, `_renew_token` adds no timer, or one: it renews a token
-- that the provider has answered and that expires, when its refresh ratio has passed at the latest and
-- the lower bound before it expires at the latest, or later than that by no more than the time that
-- has passed between the reading of the clock for the delay and `call_later`, which the listener's
-- `on_next` is a part of; `stop` knows the timer. (`_renew_token_async` does not keep it.)
pub renew_token-Renewed :
    (keeps : Bool) (c : Config) (w : World) (skip : Bool) (s : Manager)
    → Renewed keeps c w s (renew_token keeps c w skip s).1
unfolding renew_token
renew_token-Renewed keeps c w skip s =
    rw
      (reported-state w.has_on_error (
        renew_with keeps c w skip (acquire_token c.max_attempts w.answers s.retries).0
          (record s { retries = (acquire_token c.max_attempts w.answers s.retries).1 })))
      (renew_with-Renewed keeps c w skip (acquire_token c.max_attempts w.answers s.retries).0
        (acquire_token c.max_attempts w.answers s.retries).1 s refl)

-- The event loop runs the timer that is due, or someone calls `stop`.
pub data Act : Type 0 where
  due : World → Bool → Act
  stops : Act

abbrev pub runs_due : Bool → Config → World → Bool → List (ℕ × ℕ) → Manager → Manager
runs_due keeps c w skip [] s = s
runs_due keeps c w skip (p ∷ pending) s = fires keeps c w skip p.0 s

unfoldable pub happens : Bool → Config → Act → Manager → Manager
happens keeps c (due w skip) s = runs_due keeps c w skip s.pending s
happens keeps c stops s = stop s

unfoldable pub run : Bool → Config → List Act → Manager → Manager
run keeps c [] s = s
run keeps c (a ∷ acts) s = run keeps c acts (happens keeps c a s)

-- at most one timer is due, and the manager knows it
abbrev pub IsTimed : Manager → Type 0
IsTimed s =
    (s.pending ≡ [])
    ⊎ ((t : ℕ) × (d : ℕ) × (s.pending ≡ (t, d) ∷ [])
        × ((s.init_timer ≡ some t) ⊎ (s.next_timer ≡ some t)))

IsTimed-Renewed :
    (c : Config) (w : World) (s t : Manager) → s.pending ≡ [] → Renewed true c w s t → IsTimed t
IsTimed-Renewed c w s t idle (inl (same, _, _)) = inl (same ∙ idle)
IsTimed-Renewed c w s t idle (inr (token, d, e, in_time, added, next)) =
    inr (s.made, d, (added ∙ rw idle refl), inr next)

-- what a timer does to the list that has only that timer
cancelled_only : (t d : ℕ) → cancelled (some t) ((t, d) ∷ []) ≡ []
unfolding cancelled
cancelled_only t d = ground (arith, ℕ_Eq.beq_iff t t)

cancelled_nil : (o : Option ℕ) → cancelled o [] ≡ []
unfolding cancelled
cancelled_nil none = refl
cancelled_nil (some t) = refl

due-IsTimed :
    (c : Config) (w : World) (skip : Bool) (pending : List (ℕ × ℕ)) (s : Manager)
    → s.pending ≡ pending
    → IsTimed s
    → IsTimed (runs_due true c w skip pending s)
unfolding fires
due-IsTimed c w skip [] s e h = h
due-IsTimed c w skip ((t, d) ∷ rest) s e (inl idle) = cc
due-IsTimed c w skip ((t, d) ∷ rest) s e (inr (u, x, only, known)) =
    let q : Manager = record s { pending = cancelled (some t) s.pending } in
    let same : ◌≡◌ {A = List (ℕ × ℕ)} ((t, d) ∷ rest) ((u, x) ∷ []) = sym e ∙ only in
    let alone : rest ≡ [] = ground (arith, same) in
    let idle : q.pending ≡ [] = rw (e, alone) (cancelled_only t d) in
    IsTimed-Renewed c w q (renew_token true c w skip q).1 idle (renew_token-Renewed true c w skip q)

stop-idle : (s : Manager) → IsTimed s → (stop s).pending ≡ []
unfolding stop
stop-idle s (inl idle) = rw (idle, cancelled_nil, cancelled_nil) refl
stop-idle s (inr (t, d, only, inl known)) = rw (only, known, cancelled_only, cancelled_nil) refl
stop-idle s (inr (t, d, only, inr known)) = rw (only, known) (last_cancelled t d s.init_timer)
  where
    last_cancelled : (t d : ℕ) (o : Option ℕ) → cancelled (some t) (cancelled o ((t, d) ∷ [])) ≡ []
    last_cancelled t d none = unfold cancelled in ground (arith, ℕ_Eq.beq_iff t t)
    last_cancelled t d (some u) = unfold cancelled in ground (arith, ℕ_Eq.beq_iff t t)

happens-IsTimed : (c : Config) (a : Act) (s : Manager) → IsTimed s → IsTimed (happens true c a s)
unfolding happens
happens-IsTimed c (due w skip) s h = due-IsTimed c w skip s.pending s refl h
happens-IsTimed c stops s h = inl (stop-idle s h)

-- However often the loop renews the token and the manager is stopped, after one more `stop` no timer
-- is due: where at most one timer was, which the manager knew, and with `_renew_token`.
pub stop-run :
    (c : Config) (acts : List Act) (s : Manager)
    → IsTimed s
    → (stop (run true c acts s)).pending ≡ []
unfolding run
stop-run c [] s h = stop-idle s h
stop-run c (a ∷ acts) s h = stop-run c acts (happens true c a s) (happens-IsTimed c a s h)
