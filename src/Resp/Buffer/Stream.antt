-- ===== src/Resp/Buffer/Stream.antt =====
-- `SocketBuffer` as a stream of bytes: how the bytes are cut into `recv` calls does not matter.
use redis_py.Common.Outcome.{Result, ok}
use redis_py.Common.{
  ℕ, ◌-◌, ◌≡◌, refl, Bool, true, false, ◌||◌, List, [], ◌∷◌, ◌++◌, arith, length, length-append,
  take-length_append, sym, ap, ◌∙◌, inl, inr, Bool-cases, subst,
}
use redis_py.Common.Equality.{◌==◌, ℕ_Eq}
use redis_py.Resp.Decimal.{Bytes}
use redis_py.Resp.Buffer.{
  ProtocolError, Recv, received, timed_out, blocking_error, SocketBuffer, readline, readline_loop,
  split_line, ends_with_crlf, without_crlf, purge,
}
use mathlib.Core.List.{append-nil, append_assoc}

-- the bytes that arrive before the socket closes, times out or fails
abbrev pub arriving : List Recv → Bytes
arriving [] = []
arriving (received [] ∷ events) = []
arriving (received (b ∷ bs) ∷ events) = (b ∷ bs) ++ arriving events
arriving (timed_out ∷ events) = []
arriving (blocking_error allowed ∷ events) = []

abbrev pub stream : SocketBuffer → Bytes
stream s = s.unread ++ arriving s.incoming

abbrev pub has_newline : Bytes → Bool
has_newline [] = false
has_newline (c ∷ cs) = c == b'\n' || has_newline cs

abbrev pub crlf : Bytes
crlf = b'\r' ∷ b'\n' ∷ []

split_line-found :
    (xs ys : Bytes)
    → has_newline xs ≡ true
    → split_line (xs ++ ys) ≡ ((split_line xs).0, (split_line xs).1 ++ ys)
split_line-found [] ys h = cc
split_line-found (x ∷ xs) ys h = ground (arith, split_line-found xs ys)

split_line-append :
    (xs ys : Bytes)
    → has_newline xs ≡ false
    → split_line (xs ++ ys) ≡ (xs ++ (split_line ys).0, (split_line ys).1)
split_line-append [] ys h = refl
split_line-append (x ∷ xs) ys h = ground (arith, split_line-append xs ys)

split_line-whole : (xs : Bytes) → has_newline xs ≡ false → split_line xs ≡ (xs, [])
split_line-whole [] h = refl
split_line-whole (x ∷ xs) h = ground (arith, split_line-whole xs)

split_line-crlf :
    (l rest : Bytes)
    → has_newline l ≡ false
    → split_line (l ++ b'\r' ∷ b'\n' ∷ rest) ≡ (l ++ crlf, rest)
split_line-crlf [] rest h = refl
split_line-crlf (x ∷ xs) rest h = ground (arith, split_line-crlf xs rest)

has_newline-append : (xs ys : Bytes) → has_newline (xs ++ ys) ≡ (has_newline xs || has_newline ys)
has_newline-append [] ys = refl
has_newline-append (x ∷ xs) ys = ground (arith, has_newline-append xs ys)

ends_with_crlf-newline : (xs : Bytes) → has_newline xs ≡ false → ends_with_crlf xs ≡ false
ends_with_crlf-newline [] h = refl
ends_with_crlf-newline (c ∷ []) h = refl
ends_with_crlf-newline (c ∷ d ∷ []) h = ground arith
ends_with_crlf-newline (c ∷ d ∷ e ∷ cs) h = ground (arith, ends_with_crlf-newline (d ∷ e ∷ cs))

ends_with_crlf-crlf : (l : Bytes) → ends_with_crlf (l ++ crlf) ≡ true
ends_with_crlf-crlf [] = refl
ends_with_crlf-crlf (c ∷ []) = refl
ends_with_crlf-crlf (c ∷ d ∷ []) = refl
ends_with_crlf-crlf (c ∷ d ∷ e ∷ l) = ends_with_crlf-crlf (d ∷ e ∷ l)

pub without_crlf-append : (l : Bytes) (c d : ℕ) → without_crlf (l ++ c ∷ d ∷ []) ≡ l
without_crlf-append l c d =
    let two : length (l ++ c ∷ d ∷ []) - 2 ≡ length l =
      omega (arith, length-append l (c ∷ d ∷ [])) in
    rw two (take-length_append l (c ∷ d ∷ []))

-- Something was read: the answer, and the rest of the stream.
pub record Reads {A : Type 0} (a : A) (rest : Bytes) (r : Result ProtocolError A × SocketBuffer)
    : Type 0 where
  pub answer : r.0 ≡ ok a
  pub remaining : stream r.1 ≡ rest

module _ (l rest : Bytes) (plain : has_newline l ≡ false) where
  line_complete :
      (before unread : Bytes) (events : List Recv)
      → unread ++ arriving events ≡ rest
      → Reads l rest (readline_loop (l ++ crlf) before unread events)
  unfolding readline_loop
  line_complete before unread [] h =
      rw (ends_with_crlf-crlf l, without_crlf-append l) (record { answer = refl; remaining = h })
  line_complete before unread (received [] ∷ events) h =
      rw (ends_with_crlf-crlf l, without_crlf-append l) (record { answer = refl; remaining = h })
  line_complete before unread (received (b ∷ bs) ∷ events) h =
      rw (ends_with_crlf-crlf l, without_crlf-append l) (record { answer = refl; remaining = h })
  line_complete before unread (event ∷ events) h =
      rw (ends_with_crlf-crlf l, without_crlf-append l) (record { answer = refl; remaining = h })

  no_line : (d : Bytes) → has_newline d ≡ false → split_line (d ++ []) ≡ (l ++ crlf, rest) → ⊥
  no_line d h e =
      let same : d ≡ l ++ crlf =
        sym (ap (λ (p : Bytes × Bytes). p.0) (split_line-whole d h))
        ∙ ap (λ (p : Bytes × Bytes). p.0) (rw append-nil at e) in
      cc (ap has_newline same, has_newline-append l crlf, plain, h)

  abbrev Arrives : List Recv → Type 0
  Arrives events =
      (d before : Bytes)
      → has_newline d ≡ false
      → split_line (d ++ arriving events) ≡ (l ++ crlf, rest)
      → Reads l rest (readline_loop d before [] events)

  -- one more `readline` from the unread bytes `u`
  line_step :
      (events : List Recv) (d u before : Bytes)
      → Arrives events
      → has_newline d ≡ false
      → split_line (d ++ (u ++ arriving events)) ≡ (l ++ crlf, rest)
      → Reads l rest (readline_loop (d ++ (split_line u).0) before (split_line u).1 events)
  line_step events d u before later h e = elim (Bool-cases (has_newline u)) [
    | inl found ↦
        let e' : (d ++ (split_line u).0, (split_line u).1 ++ arriving events) ≡ (l ++ crlf, rest) =
          rw
            (
              split_line-append d (u ++ arriving events) h,
              split_line-found u (arriving events) found,
            )
            at e in
        subst (λ x. Reads l rest (readline_loop x before (split_line u).1 events))
          (sym (ap (λ (p : Bytes × Bytes). p.0) e'))
          (line_complete before (split_line u).1 events (ap (λ (p : Bytes × Bytes). p.1) e'))
    | inr missing ↦ rw (split_line-whole u missing) (
        later (d ++ u) before (rw has_newline-append (ground (arith, h, missing)))
          (rw append_assoc e))
  ]

  line-Arrives : (events : List Recv) → Arrives events
  unfolding readline_loop
  line-Arrives [] d before h e = absurd (no_line d h e)
  line-Arrives (timed_out ∷ events) d before h e = absurd (no_line d h e)
  line-Arrives (blocking_error allowed ∷ events) d before h e = absurd (no_line d h e)
  line-Arrives (received [] ∷ events) d before h e = absurd (no_line d h e)
  line-Arrives (received (b ∷ bs) ∷ events) d before h e =
      rw (ends_with_crlf-newline d h)
        (line_step events d (b ∷ bs) (before ++ (split_line (b ∷ bs)).0) (line-Arrives events) h e)

-- A line with no newline inside, followed by CRLF, is read whole however it arrives, and what
-- follows it stays in the stream.
pub readline-stream :
    (l rest : Bytes) (s : SocketBuffer)
    → has_newline l ≡ false
    → stream s ≡ l ++ b'\r' ∷ b'\n' ∷ rest
    → Reads l rest (readline s)
unfolding readline
readline-stream l rest s plain h =
    line_step l rest plain s.incoming [] s.unread _ (line-Arrives l rest plain s.incoming) refl
      (ap split_line h ∙ split_line-crlf l rest plain)

-- What is given up after a reply is not in the stream any more.
pub stream-purge : (s : SocketBuffer) → stream (purge s) ≡ stream s
unfolding purge
stream-purge s = go s.before s.unread s.incoming
  where
    go :
        (before unread : Bytes) (incoming : List Recv)
        → stream (purge (record { before = before; unread = unread; incoming = incoming }))
          ≡ unread ++ arriving incoming
    go before [] incoming = refl
    go before (b ∷ bs) incoming = ground arith
