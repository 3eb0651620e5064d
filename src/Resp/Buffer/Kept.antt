-- ===== src/Resp/Buffer/Kept.antt =====
-- What was in a `SocketBuffer` stays in it while it is read, behind or before the read position.
use redis_py.Resp.Decimal.{Bytes}
use redis_py.Common.Outcome.{Result, Action, pure, raise, continue, ◌>>=◌, ok, err, ◌>>◌}
use redis_py.Common.{
  ◌≡◌, refl, sym, ap, ◌∙◌, inl, inr, Bool, true, false, List, [], ◌∷◌, ◌++◌, arith, if◌then◌else◌,
  Bool-cases, ℕ, suc, ◌+◌, subst, Option, none, some, ltb, length, take, drop, take-append-drop,
  ◌-◌,
}
use mathlib.Core.List.{append-nil, append_assoc}
use redis_py.Common.Equality.{◌==◌, ℕ_Eq, List_Eq}
use redis_py.Resp.Buffer.{
  ProtocolError, SocketBuffer, Recv, received, timed_out, blocking_error, readline, readline_loop,
  split_line, ends_with_crlf, buffer_readline, receive, read_from_socket, buffer_read, read,
  append_read,
}

abbrev pub content : SocketBuffer → Bytes
content s = s.before ++ s.unread

-- all bytes that the socket gives, those after a timeout or an error included
abbrev pub all_received : List Recv → Bytes
all_received [] = []
all_received (received bs ∷ events) = bs ++ all_received events
all_received (timed_out ∷ events) = all_received events
all_received (blocking_error allowed ∷ events) = all_received events

-- The bytes `c` are still there, and of those that the socket has to give, `i`, the first have come
-- behind them and the others are still to come.
abbrev pub Extends : Bytes → Bytes → SocketBuffer → Type 0
Extends c i t = (w : Bytes) × (content t ≡ c ++ w) × (i ≡ w ++ all_received t.incoming)

split_line-join : (xs : Bytes) → (split_line xs).0 ++ (split_line xs).1 ≡ xs
split_line-join [] = refl
split_line-join (x ∷ xs) = ground (arith, split_line-join xs)

Extends-self : (s : SocketBuffer) → Extends (content s) (all_received s.incoming) s
Extends-self s = ([], sym (append-nil (content s)), refl)

pub record Keeps {A : Type 0} (m : Action ProtocolError SocketBuffer A) : Type 0 where
  pub at : (s : SocketBuffer) → Extends (content s) (all_received s.incoming) (m s).1

Extends-trans :
    (c i : Bytes) (s t : SocketBuffer)
    → Extends c i s
    → Extends (content s) (all_received s.incoming) t
    → Extends c i t
Extends-trans c i s t (w, e, q) (w', e', q') = (
  w ++ w',
  e' ∙ ap (λ x. x ++ w') e ∙ append_assoc c w w',
  q ∙ ap (λ x. w ++ x) q' ∙ sym (append_assoc w w' (all_received t.incoming)),
)

pub Keeps-pure : {A : Type 0} (a : A) → Keeps (pure {E = ProtocolError} {S = SocketBuffer} a)
Keeps-pure a = record { at = Extends-self }

pub Keeps-raise :
    {A : Type 0} (e : ProtocolError)
    → Keeps (raise {E = ProtocolError} {S = SocketBuffer} {A = A} e)
Keeps-raise e = record { at = Extends-self }

Extends-bind :
    {A B : Type 0} (f : A → Action ProtocolError SocketBuffer B) (c i : Bytes)
    (r : Result ProtocolError A) (t : SocketBuffer)
    → ((a : A) → Keeps (f a))
    → Extends c i t
    → Extends c i (continue r f t).1
Extends-bind f c i (ok a) t kf e = Extends-trans c i t (f a t).1 e ((kf a).at t)
Extends-bind f c i (err x) t kf e = e

pub Keeps-bind :
    {A B : Type 0} (m : Action ProtocolError SocketBuffer A)
    (f : A → Action ProtocolError SocketBuffer B)
    → Keeps m
    → ((a : A) → Keeps (f a))
    → Keeps (m >>= f)
Keeps-bind m f km kf = record {
  at = λ s. Extends-bind f (content s) (all_received s.incoming) (m s).0 (m s).1 kf (km.at s);
}

pub Keeps-if :
    {A : Type 0} (b : Bool) (m n : Action ProtocolError SocketBuffer A)
    → Keeps m
    → Keeps n
    → Keeps (if b then m else n)
Keeps-if true m n km kn = km
Keeps-if false m n km kn = kn

Extends-loop :
    (events : List Recv) (d before unread : Bytes)
    → Extends (before ++ unread) (all_received events) (readline_loop d before unread events).1
unfolding readline_loop
Extends-loop [] d before unread = ([], sym (append-nil _), refl)
Extends-loop (timed_out ∷ events) d before unread =
    ([], ground (arith, append-nil (before ++ unread)), ground arith)
Extends-loop (blocking_error allowed ∷ events) d before unread =
    ([], ground (arith, append-nil (before ++ unread)), ground arith)
Extends-loop (received [] ∷ events) d before unread =
    ([], ground (arith, append-nil (before ++ unread)), ground arith)
Extends-loop (received (b ∷ bs) ∷ events) d before unread = elim (Bool-cases (ends_with_crlf d)) [
  | inl e ↦ rw e ([], sym (append-nil _), refl)
  | inr e ↦ rw e (
      arrived (readline_loop (d ++ line.0) (before ++ line.0) line.1 events).1
        (Extends-loop events (d ++ line.0) (before ++ line.0) line.1))
]
  where
    line : Bytes × Bytes
    line = split_line (unread ++ b ∷ bs)

    arrived :
        (t : SocketBuffer)
        → Extends ((before ++ line.0) ++ line.1) (all_received events) t
        → Extends (before ++ unread) ((b ∷ bs) ++ all_received events) t
    arrived t (w, h, q) = (
      (b ∷ bs) ++ w,
      h
          ∙ ap (λ x. x ++ w)
              (append_assoc before line.0 line.1
                ∙ ap (λ x. before ++ x) (split_line-join (unread ++ b ∷ bs))
                ∙ sym (append_assoc before unread (b ∷ bs)))
          ∙ append_assoc (before ++ unread) (b ∷ bs) w,
      ap (λ x. (b ∷ bs) ++ x) q ∙ sym (append_assoc (b ∷ bs) w (all_received t.incoming)),
    )

pub Keeps-readline : Keeps readline
unfolding readline buffer_readline
Keeps-readline = record {
  at = λ s.
      let line = split_line s.unread in
      subst (λ c. Extends c (all_received s.incoming) (readline s).1)
        (append_assoc s.before line.0 line.1 ∙ ap (λ x. s.before ++ x) (split_line-join s.unread))
        (Extends-loop s.incoming line.0 (s.before ++ line.0) line.1);
}

-- What `receive` adds to the buffer is what it takes from the socket.
abbrev Grows : Bytes → List Recv → Bytes × List Recv → Type 0
Grows buf events r = (w : Bytes) × (r.0 ≡ buf ++ w) × (all_received events ≡ w ++ all_received r.1)

receive-Grows :
    (wanted : Option ℕ) (raise_on_timeout : Bool) (marker : ℕ) (buf : Bytes) (events : List Recv)
    → Grows buf events (receive wanted raise_on_timeout marker buf events).1
unfolding receive
receive-Grows wanted r marker buf [] = ([], sym (append-nil buf), refl)
receive-Grows wanted r marker buf (timed_out ∷ events) = ([], sym (append-nil buf), refl)
receive-Grows wanted r marker buf (blocking_error allowed ∷ events) =
    ([], sym (append-nil buf), refl)
receive-Grows wanted r marker buf (received [] ∷ events) = ([], sym (append-nil buf), refl)
receive-Grows none r marker buf (received (b ∷ bs) ∷ events) = (b ∷ bs, refl, refl)
receive-Grows (some n) r marker buf (received (b ∷ bs) ∷ events) =
    elim (Bool-cases (ltb (marker + suc (length bs)) n)) [
      | inl e ↦
          let (w, h, q) =
            receive-Grows (some n) r (marker + suc (length bs)) (buf ++ b ∷ bs) events in
          rw e (
            (b ∷ bs) ++ w,
            h ∙ append_assoc buf (b ∷ bs) w,
            ap (λ x. (b ∷ bs) ++ x) q ∙ sym (append_assoc (b ∷ bs) w _),
          )
      | inr e ↦ rw e (b ∷ bs, refl, refl)
    ]

Keeps-read_from_socket :
    (wanted : Option ℕ) (raise_on_timeout : Bool) → Keeps (read_from_socket wanted raise_on_timeout)
unfolding read_from_socket
Keeps-read_from_socket wanted r = record {
  at = λ s.
      let (w, h, q) = receive-Grows wanted r 0 s.unread s.incoming in
      (w, ap (λ x. s.before ++ x) h ∙ sym (append_assoc s.before s.unread w), q);
}

content-buffer_read : (n : ℕ) (s : SocketBuffer) → content (buffer_read n s).1 ≡ content s
unfolding buffer_read
content-buffer_read n s =
    append_assoc s.before (take n s.unread) (drop n s.unread)
    ∙ ap (λ x. s.before ++ x) (take-append-drop n s.unread)

Keeps-after :
    {A : Type 0} (m : Action ProtocolError SocketBuffer A) (s s' : SocketBuffer)
    → Keeps m
    → content s' ≡ content s
    → s'.incoming ≡ s.incoming
    → Extends (content s) (all_received s.incoming) (m s').1
Keeps-after m s s' k e i =
    let (w, h, q) = k.at s' in (w, h ∙ ap (λ x. x ++ w) e, sym (ap all_received i) ∙ q)

Extends-buffer_read :
    (n : ℕ) (s : SocketBuffer) → Extends (content s) (all_received s.incoming) (buffer_read n s).1
unfolding buffer_read
Extends-buffer_read n s = ([], content-buffer_read n s ∙ sym (append-nil (content s)), refl)

Keeps-append_read : (d : Bytes) (missing : ℕ) → Keeps (append_read d missing)
unfolding append_read
Keeps-append_read d missing = record { at = Extends-buffer_read missing }

incoming-buffer_read : (n : ℕ) (s : SocketBuffer) → (buffer_read n s).1.incoming ≡ s.incoming
unfolding buffer_read
incoming-buffer_read n s = refl

pub Keeps-read : (n : ℕ) → Keeps (read n)
unfolding read
Keeps-read n = record {
  at = λ s.
      let missing = n + 2 - length (take (n + 2) s.unread) in
      elim (Bool-cases (missing == 0)) [
        | inl e ↦ rw e (Extends-buffer_read (n + 2) s)
        | inr e ↦ rw e (
            Keeps-after
              (read_from_socket (some missing) true >> append_read (take (n + 2) s.unread) missing)
              s (buffer_read (n + 2) s).1
              (Keeps-bind (read_from_socket (some missing) true)
                (λ _. append_read (take (n + 2) s.unread) missing)
                (Keeps-read_from_socket (some missing) true)
                (λ _. Keeps-append_read (take (n + 2) s.unread) missing))
              (content-buffer_read (n + 2) s) (incoming-buffer_read (n + 2) s))
      ];
}

pub ruleset keeps_rules =
    (Keeps-pure, Keeps-raise, Keeps-bind, Keeps-if, Keeps-read, Keeps-readline)
