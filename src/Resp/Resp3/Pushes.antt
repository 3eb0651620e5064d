-- ===== src/Resp/Resp3/Pushes.antt =====
-- Pushes between the replies: the RESP3 parser gives each to its handler and reads on.
use redis_py.Common.{
  refl, inl, inr, Bool, true, false, List, [], ◌∷◌, ◌++◌, if◌then◌else◌, Bool-cases, ℕ, zero, suc,
  ◌≤◌, max, ◌≡◌, ◌∙◌, arith,
}
use redis_py.Resp.Resp3.{
  Value, Values, Settings, Call, Parser, read_items, from_line, dispatch, push_reply, after_push,
  handle_push_response, handle_invalidation, is_invalidation, read_response_from, read_response,
  restored,
}
use redis_py.Resp.Resp3.Wire.{
  Wire, Wires, last, more, count, encode, encode_all, depth, depths, value, values, IsValid,
  AreValid,
}
use redis_py.Resp.Resp3.Reading.{
  IsAt, Reads, Reads-bind, Reads-pure, line_then, framed_rest, appended_rest,
}
use redis_py.Resp.Resp3.RoundTrip.{read-encode, read_items-encode}
use redis_py.Resp.Decimal.{Bytes, decimal, int-decimal}
use redis_py.Resp.Buffer.{ProtocolError, get_pos}
use redis_py.Resp.Buffer.Stream.{stream, stream-purge}
use redis_py.Resp.Parser.Wire.{framed, decimal-has_newline}
use redis_py.Common.Outcome.{Result, ok, ◌>>=◌, err}
use mathlib.Core.List.{append_assoc, append-nil}

abbrev pub encode_push : Wires → Bytes
encode_push ws = framed (b'>' ∷ decimal (count ws)) (encode_all ws)

abbrev pub encode_pushes : List Wires → Bytes
encode_pushes [] = []
encode_pushes (ws ∷ pushes) = encode_push ws ++ encode_pushes pushes

-- which handler a message is for, if there is one
abbrev pub handled : Bool → Values → List Call
handled has Values.none_left = []
handled has (Values.cons kind rest) =
    if is_invalidation kind
    then (if has then Call.invalidation (Values.cons kind rest) ∷ [] else [])
    else Call.pubsub (Values.cons kind rest) ∷ []

module _ (c : Settings) where
  abbrev pub all_handled : Bool → Bool → List Wires → List Call
  all_handled has raw [] = []
  all_handled has raw (ws ∷ pushes) = handled has (values c raw ws) ++ all_handled has raw pushes

  -- Each push has a kind, and its items are valid.
  abbrev pub ArePushes : Bool → List Wires → Type 0
  ArePushes raw [] = Unit
  ArePushes raw (last ∷ pushes) = ⊥
  ArePushes raw (more w ws ∷ pushes) = AreValid c raw (more w ws) × ArePushes raw pushes

  -- what the handler of the message returns
  abbrev pub returned_by : List Call → Value
  returned_by [] = Value.nil
  returned_by (k ∷ ks) = c.returned k

  handle-handled :
      (kind : Value) (others : Values) (rest : Bytes) (calls : List Call) (has : Bool) (t : Parser)
      → IsAt rest calls has t
      → Reads
          (returned_by (handled has (Values.cons kind others)))
          rest
          (calls ++ handled has (Values.cons kind others))
          has
          (handle_push_response c (Values.cons kind others) t)
  unfolding handle_push_response handle_invalidation
  handle-handled kind others rest calls true t h = elim (Bool-cases (is_invalidation kind)) [
    | inl e ↦
        rw (e, h.handler)
          (record {
            answer = refl;
            after = record { remaining = h.remaining; called = rw h.called refl; handler = refl };
          })
    | inr e ↦ rw e (record {
      answer = refl;
      after = record { remaining = h.remaining; called = rw h.called refl; handler = h.handler };
    })
  ]
  handle-handled kind others rest calls false t h = elim (Bool-cases (is_invalidation kind)) [
    | inl e ↦
        rw (e, h.handler, append-nil)
          (record {
            answer = refl;
            after = record { remaining = h.remaining; called = h.called; handler = refl };
          })
    | inr e ↦ rw e (record {
      answer = refl;
      after = record { remaining = h.remaining; called = rw h.called refl; handler = h.handler };
    })
  ]

  -- One push on the stream: its handler is called. A reader that asks for pushes returns what the
  -- handler returns; any other reads the next reply.
  push-line :
      (w : Wire) (ws : Wires) (fuel : ℕ) (raw push : Bool) (rest : Bytes) (calls : List Call)
      (has : Bool) (t : Parser) {v : Value} {rest' : Bytes} {calls' : List Call}
      → depths (more w ws) ≤ fuel
      → AreValid c raw (more w ws)
      → IsAt (encode_all (more w ws) ++ rest) calls has t
      → ((u : Parser)
          → IsAt rest (calls ++ handled has (values c raw (more w ws))) has u
          → Reads v rest' calls' has (
              after_push c
                (read_response_from c fuel raw push)
                push
                (returned_by (handled has (values c raw (more w ws))))
                u))
      → Reads v rest' calls' has
          (push_reply c (read_response_from c fuel raw push) push (decimal (count (more w ws))) t)
  unfolding push_reply
  push-line w ws fuel raw push rest calls has t d valid h then_ = rw int-decimal (
      Reads-bind (read_items (read_response_from c fuel raw push) (count (more w ws)))
        (λ items. handle_push_response c items >>= λ result.
          after_push c (read_response_from c fuel raw push) push result)
        t (read_items-encode c (more w ws) fuel raw push rest calls has t d valid h)
        (λ u k.
          Reads-bind (handle_push_response c (values c raw (more w ws)))
            (λ result. after_push c (read_response_from c fuel raw push) push result) u
            (handle-handled (value c raw w) (values c raw ws) rest calls has u k) then_))

  push-encode :
      (w : Wire) (ws : Wires) (fuel : ℕ) (raw push : Bool) (rest : Bytes) (calls : List Call)
      (has : Bool) (s : Parser) {v : Value} {rest' : Bytes} {calls' : List Call}
      → depths (more w ws) ≤ fuel
      → AreValid c raw (more w ws)
      → IsAt (encode_push (more w ws) ++ rest) calls has s
      → ((u : Parser)
          → IsAt rest (calls ++ handled has (values c raw (more w ws))) has u
          → Reads v rest' calls' has (
              after_push c
                (read_response_from c fuel raw push)
                push
                (returned_by (handled has (values c raw (more w ws))))
                u))
      → Reads v rest' calls' has (read_response_from c (suc fuel) raw push s)
  unfolding from_line dispatch
  push-encode w ws fuel raw push rest calls has s {v = v} {rest' = rest'} {calls' = calls'} d valid
        h then_ =
      line_then c (b'>' ∷ decimal (count (more w ws))) (encode_all (more w ws) ++ rest) fuel raw
        push v rest' calls calls' has s (decimal-has_newline (count (more w ws)))
        (framed_rest c (b'>' ∷ decimal (count (more w ws))) (encode_all (more w ws)) rest h)
        (λ t k. push-line w ws fuel raw push rest calls has t d valid k then_)

  -- enough fuel for the pushes and the reply
  abbrev pub need : List Wires → Wire → ℕ
  need [] w = depth w
  need (ws ∷ pushes) w = suc (max (depths ws) (need pushes w))

  read_past :
      (pushes : List Wires) (w : Wire) (fuel : ℕ) (raw : Bool) (rest : Bytes) (calls : List Call)
      (has : Bool) (s : Parser)
      → need pushes w ≤ fuel
      → ArePushes raw pushes
      → IsValid c raw w
      → IsAt (encode_pushes pushes ++ (encode w ++ rest)) calls has s
      → Reads
          (value c raw w)
          rest
          (calls ++ all_handled has raw pushes)
          has
          (read_response_from c fuel raw false s)
  read_past [] w fuel raw rest calls has s d p v h =
      rw append-nil (read-encode c w fuel raw false d v rest calls has s h)
  read_past (last ∷ pushes) w fuel raw rest calls has s d p v h = elim p [ ]
  read_past (more x ws ∷ pushes) w zero raw rest calls has s d p v h = absurd (omega (arith, d))
  read_past (more x ws ∷ pushes) w (suc fuel) raw rest calls has s d p v h =
      push-encode x ws fuel raw false (encode_pushes pushes ++ (encode w ++ rest)) calls has s
        (omega (arith, d)) p.0
        (appended_rest c (encode_push (more x ws)) (encode_pushes pushes) (encode w ++ rest) h)
        (λ u k.
          rw⁻¹
            (append_assoc calls (handled has (values c raw (more x ws)))
              (all_handled has raw pushes))
            (read_past pushes w fuel raw rest (calls ++ handled has (values c raw (more x ws))) has
              u (omega (arith, d)) p.1 v k))

  restored_ok :
      (p : ℕ) (v : Value) {rest : Bytes} {calls : List Call} {has : Bool}
      (r : Result ProtocolError Value × Parser)
      → Reads v rest calls has r
      → Reads v rest calls has (restored c p r)
  restored_ok p v (ok u, s) h = record {
    answer = h.answer;
    after = record {
      remaining = stream-purge s.buffer ∙ h.after.remaining;
      called = h.after.called;
      handler = h.after.handler;
    };
  }
  restored_ok p v (err e, s) h = elim (err_ok h.answer) [ ]
    where
      err_ok :
          {x : ProtocolError} {y : Value} → ◌≡◌ {A = Result ProtocolError Value} (err x) (ok y) → ⊥
      err_ok q = cc

  -- Pushes and then a valid reply are in the stream, however the bytes arrive and with enough fuel:
  -- `read_response` that does not ask for pushes answers the value of the reply, and leaves what
  -- follows it. Each push has been given, once and in order, to the handler of its kind, the one for
  -- invalidations if there is one.
  pub read_response-pushes :
      (pushes : List Wires) (w : Wire) (fuel : ℕ) (raw : Bool) (rest : Bytes) (s : Parser)
      → need pushes w ≤ fuel
      → ArePushes raw pushes
      → IsValid c raw w
      → stream s.buffer ≡ encode_pushes pushes ++ (encode w ++ rest)
      → ((read_response c fuel raw false s).0 ≡ ok (value c raw w))
        × (stream (read_response c fuel raw false s).1.buffer ≡ rest)
        × ((read_response c fuel raw false s).1.calls
            ≡ s.calls ++ all_handled s.has_invalidation_handler raw pushes)
  unfolding read_response
  read_response-pushes pushes w fuel raw rest s d p v h =
      let at : IsAt (encode_pushes pushes ++ (encode w ++ rest)) s.calls s.has_invalidation_handler
          s =
        record { remaining = h; called = refl; handler = refl } in
      let r = read_past pushes w fuel raw rest s.calls s.has_invalidation_handler s d p v at in
      let done =
        restored_ok (get_pos s.buffer) (value c raw w) (read_response_from c fuel raw false s) r in
      (done.answer, done.after.remaining, done.after.called)

  -- Where a push is asked for and stands first, it is given to its handler, whose result is returned,
  -- and the rest of the stream stays.
  pub read_response-push :
      (x : Wire) (ws : Wires) (fuel : ℕ) (raw : Bool) (rest : Bytes) (s : Parser)
      → depths (more x ws) ≤ fuel
      → AreValid c raw (more x ws)
      → stream s.buffer ≡ encode_push (more x ws) ++ rest
      → ((read_response c (suc fuel) raw true s).0
          ≡ ok (returned_by (handled s.has_invalidation_handler (values c raw (more x ws)))))
        × (stream (read_response c (suc fuel) raw true s).1.buffer ≡ rest)
        × ((read_response c (suc fuel) raw true s).1.calls
            ≡ s.calls ++ handled s.has_invalidation_handler (values c raw (more x ws)))
  unfolding read_response
  read_response-push x ws fuel raw rest s d v h =
      let has : Bool = s.has_invalidation_handler in
      let at : IsAt (encode_push (more x ws) ++ rest) s.calls has s = record {
        remaining = h;
        called = refl;
        handler = refl;
      } in
      let r : Reads (returned_by (handled has (values c raw (more x ws)))) rest
          (s.calls ++ handled has (values c raw (more x ws))) has
          (read_response_from c (suc fuel) raw true s) =
        push-encode x ws fuel raw true rest s.calls has s d v at
          (λ u k. Reads-pure (returned_by (handled has (values c raw (more x ws)))) u k) in
      let done =
        restored_ok (get_pos s.buffer) (returned_by (handled has (values c raw (more x ws))))
          (read_response_from c (suc fuel) raw true s) r in
      (done.answer, done.after.remaining, done.after.called)
