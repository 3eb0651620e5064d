-- ===== src/Resp/Parser/RoundTrip.antt =====
-- What the server writes, the RESP2 parser reads.
use redis_py.Common.{
  ℕ, suc, ◌≤◌, ◌≡◌, refl, Bool, false, ◌++◌, zero, ap, ◌∙◌, [], ◌∷◌, arith, length,
}
use redis_py.Common.Equality.{ℕ_Eq, List_Eq}
use redis_py.Common.Outcome.{Action, pure, ◌>>=◌, ok, Result, err}
use redis_py.Resp.Decimal.{Bytes, ℤ, decimal, int-decimal}
use redis_py.Resp.Errors.{codes}
use redis_py.Resp.Buffer.{ProtocolError, SocketBuffer, readline, read, purge, get_pos}
use redis_py.Resp.Buffer.Stream.{stream, stream-purge, Reads, has_newline, readline-stream}
use redis_py.Resp.Buffer.Payload.{read-stream}
use redis_py.Resp.Parser.{
  Value, nil, integer, array, cons, header_int, read_items, read_bulk, decoded, error_reply,
  int_reply, bulk_reply, array_reply, dispatch, from_line, read_response_from, read_response,
  restored,
}
use redis_py.Resp.Parser.Wire.{
  Wire, Wires, null_bulk, null_array, number, bulk, status, error, items, last, more, int_text,
  framed, count, encode, encode_all, depth, depths, IsValid, AreValid, value, all_values,
  int-int_text, int_text-has_newline, decimal-has_newline, decimal-ne-null,
}
use mathlib.Core.List.{append_assoc}

-- the rule for a `do` block that reads
pub Reads-bind :
    {A B : Type 0} (m : Action ProtocolError SocketBuffer A)
    (f : A → Action ProtocolError SocketBuffer B) (s : SocketBuffer) {a : A} {b : B}
    {between rest : Bytes}
    → Reads a between (m s)
    → ((t : SocketBuffer) → stream t ≡ between → Reads b rest (f a t))
    → Reads b rest ((m >>= f) s)
Reads-bind m f s first then_ = rw first.answer (then_ (m s).1 first.remaining)

module _ (decode : Bytes → Value) (replace : Bytes → Bytes) where
  -- a reply whose first line is `line`: what is left to show is what the parser makes of the line
  line_then :
      (line tail : Bytes) (fuel : ℕ) (raw : Bool) (v : Value) (rest : Bytes) (s : SocketBuffer)
      → has_newline line ≡ false
      → stream s ≡ framed line tail
      → ((t : SocketBuffer)
          → stream t ≡ tail
          → Reads v rest
              (from_line decode replace (read_response_from decode replace fuel raw) raw line t))
      → Reads v rest (read_response_from decode replace (suc fuel) raw s)
  unfolding read_response_from
  line_then line tail fuel raw v rest s plain h then_ =
      Reads-bind readline
        (from_line decode replace (read_response_from decode replace fuel raw) raw) s
        (readline-stream line tail s plain h) then_

  framed_rest :
      (line tail rest : Bytes) (s : SocketBuffer)
      → stream s ≡ framed line tail ++ rest
      → stream s ≡ framed line (tail ++ rest)
  framed_rest line tail rest s h = h ∙ append_assoc line (b'\r' ∷ b'\n' ∷ tail) rest

  read_bulk-encode :
      (b : Bytes) (raw : Bool) (rest : Bytes) (t : SocketBuffer)
      → stream t ≡ framed b rest
      → Reads
          (decoded decode replace raw b)
          rest
          (bulk_reply decode replace raw (decimal (length b)) t)
  unfolding bulk_reply header_int read_bulk
  read_bulk-encode b raw rest t h = rw int-decimal (
      Reads-bind (read (length b)) (λ payload. pure (decoded decode replace raw payload)) t
        (read-stream b rest b'\r' b'\n' t h) λ u k. record { answer = refl; remaining = k })

  read_number-encode :
      (z : ℤ) (rest : Bytes) (t : SocketBuffer)
      → stream t ≡ rest
      → Reads (integer z) rest (int_reply decode replace (int_text z) t)
  unfolding int_reply header_int
  read_number-encode z rest t h = rw int-int_text (record { answer = refl; remaining = h })

  abbrev ReadsItems : Bool → ℕ → Wires → Type 0
  ReadsItems raw fuel ws =
      (rest : Bytes) (t : SocketBuffer)
      → stream t ≡ encode_all ws ++ rest
      → Reads (all_values decode replace raw ws) rest
          (read_items (read_response_from decode replace fuel raw) (count ws) t)

  read_array-encode :
      (ws : Wires) (fuel : ℕ) (raw : Bool) (rest : Bytes) (t : SocketBuffer)
      → ReadsItems raw fuel ws
      → stream t ≡ encode_all ws ++ rest
      → Reads (array (all_values decode replace raw ws)) rest (
          array_reply decode replace
            (read_response_from decode replace fuel raw)
            (decimal (count ws))
            t)
  unfolding array_reply header_int
  read_array-encode ws fuel raw rest t items_read h = rw int-decimal (
      Reads-bind (read_items (read_response_from decode replace fuel raw) (count ws))
        (λ xs. pure (array xs)) t (items_read rest t h)
        λ u k. record { answer = refl; remaining = k })

  mutual
    unfolding from_line dispatch decoded error_reply read_items

    read-encode :
        (w : Wire) (fuel : ℕ) (raw : Bool) (rest : Bytes) (s : SocketBuffer)
        → depth w ≤ fuel
        → IsValid decode replace w
        → stream s ≡ encode w ++ rest
        → Reads (value decode replace raw w) rest (read_response_from decode replace fuel raw s)
    read-encode null_bulk zero raw rest s d v h = absurd (omega arith)
    read-encode null_bulk (suc fuel) raw rest s d v h =
        line_then (codes "$-1") rest fuel raw nil rest s refl h
          λ t k. record { answer = refl; remaining = k }
    read-encode null_array zero raw rest s d v h = absurd (omega arith)
    read-encode null_array (suc fuel) raw rest s d v h =
        line_then (codes "*-1") rest fuel raw nil rest s refl h
          λ t k. record { answer = refl; remaining = k }
    read-encode (number z) zero raw rest s d v h = absurd (omega arith)
    read-encode (number z) (suc fuel) raw rest s d v h =
        line_then (b':' ∷ int_text z) rest fuel raw (integer z) rest s (int_text-has_newline z)
          (framed_rest (b':' ∷ int_text z) [] rest s h) λ t k. read_number-encode z rest t k
    read-encode (bulk b) zero raw rest s d v h = absurd (omega arith)
    read-encode (bulk b) (suc fuel) raw rest s d v h =
        line_then (b'$' ∷ decimal (length b)) (framed b rest) fuel raw
          (value decode replace raw (bulk b)) rest s (decimal-has_newline (length b))
          (framed_rest (b'$' ∷ decimal (length b)) (framed b []) rest s h
            ∙ ap (λ t. framed (b'$' ∷ decimal (length b)) t)
                (append_assoc b (b'\r' ∷ b'\n' ∷ []) rest))
          λ t k. rw decimal-ne-null (read_bulk-encode b raw rest t k)
    read-encode (status b) zero raw rest s d v h = absurd (omega arith)
    read-encode (status b) (suc fuel) raw rest s d v h =
        line_then (b'+' ∷ b) rest fuel raw (value decode replace raw (status b)) rest s v
          (framed_rest (b'+' ∷ b) [] rest s h) λ t k. record { answer = refl; remaining = k }
    read-encode (error b) zero raw rest s d v h = absurd (omega arith)
    read-encode (error b) (suc fuel) raw rest s d v h =
        line_then (b'-' ∷ b) rest fuel raw (value decode replace raw (error b)) rest s v.0
          (framed_rest (b'-' ∷ b) [] rest s h)
          λ t k. rw v.1 (record { answer = refl; remaining = k })
    read-encode (items ws) zero raw rest s d v h = absurd (omega arith)
    read-encode (items ws) (suc fuel) raw rest s d v h =
        line_then (b'*' ∷ decimal (count ws)) (encode_all ws ++ rest) fuel raw
          (value decode replace raw (items ws)) rest s (decimal-has_newline (count ws))
          (framed_rest (b'*' ∷ decimal (count ws)) (encode_all ws) rest s h)
          λ t k. rw decimal-ne-null (
            read_array-encode ws fuel raw rest t
              (λ rest' t' k'. read_items-encode_all ws fuel raw rest' t' (omega arith) v k') k)

    read_items-encode_all :
        (ws : Wires) (fuel : ℕ) (raw : Bool) (rest : Bytes) (s : SocketBuffer)
        → depths ws ≤ fuel
        → AreValid decode replace ws
        → stream s ≡ encode_all ws ++ rest
        → Reads
            (all_values decode replace raw ws)
            rest
            (read_items (read_response_from decode replace fuel raw) (count ws) s)
    read_items-encode_all last fuel raw rest s d v h = record { answer = refl; remaining = h }
    read_items-encode_all (more w ws) fuel raw rest s d v h =
        Reads-bind (read_response_from decode replace fuel raw)
          (λ x. read_items (read_response_from decode replace fuel raw) (count ws) >>= λ xs.
            pure (cons x xs))
          s
          (read-encode w fuel raw (encode_all ws ++ rest) s (omega arith) v.0
            (h ∙ append_assoc (encode w) (encode_all ws) rest))
          λ t k.
            Reads-bind (read_items (read_response_from decode replace fuel raw) (count ws))
              (λ xs. pure (cons (value decode replace raw w) xs)) t
              (read_items-encode_all ws fuel raw rest t (omega arith) v.1 k)
              λ u k'. record { answer = refl; remaining = k' }

  restored_ok :
      (p : ℕ) (r : Result ProtocolError Value × SocketBuffer) (v : Value)
      → r.0 ≡ ok v
      → restored decode replace p r ≡ (ok v, purge r.1)
  restored_ok p (ok u, s) v h = cc
  restored_ok p (err e, s) v h = cc

  -- A valid reply that is in the stream is read, however its bytes arrive and with enough fuel for its
  -- nesting: the answer is its value, and what follows the reply is left in the stream.
  pub read_response-encode :
      (w : Wire) (fuel : ℕ) (raw : Bool) (rest : Bytes) (s : SocketBuffer)
      → depth w ≤ fuel
      → IsValid decode replace w
      → stream s ≡ encode w ++ rest
      → ((read_response decode replace fuel raw s).0 ≡ ok (value decode replace raw w))
        × (stream (read_response decode replace fuel raw s).1 ≡ rest)
  unfolding read_response
  read_response-encode w fuel raw rest s d v h =
      let r = read-encode w fuel raw rest s d v h in
      rw (restored_ok (get_pos s) (read_response_from decode replace fuel raw s) _ r.answer)
        (refl, stream-purge _ ∙ r.remaining)
