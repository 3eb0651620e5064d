-- ===== src/Resp/Parser/Rewind.antt =====
-- A reply that could not be read whole stays in the buffer.
use redis_py.Resp.Buffer.Kept.{
  content, all_received, Extends, Keeps, Keeps-pure, Keeps-raise, Keeps-bind, Keeps-if, Keeps-read,
  Keeps-readline, keeps_rules,
}
use redis_py.Resp.Parser.{
  Value, read_response_from, header_int, read_bulk, read_items, error_reply, dispatch, from_line,
  none_left, int_reply, bulk_reply, array_reply, read_response, restored, integer, decoded,
  count_of, array, nil,
}
use redis_py.Resp.Errors.{ErrorClass, parse_error}
use redis_py.Resp.Decimal.{Bytes, ℤ, pos, negsuc, int}
use redis_py.Common.Outcome.{Result, Action, pure, ◌>>=◌, ok, err}
use redis_py.Common.{
  ◌≡◌, ap, ◌∙◌, Bool, [], ◌∷◌, ◌++◌, ℕ, suc, Option, none, some, take, drop, zero,
  drop-length_append, take-length_append,
}
use mathlib.Core.List.{append_assoc}
use redis_py.Common.Equality.{◌==◌, ℕ_Eq, List_Eq}
use redis_py.Resp.Errors.{codes}
use redis_py.Resp.Buffer.{
  ProtocolError, SocketBuffer, readline, invalid_response, value_error, out_of_fuel, get_pos,
  rewind, connection_error,
}

Keeps-header_int : (n : Option ℤ) → Keeps (header_int n)
unfolding header_int
Keeps-header_int none = Keeps-raise value_error
Keeps-header_int (some n) = Keeps-pure n

Keeps-read_bulk : (n : ℤ) → Keeps (read_bulk n)
unfolding read_bulk
Keeps-read_bulk (pos n) = Keeps-read n
Keeps-read_bulk (negsuc n) = Keeps-raise invalid_response

Keeps-read_items :
    (item : Action ProtocolError SocketBuffer Value) (n : ℕ)
    → Keeps item
    → Keeps (read_items item n)
unfolding read_items
Keeps-read_items item zero k = Keeps-pure none_left
Keeps-read_items item (suc n) k = search (keeps_rules, k, Keeps-read_items item n k)

module _ (decode : Bytes → Value) (replace : Bytes → Bytes) where
  Keeps-error_reply : (r : ErrorClass × Bytes) → Keeps (error_reply decode replace r)
  unfolding error_reply
  Keeps-error_reply (c, message) = search keeps_rules

  Keeps-int_reply : (response : Bytes) → Keeps (int_reply decode replace response)
  unfolding int_reply
  Keeps-int_reply response =
      Keeps-bind (header_int (int response)) (λ n. pure (integer n))
        (Keeps-header_int (int response)) (λ n. Keeps-pure (integer n))

  Keeps-bulk_reply :
      (raw : Bool) (response : Bytes) → Keeps (bulk_reply decode replace raw response)
  unfolding bulk_reply
  Keeps-bulk_reply raw response =
      Keeps-bind (header_int (int response))
        (λ n. read_bulk n >>= λ payload. pure (decoded decode replace raw payload))
        (Keeps-header_int (int response))
        λ n.
          Keeps-bind (read_bulk n) (λ payload. pure (decoded decode replace raw payload))
            (Keeps-read_bulk n) (λ payload. Keeps-pure (decoded decode replace raw payload))

  Keeps-array_reply :
      (item : Action ProtocolError SocketBuffer Value) (response : Bytes)
      → Keeps item
      → Keeps (array_reply decode replace item response)
  unfolding array_reply
  Keeps-array_reply item response k =
      Keeps-bind (header_int (int response))
        (λ n. read_items item (count_of n) >>= λ xs. pure (array xs))
        (Keeps-header_int (int response))
        λ n.
          Keeps-bind (read_items item (count_of n)) (λ xs. pure (array xs))
            (Keeps-read_items item (count_of n) k) (λ xs. Keeps-pure (array xs))

  Keeps-dispatch :
      (item : Action ProtocolError SocketBuffer Value) (raw : Bool) (byte : ℕ) (response : Bytes)
      → Keeps item
      → Keeps (dispatch decode replace item raw byte response)
  unfolding dispatch
  Keeps-dispatch item raw byte response k =
      Keeps-if (byte == b'-') _ _ (Keeps-error_reply (parse_error (replace response))) (
        Keeps-if (byte == b'+') _ _ (Keeps-pure (decoded decode replace raw response)) (
          Keeps-if (byte == b':') _ _ (Keeps-int_reply response) (
            Keeps-if (byte == b'$') _ _
              (Keeps-if (response == codes "-1") _ _ (Keeps-pure nil)
                (Keeps-bulk_reply raw response))
              (Keeps-if (byte == b'*') _ _
                (Keeps-if (response == codes "-1") _ _ (Keeps-pure nil)
                  (Keeps-array_reply item response k))
                (Keeps-raise invalid_response)))))

  Keeps-from_line :
      (item : Action ProtocolError SocketBuffer Value) (raw : Bool) (line : Bytes)
      → Keeps item
      → Keeps (from_line decode replace item raw line)
  unfolding from_line
  Keeps-from_line item raw [] k = Keeps-raise connection_error
  Keeps-from_line item raw (byte ∷ response) k = Keeps-dispatch item raw byte response k

  Keeps-read_response_from :
      (fuel : ℕ) (raw : Bool) → Keeps (read_response_from decode replace fuel raw)
  unfolding read_response_from
  Keeps-read_response_from zero raw = Keeps-raise out_of_fuel
  Keeps-read_response_from (suc fuel) raw =
      Keeps-bind readline
        (from_line decode replace (read_response_from decode replace fuel raw) raw) Keeps-readline
        λ line.
          Keeps-from_line (read_response_from decode replace fuel raw) raw line
            (Keeps-read_response_from fuel raw)

  -- Nothing is lost: the bytes that were unread are unread again, followed by the first of those that
  -- the socket had to give, and it still has to give the others.
  abbrev pub IsRewound : SocketBuffer → SocketBuffer → Type 0
  IsRewound s t =
      (t.before ≡ s.before)
      × ((w : Bytes) × (t.unread ≡ s.unread ++ w)
          × (all_received s.incoming ≡ w ++ all_received t.incoming))

  rewound :
      (s : SocketBuffer) (r : Result ProtocolError Value × SocketBuffer) (e : ProtocolError)
      → (restored decode replace (get_pos s) r).0 ≡ err e
      → Extends (content s) (all_received s.incoming) r.1
      → IsRewound s (restored decode replace (get_pos s) r).1
  unfolding rewind
  rewound s (ok v, t) e h x = cc
  rewound s (err f, t) e h (w, x, q) =
      let again : content t ≡ s.before ++ (s.unread ++ w) = x ∙ append_assoc s.before s.unread w in
      (
        ap (take (get_pos s)) again ∙ take-length_append s.before (s.unread ++ w),
        (w, ap (drop (get_pos s)) again ∙ drop-length_append s.before (s.unread ++ w), q),
      )

  -- When `read_response` raises, whatever the reason, the read position is the one before the call, and
  -- the unread bytes are those before the call followed by a first part of the bytes that the socket
  -- had to give; it still has to give exactly the others. No byte is lost, and none comes twice.
  pub read_response-rewinds :
      (fuel : ℕ) (raw : Bool) (s : SocketBuffer) (e : ProtocolError)
      → (read_response decode replace fuel raw s).0 ≡ err e
      → IsRewound s (read_response decode replace fuel raw s).1
  unfolding read_response
  read_response-rewinds fuel raw s e h =
      rewound s (read_response_from decode replace fuel raw s) e h
        ((Keeps-read_response_from fuel raw).at s)
