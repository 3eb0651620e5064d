-- ===== src/Resp/Buffer/Payload.antt =====
-- `SocketBuffer.read` as an operation on the stream of bytes.
use redis_py.Resp.Buffer.Stream.{arriving, stream, without_crlf-append, Reads}
use redis_py.Resp.Decimal.{Bytes}
use redis_py.Common.Outcome.{Result, ok}
use redis_py.Common.{
  ℕ, suc, ◌+◌, ◌-◌, ◌≤◌, ◌<◌, ◌≡◌, refl, sym, ap, ◌∙◌, inl, inr, Bool, true, false, some, List, [],
  ◌∷◌, ◌++◌, arith, ltb, leb, ltb→lt, Bool-cases, length, take, drop, length-append,
  drop-length_append, take-length_append, take-append_le, drop-append_le, length-take_le,
  take_short, drop_short, take-length_add, drop-length_add,
}
use mathlib.Core.List.{append_assoc}
use redis_py.Common.Equality.{◌==◌, ℕ_Eq}
use redis_py.Resp.Buffer.{
  receive, buffer_read, ProtocolError, Recv, SocketBuffer, read_from_socket, without_crlf, read,
  received, timed_out, blocking_error,
}

-- What the loop of `_read_from_socket` does when enough bytes are on their way.
record Fills (n : ℕ) (all : Bytes) (r : Result ProtocolError Bool × (Bytes × List Recv))
    : Type 0 where
  filled : r.0 ≡ ok true
  enough : n ≤ length r.1.0
  kept : r.1.0 ++ arriving r.1.1 ≡ all

receive-Fills :
    (n marker : ℕ) (buf : Bytes) (events : List Recv)
    → marker < n
    → n ≤ marker + length (arriving events)
    → Fills
        (length buf + (n - marker))
        (buf ++ arriving events)
        (receive (some n) true marker buf events)
unfolding receive
receive-Fills n marker buf [] lt le = absurd (omega arith)
receive-Fills n marker buf (timed_out ∷ events) lt le = absurd (omega arith)
receive-Fills n marker buf (blocking_error allowed ∷ events) lt le = absurd (omega arith)
receive-Fills n marker buf (received [] ∷ events) lt le = absurd (omega arith)
receive-Fills n marker buf (received (b ∷ bs) ∷ events) lt le =
    elim (Bool-cases (ltb (marker + suc (length bs)) n)) [
      | inl more ↦
          let later =
            receive-Fills n (marker + suc (length bs)) (buf ++ b ∷ bs) events (ltb→lt _ _ more)
              (omega (arith, le, length-append (b ∷ bs) (arriving events))) in
          rw more (record {
            filled = later.filled;
            enough = omega (arith, later.enough, length-append buf (b ∷ bs));
            kept = later.kept ∙ append_assoc buf (b ∷ bs) (arriving events);
          })
      | inr done ↦ rw done (record {
        filled = refl;
        enough = ground (arith, length-append buf (b ∷ bs), done);
        kept = append_assoc buf (b ∷ bs) (arriving events);
      })
    ]

-- `read n` from bytes that are in the buffer
read_buffered :
    (n : ℕ) (s : SocketBuffer)
    → n + 2 ≤ length s.unread
    → read n s ≡ (
      ok (without_crlf (take (n + 2) s.unread)),
      record s { before = s.before ++ take (n + 2) s.unread; unread = drop (n + 2) s.unread },
    )
unfolding read buffer_read
read_buffered n s h =
    let enough : (n + 2 - length (take (n + 2) s.unread) == 0) ≡ true =
      ground (arith, length-take_le (n + 2) s.unread h) in
    rw enough

read_missing :
    (n : ℕ) (s : SocketBuffer) (buf : Bytes) (events : List Recv)
    → length s.unread < n + 2
    → receive (some (n + 2 - length s.unread)) true 0 [] s.incoming ≡ (ok true, (buf, events))
    → read n s ≡ (
      ok (without_crlf (s.unread ++ take (n + 2 - length s.unread) buf)),
      record {
        before = (s.before ++ s.unread) ++ take (n + 2 - length s.unread) buf;
        unread = drop (n + 2 - length s.unread) buf;
        incoming = events;
      },
    )
unfolding read buffer_read read_from_socket
read_missing n s buf events h e =
    let short : (n + 2 - length s.unread == 0) ≡ false = ground arith in
    let within : length s.unread ≤ n + 2 = omega arith in
    rw (take_short (n + 2) s.unread within, drop_short (n + 2) s.unread within, short, e)

-- The payload with its closing bytes is a prefix of the stream.
module _ (payload rest : Bytes) (c d : ℕ) (s : SocketBuffer)
    (h : stream s ≡ payload ++ c ∷ d ∷ rest) where
  closed_payload : Bytes
  closed_payload = payload ++ c ∷ d ∷ []

  length-closed_payload : length closed_payload ≡ length payload + 2
  unfolding closed_payload
  length-closed_payload = length-append payload (c ∷ d ∷ [])

  stream-closed_payload : stream s ≡ closed_payload ++ rest
  unfolding closed_payload
  stream-closed_payload = h ∙ sym (append_assoc payload (c ∷ d ∷ []) rest)

  take-stream : take (length payload + 2) (stream s) ≡ closed_payload
  take-stream =
      rw (← length-closed_payload, stream-closed_payload) (take-length_append closed_payload rest)

  drop-stream : drop (length payload + 2) (stream s) ≡ rest
  drop-stream =
      rw (← length-closed_payload, stream-closed_payload) (drop-length_append closed_payload rest)

  without_crlf-closed_payload : without_crlf closed_payload ≡ payload
  unfolding closed_payload
  without_crlf-closed_payload = without_crlf-append payload c d

  read-buffered-stream :
      length payload + 2 ≤ length s.unread → Reads payload rest (read (length payload) s)
  read-buffered-stream enough =
      let all : take (length payload + 2) s.unread ≡ closed_payload =
        sym (take-append_le (length payload + 2) s.unread (arriving s.incoming) enough)
        ∙ take-stream in
      rw (read_buffered (length payload) s enough) (record {
        answer = ap ok (ap without_crlf all ∙ without_crlf-closed_payload);
        remaining =
            sym (drop-append_le (length payload + 2) s.unread (arriving s.incoming) enough)
            ∙ drop-stream;
      })

  missing : ℕ
  missing = length payload + 2 - length s.unread

  whole : length s.unread < length payload + 2 → length s.unread + missing ≡ length payload + 2
  unfolding missing
  whole short = omega arith

  arriving_enough : missing ≤ 0 + length (arriving s.incoming)
  unfolding missing
  arriving_enough = omega (
    arith,
    length-append s.unread (arriving s.incoming),
    ap length stream-closed_payload,
    length-append closed_payload rest,
    length-closed_payload,
  )

  fills :
      length s.unread < length payload + 2
      → Fills missing (arriving s.incoming) (receive (some missing) true 0 [] s.incoming)
  unfolding missing
  fills short =
      let f = receive-Fills missing 0 [] s.incoming (omega arith) arriving_enough in
      record { filled = f.filled; enough = omega (arith, f.enough); kept = f.kept }

  stream_around :
      (buf : Bytes) (events : List Recv)
      → buf ++ arriving events ≡ arriving s.incoming
      → s.unread ++ (buf ++ arriving events) ≡ stream s
  stream_around buf events e = rw e

  read-missing-stream :
      length s.unread < length payload + 2 → Reads payload rest (read (length payload) s)
  unfolding missing
  read-missing-stream short =
      let r = receive (some missing) true 0 [] s.incoming in
      rw
        (read_missing (length payload) s r.1.0 r.1.1 short
          (ap (λ (x : Result ProtocolError Bool). (x, r.1)) (fills short).filled))
        (record {
          answer = ap ok (
              ap without_crlf (
                sym (
                  ap (λ t. s.unread ++ t)
                    (take-append_le missing r.1.0 (arriving r.1.1) (fills short).enough))
                ∙ sym (take-length_add s.unread (r.1.0 ++ arriving r.1.1) missing)
                ∙ rw (whole short, stream_around r.1.0 r.1.1 (fills short).kept) take-stream)
              ∙ without_crlf-closed_payload);
          remaining =
              sym (drop-append_le missing r.1.0 (arriving r.1.1) (fills short).enough)
              ∙ sym (drop-length_add s.unread (r.1.0 ++ arriving r.1.1) missing)
              ∙ rw (whole short, stream_around r.1.0 r.1.1 (fills short).kept) drop-stream;
        })

-- A payload and its two closing bytes are read whole however they arrive.
pub read-stream :
    (payload rest : Bytes) (c d : ℕ) (s : SocketBuffer)
    → stream s ≡ payload ++ c ∷ d ∷ rest
    → Reads payload rest (read (length payload) s)
read-stream payload rest c d s h = elim (Bool-cases (leb (length payload + 2) (length s.unread))) [
  | inl enough ↦ read-buffered-stream payload rest c d s h (ground (arith, enough))
  | inr short ↦ read-missing-stream payload rest c d s h (ground (arith, short))
]
