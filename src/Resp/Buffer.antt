-- ===== src/Resp/Buffer.antt =====
-- redis/_parsers/socket.py: `SocketBuffer`. The `BytesIO` is the bytes that were read and are kept for
-- a rewind, and the bytes that were not; what the socket will give is a list of events.
pub mod Stream
pub mod Payload
pub mod Kept
use redis_py.Resp.Errors.{ErrorClass}
use redis_py.Common.{
  ℕ, ◌+◌, ◌-◌, Bool, true, false, not, ◌&&◌, Option, none, some, List, [], ◌∷◌, ◌++◌, ltb,
  if◌then◌else◌, length, take, drop,
}
use redis_py.Common.Outcome.{◌>>◌, Result, Action, ok, err, ◌>>=◌}
use redis_py.Common.Equality.{◌==◌, ℕ_Eq}
use redis_py.Resp.Decimal.{Bytes}

-- The errors of the buffer and the parsers; `server_error` is an error reply that is raised, and
-- `out_of_fuel` is no error of the program; `type_error` and `index_error` are those of RESP3 replies.
pub data ProtocolError : Type 0 where
  connection_error timeout_error invalid_response value_error type_error index_error out_of_fuel :
      ProtocolError
  server_error : ErrorClass → Bytes → ProtocolError

-- What one `recv` does: it returns bytes (none when the server has closed), times out, or raises an
-- error of non-blocking mode, whose number is or is not the one that the table allows.
pub data Recv : Type 0 where
  received : Bytes → Recv
  timed_out : Recv
  blocking_error : Bool → Recv

abbrev is_timeout : Recv → Bool
is_timeout timed_out = true
is_timeout event = false

pub record SocketBuffer : Type 0 where
  pub before : Bytes
  pub unread : Bytes
  pub incoming : List Recv

abbrev pub get_pos : SocketBuffer → ℕ
get_pos s = length s.before

unfoldable pub unread_bytes : SocketBuffer → ℕ
unread_bytes s = length s.unread

unfoldable pub rewind : ℕ → SocketBuffer → SocketBuffer
rewind n s = record s {
  before = take n (s.before ++ s.unread);
  unread = drop n (s.before ++ s.unread);
}

-- The buffer is emptied only when all of it was read.
unfoldable pub purge : SocketBuffer → SocketBuffer
unfolding unread_bytes
purge s = if ltb 0 (unread_bytes s) then s else record s { before = []; unread = [] }

-- The loop of `_read_from_socket`: `length` is the number of bytes wanted, `marker` of those received.
unfoldable pub receive :
    Option ℕ → Bool → ℕ → Bytes → List Recv → Result ProtocolError Bool × (Bytes × List Recv)
receive wanted raise_on_timeout marker buf [] = (err connection_error, (buf, []))
receive wanted raise_on_timeout marker buf (timed_out ∷ events) =
    (if raise_on_timeout then err timeout_error else ok false, (buf, events))
receive wanted raise_on_timeout marker buf (blocking_error allowed ∷ events) =
    (if not raise_on_timeout && allowed then ok false else err connection_error, (buf, events))
receive wanted raise_on_timeout marker buf (received [] ∷ events) =
    (err connection_error, (buf, events))
receive none raise_on_timeout marker buf (received (b ∷ bs) ∷ events) =
    (ok true, (buf ++ b ∷ bs, events))
receive (some n) raise_on_timeout marker buf (received (b ∷ bs) ∷ events) =
    let more =
      receive (some n) raise_on_timeout (marker + length (b ∷ bs)) (buf ++ b ∷ bs) events in
    if ltb (marker + length (b ∷ bs)) n then more else (ok true, (buf ++ b ∷ bs, events))

unfoldable pub read_from_socket : Option ℕ → Bool → Action ProtocolError SocketBuffer Bool
unfolding receive
read_from_socket wanted raise_on_timeout s =
    let (result, (unread, incoming)) = receive wanted raise_on_timeout 0 s.unread s.incoming in
    (result, record s { unread = unread; incoming = incoming })

unfoldable pub can_read : Action ProtocolError SocketBuffer Bool
unfolding read_from_socket unread_bytes
can_read s = if ltb 0 (unread_bytes s) then (ok true, s) else read_from_socket none false s

-- `self._buffer.read(n)`: at most `n` bytes
unfoldable pub buffer_read : ℕ → SocketBuffer → Bytes × SocketBuffer
buffer_read n s =
    (take n s.unread, record s { before = s.before ++ take n s.unread; unread = drop n s.unread })

-- `data[:-2]`
abbrev pub without_crlf : Bytes → Bytes
without_crlf d = take (length d - 2) d

-- `data += self._buffer.read(missing)`, and `data[:-2]`
unfoldable pub append_read : Bytes → ℕ → Action ProtocolError SocketBuffer Bytes
unfolding buffer_read
append_read data_read missing s =
    (ok (without_crlf (data_read ++ (buffer_read missing s).0)), (buffer_read missing s).1)

unfoldable pub read : ℕ → Action ProtocolError SocketBuffer Bytes
unfolding buffer_read read_from_socket append_read
read n s =
    let (data_read, s') = buffer_read (n + 2) s in
    let missing = n + 2 - length data_read in
    if missing == 0
    then (ok (without_crlf data_read), s')
    else (do read_from_socket (some missing) true; append_read data_read missing) s'

-- The bytes up to the first newline, with it, or all of them; and what follows.
abbrev pub split_line : Bytes → Bytes × Bytes
split_line [] = ([], [])
split_line (c ∷ cs) =
    if c == b'\n' then (c ∷ [], cs) else (c ∷ (split_line cs).0, (split_line cs).1)

abbrev pub ends_with_crlf : Bytes → Bool
ends_with_crlf [] = false
ends_with_crlf (c ∷ []) = false
ends_with_crlf (c ∷ d ∷ []) = c == b'\r' && d == b'\n'
ends_with_crlf (c ∷ d ∷ e ∷ cs) = ends_with_crlf (d ∷ e ∷ cs)

-- `self._buffer.readline()`
unfoldable pub buffer_readline : SocketBuffer → Bytes × SocketBuffer
buffer_readline s = (
  (split_line s.unread).0,
  record s { before = s.before ++ (split_line s.unread).0; unread = (split_line s.unread).1 },
)

-- The loop of `readline`: while `data_read` does not end in CRLF, one `_read_from_socket()` and one more
-- `buf.readline()`. A round takes one event, so the loop recurs on them.
unfoldable pub readline_loop :
    Bytes → Bytes → Bytes → List Recv → Result ProtocolError Bytes × SocketBuffer
readline_loop data_read before unread [] = (
  if ends_with_crlf data_read then ok (without_crlf data_read) else err connection_error,
  record { before = before; unread = unread; incoming = [] },
)
readline_loop data_read before unread (received (b ∷ bs) ∷ events) =
    let line = (split_line (unread ++ b ∷ bs)).0 in
    let rest = (split_line (unread ++ b ∷ bs)).1 in
    let again = readline_loop (data_read ++ line) (before ++ line) rest events in
    if ends_with_crlf data_read
    then (
      ok (without_crlf data_read),
      record { before = before; unread = unread; incoming = received (b ∷ bs) ∷ events },
    )
    else again
readline_loop data_read before unread (event ∷ events) =
    if ends_with_crlf data_read
    then (
      ok (without_crlf data_read),
      record { before = before; unread = unread; incoming = event ∷ events },
    )
    else (
      err (if is_timeout event then timeout_error else connection_error),
      record { before = before; unread = unread; incoming = events },
    )

unfoldable pub readline : Action ProtocolError SocketBuffer Bytes
unfolding readline_loop buffer_readline
readline s =
    let (data_read, s') = buffer_readline s in
    readline_loop data_read s'.before s'.unread s'.incoming
