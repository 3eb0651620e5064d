-- ===== src/Resp/Examples.antt =====
-- Runs of the protocol on short replies that arrive in pieces.
use redis_py.Resp.Encode.Joined.{bulks, join-pack_encoded}
use redis_py.Resp.Buffer.Payload.{read-stream}
use redis_py.Resp.Parser.Rewind.{IsRewound, read_response-rewinds}
use redis_py.Resp.Parser.RoundTrip.{read_response-encode}
use redis_py.Common.{◌≡◌, refl, true, false, List, [], ◌∷◌, arith}
use redis_py.Common.Outcome.{ok}
use redis_py.Resp.Decimal.{Bytes, pos, decimal, int}
use redis_py.Resp.Errors.{codes}
use redis_py.Resp.Encode.{Encoded, pack_encoded, join}
use redis_py.Resp.Buffer.{SocketBuffer, received, timed_out, timeout_error, readline, read}
use redis_py.Resp.Parser.{bytes, read_response}
use redis_py.Resp.Parser.Wire
use redis_py.Resp.Buffer.Stream.{stream, Reads, readline-stream}

abbrev same : Bytes → Bytes
same b = b

-- an array of a bulk string and a number
abbrev reply : Wire.Wire
reply = Wire.items (Wire.more (Wire.bulk (codes "ab")) (Wire.more (Wire.number (pos 12)) Wire.last))

abbrev arriving : SocketBuffer
arriving = record {
  before = [];
  unread = codes "*2\r\n$2";
  incoming = received (codes "\r\na") ∷ received (codes "b\r\n:12\r\n+") ∷ [];
}

abbrev cut_off : SocketBuffer
cut_off = record {
  before = codes "+";
  unread = codes "$2\r\n";
  incoming = received (codes "a") ∷ timed_out ∷ [];
}

read_response-encode_example :
    ((read_response bytes same 2 false arriving).0 ≡ ok (Wire.value bytes same false reply))
    × (stream (read_response bytes same 2 false arriving).1 ≡ codes "+")
unfolding decimal
read_response-encode_example =
    read_response-encode bytes same reply 2 false (codes "+") arriving (ground arith) (tt, (tt, tt))
      refl

read_response-rewinds_example :
    IsRewound bytes same cut_off (read_response bytes same 1 false cut_off).1
unfolding read_response readline int read
read_response-rewinds_example = read_response-rewinds bytes same 1 false cut_off timeout_error refl

readline-stream_example : Reads (codes "*2") (codes "$2\r\nab\r\n:12\r\n+") (readline arriving)
readline-stream_example =
    readline-stream (codes "*2") (codes "$2\r\nab\r\n:12\r\n+") arriving refl refl

read-stream_example : Reads (codes "*2") (codes "$2\r\nab\r\n:12\r\n+") (read 2 arriving)
read-stream_example = read-stream (codes "*2") (codes "$2\r\nab\r\n:12\r\n+") 13 10 arriving refl

abbrev get_command : List Encoded
get_command =
    record { content = codes "GET"; is_view = false }
    ∷ record { content = codes "ab"; is_view = true }
    ∷ []

join-pack_encoded_example :
    join (pack_encoded 3 get_command) ≡ Wire.encode (Wire.items (bulks get_command))
join-pack_encoded_example = join-pack_encoded 3 get_command
