-- ===== src/Resp/Resp3/Examples.antt =====
-- A push that arrives before a reply.
use redis_py.Common.{◌≡◌, refl, true, false, [], ◌∷◌, arith}
use redis_py.Resp.Resp3.{Value, Settings, Parser, read_response}
use redis_py.Resp.Resp3.Wire.{
  Wire, Wires, bulk, mapping, entry, last_entry, number, items, more, last, value,
}
use redis_py.Resp.Resp3.Pushes.{read_response-pushes}
use redis_py.Resp.Decimal.{pos, decimal}
use redis_py.Resp.Errors.{codes}
use redis_py.Resp.Buffer.{received}
use redis_py.Common.Outcome.{ok}

abbrev plain : Settings
plain = record {
  decode = Value.bytes;
  replace = λ b. b;
  is_float = λ b. true;
  same = λ a b. false;
  returned = λ k. Value.nil;
}

abbrev invalidation_of_a : Wires
invalidation_of_a =
    more (bulk (codes "invalidate")) (more (items (more (bulk (codes "a")) last)) last)

-- a map from a bulk string to a number
abbrev answer_map : Wire
answer_map = mapping (entry (bulk (codes "b")) (number (pos 12)) last_entry)

abbrev two_packets : Parser
two_packets = record {
  buffer = record {
    before = [];
    unread = codes ">2\r\n$10\r\ninva";
    incoming =
        received (codes "lidate\r\n*1\r\n$1\r\na\r\n%1\r\n$1\r\nb\r")
        ∷ received (codes "\n:12\r\n+")
        ∷ [];
  };
  calls = [];
  has_invalidation_handler = true;
}

read_response-pushes_example :
    (read_response plain 3 false false two_packets).0 ≡ ok (value plain false answer_map)
unfolding decimal
read_response-pushes_example =
    let (answers, rest, calls) =
      read_response-pushes plain (invalidation_of_a ∷ []) answer_map 3 false (codes "+") two_packets
        (ground arith) ((tt, ((tt, tt), tt)), tt) ((refl, tt), (tt, tt)) refl in
    answers
