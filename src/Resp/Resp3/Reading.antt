-- ===== src/Resp/Resp3/Reading.antt =====
-- Steps of the RESP3 parser on a stream of bytes: what each kind of line is read as.
use redis_py.Common.{
  ℕ, suc, ◌≡◌, refl, ◌∙◌, Bool, true, false, List, [], ◌∷◌, ◌++◌, arith, length, drop,
}
use redis_py.Resp.Resp3.{
  Value, Values, Pairs, Settings, Call, Parser, Reader, on_buffer, payload, read_items, read_pairs,
  int_reply, float_reply, blob_error_reply, error_reply, bulk_reply, verbatim_reply, array_reply,
  map_reply, from_line, read_response_from, decoded,
}
use redis_py.Resp.Resp3.Wire.{error_value, is_raised}
use redis_py.Resp.Decimal.{Bytes, ℤ, decimal, int-decimal}
use redis_py.Resp.Errors.{parse_error}
use redis_py.Resp.Buffer.{ProtocolError, SocketBuffer, readline, read}
use redis_py.Resp.Buffer.Stream
use redis_py.Resp.Buffer.Stream.{stream, has_newline, readline-stream}
use redis_py.Resp.Buffer.Payload.{read-stream}
use redis_py.Resp.Parser.Wire.{int_text, framed, int-int_text}
use redis_py.Common.Outcome.{Result, Action, ok, pure, ◌>>=◌}
use mathlib.Core.List.{append_assoc}

-- what is in the stream, which handlers were called, and whether there is one for invalidations
pub record IsAt (rest : Bytes) (calls : List Call) (has : Bool) (t : Parser) : Type 0 where
  pub remaining : stream t.buffer ≡ rest
  pub called : t.calls ≡ calls
  pub handler : t.has_invalidation_handler ≡ has

pub record Reads {A : Type 0} (a : A) (rest : Bytes) (calls : List Call) (has : Bool)
    (r : Result ProtocolError A × Parser) : Type 0 where
  pub answer : r.0 ≡ ok a
  pub after : IsAt rest calls has r.1

-- the rule for a `do` block that reads
pub Reads-bind :
    {A B : Type 0} (m : Reader A) (f : A → Reader B) (s : Parser) {a : A} {b : B}
    {between rest : Bytes} {calls calls' : List Call} {has : Bool}
    → Reads a between calls has (m s)
    → ((t : Parser) → IsAt between calls has t → Reads b rest calls' has (f a t))
    → Reads b rest calls' has ((m >>= f) s)
Reads-bind m f s first then_ = rw first.answer (then_ (m s).1 first.after)

pub Reads-pure :
    {A : Type 0} (a : A) {rest : Bytes} {calls : List Call} {has : Bool} (t : Parser)
    → IsAt rest calls has t
    → Reads a rest calls has (ok a, t)
Reads-pure a t h = record { answer = refl; after = h }

Reads-on_buffer :
    {A : Type 0} (m : Action ProtocolError SocketBuffer A) (s : Parser) {a : A}
    {between rest : Bytes} {calls : List Call} {has : Bool}
    → IsAt between calls has s
    → Stream.Reads a rest (m s.buffer)
    → Reads a rest calls has (on_buffer m s)
Reads-on_buffer m s h r = record {
  answer = r.answer;
  after = record { remaining = r.remaining; called = h.called; handler = h.handler };
}

module _ (c : Settings) where
  -- a reply whose first line is `line`: what is left to show is what the parser makes of the line
  pub line_then :
      (line tail : Bytes) (fuel : ℕ) (raw push : Bool) (v : Value) (rest : Bytes)
      (calls calls' : List Call) (has : Bool) (s : Parser)
      → has_newline line ≡ false
      → IsAt (framed line tail) calls has s
      → ((t : Parser)
          → IsAt tail calls has t
          → Reads v rest calls' has (
              from_line c
                (read_response_from c fuel raw false)
                (read_response_from c fuel raw push)
                raw
                push
                line
                t))
      → Reads v rest calls' has (read_response_from c (suc fuel) raw push s)
  unfolding read_response_from
  line_then line tail fuel raw push v rest calls calls' has s plain h then_ =
      Reads-bind (on_buffer readline)
        (from_line c (read_response_from c fuel raw false) (read_response_from c fuel raw push) raw
          push)
        s (Reads-on_buffer readline s h (readline-stream line tail s.buffer plain h.remaining))
        then_

  pub framed_rest :
      (line tail rest : Bytes) {calls : List Call} {has : Bool} {s : Parser}
      → IsAt (framed line tail ++ rest) calls has s
      → IsAt (framed line (tail ++ rest)) calls has s
  framed_rest line tail rest h = record {
    remaining = h.remaining ∙ append_assoc line (b'\r' ∷ b'\n' ∷ tail) rest;
    called = h.called;
    handler = h.handler;
  }

  pub appended_rest :
      (first tail rest : Bytes) {calls : List Call} {has : Bool} {s : Parser}
      → IsAt ((first ++ tail) ++ rest) calls has s
      → IsAt (first ++ (tail ++ rest)) calls has s
  appended_rest first tail rest h = record {
    remaining = h.remaining ∙ append_assoc first tail rest;
    called = h.called;
    handler = h.handler;
  }

  Reads-payload :
      (b rest : Bytes) (calls : List Call) (has : Bool) (t : Parser)
      → IsAt (framed b rest) calls has t
      → Reads b rest calls has (payload (decimal (length b)) t)
  unfolding payload
  Reads-payload b rest calls has t h =
      rw int-decimal (
        Reads-on_buffer (read (length b)) t h (read-stream b rest b'\r' b'\n' t.buffer h.remaining))

  pub Reads-bulk :
      (b : Bytes) (raw : Bool) (rest : Bytes) (calls : List Call) (has : Bool) (t : Parser)
      → IsAt (framed b rest) calls has t
      → Reads (decoded c raw b) rest calls has (bulk_reply c raw (decimal (length b)) t)
  unfolding bulk_reply
  Reads-bulk b raw rest calls has t h =
      Reads-bind (payload (decimal (length b))) (λ x. pure (decoded c raw x)) t
        (Reads-payload b rest calls has t h) (λ u k. Reads-pure (decoded c raw b) u k)

  drop_format : (f b : Bytes) → length f ≡ 3 → drop 4 (f ++ b':' ∷ b) ≡ b
  drop_format [] b h = absurd (omega (arith, h))
  drop_format (x ∷ []) b h = absurd (omega (arith, h))
  drop_format (x ∷ y ∷ []) b h = absurd (omega (arith, h))
  drop_format (x ∷ y ∷ z ∷ []) b h = refl
  drop_format (x ∷ y ∷ z ∷ u ∷ f) b h = absurd (omega (arith, h))

  pub Reads-verbatim :
      (f b : Bytes) (raw : Bool) (rest : Bytes) (calls : List Call) (has : Bool) (t : Parser)
      → length f ≡ 3
      → IsAt (framed (f ++ b':' ∷ b) rest) calls has t
      → Reads
          (decoded c raw b)
          rest
          calls
          has
          (verbatim_reply c raw (decimal (length (f ++ b':' ∷ b))) t)
  unfolding verbatim_reply
  Reads-verbatim f b raw rest calls has t e h =
      Reads-bind (payload (decimal (length (f ++ b':' ∷ b)))) (λ x. pure (decoded c raw (drop 4 x)))
        t (Reads-payload (f ++ b':' ∷ b) rest calls has t h)
        (λ u k. rw (drop_format f b e) (Reads-pure (decoded c raw b) u k))

  pub Reads-error :
      (b rest : Bytes) (calls : List Call) (has : Bool) (t : Parser)
      → is_raised c b ≡ false
      → IsAt rest calls has t
      → Reads (error_value c b) rest calls has (error_reply c (parse_error (c.replace b)) t)
  unfolding error_reply
  Reads-error b rest calls has t e h = rw e (Reads-pure (error_value c b) t h)

  pub Reads-blob_error :
      (b rest : Bytes) (calls : List Call) (has : Bool) (t : Parser)
      → is_raised c b ≡ false
      → IsAt (framed b rest) calls has t
      → Reads (error_value c b) rest calls has (blob_error_reply c (decimal (length b)) t)
  unfolding blob_error_reply
  Reads-blob_error b rest calls has t e h =
      Reads-bind (payload (decimal (length b))) (λ x. error_reply c (parse_error (c.replace x))) t
        (Reads-payload b rest calls has t h) (λ u k. Reads-error b rest calls has u e k)

  pub Reads-int :
      (z : ℤ) (rest : Bytes) (calls : List Call) (has : Bool) (t : Parser)
      → IsAt rest calls has t
      → Reads (Value.integer z) rest calls has (int_reply c (int_text z) t)
  unfolding int_reply
  Reads-int z rest calls has t h = rw int-int_text (Reads-pure (Value.integer z) t h)

  pub Reads-float :
      (b rest : Bytes) (calls : List Call) (has : Bool) (t : Parser)
      → c.is_float b ≡ true
      → IsAt rest calls has t
      → Reads (Value.double b) rest calls has (float_reply c b t)
  unfolding float_reply
  Reads-float b rest calls has t e h = rw e (Reads-pure (Value.double b) t h)

  pub Reads-array :
      (n : ℕ) (xs : Values) (item : Reader Value) (rest : Bytes) (calls : List Call) (has : Bool)
      (t : Parser)
      → Reads xs rest calls has (read_items item n t)
      → Reads (Value.array xs) rest calls has (array_reply c item (decimal n) t)
  unfolding array_reply
  Reads-array n xs item rest calls has t h = rw int-decimal (
      Reads-bind (read_items item n) (λ ys. pure (Value.array ys)) t h
        (λ u k. Reads-pure (Value.array xs) u k))

  pub Reads-map :
      (n : ℕ) (d : Pairs) (item inner : Reader Value) (rest : Bytes) (calls : List Call)
      (has : Bool) (t : Parser)
      → Reads d rest calls has (read_pairs c item inner n Pairs.no_pairs t)
      → Reads (Value.dictionary d) rest calls has (map_reply c item inner (decimal n) t)
  unfolding map_reply
  Reads-map n d item inner rest calls has t h = rw int-decimal (
      Reads-bind (read_pairs c item inner n Pairs.no_pairs) (λ e. pure (Value.dictionary e)) t h
        (λ u k. Reads-pure (Value.dictionary d) u k))
