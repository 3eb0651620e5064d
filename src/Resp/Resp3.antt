-- ===== src/Resp/Resp3.antt =====
-- redis/_parsers/resp3.py: `_RESP3Parser`, over the buffer of the RESP2 parser. The push handlers are
-- calls that the parser records; what they return is a setting. A float is known by its text. The fuel
-- bounds how deep replies are nested and how many pushes come before a reply.
pub mod Wire
pub mod Reading
pub mod RoundTrip
pub mod Pushes
mod Examples
use redis_py.Common.{
  ℕ, zero, suc, Bool, true, false, ◌||◌, Option, none, some, List, [], ◌∷◌, ◌++◌, if◌then◌else◌,
  drop,
}
use redis_py.Common.Outcome.{◌>>=◌, Result, Action, pure, raise, ok, err, ◌>>◌}
use redis_py.Common.Equality.{◌==◌, ℕ_Eq, List_Eq}
use redis_py.Resp.Decimal.{Bytes, ℤ, pos, negsuc, int}
use redis_py.Resp.Errors.{ErrorClass, is_connection_error, codes, parse_error}
use redis_py.Resp.Buffer.{
  ProtocolError, SocketBuffer, readline, read, get_pos, rewind, purge, server_error, out_of_fuel,
  connection_error, invalid_response, value_error, type_error, index_error,
}

mutual
  pub data Value : Type 0 where
    nil : Value
    integer : ℤ → Value
    double : Bytes → Value
    boolean : Bool → Value
    bytes : Bytes → Value
    text : Bytes → Value
    array : Values → Value
    dictionary : Pairs → Value
    failure : ErrorClass → Bytes → Value

  pub data Values : Type 0 where
    none_left : Values
    cons : Value → Values → Values

  pub data Pairs : Type 0 where
    no_pairs : Pairs
    pair : Value → Value → Pairs → Pairs

-- a call of a push handler with the message
pub data Call : Type 0 where
  pubsub invalidation : Values → Call

pub record Parser : Type 0 where
  pub buffer : SocketBuffer
  pub calls : List Call
  pub has_invalidation_handler : Bool

-- `decode` is the `Encoder`, `replace` the decoding of an error text, `is_float` whether `float` takes a
-- text, `same` whether two keys are one key of a dictionary, `returned` what a handler returns.
pub record Settings : Type 0 where
  pub decode : Bytes → Value
  pub replace : Bytes → Bytes
  pub is_float : Bytes → Bool
  pub same : Value → Value → Bool
  pub returned : Call → Value

abbrev pub Reader : Type 0 → Type 0
Reader A = Action ProtocolError Parser A

abbrev pub on_buffer : {A : Type 0} → Action ProtocolError SocketBuffer A → Reader A
on_buffer m s = ((m s.buffer).0, record s { buffer = (m s.buffer).1 })

-- `int(response)` or `ValueError`
abbrev pub header_int : Option ℤ → Reader ℤ
header_int none = raise value_error
header_int (some n) = pure n

abbrev pub count_of : ℤ → ℕ
count_of (pos n) = n
count_of (negsuc n) = 0

-- no server sends a negative length in RESP3: it is refused here
abbrev pub read_payload : ℤ → Reader Bytes
read_payload (pos n) = on_buffer (read n)
read_payload (negsuc n) = raise invalid_response

unfoldable pub payload : Bytes → Reader Bytes
payload response = do n ← header_int (int response); read_payload n

-- the comprehension over `range(int(response))`
unfoldable pub read_items : Reader Value → ℕ → Reader Values
read_items item zero = pure none_left
read_items item (suc n) = do x ← item; xs ← read_items item n; pure (cons x xs)

abbrev pub is_hashable : Value → Bool
is_hashable (array xs) = false
is_hashable (dictionary d) = false
is_hashable v = true

abbrev pub is_invalidation : Value → Bool
is_invalidation (bytes b) = b == codes "invalidate"
is_invalidation (text b) = b == codes "invalidate"
is_invalidation v = false

module _ (c : Settings) where
  abbrev pub decoded : Bool → Bytes → Value
  decoded disable_decoding response = if disable_decoding then bytes response else c.decode response

  -- `resp_dict[key] = value`
  abbrev pub put : Value → Value → Pairs → Pairs
  put k v no_pairs = pair k v no_pairs
  put k v (pair j w d) = if c.same j k then pair j v d else pair j w (put k v d)

  abbrev pub store : Value → Value → Pairs → Reader Pairs
  store k v d = if is_hashable k then pure (put k v d) else raise type_error

  -- the loop of a map: the key is read with `key`, its value with `value`
  unfoldable pub read_pairs : Reader Value → Reader Value → ℕ → Pairs → Reader Pairs
  read_pairs key value zero d = pure d
  read_pairs key value (suc n) d = do
    k ← key
    v ← value
    d' ← store k v d
    read_pairs key value n d'

  unfoldable pub error_reply : ErrorClass × Bytes → Reader Value
  error_reply (e, message) =
      if is_connection_error e then raise (server_error e message) else pure (failure e message)

  abbrev pub call : Call → Reader Value
  call k s = (ok (c.returned k), record s { calls = s.calls ++ k ∷ [] })

  unfoldable pub handle_invalidation : Values → Reader Value
  handle_invalidation response s =
      if s.has_invalidation_handler then call (invalidation response) s else (ok nil, s)

  unfoldable pub handle_push_response : Values → Reader Value
  handle_push_response none_left = raise index_error
  handle_push_response (cons kind rest) =
      if is_invalidation kind
      then handle_invalidation (cons kind rest)
      else call (pubsub (cons kind rest))

  unfoldable pub int_reply : Bytes → Reader Value
  int_reply response = do n ← header_int (int response); pure (integer n)

  unfoldable pub float_reply : Bytes → Reader Value
  float_reply response = if c.is_float response then pure (double response) else raise value_error

  unfoldable pub blob_error_reply : Bytes → Reader Value
  blob_error_reply response = do b ← payload response; error_reply (parse_error (c.replace b))

  unfoldable pub bulk_reply : Bool → Bytes → Reader Value
  bulk_reply disable_decoding response = do b ← payload response; pure (decoded disable_decoding b)

  unfoldable pub verbatim_reply : Bool → Bytes → Reader Value
  verbatim_reply disable_decoding response = do
    b ← payload response
    pure (decoded disable_decoding (drop 4 b))

  unfoldable pub array_reply : Reader Value → Bytes → Reader Value
  array_reply item response = do
    n ← header_int (int response)
    items ← read_items item (count_of n)
    pure (array items)

  unfoldable pub map_reply : Reader Value → Reader Value → Bytes → Reader Value
  map_reply item inner response = do
    n ← header_int (int response)
    d ← read_pairs item inner (count_of n) no_pairs
    pure (dictionary d)

  abbrev pub after_push : Reader Value → Bool → Value → Reader Value
  after_push inner push_request result = if push_request then pure result else inner

  -- a push: after it, unless a push was asked for, the next reply is read.
  unfoldable pub push_reply : Reader Value → Bool → Bytes → Reader Value
  push_reply inner push_request response = do
    n ← header_int (int response)
    items ← read_items inner (count_of n)
    result ← handle_push_response items
    after_push inner push_request result

  -- `item` reads with `push_request=False`, `inner` with the flag of this call.
  unfoldable pub dispatch : Reader Value → Reader Value → Bool → Bool → ℕ → Bytes → Reader Value
  dispatch item inner disable_decoding push_request byte response =
      if byte == b'-'
      then error_reply (parse_error (c.replace response))
      else if byte == b'!'
      then blob_error_reply response
      else if byte == b'+'
      then pure (decoded disable_decoding response)
      else if byte == b'_'
      then pure nil
      else if (byte == b':') || (byte == b'(')
      then int_reply response
      else if byte == b','
      then float_reply response
      else if byte == b'#'
      then pure (boolean (response == codes "t"))
      else if byte == b'$'
      then bulk_reply disable_decoding response
      else if byte == b'='
      then verbatim_reply disable_decoding response
      else if (byte == b'*') || (byte == b'~')
      then array_reply item response
      else if byte == b'%'
      then map_reply item inner response
      else if byte == b'>'
      then push_reply inner push_request response
      else raise invalid_response

  unfoldable pub from_line : Reader Value → Reader Value → Bool → Bool → Bytes → Reader Value
  from_line item inner disable_decoding push_request [] = raise connection_error
  from_line item inner disable_decoding push_request (byte ∷ response) =
      dispatch item inner disable_decoding push_request byte response

  unfoldable pub read_response_from : ℕ → Bool → Bool → Reader Value
  read_response_from zero disable_decoding push_request = raise out_of_fuel
  read_response_from (suc fuel) disable_decoding push_request = do
    raw ← on_buffer readline
    from_line (read_response_from fuel disable_decoding false)
        (read_response_from fuel disable_decoding push_request) disable_decoding push_request raw

  abbrev pub restored :
      ℕ → Result ProtocolError Value × Parser → Result ProtocolError Value × Parser
  restored position (ok v, s) = (ok v, record s { buffer = purge s.buffer })
  restored position (err e, s) = (err e, record s { buffer = rewind position s.buffer })

  -- An exception rewinds the buffer to where the reply began, for a later attempt to read it again.
  unfoldable pub read_response : ℕ → Bool → Bool → Reader Value
  read_response fuel disable_decoding push_request s =
      restored (get_pos s.buffer) (read_response_from fuel disable_decoding push_request s)
