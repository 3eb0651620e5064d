-- ===== src/Resp/Parser.antt =====
-- redis/_parsers/resp2.py: `_RESP2Parser`. `decode` is the `Encoder` of the connection (without it
-- `decode_responses` is off), `replace` is the decoding of an error text, and the fuel bounds how
-- deep arrays are nested.
pub mod Wire
pub mod RoundTrip
pub mod Rewind
use redis_py.Resp.Errors.{ErrorClass, is_connection_error, codes, parse_error}
use redis_py.Common.{ℕ, zero, suc, Bool, Option, none, some, [], ◌∷◌, if◌then◌else◌}
use redis_py.Common.Outcome.{◌>>=◌, ◌>>◌, Result, Action, pure, raise, ok, err}
use mathlib.Core.Option
use redis_py.Common.Equality.{◌==◌, ℕ_Eq, List_Eq, list_eq}
use redis_py.Resp.Decimal.{Bytes, ℤ, pos, negsuc, int}
use redis_py.Resp.Buffer.{
  ProtocolError, SocketBuffer, readline, read, get_pos, rewind, purge, server_error, out_of_fuel,
  connection_error, invalid_response, value_error,
}

mutual
  pub data Value : Type 0 where
    nil : Value
    integer : ℤ → Value
    bytes : Bytes → Value
    text : Bytes → Value
    array : Values → Value
    failure : ErrorClass → Bytes → Value

  pub data Values : Type 0 where
    none_left : Values
    cons : Value → Values → Values

abbrev Reader : Type 0 → Type 0
Reader A = Action ProtocolError SocketBuffer A

-- `int(response)` or `ValueError`
header_int : Option ℤ → Reader ℤ
header_int none = raise value_error
header_int (some n) = pure n

-- the comprehension over `range(int(response))`
read_items : Reader Value → ℕ → Reader Values
read_items item zero = pure none_left
read_items item (suc n) = do x ← item; xs ← read_items item n; pure (cons x xs)

abbrev count_of : ℤ → ℕ
count_of (pos n) = n
count_of (negsuc n) = 0

-- `self._buffer.read(n)`; with a negative length other than -1, `BytesIO.read` takes what there is,
-- which no server sends: it is refused here.
read_bulk : ℤ → Reader Bytes
read_bulk (pos n) = read n
read_bulk (negsuc n) = raise invalid_response

module _ (decode : Bytes → Value) (replace : Bytes → Bytes) where
  decoded : Bool → Bytes → Value
  decoded disable_decoding response = if disable_decoding then bytes response else decode response

  error_reply : ErrorClass × Bytes → Reader Value
  error_reply (c, message) =
      if is_connection_error c then raise (server_error c message) else pure (failure c message)

  int_reply : Bytes → Reader Value
  int_reply response = do n ← header_int (int response); pure (integer n)

  bulk_reply : Bool → Bytes → Reader Value
  bulk_reply disable_decoding response = do
    n ← header_int (int response)
    payload ← read_bulk n
    pure (decoded disable_decoding payload)

  array_reply : Reader Value → Bytes → Reader Value
  array_reply item response = do
    n ← header_int (int response)
    items ← read_items item (count_of n)
    pure (array items)

  -- what `_read_response` does with the first byte of the line and the rest of it
  dispatch : Reader Value → Bool → ℕ → Bytes → Reader Value
  dispatch item disable_decoding byte response =
      if byte == b'-'
      then error_reply (parse_error (replace response))
      else if byte == b'+'
      then pure (decoded disable_decoding response)
      else if byte == b':'
      then int_reply response
      else if byte == b'$'
      then (if response == codes "-1" then pure nil else bulk_reply disable_decoding response)
      else if byte == b'*'
      then (if response == codes "-1" then pure nil else array_reply item response)
      else raise invalid_response

  from_line : Reader Value → Bool → Bytes → Reader Value
  from_line item disable_decoding [] = raise connection_error
  from_line item disable_decoding (byte ∷ response) = dispatch item disable_decoding byte response

  unfoldable pub read_response_from : ℕ → Bool → Reader Value
  unfolding from_line dispatch int_reply bulk_reply array_reply header_int read_items read_bulk
      decoded error_reply
  read_response_from zero disable_decoding = raise out_of_fuel
  read_response_from (suc fuel) disable_decoding = do
    raw ← readline
    from_line (read_response_from fuel disable_decoding) disable_decoding raw

  abbrev restored :
      ℕ → Result ProtocolError Value × SocketBuffer → Result ProtocolError Value × SocketBuffer
  restored position (ok v, s) = (ok v, purge s)
  restored position (err e, s) = (err e, rewind position s)

  -- An exception rewinds the buffer to where the reply began, for a later attempt to read it again.
  unfoldable pub read_response : ℕ → Bool → Reader Value
  unfolding read_response_from
  read_response fuel disable_decoding s =
      restored (get_pos s) (read_response_from fuel disable_decoding s)
