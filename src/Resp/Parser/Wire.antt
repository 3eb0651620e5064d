-- ===== src/Resp/Parser/Wire.antt =====
-- The RESP2 replies as the protocol defines them, independently of the parser: their bytes, and the
-- value that each stands for.
use redis_py.Common.{
  ℕ, suc, max, [], ◌∷◌, ◌++◌, length, ◌≡◌, refl, Bool, false, some, arith, if◌then◌else◌, All,
}
use redis_py.Common.Equality.{ℕ_Eq, List_Eq, list_eq}
use redis_py.Resp.Decimal.{
  Bytes, ℤ, pos, negsuc, int, decimal, int-decimal, decimal-IsDigit, IsDigit, int-minus-decimal,
}
use redis_py.Resp.Buffer.Stream.{has_newline}
use redis_py.Resp.Errors.{is_connection_error, parse_error, codes}
use redis_py.Resp.Parser.{Value, Values, nil, integer, bytes, array, failure, none_left, cons}

mutual
  pub data Wire : Type 0 where
    null_bulk null_array : Wire
    number : ℤ → Wire
    bulk : Bytes → Wire
    status : Bytes → Wire
    error : Bytes → Wire
    items : Wires → Wire

  pub data Wires : Type 0 where
    last : Wires
    more : Wire → Wires → Wires

abbrev pub int_text : ℤ → Bytes
int_text (pos n) = decimal n
int_text (negsuc n) = b'-' ∷ decimal (suc n)

abbrev pub framed : Bytes → Bytes → Bytes
framed line tail = line ++ b'\r' ∷ b'\n' ∷ tail

abbrev pub count : Wires → ℕ
count last = 0
count (more w ws) = suc (count ws)

abbrev mutual
  pub encode : Wire → Bytes
  encode null_bulk = framed (codes "$-1") []
  encode null_array = framed (codes "*-1") []
  encode (number z) = framed (b':' ∷ int_text z) []
  encode (bulk b) = framed (b'$' ∷ decimal (length b)) (framed b [])
  encode (status b) = framed (b'+' ∷ b) []
  encode (error b) = framed (b'-' ∷ b) []
  encode (items ws) = framed (b'*' ∷ decimal (count ws)) (encode_all ws)

  pub encode_all : Wires → Bytes
  encode_all last = []
  encode_all (more w ws) = encode w ++ encode_all ws

  -- how deep the arrays are nested
  pub depth : Wire → ℕ
  depth (items ws) = suc (depths ws)
  depth w = 1

  pub depths : Wires → ℕ
  depths last = 0
  depths (more w ws) = max (depth w) (depths ws)

-- A status and an error line hold no newline, and an error is not one that the parser raises.
module _ (decode : Bytes → Value) (replace : Bytes → Bytes) where
  abbrev mutual
    pub IsValid : Wire → Type 0
    IsValid (status b) = has_newline b ≡ false
    IsValid (error b) =
        (has_newline b ≡ false) × (is_connection_error (parse_error (replace b)).0 ≡ false)
    IsValid (items ws) = AreValid ws
    IsValid w = Unit {0}

    pub AreValid : Wires → Type 0
    AreValid last = Unit {0}
    AreValid (more w ws) = IsValid w × AreValid ws

  abbrev pub decoded_text : Bool → Bytes → Value
  decoded_text disable_decoding b = if disable_decoding then bytes b else decode b

  abbrev mutual
    -- what the caller of `read_response` is to be given
    pub value : Bool → Wire → Value
    value raw null_bulk = nil
    value raw null_array = nil
    value raw (number z) = integer z
    value raw (bulk b) = decoded_text raw b
    value raw (status b) = decoded_text raw b
    value raw (error b) = failure (parse_error (replace b)).0 (parse_error (replace b)).1
    value raw (items ws) = array (all_values raw ws)

    pub all_values : Bool → Wires → Values
    all_values raw last = none_left
    all_values raw (more w ws) = cons (value raw w) (all_values raw ws)

pub int-int_text : (z : ℤ) → int (int_text z) ≡ some z
int-int_text (pos n) = int-decimal n
int-int_text (negsuc n) = int-minus-decimal n

digits-has_newline : (ds : Bytes) → All IsDigit ds → has_newline ds ≡ false
digits-has_newline [] h = refl
digits-has_newline (d ∷ ds) h = ground (arith, h.0, digits-has_newline ds h.1)

pub decimal-has_newline : (n : ℕ) → has_newline (decimal n) ≡ false
decimal-has_newline n = digits-has_newline (decimal n) (decimal-IsDigit n)

pub int_text-has_newline : (z : ℤ) → has_newline (int_text z) ≡ false
int_text-has_newline (pos n) = decimal-has_newline n
int_text-has_newline (negsuc n) = decimal-has_newline (suc n)

digits-ne-null : (ds : Bytes) → All IsDigit ds → list_eq ds (codes "-1") ≡ false
digits-ne-null [] h = refl
digits-ne-null (d ∷ ds) h = ground (arith, h.0)

pub decimal-ne-null : (n : ℕ) → list_eq (decimal n) (codes "-1") ≡ false
decimal-ne-null n = digits-ne-null (decimal n) (decimal-IsDigit n)
