-- ===== src/Resp/Encode.antt =====
-- redis/_parsers/encoders.py (`Encoder.encode`) and redis/connection.py (`PythonRespSerializer.pack`,
-- `pack_commands`). `text_bytes` is `str.encode` under the encoding of the connection, and `utf8` is
-- that of UTF-8, which the name of a command gets.
pub mod Joined
use redis_py.Common.Outcome.{Result, ok, err}
use redis_py.Common.{
  ℕ, suc, ◌+◌, Bool, true, false, ◌&&◌, ◌||◌, List, [], ◌∷◌, ◌++◌, map, ltb, leb, if◌then◌else◌,
  length,
}
use redis_py.Common.Equality.{◌==◌, ℕ_Eq, is_in}
use redis_py.Resp.Decimal.{Bytes, ℤ, pos, negsuc, decimal}

-- The argument of a command; a float carries its `repr`, and an object of another type nothing.
pub data Arg : Type 0 where
  bytes memoryview : Bytes → Arg
  str : Bytes → Arg
  int : ℤ → Arg
  float : Bytes → Arg
  bool : Bool → Arg
  other : Arg

pub data DataError : Type 0 where
  data_error type_error index_error : DataError

-- An encoded argument, and whether it is a `memoryview`.
pub record Encoded : Type 0 where
  pub content : Bytes
  pub is_view : Bool

abbrev pub int_repr : ℤ → Bytes
int_repr (pos n) = decimal n
int_repr (negsuc n) = b'-' ∷ decimal (suc n)

abbrev plain : Bytes → Encoded
plain b = record { content = b; is_view = false }

-- `bytes.split()`: the runs between ASCII blanks
abbrev is_blank : ℕ → Bool
is_blank c = c == b' ' || (leb 9 c && leb c 13)

abbrev flush_word : Bytes → List Bytes → List Bytes
flush_word [] words = words
flush_word (c ∷ cs) words = (c ∷ cs) ∷ words

split_from : Bytes → Bytes → List Bytes
split_from word [] = flush_word word []
split_from word (c ∷ cs) =
    let rest = split_from [] cs in
    let longer = split_from (word ++ c ∷ []) cs in
    if is_blank c then flush_word word rest else longer

unfoldable pub split : Bytes → List Bytes
unfolding split_from
split b = split_from [] b

module _ (text_bytes : Bytes → Bytes) where
  unfoldable pub encode : Arg → Result DataError Encoded
  encode (bytes b) = ok (plain b)
  encode (memoryview b) = ok (record { content = b; is_view = true })
  encode (bool b) = err data_error
  encode (int z) = ok (plain (int_repr z))
  encode (float r) = ok (plain r)
  encode other = err data_error
  encode (str t) = ok (plain (text_bytes t))

  -- `map(self.encode, args)`
  unfoldable pub encode_all : List Arg → Result DataError (List Encoded)
  encode_all [] = ok []
  encode_all (a ∷ args) = elim (encode a) [
    | err e ↦ err e
    | ok x ↦ elim (encode_all args) [ err e ↦ err e | ok xs ↦ ok (x ∷ xs) ]
  ]

-- The literal words in the name of the command become arguments of their own. A `memoryview` has no
-- bytes object among its elements, and another type has no elements to test.
unfoldable pub split_name : (Bytes → Bytes) → List Arg → Result DataError (List Arg)
split_name utf8 [] = err index_error
split_name utf8 (str t ∷ args) = ok (map bytes (split (utf8 t)) ++ args)
split_name utf8 (bytes b ∷ args) =
    ok (if is_in b' ' b then map bytes (split b) ++ args else bytes b ∷ args)
split_name utf8 (memoryview b ∷ args) = ok (memoryview b ∷ args)
split_name utf8 (a ∷ args) = err type_error

abbrev pub crlf : Bytes
crlf = b'\r' ∷ b'\n' ∷ []

abbrev pub bulk_header : Encoded → Bytes
bulk_header x = b'$' ∷ (decimal (length x.content) ++ crlf)

-- a large value goes into the output as it is, between two pieces of the protocol
abbrev is_large : ℕ → Bytes → Encoded → Bool
is_large cutoff buff x = ltb cutoff (length buff) || ltb cutoff (length x.content) || x.is_view

unfoldable pub pack_loop : ℕ → Bytes → List Bytes → List Encoded → List Bytes
pack_loop cutoff buff output [] = output ++ buff ∷ []
pack_loop cutoff buff output (x ∷ xs) =
    pack_loop cutoff
      (if is_large cutoff buff x then crlf else buff ++ (bulk_header x ++ (x.content ++ crlf)))
      (if is_large cutoff buff x
        then output ++ ((buff ++ bulk_header x) ∷ x.content ∷ [])
        else output)
      xs

-- the chunks of a command whose arguments are split and encoded
unfoldable pub pack_encoded : ℕ → List Encoded → List Bytes
unfolding pack_loop
pack_encoded cutoff xs = pack_loop cutoff (b'*' ∷ (decimal (length xs) ++ crlf)) [] xs

unfoldable pub pack :
    (Bytes → Bytes) → (Bytes → Bytes) → ℕ → List Arg → Result DataError (List Bytes)
unfolding encode_all split_name pack_encoded
pack utf8 text_bytes cutoff args = elim (split_name utf8 args) [
  | err e ↦ err e
  | ok words ↦ elim (encode_all text_bytes words) [
    | err e ↦ err e
    | ok xs ↦ ok (pack_encoded cutoff xs)
  ]
]

abbrev pub join : List Bytes → Bytes
join [] = []
join (b ∷ bs) = b ++ join bs

-- The state of `pack_commands`: the output, the pieces of the chunk to come, and their length.
pub record Packing : Type 0 where
  pub output : List Bytes
  pub pieces : List Bytes
  pub buffer_length : ℕ

abbrev emit : List Bytes → List Bytes → List Bytes
emit output [] = output
emit output (p ∷ ps) = output ++ join (p ∷ ps) ∷ []

abbrev pub flush : Packing → Packing
flush s = record { output = emit s.output s.pieces; pieces = []; buffer_length = 0 }

-- a large chunk goes into the output as it is, a small one to the pieces
abbrev pub place : Bool → Encoded → Packing → Packing
place true chunk s = record s { output = s.output ++ chunk.content ∷ [] }
place false chunk s = record s {
  pieces = s.pieces ++ chunk.content ∷ [];
  buffer_length = s.buffer_length + length chunk.content;
}

-- a chunk of a packed command, with whether it is a `memoryview`
unfoldable pub add_chunk : ℕ → Packing → Encoded → Packing
add_chunk cutoff s chunk =
    let large = ltb cutoff (length chunk.content) || chunk.is_view in
    place large chunk (if ltb cutoff s.buffer_length || large then flush s else s)

unfoldable pub add_chunks : ℕ → Packing → List Encoded → Packing
add_chunks cutoff s [] = s
add_chunks cutoff s (c ∷ cs) = add_chunks cutoff (add_chunk cutoff s c) cs

-- the chunks of all the packed commands, in order
unfoldable pub pack_chunks : ℕ → List Encoded → List Bytes
unfolding add_chunks add_chunk
pack_chunks cutoff chunks =
    let s = add_chunks cutoff (record { output = []; pieces = []; buffer_length = 0 }) chunks in
    emit s.output s.pieces
