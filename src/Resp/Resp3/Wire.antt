-- ===== src/Resp/Resp3/Wire.antt =====
-- The RESP3 replies as the protocol defines them, independently of the parser: their bytes, and the
-- value that each stands for.
use redis_py.Common.{ℕ, suc, max, ◌≡◌, Bool, true, false, [], ◌∷◌, ◌++◌, length}
use redis_py.Resp.Resp3.{Value, Values, Pairs, Settings, put, decoded, is_hashable}
use redis_py.Resp.Decimal.{Bytes, ℤ, decimal}
use redis_py.Resp.Buffer.Stream.{has_newline}
use redis_py.Resp.Errors.{is_connection_error, parse_error, codes}
use redis_py.Resp.Parser.Wire.{int_text, framed}

mutual
  pub data Wire : Type 0 where
    null : Wire
    number big_number : ℤ → Wire
    float : Bytes → Wire
    truth : Bool → Wire
    bulk status error blob_error : Bytes → Wire
    -- a format of three bytes, and the text
    verbatim : Bytes → Bytes → Wire
    items members : Wires → Wire
    mapping : Entries → Wire

  pub data Wires : Type 0 where
    last : Wires
    more : Wire → Wires → Wires

  pub data Entries : Type 0 where
    last_entry : Entries
    entry : Wire → Wire → Entries → Entries

abbrev pub count : Wires → ℕ
count last = 0
count (more w ws) = suc (count ws)

abbrev pub count_entries : Entries → ℕ
count_entries last_entry = 0
count_entries (entry k v es) = suc (count_entries es)

abbrev pub truth_text : Bool → Bytes
truth_text true = codes "t"
truth_text false = codes "f"

abbrev pub sized : ℕ → Bytes → Bytes → Bytes
sized marker b rest = framed (marker ∷ decimal (length b)) (framed b rest)

abbrev mutual
  pub encode : Wire → Bytes
  encode null = framed (b'_' ∷ []) []
  encode (number z) = framed (b':' ∷ int_text z) []
  encode (big_number z) = framed (b'(' ∷ int_text z) []
  encode (float b) = framed (b',' ∷ b) []
  encode (truth t) = framed (b'#' ∷ truth_text t) []
  encode (bulk b) = sized b'$' b []
  encode (status b) = framed (b'+' ∷ b) []
  encode (error b) = framed (b'-' ∷ b) []
  encode (blob_error b) = sized b'!' b []
  encode (verbatim f b) = sized b'=' (f ++ b':' ∷ b) []
  encode (items ws) = framed (b'*' ∷ decimal (count ws)) (encode_all ws)
  encode (members ws) = framed (b'~' ∷ decimal (count ws)) (encode_all ws)
  encode (mapping es) = framed (b'%' ∷ decimal (count_entries es)) (encode_entries es)

  pub encode_all : Wires → Bytes
  encode_all last = []
  encode_all (more w ws) = encode w ++ encode_all ws

  pub encode_entries : Entries → Bytes
  encode_entries last_entry = []
  encode_entries (entry k v es) = encode k ++ (encode v ++ encode_entries es)

  -- how deep the replies are nested
  pub depth : Wire → ℕ
  depth (items ws) = suc (depths ws)
  depth (members ws) = suc (depths ws)
  depth (mapping es) = suc (depth_entries es)
  depth w = 1

  pub depths : Wires → ℕ
  depths last = 0
  depths (more w ws) = max (depth w) (depths ws)

  pub depth_entries : Entries → ℕ
  depth_entries last_entry = 0
  depth_entries (entry k v es) = max (max (depth k) (depth v)) (depth_entries es)

module _ (c : Settings) where
  abbrev pub error_value : Bytes → Value
  error_value b = Value.failure (parse_error (c.replace b)).0 (parse_error (c.replace b)).1

  abbrev pub is_raised : Bytes → Bool
  is_raised b = is_connection_error (parse_error (c.replace b)).0

  abbrev mutual
    -- what the caller of `read_response` is to be given
    pub value : Bool → Wire → Value
    value raw null = Value.nil
    value raw (number z) = Value.integer z
    value raw (big_number z) = Value.integer z
    value raw (float b) = Value.double b
    value raw (truth t) = Value.boolean t
    value raw (bulk b) = decoded c raw b
    value raw (status b) = decoded c raw b
    value raw (error b) = error_value b
    value raw (blob_error b) = error_value b
    value raw (verbatim f b) = decoded c raw b
    value raw (items ws) = Value.array (values raw ws)
    value raw (members ws) = Value.array (values raw ws)
    value raw (mapping es) = Value.dictionary (all_entries raw es Pairs.no_pairs)

    pub values : Bool → Wires → Values
    values raw last = Values.none_left
    values raw (more w ws) = Values.cons (value raw w) (values raw ws)

    -- the entries one after the other: a later value of a key replaces the one before
    pub all_entries : Bool → Entries → Pairs → Pairs
    all_entries raw last_entry d = d
    all_entries raw (entry k v es) d = all_entries raw es (put c (value raw k) (value raw v) d)

  -- A line holds no newline, an error is not one that the parser raises, the format of a verbatim text
  -- has three bytes, a float is one that Python reads, and the keys of a map can be hashed.
  abbrev mutual
    pub IsValid : Bool → Wire → Type 0
    IsValid raw (float b) = (has_newline b ≡ false) × (c.is_float b ≡ true)
    IsValid raw (status b) = has_newline b ≡ false
    IsValid raw (error b) = (has_newline b ≡ false) × (is_raised b ≡ false)
    IsValid raw (blob_error b) = is_raised b ≡ false
    IsValid raw (verbatim f b) = length f ≡ 3
    IsValid raw (items ws) = AreValid raw ws
    IsValid raw (members ws) = AreValid raw ws
    IsValid raw (mapping es) = AreValidEntries raw es
    IsValid raw w = Unit {0}

    pub AreValid : Bool → Wires → Type 0
    AreValid raw last = Unit {0}
    AreValid raw (more w ws) = IsValid raw w × AreValid raw ws

    pub AreValidEntries : Bool → Entries → Type 0
    AreValidEntries raw last_entry = Unit {0}
    AreValidEntries raw (entry k v es) =
        ((is_hashable (value raw k) ≡ true) × IsValid raw k)
        × (IsValid raw v × AreValidEntries raw es)
