-- ===== src/Resp/Resp3/RoundTrip.antt =====
-- What the server writes, the RESP3 parser reads.
use redis_py.Resp.Encode.{split}
use redis_py.Common.{
  ℕ, zero, suc, ◌≤◌, ◌<◌, ◌≡◌, refl, Bool, true, false, List, [], ◌∷◌, ◌++◌, arith, length,
}
use redis_py.Resp.Resp3.{
  Value, Values, Pairs, Settings, Call, Parser, Reader, read_items, read_pairs, from_line, dispatch,
  read_response_from, decoded, put, store, is_hashable,
}
use redis_py.Resp.Resp3.Wire.{
  Wire, Wires, Entries, null, number, big_number, float, truth, bulk, status, error, blob_error,
  verbatim, items, members, mapping, last, more, last_entry, entry, count, count_entries,
  truth_text, encode, encode_all, encode_entries, depth, depths, depth_entries, value, values,
  all_entries, IsValid, AreValid, AreValidEntries,
}
use redis_py.Resp.Resp3.Reading.{
  IsAt, Reads, Reads-bind, Reads-pure, line_then, framed_rest, appended_rest, Reads-bulk,
  Reads-verbatim, Reads-error, Reads-blob_error, Reads-int, Reads-float, Reads-array, Reads-map,
}
use redis_py.Resp.Decimal.{Bytes, decimal}
use redis_py.Resp.Errors.{codes}
use redis_py.Resp.Buffer.Stream.{has_newline}
use redis_py.Resp.Parser.Wire.{int_text, framed, int_text-has_newline, decimal-has_newline}
use redis_py.Common.Outcome.{ok, pure, ◌>>=◌}
use redis_py.Common.Equality.{ℕ_Eq, List_Eq, list_eq}

module _ (c : Settings) where
  store-put :
      (k v : Value) (d : Pairs) (rest : Bytes) (calls : List Call) (has : Bool) (t : Parser)
      → is_hashable k ≡ true
      → IsAt rest calls has t
      → Reads (put c k v d) rest calls has (store c k v d t)
  store-put k v d rest calls has t e h = rw e (Reads-pure (put c k v d) t h)

  truth-has_newline : (t : Bool) → has_newline (truth_text t) ≡ false
  truth-has_newline true = refl
  truth-has_newline false = refl

  read-truth :
      (t : Bool) (rest : Bytes) (calls : List Call) (has : Bool) (s : Parser)
      → IsAt rest calls has s
      → Reads
          (Value.boolean t)
          rest
          calls
          has
          (ok (Value.boolean (list_eq (truth_text t) (codes "t"))), s)
  read-truth true rest calls has s h = Reads-pure (Value.boolean true) s h
  read-truth false rest calls has s h = Reads-pure (Value.boolean false) s h

  -- the reader of a reply that is in the stream
  abbrev pub ReadsWire : ℕ → Bool → Bool → Wire → Type 0
  ReadsWire fuel raw push w =
      (rest : Bytes) (calls : List Call) (has : Bool) (t : Parser)
      → IsAt (encode w ++ rest) calls has t
      → Reads (value c raw w) rest calls has (read_response_from c fuel raw push t)

  scalar :
      (w : Wire) (line tail : Bytes) (fuel : ℕ) (raw push : Bool)
      → has_newline line ≡ false
      → ((rest : Bytes) (calls : List Call) (has : Bool) (t : Parser)
          → IsAt (encode w ++ rest) calls has t
          → IsAt (framed line (tail ++ rest)) calls has t)
      → ((rest : Bytes) (calls : List Call) (has : Bool) (t : Parser)
          → IsAt (tail ++ rest) calls has t
          → Reads (value c raw w) rest calls has (
              from_line c
                (read_response_from c fuel raw false)
                (read_response_from c fuel raw push)
                raw
                push
                line
                t))
      → ReadsWire (suc fuel) raw push w
  scalar w line tail fuel raw push plain split body rest calls has t h =
      line_then c line (tail ++ rest) fuel raw push (value c raw w) rest calls calls has t plain
        (split rest calls has t h) (λ u k. body rest calls has u k)

  depth-positive : (w : Wire) → 0 < depth w
  depth-positive null = omega arith
  depth-positive (number z) = omega arith
  depth-positive (big_number z) = omega arith
  depth-positive (float b) = omega arith
  depth-positive (truth t) = omega arith
  depth-positive (bulk b) = omega arith
  depth-positive (status b) = omega arith
  depth-positive (error b) = omega arith
  depth-positive (blob_error b) = omega arith
  depth-positive (verbatim f b) = omega arith
  depth-positive (items ws) = omega arith
  depth-positive (members ws) = omega arith
  depth-positive (mapping es) = omega arith

  mutual
    unfolding from_line dispatch read_items read_pairs

    pub read-encode :
        (w : Wire) (fuel : ℕ) (raw push : Bool)
        → depth w ≤ fuel
        → IsValid c raw w
        → ReadsWire fuel raw push w
    read-encode w zero raw push d v = absurd (ground (arith, depth-positive w))
    read-encode null (suc fuel) raw push d v =
        scalar null (b'_' ∷ []) [] fuel raw push refl (λ rest calls has t h. h)
          (λ rest calls has t h. Reads-pure Value.nil t h)
    read-encode (number z) (suc fuel) raw push d v =
        scalar (number z) (b':' ∷ int_text z) [] fuel raw push (int_text-has_newline z)
          (λ rest calls has t h. framed_rest c (b':' ∷ int_text z) [] rest h)
          (λ rest calls has t h. Reads-int c z rest calls has t h)
    read-encode (big_number z) (suc fuel) raw push d v =
        scalar (big_number z) (b'(' ∷ int_text z) [] fuel raw push (int_text-has_newline z)
          (λ rest calls has t h. framed_rest c (b'(' ∷ int_text z) [] rest h)
          (λ rest calls has t h. Reads-int c z rest calls has t h)
    read-encode (float b) (suc fuel) raw push d v =
        scalar (float b) (b',' ∷ b) [] fuel raw push v.0
          (λ rest calls has t h. framed_rest c (b',' ∷ b) [] rest h)
          (λ rest calls has t h. Reads-float c b rest calls has t v.1 h)
    read-encode (truth x) (suc fuel) raw push d v =
        scalar (truth x) (b'#' ∷ truth_text x) [] fuel raw push (truth-has_newline x)
          (λ rest calls has t h. framed_rest c (b'#' ∷ truth_text x) [] rest h)
          (λ rest calls has t h. read-truth x rest calls has t h)
    read-encode (bulk b) (suc fuel) raw push d v =
        scalar (bulk b) (b'$' ∷ decimal (length b)) (framed b []) fuel raw push
          (decimal-has_newline (length b))
          (λ rest calls has t h. framed_rest c (b'$' ∷ decimal (length b)) (framed b []) rest h)
          (λ rest calls has t h. Reads-bulk c b raw rest calls has t (framed_rest c b [] rest h))
    read-encode (status b) (suc fuel) raw push d v =
        scalar (status b) (b'+' ∷ b) [] fuel raw push v
          (λ rest calls has t h. framed_rest c (b'+' ∷ b) [] rest h)
          (λ rest calls has t h. Reads-pure (decoded c raw b) t h)
    read-encode (error b) (suc fuel) raw push d v =
        scalar (error b) (b'-' ∷ b) [] fuel raw push v.0
          (λ rest calls has t h. framed_rest c (b'-' ∷ b) [] rest h)
          (λ rest calls has t h. Reads-error c b rest calls has t v.1 h)
    read-encode (blob_error b) (suc fuel) raw push d v =
        scalar (blob_error b) (b'!' ∷ decimal (length b)) (framed b []) fuel raw push
          (decimal-has_newline (length b))
          (λ rest calls has t h. framed_rest c (b'!' ∷ decimal (length b)) (framed b []) rest h)
          (λ rest calls has t h.
            Reads-blob_error c b rest calls has t v (framed_rest c b [] rest h))
    read-encode (verbatim f b) (suc fuel) raw push d v =
        scalar (verbatim f b) (b'=' ∷ decimal (length (f ++ b':' ∷ b))) (framed (f ++ b':' ∷ b) [])
          fuel raw push (decimal-has_newline (length (f ++ b':' ∷ b)))
          (λ rest calls has t h.
            framed_rest c (b'=' ∷ decimal (length (f ++ b':' ∷ b))) (framed (f ++ b':' ∷ b) []) rest
              h)
          (λ rest calls has t h.
            Reads-verbatim c f b raw rest calls has t v (framed_rest c (f ++ b':' ∷ b) [] rest h))
    read-encode (items ws) (suc fuel) raw push d v =
        scalar (items ws) (b'*' ∷ decimal (count ws)) (encode_all ws) fuel raw push
          (decimal-has_newline (count ws))
          (λ rest calls has t h. framed_rest c (b'*' ∷ decimal (count ws)) (encode_all ws) rest h)
          (λ rest calls has t h.
            Reads-array c (count ws) (values c raw ws) (read_response_from c fuel raw false) rest
              calls has t (read_items-encode ws fuel raw false rest calls has t (omega arith) v h))
    read-encode (members ws) (suc fuel) raw push d v =
        scalar (members ws) (b'~' ∷ decimal (count ws)) (encode_all ws) fuel raw push
          (decimal-has_newline (count ws))
          (λ rest calls has t h. framed_rest c (b'~' ∷ decimal (count ws)) (encode_all ws) rest h)
          (λ rest calls has t h.
            Reads-array c (count ws) (values c raw ws) (read_response_from c fuel raw false) rest
              calls has t (read_items-encode ws fuel raw false rest calls has t (omega arith) v h))
    read-encode (mapping es) (suc fuel) raw push d v =
        scalar (mapping es) (b'%' ∷ decimal (count_entries es)) (encode_entries es) fuel raw push
          (decimal-has_newline (count_entries es))
          (λ rest calls has t h.
            framed_rest c (b'%' ∷ decimal (count_entries es)) (encode_entries es) rest h)
          (λ rest calls has t h.
            Reads-map c (count_entries es) (all_entries c raw es Pairs.no_pairs)
              (read_response_from c fuel raw false) (read_response_from c fuel raw push) rest calls
              has t
              (read_pairs-encode es fuel raw push Pairs.no_pairs rest calls has t (omega arith) v
                h))

    pub read_items-encode :
        (ws : Wires) (fuel : ℕ) (raw push : Bool) (rest : Bytes) (calls : List Call) (has : Bool)
        (s : Parser)
        → depths ws ≤ fuel
        → AreValid c raw ws
        → IsAt (encode_all ws ++ rest) calls has s
        → Reads
            (values c raw ws)
            rest
            calls
            has
            (read_items (read_response_from c fuel raw push) (count ws) s)
    read_items-encode last fuel raw push rest calls has s d v h = Reads-pure Values.none_left s h
    read_items-encode (more w ws) fuel raw push rest calls has s d v h =
        Reads-bind (read_response_from c fuel raw push)
          (λ x. read_items (read_response_from c fuel raw push) (count ws) >>= λ xs.
            pure (Values.cons x xs))
          s
          (read-encode w fuel raw push (omega arith) v.0 (encode_all ws ++ rest) calls has s
            (appended_rest c (encode w) (encode_all ws) rest h))
          λ t k.
            Reads-bind (read_items (read_response_from c fuel raw push) (count ws))
              (λ xs. pure (Values.cons (value c raw w) xs)) t
              (read_items-encode ws fuel raw push rest calls has t (omega arith) v.1 k)
              λ u k'. Reads-pure (Values.cons (value c raw w) (values c raw ws)) u k'

    read_pairs-encode :
        (es : Entries) (fuel : ℕ) (raw push : Bool) (d : Pairs) (rest : Bytes) (calls : List Call)
        (has : Bool) (s : Parser)
        → depth_entries es ≤ fuel
        → AreValidEntries c raw es
        → IsAt (encode_entries es ++ rest) calls has s
        → Reads (all_entries c raw es d) rest calls has (
            read_pairs c
              (read_response_from c fuel raw false)
              (read_response_from c fuel raw push)
              (count_entries es)
              d
              s)
    read_pairs-encode last_entry fuel raw push d rest calls has s e v h = Reads-pure d s h
    read_pairs-encode (entry k x es) fuel raw push d rest calls has s e v h =
        let item : Reader Value = read_response_from c fuel raw false in
        let inner : Reader Value = read_response_from c fuel raw push in
        Reads-bind item
          (λ i.
            inner >>= λ j. store c i j d >>= λ d'. read_pairs c item inner (count_entries es) d')
          s
          (read-encode k fuel raw false (omega arith) v.0.1
            ((encode x ++ encode_entries es) ++ rest) calls has s
            (appended_rest c (encode k) (encode x ++ encode_entries es) rest h))
          λ t k1.
            Reads-bind inner
              (λ j.
                store c (value c raw k) j d >>= λ d'. read_pairs c item inner (count_entries es) d')
              t
              (read-encode x fuel raw push (omega arith) v.1.0 (encode_entries es ++ rest) calls has
                t (appended_rest c (encode x) (encode_entries es) rest k1))
              λ u k2.
                Reads-bind (store c (value c raw k) (value c raw x) d)
                  (λ d'. read_pairs c item inner (count_entries es) d') u
                  (store-put (value c raw k) (value c raw x) d (encode_entries es ++ rest) calls has
                    u v.0.0 k2)
                  λ u' k3.
                    read_pairs-encode es fuel raw push (put c (value c raw k) (value c raw x) d)
                      rest calls has u' (omega arith) v.1.1 k3
