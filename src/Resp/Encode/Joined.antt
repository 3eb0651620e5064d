-- ===== src/Resp/Encode/Joined.antt =====
-- The bytes that are sent do not depend on how they are cut into chunks.
use redis_py.Common.{
  ℕ, suc, ◌≡◌, refl, sym, ap, inl, inr, List, [], ◌∷◌, ◌++◌, map, Bool-cases, length, Bool, true,
  false, ◌||◌, ltb, if◌then◌else◌,
}
use redis_py.Resp.Decimal.{Bytes}
use redis_py.Resp.Encode.{
  Encoded, crlf, bulk_header, pack_loop, pack_encoded, join, Packing, add_chunk, add_chunks,
  pack_chunks, is_large, emit, flush, place,
}
use redis_py.Resp.Parser.Wire.{Wire, Wires, bulk, items, last, more, framed, count}
use redis_py.Resp.Parser.Wire
use mathlib.Core.List.{append-nil, append_assoc}

join-append : (xs ys : List Bytes) → join (xs ++ ys) ≡ join xs ++ join ys
join-append [] ys = refl
join-append (x ∷ xs) ys = rw (join-append xs ys) (sym (append_assoc x (join xs) (join ys)))

ruleset join_laws = (join-append, append_assoc, append-nil)

abbrev bulk_bytes : Encoded → Bytes
bulk_bytes x = bulk_header x ++ (x.content ++ crlf)

abbrev all_bulk_bytes : List Encoded → Bytes
all_bulk_bytes [] = []
all_bulk_bytes (x ∷ xs) = bulk_bytes x ++ all_bulk_bytes xs

join-pack_loop :
    (cutoff : ℕ) (buff : Bytes) (output : List Bytes) (xs : List Encoded)
    → join (pack_loop cutoff buff output xs) ≡ join output ++ (buff ++ all_bulk_bytes xs)
unfolding pack_loop
join-pack_loop cutoff buff output [] = simp join_laws
join-pack_loop cutoff buff output (x ∷ xs) = elim (Bool-cases (is_large cutoff buff x)) [
  | inl e ↦
      rw (e, join-pack_loop cutoff crlf (output ++ ((buff ++ bulk_header x) ∷ x.content ∷ [])) xs)
        (simp join_laws)
  | inr e ↦ rw (e, join-pack_loop cutoff (buff ++ bulk_bytes x) output xs) (simp join_laws)
]

-- The arguments as the items of a protocol array.
abbrev pub bulks : List Encoded → Wires
bulks [] = last
bulks (x ∷ xs) = more (bulk x.content) (bulks xs)

count-bulks : (xs : List Encoded) → count (bulks xs) ≡ length xs
count-bulks [] = refl
count-bulks (x ∷ xs) = ap suc (count-bulks xs)

encode_all-bulks : (xs : List Encoded) → Wire.encode_all (bulks xs) ≡ all_bulk_bytes xs
encode_all-bulks [] = refl
encode_all-bulks (x ∷ xs) = rw (encode_all-bulks xs) (simp join_laws)

-- Whatever the cutoff, the chunks of a packed command join to the protocol's array of its arguments
-- as bulk strings.
pub join-pack_encoded :
    (cutoff : ℕ) (xs : List Encoded)
    → join (pack_encoded cutoff xs) ≡ Wire.encode (items (bulks xs))
unfolding pack_encoded
join-pack_encoded cutoff xs = rw (join-pack_loop, encode_all-bulks, count-bulks) (simp join_laws)

join-emit : (output pieces : List Bytes) → join (emit output pieces) ≡ join output ++ join pieces
join-emit output [] = simp join_laws
join-emit output (p ∷ ps) = simp join_laws

abbrev sent : Packing → Bytes
sent s = join s.output ++ join s.pieces

sent-flush : (s : Packing) → sent (flush s) ≡ sent s
sent-flush s = rw join-emit (simp join_laws)

sent-place :
    (over large : Bool) (s : Packing) (c : Encoded)
    → sent (place large c (if over || large then flush s else s)) ≡ sent s ++ c.content
sent-place true true s c = rw (join-append, join-emit) (simp join_laws)
sent-place false true s c = rw (join-append, join-emit) (simp join_laws)
sent-place true false s c = rw join-emit (simp join_laws)
sent-place false false s c = simp join_laws

sent-add_chunk :
    (cutoff : ℕ) (s : Packing) (c : Encoded) → sent (add_chunk cutoff s c) ≡ sent s ++ c.content
unfolding add_chunk
sent-add_chunk cutoff s c =
    sent-place (ltb cutoff s.buffer_length) (ltb cutoff (length c.content) || c.is_view) s c

abbrev contents : List Encoded → List Bytes
contents = map (λ c. c.content)

sent-add_chunks :
    (cutoff : ℕ) (s : Packing) (cs : List Encoded)
    → sent (add_chunks cutoff s cs) ≡ sent s ++ join (contents cs)
unfolding add_chunks
sent-add_chunks cutoff s [] = simp join_laws
sent-add_chunks cutoff s (c ∷ cs) =
    rw (sent-add_chunks cutoff (add_chunk cutoff s c) cs, sent-add_chunk) (simp join_laws)

-- Whatever the cutoff, a pipeline's chunks are sent whole and in order.
pub join-pack_chunks :
    (cutoff : ℕ) (cs : List Encoded) → join (pack_chunks cutoff cs) ≡ join (contents cs)
unfolding pack_chunks
join-pack_chunks cutoff cs =
    rw join-emit
      (sent-add_chunks cutoff (record { output = []; pieces = []; buffer_length = 0 }) cs)
