-- ===== src/Cluster/Slot.antt =====
-- redis/crc.py: `key_slot`. `binascii.crc_hqx` is a parameter. A key is the list of its bytes.
use redis_py.Common.{
  ℕ, zero, suc, ◌<◌, ◌≡◌, ◌≢◌, refl, ap, false, Bool-cases, List, [], ◌∷◌, ◌++◌, Option, none, some,
  length, arith, inl, inr, if◌then◌else◌, take, drop, ◌%◌, ==_iff, take-length_append,
}
use redis_py.Common.Equality.{◌==◌, ℕ_Eq, is_in}

-- `key.find(c)`, and `none` for -1
unfoldable pub find : ℕ → List ℕ → Option ℕ
find c [] = none
find c (x ∷ xs) =
    if x == c then some 0 else elim (find c xs) [ none ↦ none | some i ↦ some (suc i) ]

abbrev pub open_brace : ℕ
open_brace = 123

abbrev pub close_brace : ℕ
close_brace = 125

-- The part between the first `{` and the next `}`, if there is one and it is not empty: `end` is counted
-- from `start + 1`.
unfoldable pub tag_from : List ℕ → List ℕ → Option ℕ → List ℕ
tag_from key rest none = key
tag_from key rest (some zero) = key
tag_from key rest (some (suc n)) = take (suc n) rest

unfoldable pub hash_tag : List ℕ → List ℕ
hash_tag key = elim (find open_brace key) [
  | none ↦ key
  | some start ↦ let rest = drop (suc start) key in tag_from key rest (find close_brace rest)
]

abbrev pub redis_cluster_hash_slots : ℕ
redis_cluster_hash_slots = 16384

module _ (crc_hqx : List ℕ → ℕ) where
  unfoldable pub key_slot : List ℕ → ℕ → ℕ
  key_slot key bucket = crc_hqx (hash_tag key) % bucket

find-first :
    (c : ℕ) (xs ys : List ℕ) → is_in c xs ≡ false → find c (xs ++ c ∷ ys) ≡ some (length xs)
unfolding find
find-first c [] ys h = rw ((==_iff c c).1 refl) refl
find-first c (x ∷ xs) ys h = elim (Bool-cases (x == c)) [
  | inl q ↦ ground (arith)
  | inr q ↦ rw (q, find-first c xs ys (ground arith)) refl
]

drop-past : (xs ys : List ℕ) (c : ℕ) → drop (suc (length xs)) (xs ++ c ∷ ys) ≡ ys
drop-past [] ys c = refl
drop-past (x ∷ xs) ys c = drop-past xs ys c

tag_from-take :
    (key tag rest : List ℕ) → tag ≢ [] → tag_from key (tag ++ rest) (some (length tag)) ≡ tag
unfolding tag_from
tag_from-take key [] rest h = elim (h refl) [ ]
tag_from-take key (x ∷ tag) rest h = ap (λ l. x ∷ l) (take-length_append tag rest)

hash_tag-tag :
    (before tag after : List ℕ)
    → is_in open_brace before ≡ false
    → is_in close_brace tag ≡ false
    → tag ≢ []
    → hash_tag (before ++ open_brace ∷ (tag ++ close_brace ∷ after)) ≡ tag
unfolding hash_tag
hash_tag-tag before tag after h g n =
    rw
      (
        hash_tag,
        find-first open_brace before (tag ++ close_brace ∷ after) h,
        drop-past before (tag ++ close_brace ∷ after) open_brace,
        find-first close_brace tag after g,
      )
      (tag_from-take (before ++ open_brace ∷ (tag ++ close_brace ∷ after)) tag (close_brace ∷ after)
        n)

-- Keys with the same hash tag, the part between the first `{` and the next `}`, are in the same slot,
-- whatever stands around the tag, where it is not empty; the slot is one of the bucket's.
pub key_slot-tag :
    (crc_hqx : List ℕ → ℕ) (bucket : ℕ) (before tag after before' after' : List ℕ)
    → is_in open_brace before ≡ false
    → is_in open_brace before' ≡ false
    → is_in close_brace tag ≡ false
    → tag ≢ []
    → 0 < bucket
    → (key_slot crc_hqx (before ++ open_brace ∷ (tag ++ close_brace ∷ after)) bucket
        ≡ key_slot crc_hqx (before' ++ open_brace ∷ (tag ++ close_brace ∷ after')) bucket)
      × (key_slot crc_hqx (before ++ open_brace ∷ (tag ++ close_brace ∷ after)) bucket < bucket)
unfolding key_slot
key_slot-tag crc_hqx bucket before tag after before' after' h h' g n pos =
    rw (hash_tag-tag before tag after h g n, hash_tag-tag before' tag after' h' g n)
      (refl, ground arith)
