-- ===== src/Cache/Config.antt =====
-- redis/cache.py: the keys and entries of the cache, and `CacheConfig`. The class has one cache
-- class and one eviction policy, so the configuration is its size and the list of cachable commands.
use redis_py.Common.{
  ℕ, String, ◌≡◌, ◌↔◌, Bool, true, false, ap, Option, none, some, ◌&&◌, List, [], ◌∷◌, arith, ltb,
  ap, false, Option, none, some,
}
use redis_py.Resp.Decimal.{Bytes}
use redis_py.Common.Equality.{ℕ_Eq, Eq, ◌==◌, String_Eq, List_Eq, list_eq_iff, is_in}

pub data CacheEntryStatus : Type 0 where
  valid in_progress : CacheEntryStatus

-- A redis key as the caller gives it, or as the server sends it: a `str`; bytes that are the UTF-8 of
-- a text, known by the text; other bytes; or an `int`, known by its digits.
pub data RedisKey : Type 0 where
  text encoded integer : String → RedisKey
  undecodable : Bytes → RedisKey

-- keys of different types are different
abbrev pub same_redis_key : RedisKey → RedisKey → Bool
same_redis_key (text a) (text b) = a == b
same_redis_key (encoded a) (encoded b) = a == b
same_redis_key (integer a) (integer b) = a == b
same_redis_key (undecodable a) (undecodable b) = a == b
same_redis_key a b = false

pub same_redis_key_iff : (a b : RedisKey) → (same_redis_key a b ≡ true) ↔ (a ≡ b)
same_redis_key_iff (text a) (text b) =
    (λ h. ap text ((String_Eq.beq_iff a b).0 h), λ h. ground (arith, h, String_Eq.beq_iff a b))
same_redis_key_iff (encoded a) (encoded b) =
    (λ h. ap encoded ((String_Eq.beq_iff a b).0 h), λ h. ground (arith, h, String_Eq.beq_iff a b))
same_redis_key_iff (integer a) (integer b) =
    (λ h. ap integer ((String_Eq.beq_iff a b).0 h), λ h. ground (arith, h, String_Eq.beq_iff a b))
same_redis_key_iff (undecodable a) (undecodable b) =
    (λ h. ap undecodable ((list_eq_iff a b).0 h), λ h. ground (arith, h, list_eq_iff a b))
same_redis_key_iff a b = (λ h. cc, λ h. cc)

instance abbrev pub RedisKey_Eq : Eq RedisKey
RedisKey_Eq = record { beq = same_redis_key; beq_iff = same_redis_key_iff }

-- `if isinstance(redis_key, bytes): redis_key = redis_key.decode()`, which can raise
abbrev pub decoded_key : RedisKey → Option RedisKey
decoded_key (text a) = some (text a)
decoded_key (encoded a) = some (text a)
decoded_key (integer a) = some (integer a)
decoded_key (undecodable bs) = none

pub record CacheKey : Type 0 where
  pub command : String
  pub redis_keys : List RedisKey

-- the equality that the frozen dataclass generates
abbrev pub same_key : CacheKey → CacheKey → Bool
same_key a b = (a.command == b.command) && (a.redis_keys == b.redis_keys)

pub same_key_iff : (a b : CacheKey) → (same_key a b ≡ true) ↔ (a ≡ b)
same_key_iff a b = (
  λ h. ground (arith, String_Eq.beq_iff a.command b.command, list_eq_iff a.redis_keys b.redis_keys),
  λ h. ground (arith, String_Eq.beq_iff a.command b.command, list_eq_iff a.redis_keys b.redis_keys),
)

instance abbrev pub CacheKey_Eq : Eq CacheKey
CacheKey_Eq = record { beq = same_key; beq_iff = same_key_iff }

-- `V` is the type of replies; a connection is known by a number.
pub record CacheEntry (V : Type 0) : Type 0 where
  pub cache_key : CacheKey
  pub cache_value : V
  pub status : CacheEntryStatus
  pub connection_ref : ℕ

abbrev pub default_allow_list : List String
default_allow_list =
    "BITCOUNT" ∷ "BITFIELD_RO" ∷ "BITPOS" ∷ "EXISTS" ∷ "GEODIST" ∷ "GEOHASH" ∷ "GEOPOS"
    ∷ "GEORADIUSBYMEMBER_RO" ∷ "GEORADIUS_RO" ∷ "GEOSEARCH" ∷ "GET" ∷ "GETBIT" ∷ "GETRANGE"
    ∷ "HEXISTS" ∷ "HGET" ∷ "HGETALL" ∷ "HKEYS" ∷ "HLEN" ∷ "HMGET" ∷ "HSTRLEN" ∷ "HVALS"
    ∷ "JSON.ARRINDEX" ∷ "JSON.ARRLEN" ∷ "JSON.GET" ∷ "JSON.MGET" ∷ "JSON.OBJKEYS" ∷ "JSON.OBJLEN"
    ∷ "JSON.RESP" ∷ "JSON.STRLEN" ∷ "JSON.TYPE" ∷ "LCS" ∷ "LINDEX" ∷ "LLEN" ∷ "LPOS" ∷ "LRANGE"
    ∷ "MGET" ∷ "SCARD" ∷ "SDIFF" ∷ "SINTER" ∷ "SINTERCARD" ∷ "SISMEMBER" ∷ "SMEMBERS" ∷ "SMISMEMBER"
    ∷ "SORT_RO" ∷ "STRLEN" ∷ "SUBSTR" ∷ "SUNION" ∷ "TS.GET" ∷ "TS.INFO" ∷ "TS.RANGE" ∷ "TS.REVRANGE"
    ∷ "TYPE" ∷ "XLEN" ∷ "XPENDING" ∷ "XRANGE" ∷ "XREAD" ∷ "XREVRANGE" ∷ "ZCARD" ∷ "ZCOUNT" ∷ "ZDIFF"
    ∷ "ZINTER" ∷ "ZINTERCARD" ∷ "ZLEXCOUNT" ∷ "ZMSCORE" ∷ "ZRANGE" ∷ "ZRANGEBYLEX" ∷ "ZRANGEBYSCORE"
    ∷ "ZRANK" ∷ "ZREVRANGE" ∷ "ZREVRANGEBYLEX" ∷ "ZREVRANGEBYSCORE" ∷ "ZREVRANK" ∷ "ZSCORE"
    ∷ "ZUNION" ∷ []

pub record CacheConfig : Type 0 where
  pub max_size : ℕ

abbrev pub default_max_size : ℕ
default_max_size = 10000

unfoldable pub is_exceeds_max_size : CacheConfig → ℕ → Bool
is_exceeds_max_size c count = ltb c.max_size count

unfoldable pub is_allowed_to_cache : String → Bool
is_allowed_to_cache command = is_in command default_allow_list
