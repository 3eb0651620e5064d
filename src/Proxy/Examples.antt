-- ===== src/Proxy/Examples.antt =====
-- A server that knows one number per key, two connections, and the theorems at them.
use redis_py.Cache.Bounds.{IsCache}
use redis_py.Cache.Config.{CacheEntry, CacheEntryStatus, CacheKey_Eq, same_key_iff}
use redis_py.Proxy.Hazards.{read_response-none, execute-cached, execute-after_failure}
use redis_py.Common.Outcome.{ok, err}
use redis_py.Common.{
  ℕ, String, ◌≡◌, refl, ap, true, false, Option, none, some, List, [], ◌∷◌, arith, if◌then◌else◌,
  inl, inr, Bool-cases, map,
}
use redis_py.Proxy.Connection.{
  Request, waits, Frame, Proxies, updated, read_response, invalidate, reply, failure,
}
use redis_py.Proxy.Server.{World, execute, keys_of, names_of, texts}
use redis_py.Proxy.Coherence.{IsCoherent, key_of}
use redis_py.Proxy.Answers.{execute_lem}
use redis_py.Proxy.Histories.{Event, executes, writes, run, run-execute}
use redis_py.Cache.Config.{
  text, encoded, CacheKey, CacheKey_Eq, is_allowed_to_cache, CacheEntryStatus, CacheEntry,
  same_key_iff,
}
use redis_py.Common.OrderedDict
use redis_py.Common.Equality.{◌==◌, ℕ_Eq, String_Eq, is_in}

abbrev Database : Type 0
Database = String → Option ℕ

abbrev stores : String → ℕ → Database → Database
stores r value d s = if r == s then some value else d s

abbrev value_of_first : List String → Database → Option ℕ
value_of_first [] d = none
value_of_first (r ∷ rs) d = d r

abbrev replies : Request → Database → Option ℕ
replies q d = value_of_first (names_of q) d

value_of_first-stores :
    (ks : List String) (r : String) (value : ℕ) (d : Database)
    → is_in r ks ≡ false
    → value_of_first ks (stores r value d) ≡ value_of_first ks d
value_of_first-stores [] r value d h = refl
value_of_first-stores (k ∷ ks) r value d h =
    ground (arith, String_Eq.beq_iff k r, String_Eq.beq_iff r k)

stores-replies :
    (q : Request) (r : String) (value : ℕ) (d : Database)
    → is_in r (names_of q) ≡ false
    → replies q (stores r value d) ≡ replies q d
stores-replies q r value d h = value_of_first-stores (names_of q) r value d h

abbrev TextRequest : Request → Type 0
TextRequest q = keys_of q ≡ map text (names_of q)

replies-key_of :
    (a b : Request)
    → TextRequest a
    → TextRequest b
    → key_of a ≡ key_of b
    → (d : Database) → replies a d ≡ replies b d
replies-key_of a b p q e d = ap (λ (k : CacheKey). value_of_first (texts k.redis_keys) d) e

abbrev get_a : Request
get_a = record { command = "GET"; arguments = "a" ∷ []; keys = some (text "a" ∷ []) }

abbrev at_start : World ℕ Database
at_start = record {
  proxies = record {
    cache = record { collection = []; config = record { max_size = 2 } };
    incoming = λ i. [];
    requests = λ i. [];
    current_command_cache_key = λ i. none;
  };
  database = λ r. none;
  tracked = λ i r. false;
}

abbrev AnyConnection : ℕ → Type 0
AnyConnection i = Unit

abbrev OnlyOne : ℕ → Type 0
OnlyOne i = i ≡ 1

at_start-IsCoherent : (Owner : ℕ → Type 0) → IsCoherent replies TextRequest Owner at_start
unfolding OrderedDict.get
at_start-IsCoherent Owner = record {
  well_formed = record { distinct = tt; bounded = omega arith };
  quiet = λ i. refl;
  pushes = λ i. tt;
  entries = λ k e there. cc;
}

abbrev cached_then_changed : ℕ → List (Event Database ℕ)
cached_then_changed i = writes "a" 5 ∷ executes i get_a ∷ writes "a" 7 ∷ []

get_a-is_allowed : is_allowed_to_cache "GET" ≡ true
unfolding is_allowed_to_cache
get_a-is_allowed = refl

run-execute_example :
    (execute replies 0 1 get_a (run replies stores 0 (cached_then_changed 1) at_start)).0
    ≡ ok (replies get_a (run replies stores 0 (cached_then_changed 1) at_start).database)
run-execute_example =
    run-execute replies stores 0 TextRequest replies-key_of stores-replies (λ q h. h) 1 get_a
      (cached_then_changed 1) at_start refl get_a-is_allowed refl
      (tt, ((refl, refl, get_a-is_allowed, (text "a" ∷ [], refl)), (tt, tt)))
      (at_start-IsCoherent OnlyOne)

abbrev entry_of_two : CacheEntryStatus → CacheEntry ℕ
entry_of_two status = record {
  cache_key = key_of get_a;
  cache_value = 5;
  status = status;
  connection_ref = 2;
}

-- the second connection has cached `a`, and what waits on it is given
abbrev with_entry : CacheEntry ℕ → List (Frame ℕ) → World ℕ Database
with_entry e frames = record {
  proxies = record {
    cache = record { collection = (key_of get_a, e) ∷ []; config = record { max_size = 2 } };
    incoming = updated 2 frames (λ i. []);
    requests = λ i. [];
    current_command_cache_key = λ i. none;
  };
  database = stores "a" 7 (λ r. none);
  tracked = λ i r. false;
}

abbrev changed_for_another : World ℕ Database
changed_for_another =
    with_entry (entry_of_two CacheEntryStatus.valid) (invalidate (some (encoded "a" ∷ [])) ∷ [])

with_entry-IsCache : (e : CacheEntry ℕ) → IsCache (with_entry e []).proxies.cache
unfolding OrderedDict.get
with_entry-IsCache e = record { distinct = (refl, tt); bounded = omega arith }

the_entry :
    (k : CacheKey) (e f : CacheEntry ℕ)
    → OrderedDict.get k ((key_of get_a, f) ∷ []) ≡ some e
    → (key_of get_a ≡ k) × (f ≡ e)
unfolding OrderedDict.get
the_entry k e f h = ground (arith, same_key_iff (key_of get_a) k, h)

changed_for_another-IsCoherent : IsCoherent replies TextRequest AnyConnection changed_for_another
changed_for_another-IsCoherent = record {
  well_formed = with_entry-IsCache _;
  quiet = λ i. refl;
  pushes =
      λ i. elim (Bool-cases (2 == i)) [ inl e ↦ rw e ((text "a", refl), tt) | inr e ↦ rw e tt ];
  entries = λ k e there.
      let (at_key, found) = the_entry k e (entry_of_two CacheEntryStatus.valid) there in
      rw⁻¹ (at_key, found) (record { valid = refl; owner = tt; current = inl refl });
}

execute_lem_example : (execute replies 0 1 get_a changed_for_another).0 ≡ err waits
unfolding OrderedDict.get
execute_lem_example =
    let (answers, coherent) =
      execute_lem replies 0 TextRequest AnyConnection replies-key_of 1 get_a changed_for_another
        refl tt get_a-is_allowed refl changed_for_another-IsCoherent in
    answers

execute-cached_example :
    (execute replies 0 2 get_a (with_entry (entry_of_two CacheEntryStatus.valid) [])).0
    ≡ ok (some 5)
unfolding OrderedDict.get
execute-cached_example =
    execute-cached replies 0 2 get_a (entry_of_two CacheEntryStatus.valid)
      (with_entry (entry_of_two CacheEntryStatus.valid) []) get_a-is_allowed refl
      (with_entry-IsCache _) refl refl refl refl refl

abbrev missing_key : Proxies ℕ
missing_key = record {
  cache = record { collection = []; config = record { max_size = 2 } };
  incoming = updated 1 (reply none ∷ []) (λ i. []);
  requests = λ i. [];
  current_command_cache_key = updated 1 (some (key_of get_a)) (λ i. none);
}

read_response-none_example : (read_response 1 missing_key).0 ≡ ok none
unfolding OrderedDict.get
read_response-none_example =
    let (answers, stays) =
      read_response-none 1 (key_of get_a) missing_key
        (record { distinct = tt; bounded = omega arith }) refl tt refl in
    answers

abbrev wrong_type : World ℕ Database
wrong_type = record (with_entry (entry_of_two CacheEntryStatus.in_progress) []) {
  proxies = record (with_entry (entry_of_two CacheEntryStatus.in_progress) []).proxies {
    incoming = updated 2 (failure "WRONGTYPE" ∷ []) (λ i. []);
    current_command_cache_key = updated 2 (some (key_of get_a)) (λ i. none);
  };
}

execute-after_failure_example :
    (execute replies 0 2 get_a
      (record wrong_type { proxies = (read_response 2 wrong_type.proxies).1 })).0
    ≡ err waits
unfolding OrderedDict.get
execute-after_failure_example =
    let (raises, waits_then) =
      execute-after_failure replies 0 2 get_a "WRONGTYPE"
        (entry_of_two CacheEntryStatus.in_progress) wrong_type get_a-is_allowed refl
        (with_entry-IsCache _) refl refl refl refl refl refl in
    waits_then
