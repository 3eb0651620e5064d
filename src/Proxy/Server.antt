-- ===== src/Proxy/Server.antt =====
-- The server as the proxies rely on it, with invalidations for the keys that each connection has read,
-- and a command executed on a proxy. What the server answers to a request is a parameter; it tracks
-- the keys of a request that it answers, tells each connection that tracks a key once when the key
-- changes, and then forgets it.
use redis_py.Common.Equality.{is_in, ◌==◌, ℕ_Eq, String_Eq}
use redis_py.Common.{
  ℕ, String, Bool, false, ◌&&◌, ◌||◌, Option, none, some, List, [], ◌∷◌, ◌++◌, if◌then◌else◌,
}
use redis_py.Common.Outcome.{Result, err, ◌>>◌, Action, ok}
use redis_py.Cache.Config.{RedisKey, text, encoded, integer, undecodable}
use redis_py.Proxy.Connection.{
  waits, disconnect, Request, ProxyError, Proxies, updated, send_command, read_response, invalidate,
  reply,
}

pub record World (V DB : Type 0) : Type 0 where
  pub proxies : Proxies V
  pub database : DB
  pub tracked : ℕ → String → Bool

module _ {V DB A : Type 0} where
  abbrev pub on_proxies : Action ProxyError (Proxies V) A → Action ProxyError (World V DB) A
  on_proxies m w = ((m w.proxies).0, record w { proxies = (m w.proxies).1 })

abbrev pub keys_of : Request → List RedisKey
keys_of q = elim q.keys [ none ↦ [] | some redis_keys ↦ redis_keys ]

-- The names at the server of the keys: it gets a text as UTF-8 and a number as its digits. A name that
-- is no text is left out, as the database here has none.
abbrev pub texts : List RedisKey → List String
texts [] = []
texts (text r ∷ ks) = r ∷ texts ks
texts (encoded r ∷ ks) = r ∷ texts ks
texts (integer r ∷ ks) = r ∷ texts ks
texts (undecodable bs ∷ ks) = texts ks

abbrev pub names_of : Request → List String
names_of q = texts (keys_of q)

module _ {V DB : Type 0} where
  -- `disconnect` of a proxy: the server forgets what it tracks for the connection.
  unfoldable pub disconnected : ℕ → World V DB → World V DB
  disconnected i w = record w {
    proxies = (disconnect i w.proxies).1;
    tracked = λ j r. if i == j then false else w.tracked j r;
  }

  -- `_disconnect_raise`, where the read has timed out. The pushes of the server here are handled without
  -- an error, and an error reply leaves the connection open, so nothing else closes it.
  unfoldable pub disconnect_raise :
      ℕ → Result ProxyError (Option V) × World V DB → Result ProxyError (Option V) × World V DB
  disconnect_raise i (err waits, w) = (err waits, disconnected i w)
  disconnect_raise i (r, w) = (r, w)

module _ {V DB : Type 0} (answer : Request → DB → Option V) where
  abbrev pub answered : ℕ → Request → World V DB → World V DB
  answered i q w = record w {
    proxies = record w.proxies {
      incoming =
          updated i (w.proxies.incoming i ++ reply (answer q w.database) ∷ []) w.proxies.incoming;
    };
    tracked = λ j r. ((i == j) && is_in r (names_of q)) || w.tracked j r;
  }

  -- The requests that stand on a connection are answered in order.
  unfoldable pub serve_all : ℕ → List Request → World V DB → World V DB
  serve_all i [] w = record w {
    proxies = record w.proxies { requests = updated i [] w.proxies.requests };
  }
  serve_all i (q ∷ qs) w = serve_all i qs (answered i q w)

  unfoldable pub serve : ℕ → Action ProxyError (World V DB) Unit
  serve i w = (ok tt, serve_all i (w.proxies.requests i) w)

  -- `_send_command_parse_response`, with the server in between; `dummy` is `DUMMY_CACHE_VALUE`
  unfoldable pub attempt : V → ℕ → Request → Action ProxyError (World V DB) (Option V)
  attempt dummy i q = do on_proxies (send_command dummy i q); serve i; on_proxies (read_response i)

  -- `_execute_command` of a client without `retry_on_error`, whose attempts are not repeated
  unfoldable pub execute : V → ℕ → Request → Action ProxyError (World V DB) (Option V)
  execute dummy i q w = disconnect_raise i (attempt dummy i q w)

module _ {V DB W : Type 0} (put : String → W → DB → DB) where
  -- Someone writes `value` at the key `r`.
  unfoldable pub written : String → W → World V DB → World V DB
  written r value w = record w {
    database = put r value w.database;
    proxies = record w.proxies {
      incoming = λ j.
          if w.tracked j r
          then w.proxies.incoming j ++ invalidate (some (encoded r ∷ [])) ∷ []
          else w.proxies.incoming j;
    };
    tracked = λ j s. if r == s then false else w.tracked j s;
  }

module _ {V DB : Type 0} where
  -- Someone flushes the database.
  unfoldable pub emptied : DB → World V DB → World V DB
  emptied empty w = record w {
    database = empty;
    proxies = record w.proxies { incoming = λ j. w.proxies.incoming j ++ invalidate none ∷ [] };
    tracked = λ _ _. false;
  }
