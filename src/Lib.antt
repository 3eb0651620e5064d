-- ===== src/Lib.antt =====
-- redis-py: a client for Redis. The library models the parts of the client that keep state of their own:
-- what goes over the wire, the client-side cache, the pools of connections, retries, the distributed
-- lock, pipelines and subscriptions, and the routing of a cluster and of sentinels.
--
-- How the parts interact: a client takes a connection from a pool (redis/connection.py), which packs the
-- command's words and sends them; the reply comes from a parser (redis/_parsers/resp2.py, resp3.py) that reads a
-- buffered socket (redis/_parsers/socket.py). Failures are repeated by a Retry (redis/retry.py) with a
-- policy of redis/backoff.py. A pool with a cache (redis/cache.py) answers reads
-- from it, by a CacheProxyConnection around each connection. In a cluster the
-- slot of the key (redis/crc.py) gives the node, and MOVED errors change the table of slots
-- (redis/cluster.py). Sentinels give the address of a master (redis/sentinel.py). A
-- pipeline stages commands for one transaction, and a PubSub keeps a connection to itself
-- (redis/client.py). A lock (redis/lock.py) is built of commands and Lua scripts on one key.
--
-- Which file models what:
-- Common: numbers, lists, options, decidable equality (Eq), results of code that raises (Outcome: an Action
--   returns the new state beside the error too), and Python's OrderedDict (OrderedDict).
-- Cache: redis/cache.py. Config has the configuration, Policy is LRUPolicy, Store is DefaultCache.
-- Proxy: CacheProxyConnection of redis/connection.py. Connection has its operations, where a socket is the
--   list of the frames that have arrived; Server is a server with tracking, and a whole command; Coherence
--   is the invariant of the shared cache; Histories are commands, writes and disconnections in any order.
-- Resp: the wire. Encode is PythonRespSerializer.pack, pack_commands and Encoder.encode; Buffer is
--   SocketBuffer over a list of what each recv does; Errors is BaseParser.parse_error; Parser is
--   _RESP2Parser, Resp3 is _RESP3Parser with its push handlers; Parser/Wire and Resp3/Wire describe the
--   replies independently of the parsers.
-- Lock: redis/lock.py with the text of its scripts. The server is a parameter (Lock/KeyCommands) with the
--   documented behaviour of its commands on the key; Lock/Exclusion interleaves threads as steps.
-- Pool: Store is ConnectionPool, Queue is BlockingConnectionPool; what the sockets answer and the number of
--   the process are arguments. Connections are known by a number and the process that made them.
-- Pipeline: Pipeline of redis/client.py with Retry.call_with_retry. State has the fields and reset, Calls the
--   commands that run at once, Transaction what is sent together, Execute is execute. What the sockets do is
--   an argument, and so are the response callbacks; two fields record what the server watches.
-- Subscription: Client is PubSub of redis/client.py; Server adds a server that confirms commands later, and
--   the steps of the two with failures and reconnections. Names are normalized already.
-- Retry: Backoff has the policies, with the random draw a parameter; Calls is Retry.call_with_retry.
-- Cluster: Slot is key_slot, with binascii.crc_hqx a parameter; Balancer is LoadBalancer; Nodes is the table
--   of slots of NodesManager, whose lists of nodes are objects that slots share; Initialize is
--   NodesManager.initialize on what the startup nodes answer; Execution is RedisCluster._execute_command on
--   what the nodes answer, and Command is _internal_execute_command.
-- Sentinel: discover_master, and discover_slaves in Slaves; what each sentinel answers is a parameter.
-- Commands: set and getex of redis/commands/core.py, with extract_expire_flags of redis/utils.py.
-- Auth: TokenManager of redis/auth/token_manager.py; Auth/Renewals has the timers of the event loop.
-- Each Examples file applies the theorems at concrete data.
--
-- Bounds and fuel: read_response recurses on fuel, one unit for each level of nested replies and, in RESP3,
-- for each push before the reply; the depth of the reply and the number of pushes are enough. readline
-- and the loop of acquire recurse on the list of what the socket or the clock gives, and the reading of
-- invalidations on the frames that have arrived; attempts recurses on the answers of the calls, and the
-- retries of a pipeline on their number. A cluster command recurses on its sixteen attempts. Times are
-- natural numbers: microseconds in the lock, milliseconds in the token manager, a unit of the caller's
-- choice in backoff, where a division drops its rest.
--
-- Not modelled: redis/asyncio, which repeats the algorithms with await; the hiredis parser, OCSP and
-- TLS, which call other libraries; the health checks of PubSub, and an unsubscription that it sends twice within one call;
-- the sockets of a connection and its handshake; the keys and flags of commands; the callbacks that
-- convert replies; and the commands that put words in a row.
pub mod Common
pub mod Cache
pub mod Auth
pub mod Proxy
pub mod Resp
pub mod Lock
pub mod Pipeline
pub mod Subscription
pub mod Pool
pub mod Retry
pub mod Cluster
pub mod Sentinel
pub mod Commands
