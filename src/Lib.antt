-- ===== src/Lib.antt =====
-- Redis 2.6.14, which this repository holds under redis-2.6.14/ beside the gallery: its hash table,
-- linked list and integer set, the binary format of strings in its snapshots, its slow log, its
-- transactions, the calls of commands, publish and subscribe, the failover of Sentinel, and the expiry
-- of keys.
--
-- - Prelude: shared names, Boolean tests, lists over the native numbers, integers, and bytes that are
--   put together with `|` and taken apart with `&`.
-- - Dict is redis-2.6.14/src/dict.c and dict.h, the hash table with incremental rehashing. A bucket is
--   the list of its entries (Dict.Chain), a table a list of buckets (Dict.Table), a dict a pair of
--   tables with `rehashidx` (none for -1) and `iterators`; a C function that returns an int and changes
--   the dict returns a pair. The int that _dictKeyIndex returns keeps its 32 bits and its -1.
--   `dict_expand`, `dict_rehash`, `dict_add`, `dict_find`, `dict_delete`, `dict_replace`, `dict_resize`
--   are dictExpand, dictRehash, dictAdd, dictFind, dictGenericDelete, dictReplace, dictResize. The hash
--   function and the comparison of a `dictType` are parameters; the theorems assume of them that keys
--   which compare equal are interchangeable and have one hash (`IsLawful`). Dict.Invariant has the
--   well-formedness of a dict and the map it stands for. The setting dict_can_resize is an argument.
--   Memory and reference counts are not modelled: no allocation fails. Dict.Types has the hash
--   functions and the type of a database's dict (redis.c).
-- - Intset is redis-2.6.14/src/intset.c and intset.h over a memory of bytes: slots of 2, 4 or 8 bytes
--   are read and written in place. Intset.Memory and Intset.Slots have what a read sees of a write,
--   Intset.Search the well-formedness of a set, Intset.Values the sorted list that it stands for.
-- - Adlist is redis-2.6.14/src/adlist.c and adlist.h over a heap from addresses to nodes, none where
--   nothing is allocated. A function that follows a pointer to no node faults, with none for its
--   result. The address of a new node is an argument. Adlist.Linked says that `n` nodes at the
--   addresses `a` are linked both ways and hold the values `v`, and what joining and cutting out a node
--   do to that.
-- - Util is ll2string and string2ll of redis-2.6.14/src/util.c with sdsfromlonglong of sds.c. Texts are
--   lists of bytes.
-- - Rio is the streams of redis-2.6.14/src/rio.h and rio.c: the function pointers are a record over the
--   backend's state, and Rio.Buffer is the backend over memory.
-- - Rdb is the lengths, integers and strings of redis-2.6.14/src/rdb.c: Rdb.Len (rdbSaveLen,
--   rdbLoadLen), Rdb.Integer (rdbEncodeInteger, rdbLoadIntegerObject) and Rdb.String (rdbSaveRawString,
--   rdbSaveStringObject, rdbGenericLoadStringObject). Saving is a small monad on the stream whose bind
--   stops at the result -1 (Rdb.Save). LZF and strtoll are parameters (`Env`), of which LZF's round
--   trip is assumed: redis-2.6.14/src/lzf_c.c and lzf_d.c are a copy of LibLZF. The sums of bytes that
--   are returned as int wrap to 32 bits.
-- - Slowlog is redis-2.6.14/src/slowlog.c; the time stamp of an entry is not modelled.
-- - Commands is the dispatch of commands: Commands the parts of redisClient and redisServer (redis.h)
--   that it uses, Commands.Watch and Commands.Transaction redis-2.6.14/src/multi.c, Commands.Process
--   processCommand of redis-2.6.14/src/redis.c. A client is named by a number, the `watched_keys` dicts
--   are a function from a key and its database to the clients, a flag is a Boolean, and replies are
--   listed by kind. Commands.Call is propagate, alsoPropagate and call (redis.c) with all of
--   REDIS_CALL_FULL, and execCommandPropagateMulti; what is fed to the append only file, slaves and
--   monitors is listed. In Commands.Transaction and Commands.Process, call and the propagation of MULTI
--   are arguments, which Commands.Call.Block fills with those functions. The function of a command, its
--   running time, freeMemoryIfNeeded and handleClientsBlockedOnLists are parameters; where it matters,
--   that freeing memory leaves the clients alone, and how the queued commands of a transaction change
--   `dirty` and the append only file (`Behaves`), are hypotheses. SAVE and CONFIG SET are commands that
--   do not behave so. The assertion of unwatchAllKeys is not modelled.
-- - PubSub is redis-2.6.14/src/pubsub.c with the subscriptions of redisClient and redisServer. A failed
--   assertion, or a deletion of a node that is not there, gives none. The order in which the iterator
--   lists the dict of a client, and stringmatchlen of util.c, are arguments. PubSub.Invariant has the
--   agreement of the two sides, PubSub.Counts the counting that it is stated with.
-- - Sentinel is redis-2.6.14/src/sentinel.c for one master (`Master`), its slaves and the other
--   Sentinels. The dict of slaves is a list of pointers and `instances` what they point to; a flag is a
--   Boolean; the time is in milliseconds, and one reading of the clock serves a function. Sentinel.Down
--   has the down checks and the questions to other Sentinels, Sentinel.Leader the votes,
--   Sentinel.Select the choice of a slave, Sentinel.Failover the states of a failover and its abort
--   (without the assertions of sentinelAbortFailover and sentinelGetObjectiveLeader on the flags),
--   Sentinel.Info what a Sentinel does about the role that a slave claims, Sentinel.Timer the timer,
--   the tilt mode, the reset and the switch to the promoted slave. A function that can read through
--   `promoted_slave` gives none where it is NULL. `Env` has the clock, rand, the run id, the tilt mode,
--   qsort for the two kinds of arrays, strcasecmp and whether redisAsyncCommand accepts a command.
--   Sentinel.Invariant has the agreement of the state, the promoted slave and the flags, and
--   Sentinel.Invariant.Reach the events that a run consists of.
-- - Keyspace is redis-2.6.14/src/db.c: the keys of a database (redisDb) and their expiry, and the
--   commands of redis-2.6.14/src/t_string.c that count (Keyspace.Strings). A dict is the map that it
--   stands for; a failed assertion gives none; mstime is an argument, and so is strtoll.
--   Keyspace.Covered has what the assertions rely on.
-- - Examples applies the theorems to concrete inputs.
--
-- Dict uses Chain and Table; call uses Slowlog, and EXEC calls the queued commands by call; Rdb writes
-- and reads through Rio, and prints integers with Util.
--
-- Bounds and fuel. `double_until` of dictExpand's size has 61 rounds, enough for every size below
-- LONG_MAX; `skip_empty` has a round per bucket that is left; `remove_old` of the slow log has a round
-- per entry; the search of an integer set has a round per value, and a walk through a list one more
-- than the list has nodes; `put_digits` has 20 rounds, enough for 64 bits. The theorems on additions to
-- and removals from an integer set are for fewer than 2 ^ 28 values, whose bytes the 32-bit size holds.
-- Those on dictAdd and dictReplace are for tables of at most 2 ^ 31 buckets, whose indices an int
-- holds, and those on saved strings for texts of fewer than 2 ^ 31 - 7 bytes, whose count an int holds.
-- Other sizes and counts are unbounded numbers; the hash functions wrap at 2 ^ 32, and an index is the
-- hash & sizemask.
--
-- Not modelled: the Rails application, the libraries under redis-2.6.14/deps, LZF, SHA1 and CRC64, and
-- the rest of the server (most commands on keys, networking, persistence of whole databases,
-- replication, scripting). Of sentinel: the links to instances, the parsing of INFO and hello messages,
-- events and scripts, its configuration, and the commands other than SENTINEL FAILOVER.
pub mod Prelude
pub mod Util
pub mod Dict
pub mod Rio
pub mod Rdb
pub mod Examples
pub mod Commands
pub mod Slowlog
pub mod Intset
pub mod Adlist
pub mod PubSub
pub mod Sentinel
pub mod Keyspace
