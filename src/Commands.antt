-- ===== src/Commands.antt =====
-- redis-2.6.14/src/redis.h: the client and server state that running commands reads and writes.
pub mod Watch
pub mod Transaction
pub mod Call
pub mod Process
use galery.Prelude.{
  ℕ, ◌+◌, Option, none, some, List, [], ◌∷◌, ◌++◌, Bool, true, false, ◌&&◌, leb, ltb, ◌==◌,
  if◌then◌else◌, same_bytes,
}
use galery.Prelude.Int.{ℤ}
use galery.Slowlog.{Slowlog}

-- `proc` of `struct redisCommand`, as far as the code compares it.
pub data Proc : Type 0 where
  auth subscribe unsubscribe psubscribe punsubscribe shutdown script exec discard multi watch : Proc
  other : ℕ → Proc

-- The flags are those of `struct redisCommand`.
pub record Command : Type 0 where
  pub proc : Proc
  pub arity : ℤ
  pub write : Bool
  pub denyoom : Bool
  pub stale : Bool
  pub loading : Bool
  pub readonly : Bool
  pub skip_monitor : Bool
  pub force_replication : Bool
  pub name : List ℕ

-- The replies that the modelled functions add.
pub data Reply : Type 0 where
  okay queued null_multi_bulk exec_abort : Reply
  multi_bulk_len : ℕ → Reply
  nested_multi discard_without_multi exec_without_multi watch_inside_multi : Reply
  unknown_command wrong_arity not_permitted oom bgsave_err read_only_slave pubsub_context : Reply
  master_down loading_err slow_script : Reply

-- `multiCmd`: a queued command with its arguments.
pub record MultiCmd : Type 0 where
  pub cmd : Command
  pub argv : List (List ℕ)

-- A key and the id of its database.
abbrev pub WatchedKey : Type 0
WatchedKey = ℕ × List ℕ

-- The part of `redisClient` that is used here; `flags` is a Boolean for each flag.
pub record Client : Type 0 where
  pub db : ℕ
  pub argv : List (List ℕ)
  pub cmd : Option Command
  pub authenticated : Bool
  pub multi : Bool
  pub dirty_cas : Bool
  pub dirty_exec : Bool
  pub close_after_reply : Bool
  pub master : Bool
  pub lua_client : Bool
  pub commands : List MultiCmd
  pub watched_keys : List WatchedKey
  pub pubsub_channels : ℕ
  pub pubsub_patterns : ℕ
  pub replies : List Reply

-- A call of feedAppendOnlyFile, replicationFeedSlaves or replicationFeedMonitors.
abbrev pub Feed : Type 0
Feed = ℕ × List (List ℕ)

-- `redisOp`: a command to be propagated to the targets.
pub record RedisOp : Type 0 where
  pub feed : Feed
  pub to_aof : Bool
  pub to_slaves : Bool

-- The part of `redisServer` that is used here. `watchers` is the `watched_keys` dict of every database:
-- no clients where the key has no entry. `monitored`, `aof_log` and `slaves_log` are what was fed to the
-- monitors, the append only file and the slaves, and `stats` the calls and microseconds by command.
-- `keyspace` is everything that only commands read and write.
pub record Server (D : Type 0) : Type 0 where
  pub clients : ℕ → Client
  pub watchers : WatchedKey → List ℕ
  pub dirty : ℕ
  pub requirepass : Bool
  pub maxmemory : ℕ
  pub stop_writes_on_bgsave_err : Bool
  pub saveparamslen : ℕ
  pub lastbgsave_failed : Bool
  pub is_slave : Bool
  pub repl_slave_ro : Bool
  pub repl_connected : Bool
  pub repl_serve_stale_data : Bool
  pub loading : Bool
  pub lua_timedout : Bool
  pub ready_keys : ℕ
  pub monitors : ℕ
  pub monitored : List Feed
  pub aof_on : Bool
  pub aof_log : List Feed
  pub slaves : ℕ
  pub slaves_log : List Feed
  pub also_propagate : List RedisOp
  pub slowlog : Slowlog
  pub stats : List ℕ → ℕ × ℤ
  pub stat_numcommands : ℕ
  pub keyspace : D

abbrev pub same_key : WatchedKey → WatchedKey → Bool
same_key a b = (a.0 == b.0) && same_bytes a.1 b.1

module _ {D : Type 0} where
  -- Writing through the pointer `c`.
  unfoldable pub set_client : Server D → ℕ → Client → Server D
  set_client s c x = record s { clients = λ j. if j == c then x else s.clients j }

  -- `addReply`
  unfoldable pub add_reply : Server D → ℕ → Reply → Server D
  unfolding set_client
  add_reply s c r =
      set_client s c (record (s.clients c) { replies = (s.clients c).replies ++ r ∷ [] })
