-- ===== src/Examples/Transactions.antt =====
-- redis-2.6.14/src/multi.c and redis.c: a client that watches a key, queues a command and calls EXEC.
pub mod Block
use galery.Prelude.{ℕ, ◌≡◌, refl, none, some, [], ◌∷◌, true, false, ◌||◌, arith, same_bytes}
use galery.Prelude.Int.{pos}
use galery.Commands.{Proc, Command, Reply, WatchedKey, Client, Server, set_client, add_reply}
use galery.Commands.Watch.{
  is_watched, watch_for_key, watch_keys, watch_command, unwatch_command, touch_watched_key,
}
use galery.Commands.Watch.Laws.{
  IsWatching, IsWatching-cong, watch_command-IsWatching, touch_watched_key_lem, unwatch_command_lem,
  count_client, count_key,
}
use galery.Commands.Transaction.{multi_command, exec_command}
use galery.Commands.Transaction.Ends.{
  Aborts, IsCleared, exec_command-Aborts, touched-Aborts, exec_command-ends,
}
use galery.Commands.Process.{c_string, lower, process_command}
use galery.Commands.Process.Outcome.{Outcome, process_command-Outcome}

abbrev stock : WatchedKey
stock = (0, b'k' ∷ [])

abbrev idle : Client
idle = record {
  db = 0;
  argv = (b'W' ∷ []) ∷ (b'k' ∷ []) ∷ [];
  cmd = none;
  authenticated = false;
  multi = false;
  dirty_cas = false;
  dirty_exec = false;
  close_after_reply = false;
  master = false;
  lua_client = false;
  commands = [];
  watched_keys = [];
  pubsub_channels = 0;
  pubsub_patterns = 0;
  replies = [];
}

abbrev started_with : {D : Type 0} → D → Server D
started_with keyspace = record {
  clients = λ j. idle;
  watchers = λ k. [];
  dirty = 0;
  requirepass = false;
  maxmemory = 0;
  stop_writes_on_bgsave_err = false;
  saveparamslen = 0;
  lastbgsave_failed = false;
  is_slave = false;
  repl_slave_ro = false;
  repl_connected = false;
  repl_serve_stale_data = false;
  loading = false;
  lua_timedout = false;
  ready_keys = 0;
  monitors = 0;
  monitored = [];
  aof_on = true;
  aof_log = [];
  slaves = 0;
  slaves_log = [];
  also_propagate = [];
  slowlog = record { entries = []; entry_id = 0; log_slower_than = pos 10000; max_len = 128 };
  stats = λ name. (0, pos 0);
  stat_numcommands = 0;
  keyspace = keyspace;
}

abbrev started : Server ℕ
started = started_with 10

abbrev watching : Server ℕ
watching = watch_command started 3

abbrev in_multi : Server ℕ
in_multi = multi_command watching 3

started-IsWatching : IsWatching started
unfolding count_client count_key
started-IsWatching = record { agree = λ j k. refl; once = λ j k. omega arith }

watching-IsWatching : IsWatching watching
watching-IsWatching = watch_command-IsWatching started 3 started-IsWatching

in_multi-IsWatching : IsWatching in_multi
unfolding multi_command add_reply set_client
in_multi-IsWatching =
    IsWatching-cong watching in_multi (λ k. ground arith) (λ j. ground arith) watching-IsWatching

in_multi-multi : (in_multi.clients 3).multi ≡ true
unfolding multi_command watch_command watch_keys watch_for_key add_reply set_client is_watched
in_multi-multi = refl

in_multi-clean : (in_multi.clients 3).dirty_exec ≡ false
unfolding multi_command watch_command watch_keys watch_for_key add_reply set_client is_watched
in_multi-clean = refl

in_multi-watched : is_watched stock (in_multi.clients 3).watched_keys ≡ true
unfolding multi_command watch_command watch_keys watch_for_key add_reply set_client is_watched
    same_bytes
in_multi-watched = refl

-- A call that adds one to the keyspace.
abbrev bump : Server ℕ → ℕ → Server ℕ
bump s c = record s { keyspace = 11 }

abbrev silent : Server ℕ → ℕ → Server ℕ
silent s c = s

watch_command-IsWatching_example : IsWatching (watch_command started 3)
watch_command-IsWatching_example = watch_command-IsWatching started 3 started-IsWatching

touch_watched_key_lem_example :
    ((touch_watched_key in_multi stock).clients 3).dirty_cas
    ≡ (is_watched stock (in_multi.clients 3).watched_keys || (in_multi.clients 3).dirty_cas)
touch_watched_key_lem_example = touch_watched_key_lem in_multi stock 3 in_multi-IsWatching

unwatch_command_lem_example :
    IsWatching (unwatch_command watching 3)
    × IsWatching (touch_watched_key watching stock)
    × (((unwatch_command watching 3).clients 3).watched_keys ≡ [])
    × (((unwatch_command watching 3).clients 3).dirty_cas ≡ false)
unwatch_command_lem_example = unwatch_command_lem watching 3 stock watching-IsWatching

touched-Aborts_example :
    Aborts bump silent (touch_watched_key in_multi stock) 3 Reply.null_multi_bulk
touched-Aborts_example =
    touched-Aborts bump silent in_multi 3 stock in_multi-IsWatching in_multi-multi in_multi-clean
      in_multi-watched

-- Queueing failed for this client.
abbrev failing : Server ℕ
failing = record started { clients = λ j. record idle { multi = true; dirty_exec = true } }

exec_command-Aborts_example : Aborts bump silent failing 3 Reply.exec_abort
exec_command-Aborts_example = exec_command-Aborts bump silent failing 3 refl refl

abbrev queueing : Server ℕ
queueing = record started { clients = λ j. record idle { multi = true } }

abbrev write_one : Command
write_one = record {
  proc = Proc.other 7;
  arity = pos 2;
  write = true;
  denyoom = true;
  stale = false;
  loading = false;
  readonly = false;
  skip_monitor = false;
  force_replication = false;
  name = b's' ∷ [];
}

process_command-Outcome_example :
    Outcome queueing 3
      (record { cmd = write_one; argv = idle.argv })
      (process_command (λ name. some write_one) (λ s. (true, s)) bump (λ s. s) queueing 3).1
unfolding c_string lower same_bytes
process_command-Outcome_example =
    process_command-Outcome (λ name. some write_one) (λ s. (true, s)) bump (λ s. s) 3
      (record { cmd = write_one; argv = idle.argv }) refl (λ s. refl) queueing refl refl refl refl
