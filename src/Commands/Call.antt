-- ===== src/Commands/Call.antt =====
-- redis-2.6.14/src/redis.c: propagate and call. The function of a command in the command table, `run`, and
-- the time that it takes, `duration`, are parameters.
pub mod Block
use galery.Prelude.{
  ℕ, zero, suc, ◌+◌, Option, none, some, List, [], ◌∷◌, ◌++◌, map, Bool, true, false, not, ◌&&◌,
  ◌||◌, ltb, ◌==◌, if◌then◌else◌, same_bytes,
}
use galery.Prelude.Int.{ℤ, pos, ◌+ℤ◌}
use galery.Rdb.Integer.{StringObject, raw}
use galery.Slowlog.{push_entry_if_needed}
use galery.Commands.Transaction.{exec_command}
use galery.Commands.{Proc, exec, Command, Feed, RedisOp, Client, Server}

abbrev pub is_exec : Proc → Bool
is_exec exec = true
is_exec _ = false

-- `c->cmd`, where `cmd` stands for a pointer that is never NULL here.
abbrev pub cmd_of : Command → Client → Command
cmd_of cmd x = elim x.cmd [ none ↦ cmd | some k ↦ k ]

module _ {D : Type 0} where
  unfoldable pub feed_aof : Server D → Feed → Server D
  feed_aof s f = record s { aof_log = s.aof_log ++ f ∷ [] }

  unfoldable pub feed_slaves : Server D → Feed → Server D
  feed_slaves s f = record s { slaves_log = s.slaves_log ++ f ∷ [] }

  -- `propagate`, with its flags as two Booleans.
  unfoldable pub propagate : Server D → RedisOp → Server D
  propagate s op =
      let s1 = if s.aof_on && op.to_aof then feed_aof s op.feed else s in
      if op.to_slaves && ltb 0 s1.slaves then feed_slaves s1 op.feed else s1

  -- The loop over `server.also_propagate`.
  unfoldable pub propagate_all : Server D → List RedisOp → Server D
  propagate_all s [] = s
  propagate_all s (op ∷ ops) = propagate_all (propagate s op) ops

  -- `alsoPropagate`
  unfoldable pub also_propagate_op : Server D → RedisOp → Server D
  also_propagate_op s op = record s { also_propagate = s.also_propagate ++ op ∷ [] }

  -- The part of `call` before the command's function.
  unfoldable pub before_run : Server D → ℕ → Command → Server D
  before_run s c cmd =
      let x = s.clients c in
      let s1 =
        if ltb 0 s.monitors && not s.loading && not cmd.skip_monitor
        then record s { monitored = s.monitored ++ (x.db, x.argv) ∷ [] }
        else s in
      record s1 { also_propagate = [] }

  -- The slow log and the statistics.
  unfoldable pub record_call : Server D → ℕ → Command → ℤ → Server D
  record_call s c cmd duration =
      let x = s.clients c in
      let log = not (s.loading && x.lua_client) in
      let s1 =
        if log && not (is_exec cmd.proc)
        then record s { slowlog = push_entry_if_needed s.slowlog (map raw x.argv) duration }
        else s in
      if log
      then record s1 {
        stats = λ name.
            if same_bytes name cmd.name
            then ((s1.stats name).0 + 1, (s1.stats name).1 +ℤ duration)
            else s1.stats name;
      }
      else s1

  -- The propagation of the command itself, where `changed` is `dirty != 0`, and of what it scheduled.
  unfoldable pub propagate_call : Server D → ℕ → Command → Bool → Server D
  propagate_call s c cmd changed =
      let x = s.clients c in
      let op : RedisOp = record {
        feed = (x.db, x.argv);
        to_aof = changed;
        to_slaves = changed || cmd.force_replication;
      } in
      let s1 = if cmd.force_replication || changed then propagate s op else s in
      let s2 = propagate_all s1 s1.also_propagate in
      record s2 { also_propagate = []; stat_numcommands = s2.stat_numcommands + 1 }

  module _ (run : Command → Server D → ℕ → Server D) (duration : Server D → ℤ) where
    -- `call(c,REDIS_CALL_FULL)` for the command `cmd` of the client.
    unfoldable pub call_command : Command → Server D → ℕ → Server D
    call_command cmd s c =
        let s1 = before_run s c cmd in
        let s2 = run cmd s1 c in
        let cmd' = cmd_of cmd (s2.clients c) in
        let s3 = record_call s2 c cmd' (duration s2) in
        propagate_call s3 c cmd' (not (s2.dirty == s1.dirty))

    -- The same where no command is set, which does not happen.
    unfoldable pub call : Server D → ℕ → Server D
    call s c = elim (s.clients c).cmd [ none ↦ s | some cmd ↦ call_command cmd s c ]

  -- `execCommandPropagateMulti`
  unfoldable pub propagate_multi : Server D → ℕ → Server D
  propagate_multi s c = propagate s (record {
    feed = ((s.clients c).db, (b'M' ∷ b'U' ∷ b'L' ∷ b'T' ∷ b'I' ∷ []) ∷ []);
    to_aof = true;
    to_slaves = true;
  })

  -- The function of EXEC in the command table, where the functions of the queued commands are `run`.
  abbrev pub exec_run :
      (Command → Server D → ℕ → Server D) → (Server D → ℤ) → Command → Server D → ℕ → Server D
  exec_run run duration cmd s c = exec_command (call run duration) propagate_multi s c
