-- ===== src/Commands/Process.antt =====
-- redis-2.6.14/src/redis.c: processCommand. The command table, freeMemoryIfNeeded, call and
-- handleClientsBlockedOnLists are parameters.
pub mod Outcome
use galery.Prelude.{
  ℕ, zero, suc, ◌+◌, ◌≡◌, Option, none, some, List, [], ◌∷◌, ◌++◌, map, Bool, true, false, not,
  ◌&&◌, ◌||◌, leb, ltb, ◌==◌, if◌then◌else◌, length, get_or, same_bytes,
}
use galery.Prelude.Int.{ℤ, pos, negsuc}
use galery.Commands.{
  Proc, auth, subscribe, unsubscribe, psubscribe, punsubscribe, shutdown, script, exec, discard,
  multi, watch, Command, Reply, okay, queued, unknown_command, wrong_arity, not_permitted, oom,
  bgsave_err, read_only_slave, pubsub_context, master_down, loading_err, slow_script, Client,
  Server, set_client, add_reply,
}
use galery.Commands.Transaction.{flag_transaction, queue_multi_command}

-- `tolower` on ASCII.
unfoldable pub lower : ℕ → ℕ
lower ch = if leb b'A' ch && leb ch b'Z' then ch + 32 else ch

-- A C string ends at the first nul.
unfoldable pub c_string : List ℕ → List ℕ
c_string [] = []
c_string (ch ∷ chs) = if ch == 0 then [] else lower ch ∷ c_string chs

abbrev pub quit : List ℕ
quit = b'q' ∷ b'u' ∷ b'i' ∷ b't' ∷ []

abbrev pub is_subscription : Proc → Bool
is_subscription subscribe = true
is_subscription unsubscribe = true
is_subscription psubscribe = true
is_subscription punsubscribe = true
is_subscription _ = false

abbrev pub is_auth : Proc → Bool
is_auth auth = true
is_auth _ = false

-- The commands that run inside MULTI.
abbrev pub is_control : Proc → Bool
is_control exec = true
is_control discard = true
is_control multi = true
is_control watch = true
is_control _ = false

-- SHUTDOWN NOSAVE and SCRIPT KILL, by the first letter of their one argument.
unfoldable pub stops_script : Proc → List (List ℕ) → Bool
stops_script shutdown argv = (length argv == 2) && (lower (get_or (get_or argv 1 []) 0 0) == b'n')
stops_script script argv = (length argv == 2) && (lower (get_or (get_or argv 1 []) 0 0) == b'k')
stops_script _ argv = false

unfoldable pub bad_arity : ℤ → ℕ → Bool
bad_arity (pos n) argc = ltb 0 n && not (n == argc)
bad_arity (negsuc n) argc = ltb argc (suc n)

module _ {D : Type 0} where
  -- `flagTransaction` and an error reply.
  unfoldable pub refuse : Server D → ℕ → Reply → Server D
  refuse s c r = add_reply (flag_transaction s c) c r

  module _ (lookup_command : List ℕ → Option Command)
      (free_memory_if_needed : Server D → Bool × Server D) (call : Server D → ℕ → Server D)
      (handle_blocked : Server D → Server D) where
    -- From "Exec the command" on.
    unfoldable pub queue_or_call : Server D → ℕ → Command → Server D
    queue_or_call s c cmd =
        if (s.clients c).multi && not (is_control cmd.proc)
        then add_reply (queue_multi_command s c cmd) c queued
        else (let s' = call s c in if ltb 0 s'.ready_keys then handle_blocked s' else s')

    -- The checks that follow the maxmemory directive.
    unfoldable pub check_server : Server D → ℕ → Command → Server D
    check_server s c cmd =
        let x = s.clients c in
        if s.stop_writes_on_bgsave_err && ltb 0 s.saveparamslen && s.lastbgsave_failed && cmd.write
        then refuse s c bgsave_err
        else if s.is_slave && s.repl_slave_ro && not x.master && cmd.write
        then add_reply s c read_only_slave
        else if (ltb 0 x.pubsub_channels || ltb 0 x.pubsub_patterns)
            && not (is_subscription cmd.proc)
        then add_reply s c pubsub_context
        else if s.is_slave && not s.repl_connected && not s.repl_serve_stale_data && not cmd.stale
        then refuse s c master_down
        else if s.loading && not cmd.loading
        then add_reply s c loading_err
        else if s.lua_timedout && not (is_auth cmd.proc) && not (stops_script cmd.proc x.argv)
        then refuse s c slow_script
        else queue_or_call s c cmd

    -- The maxmemory directive.
    unfoldable pub check_memory : Server D → ℕ → Command → Server D
    check_memory s c cmd =
        let (enough, s') = free_memory_if_needed s in
        if ltb 0 s.maxmemory
        then (if cmd.denyoom && not enough then refuse s' c oom else check_server s' c cmd)
        else check_server s c cmd

    -- `processCommand`: true for REDIS_OK.
    unfoldable pub process_command : Server D → ℕ → Bool × Server D
    process_command s c =
        let x = s.clients c in
        let name = get_or x.argv 0 [] in
        if same_bytes (c_string name) quit
        then (let s' = add_reply s c Reply.okay in
            (false, set_client s' c (record (s'.clients c) { close_after_reply = true })))
        else (let found = lookup_command name in
            let s1 = set_client s c (record x { cmd = found }) in
            elim found [
              | none ↦ (true, refuse s1 c unknown_command)
              | some cmd ↦
                  if bad_arity cmd.arity (length x.argv)
                  then (true, refuse s1 c wrong_arity)
                  else if s.requirepass && not x.authenticated && not (is_auth cmd.proc)
                  then (true, refuse s1 c not_permitted)
                  else (true, check_memory s1 c cmd)
            ])
