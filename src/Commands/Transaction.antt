-- ===== src/Commands/Transaction.antt =====
-- redis-2.6.14/src/multi.c: MULTI, DISCARD, EXEC and the queue of commands. `call` of redis.c and the
-- propagation of MULTI are parameters; `monitored` lists the calls of replicationFeedMonitors.
pub mod Ends
use galery.Prelude.{
  ℕ, zero, suc, ◌+◌, Option, none, some, List, [], ◌∷◌, ◌++◌, Bool, true, false, not, ◌&&◌, ◌||◌,
  ltb, ◌==◌, if◌then◌else◌, length, set,
}
use galery.Commands.{
  Command, Reply, okay, null_multi_bulk, exec_abort, multi_bulk_len, nested_multi,
  discard_without_multi, exec_without_multi, MultiCmd, Client, Server, set_client, add_reply,
}
use galery.Commands.Watch.{unwatch_all_keys}

module _ {D : Type 0} where
  unfoldable pub queue_multi_command : Server D → ℕ → Command → Server D
  queue_multi_command s c cmd =
      let x = s.clients c in
      set_client s c
        (record x { commands = x.commands ++ record { cmd = cmd; argv = x.argv } ∷ [] })

  unfoldable pub discard_transaction : Server D → ℕ → Server D
  discard_transaction s c =
      unwatch_all_keys
        (set_client s c (record (s.clients c) {
          commands = [];
          multi = false;
          dirty_cas = false;
          dirty_exec = false;
        }))
        c

  unfoldable pub flag_transaction : Server D → ℕ → Server D
  flag_transaction s c =
      if (s.clients c).multi then set_client s c (record (s.clients c) { dirty_exec = true }) else s

  unfoldable pub multi_command : Server D → ℕ → Server D
  multi_command s c =
      if (s.clients c).multi
      then add_reply s c nested_multi
      else add_reply (set_client s c (record (s.clients c) { multi = true })) c okay

  unfoldable pub discard_command : Server D → ℕ → Server D
  discard_command s c =
      if not (s.clients c).multi
      then add_reply s c discard_without_multi
      else add_reply (discard_transaction s c) c okay

  -- The code at `handle_monitor`.
  unfoldable pub handle_monitor : Server D → ℕ → Server D
  handle_monitor s c =
      if ltb 0 s.monitors && not s.loading
      then record s { monitored = s.monitored ++ ((s.clients c).db, (s.clients c).argv) ∷ [] }
      else s

  module _ (call : Server D → ℕ → Server D) (propagate_multi : Server D → ℕ → Server D) where
    -- The loop of `execCommand` from command `j` on, with `must_propagate`.
    unfoldable pub exec_loop : ℕ → List MultiCmd → Bool → Server D → ℕ → Bool × Server D
    exec_loop j [] must_propagate s c = (must_propagate, s)
    exec_loop j (m ∷ ms) must_propagate s c =
        let s1 = set_client s c (record (s.clients c) { argv = m.argv; cmd = some m.cmd }) in
        let first_write = not must_propagate && not m.cmd.readonly in
        let s2 = if first_write then propagate_multi s1 c else s1 in
        let s3 = call s2 c in
        let x = s3.clients c in
        let back : Command = elim x.cmd [ none ↦ m.cmd | some k ↦ k ] in
        let s4 =
          set_client s3 c
            (record x { commands = set x.commands j (record { cmd = back; argv = x.argv }) }) in
        exec_loop (j + 1) ms (must_propagate || first_write) s4 c

    unfoldable pub exec_command : Server D → ℕ → Server D
    exec_command s c =
        let x = s.clients c in
        if not x.multi
        then add_reply s c exec_without_multi
        else if x.dirty_cas || x.dirty_exec
        then handle_monitor
            (discard_transaction
              (add_reply s c (if x.dirty_exec then exec_abort else null_multi_bulk)) c)
            c
        else (let s1 = add_reply (unwatch_all_keys s c) c (multi_bulk_len (length x.commands)) in
            let (must_propagate, s2) = exec_loop 0 x.commands false s1 c in
            let s3 = set_client s2 c (record (s2.clients c) { argv = x.argv; cmd = x.cmd }) in
            let s4 = discard_transaction s3 c in
            let s5 = if must_propagate then record s4 { dirty = s4.dirty + 1 } else s4 in
            handle_monitor s5 c)
