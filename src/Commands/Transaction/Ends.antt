-- ===== src/Commands/Transaction/Ends.antt =====
-- redis-2.6.14/src/multi.c: what EXEC does to a transaction that is dirty, and what it leaves of any.
use galery.Prelude.{
  ℕ, ◌+◌, ◌≡◌, refl, inl, inr, [], ◌∷◌, ◌++◌, Bool, true, false, ◌||◌, ◌==◌, if◌then◌else◌, arith,
  Bool-cases,
}
use galery.Commands.{
  Reply, exec_abort, null_multi_bulk, WatchedKey, Client, Server, set_client, add_reply,
}
use galery.Commands.Watch.{is_watched, unwatch_all_keys, touch_watched_key}
use galery.Commands.Watch.Laws.{IsWatching, touch_watched_key_lem}
use galery.Commands.Transaction.{discard_transaction, handle_monitor, exec_command}

-- A client after a transaction that ended with one more reply.
abbrev pub aborted : Client → Reply → Client
aborted x r = record x {
  multi = false;
  dirty_cas = false;
  dirty_exec = false;
  commands = [];
  watched_keys = [];
  replies = x.replies ++ r ∷ [];
}

-- A client with no transaction.
pub record IsCleared (x : Client) : Type 0 where
  pub multi : x.multi ≡ false
  pub dirty_cas : x.dirty_cas ≡ false
  pub dirty_exec : x.dirty_exec ≡ false
  pub commands : x.commands ≡ []
  pub watched_keys : x.watched_keys ≡ []

module _ {D : Type 0} where
  discard-IsCleared : (s : Server D) (c : ℕ) → IsCleared ((discard_transaction s c).clients c)
  unfolding discard_transaction unwatch_all_keys set_client
  discard-IsCleared s c = record {
    multi = ground arith;
    dirty_cas = ground arith;
    dirty_exec = ground arith;
    commands = ground arith;
    watched_keys = ground arith;
  }

  handle_monitor-clients : (s : Server D) (c : ℕ) → (handle_monitor s c).clients ≡ s.clients
  unfolding handle_monitor
  handle_monitor-clients s c = ground arith

  bump-clients :
      (b : Bool) (s : Server D)
      → (if b then record s { dirty = s.dirty + 1 } else s).clients ≡ s.clients
  bump-clients true s = refl
  bump-clients false s = refl

module _ {D : Type 0} (call : Server D → ℕ → Server D)
    (propagate_multi : Server D → ℕ → Server D) where
  -- EXEC of `s` was refused: no command ran, and only the client `c` has changed.
  pub record Aborts (s : Server D) (c : ℕ) (r : Reply) : Type 0 where
    pub keyspace : (exec_command call propagate_multi s c).keyspace ≡ s.keyspace
    pub dirty : (exec_command call propagate_multi s c).dirty ≡ s.dirty
    pub clients :
        (j : ℕ)
        → (exec_command call propagate_multi s c).clients j
          ≡ (if j == c then aborted (s.clients c) r else s.clients j)

  -- EXEC of a dirty transaction runs no command, whatever `call` does: the client gets EXECABORT where
  -- queueing failed and a nil otherwise, and its transaction is over.
  pub exec_command-Aborts :
      (s : Server D) (c : ℕ)
      → (s.clients c).multi ≡ true
      → ((s.clients c).dirty_cas || (s.clients c).dirty_exec) ≡ true
      → Aborts s c (if (s.clients c).dirty_exec then exec_abort else null_multi_bulk)
  unfolding exec_command handle_monitor discard_transaction unwatch_all_keys add_reply set_client
  exec_command-Aborts s c m d = record {
    keyspace = ground arith;
    dirty = ground arith;
    clients = λ j. ground arith;
  }

  -- Optimistic locking: once a watched key has been touched, the EXEC of a client that watches it runs
  -- no command, whatever `call` does, and answers nil if no command failed to be queued.
  pub touched-Aborts :
      (s : Server D) (c : ℕ) (key : WatchedKey)
      → IsWatching s
      → (s.clients c).multi ≡ true
      → (s.clients c).dirty_exec ≡ false
      → is_watched key (s.clients c).watched_keys ≡ true
      → Aborts (touch_watched_key s key) c null_multi_bulk
  touched-Aborts s c key w m e h =
      let flags : (((touch_watched_key s key).clients c).multi ≡ true)
          × (((touch_watched_key s key).clients c).dirty_exec ≡ false) =
        unfold touch_watched_key in ground arith in
      let dirty : ((touch_watched_key s key).clients c).dirty_cas ≡ true =
        ground (arith, touch_watched_key_lem s key c w) in
      let a = exec_command-Aborts (touch_watched_key s key) c flags.0 (ground arith) in
      rw flags.1 at a

  -- After EXEC in a transaction, aborted or not and whatever `call` does, the client is out of it: no
  -- queued command, no watched key and no dirty flag is left.
  pub exec_command-ends :
      (s : Server D) (c : ℕ)
      → (s.clients c).multi ≡ true
      → IsCleared ((exec_command call propagate_multi s c).clients c)
  unfolding exec_command
  exec_command-ends s c m =
      elim (Bool-cases ((s.clients c).dirty_cas || (s.clients c).dirty_exec)) [
        | inl d ↦
            rw
              (
                m,
                d,
                handle_monitor-clients
                    (discard_transaction
                      (add_reply s c
                        (if (s.clients c).dirty_exec then exec_abort else null_multi_bulk))
                      c)
                    c,
              )
              (discard-IsCleared _ c)
        | inr d ↦ rw (m, d) (rw handle_monitor-clients (rw bump-clients (discard-IsCleared _ c)))
      ]
