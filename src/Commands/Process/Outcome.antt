-- ===== src/Commands/Process/Outcome.antt =====
-- redis-2.6.14/src/redis.c: what processCommand does with a command inside MULTI.
use galery.Prelude.{
  ℕ, ◌≡◌, refl, inl, inr, Option, some, List, [], ◌∷◌, ◌++◌, Bool, true, false, not, ◌&&◌, ◌||◌,
  ltb, if◌then◌else◌, arith, Bool-cases, get_or, same_bytes, length, ap, sym, ◌∙◌,
}
use galery.Commands.{
  Command, Reply, queued, wrong_arity, not_permitted, oom, bgsave_err, read_only_slave,
  pubsub_context, master_down, loading_err, slow_script, Client, Server, MultiCmd, set_client,
  add_reply,
}
use galery.Commands.Transaction.{flag_transaction, queue_multi_command}
use galery.Commands.Process.{
  c_string, quit, is_control, is_subscription, stops_script, bad_arity, is_auth, refuse,
  queue_or_call, check_server, check_memory, process_command,
}

abbrev pub is_queued : Reply → Bool
is_queued queued = true
is_queued _ = false

-- The errors for which processCommand does not flag the transaction.
abbrev pub leaves_unflagged : Reply → Bool
leaves_unflagged queued = true
leaves_unflagged read_only_slave = true
leaves_unflagged pubsub_context = true
leaves_unflagged loading_err = true
leaves_unflagged _ = false

-- What a client and its command are liable to: the replies that processCommand may give them inside MULTI.
abbrev pub liable : Client → Command → Reply → Bool
liable x k queued = true
liable x k wrong_arity = bad_arity k.arity (length x.argv)
liable x k not_permitted = not x.authenticated && not (is_auth k.proc)
liable x k oom = k.denyoom
liable x k bgsave_err = k.write
liable x k read_only_slave = k.write && not x.master
liable x k pubsub_context =
    (ltb 0 x.pubsub_channels || ltb 0 x.pubsub_patterns) && not (is_subscription k.proc)
liable x k master_down = not k.stale
liable x k loading_err = not k.loading
liable x k slow_script = not (is_auth k.proc) && not (stops_script k.proc x.argv)
liable x k _ = false

-- The command that was found plays no part in it.
liable_found :
    (x : Client) (k : Command) (f : Option Command) (r : Reply)
    → liable (record x { cmd = f }) k r ≡ liable x k r
liable_found x k f r = refl

module _ {D : Type 0} where
  -- From `s` to `s'`, the command `m` of client `c` in MULTI was processed: with one reply, which
  -- is QUEUED or an error that they are liable to, and says whether the command was queued.
  pub record Outcome (s : Server D) (c : ℕ) (m : MultiCmd) (s' : Server D) : Type 0 where
    pub reply : Reply
    pub known : liable (s.clients c) m.cmd reply ≡ true
    pub replies : (s'.clients c).replies ≡ (s.clients c).replies ++ reply ∷ []
    pub commands :
        (s'.clients c).commands
        ≡ (if is_queued reply then (s.clients c).commands ++ m ∷ [] else (s.clients c).commands)
    pub dirty_exec :
        (s'.clients c).dirty_exec ≡ (not (leaves_unflagged reply) || (s.clients c).dirty_exec)
    pub multi : (s'.clients c).multi ≡ true

  either :
      {s : Server D} {c : ℕ} {m : MultiCmd} {x y : Server D} (b : Bool)
      → (b ≡ true → Outcome s c m x)
      → (b ≡ false → Outcome s c m y)
      → Outcome s c m (if b then x else y)
  either true p q = p refl
  either false p q = q refl

  -- The same, told of a state before that has the same replies, commands and flags of the client.
  Outcome-from :
      (s t : Server D) (c : ℕ) (m : MultiCmd) (s' : Server D)
      → (t.clients c).replies ≡ (s.clients c).replies
      → (t.clients c).commands ≡ (s.clients c).commands
      → (t.clients c).dirty_exec ≡ (s.clients c).dirty_exec
      → ((r : Reply) → liable (t.clients c) m.cmd r ≡ liable (s.clients c) m.cmd r)
      → Outcome t c m s'
      → Outcome s c m s'
  Outcome-from s t c m s' r k d l o = record {
    reply = o.reply;
    known = sym (l o.reply) ∙ o.known;
    replies = o.replies ∙ ap (λ l. l ++ o.reply ∷ []) r;
    commands = o.commands ∙ ap (λ l. if is_queued o.reply then l ++ m ∷ [] else l) k;
    dirty_exec = o.dirty_exec ∙ ap (λ b. not (leaves_unflagged o.reply) || b) d;
    multi = o.multi;
  }

module _ {D : Type 0} (s : Server D) (c : ℕ) (m : MultiCmd) (h : (s.clients c).multi ≡ true) where
  -- An error with a flagged transaction.
  Outcome-refuse :
      (r : Reply)
      → liable (s.clients c) m.cmd r ≡ true
      → is_queued r ≡ false
      → leaves_unflagged r ≡ false
      → Outcome s c m (refuse s c r)
  unfolding refuse flag_transaction add_reply set_client
  Outcome-refuse r k q u = record {
    reply = r;
    known = k;
    replies = ground arith;
    commands = ground arith;
    dirty_exec = ground arith;
    multi = ground arith;
  }

  -- An error only.
  Outcome-reply :
      (r : Reply)
      → liable (s.clients c) m.cmd r ≡ true
      → is_queued r ≡ false
      → leaves_unflagged r ≡ true
      → Outcome s c m (add_reply s c r)
  unfolding add_reply set_client
  Outcome-reply r k q u = record {
    reply = r;
    known = k;
    replies = ground arith;
    commands = ground arith;
    dirty_exec = ground arith;
    multi = ground arith;
  }

  Outcome-queued :
      m.argv ≡ (s.clients c).argv
      → Outcome s c m (add_reply (queue_multi_command s c m.cmd) c queued)
  unfolding queue_multi_command add_reply set_client
  Outcome-queued e = record {
    reply = queued;
    known = refl;
    replies = ground arith;
    commands = ground (arith, e);
    dirty_exec = ground arith;
    multi = ground arith;
  }

-- A command of a client in MULTI that is found, is not QUIT and does not run inside MULTI.
module _ {D : Type 0} (lookup_command : List ℕ → Option Command)
    (free_memory_if_needed : Server D → Bool × Server D) (call : Server D → ℕ → Server D)
    (handle_blocked : Server D → Server D) where
  module _ (c : ℕ) (m : MultiCmd) (k : is_control m.cmd.proc ≡ false) where
    queue-Outcome :
        (s : Server D)
        → (s.clients c).multi ≡ true
        → m.argv ≡ (s.clients c).argv
        → Outcome s c m
            (queue_or_call lookup_command free_memory_if_needed call handle_blocked s c m.cmd)
    unfolding queue_or_call
    queue-Outcome s h e = rw (h, k) (Outcome-queued s c m h e)

    -- The checks behind the one for Pub/Sub.
    check_loading-Outcome :
        (s : Server D)
        → (s.clients c).multi ≡ true
        → m.argv ≡ (s.clients c).argv
        → Outcome s c m (
            if s.is_slave && not s.repl_connected && not s.repl_serve_stale_data && not m.cmd.stale
            then refuse s c master_down
            else if s.loading && not m.cmd.loading
            then add_reply s c loading_err
            else if s.lua_timedout
                && not (is_auth m.cmd.proc)
                && not (stops_script m.cmd.proc (s.clients c).argv)
            then refuse s c slow_script
            else queue_or_call lookup_command free_memory_if_needed call handle_blocked s c m.cmd)
    check_loading-Outcome s h e =
        either
          (s.is_slave && not s.repl_connected && not s.repl_serve_stale_data && not m.cmd.stale)
          (λ t. Outcome-refuse s c m h master_down (ground (arith, t)) refl refl)
          (λ _.
            either (s.loading && not m.cmd.loading)
              (λ t. Outcome-reply s c m h loading_err (ground (arith, t)) refl refl)
              (λ _.
                either
                  (s.lua_timedout
                    && not (is_auth m.cmd.proc)
                    && not (stops_script m.cmd.proc (s.clients c).argv))
                  (λ t. Outcome-refuse s c m h slow_script (ground (arith, t)) refl refl)
                  (λ _. queue-Outcome s h e)))

    check_server-Outcome :
        (s : Server D)
        → (s.clients c).multi ≡ true
        → m.argv ≡ (s.clients c).argv
        → Outcome s c m
            (check_server lookup_command free_memory_if_needed call handle_blocked s c m.cmd)
    unfolding check_server
    check_server-Outcome s h e =
        let x = s.clients c in
        let k = m.cmd in
        either
          (s.stop_writes_on_bgsave_err && ltb 0 s.saveparamslen && s.lastbgsave_failed && k.write)
          (λ t. Outcome-refuse s c m h bgsave_err (ground (arith, t)) refl refl)
          (λ _.
            either (s.is_slave && s.repl_slave_ro && not x.master && k.write)
              (λ t. Outcome-reply s c m h read_only_slave (ground (arith, t)) refl refl)
              (λ _.
                either
                  ((ltb 0 x.pubsub_channels || ltb 0 x.pubsub_patterns)
                    && not (is_subscription k.proc))
                  (λ t. Outcome-reply s c m h pubsub_context t refl refl)
                  (λ _. check_loading-Outcome s h e)))

    -- Freeing memory leaves the clients as they are.
    module _ (keeps : (s : Server D) → (free_memory_if_needed s).1.clients ≡ s.clients) where
      check_memory-Outcome :
          (s : Server D)
          → (s.clients c).multi ≡ true
          → m.argv ≡ (s.clients c).argv
          → Outcome s c m
              (check_memory lookup_command free_memory_if_needed call handle_blocked s c m.cmd)
      unfolding check_memory
      check_memory-Outcome s h e =
          let freed = (free_memory_if_needed s).1 in
          let same : freed.clients c ≡ s.clients c = ap (λ f. f c) (keeps s) in
          let h' : (freed.clients c).multi ≡ true = ap (λ (x : Client). x.multi) same ∙ h in
          let e' : m.argv ≡ (freed.clients c).argv = e ∙ sym (ap (λ (x : Client). x.argv) same) in
          let from : (s' : Server D) → Outcome freed c m s' → Outcome s c m s' = λ s' o.
            Outcome-from s freed c m s' (ap (λ (x : Client). x.replies) same)
              (ap (λ (x : Client). x.commands) same) (ap (λ (x : Client). x.dirty_exec) same)
              (λ r. ap (λ (x : Client). liable x m.cmd r) same) o in
          either (ltb 0 s.maxmemory)
            (λ _.
              either (m.cmd.denyoom && not (free_memory_if_needed s).0)
                (λ t. from _ (Outcome-refuse freed c m h' oom (ground (arith, t)) refl refl))
                (λ _. from _ (check_server-Outcome freed h' e')))
            (λ _. check_server-Outcome s h e)

      -- Inside MULTI, and where freeing memory leaves the clients alone: a command that is found, is not
      -- QUIT and is none of EXEC, DISCARD, MULTI and WATCH gets one reply, whatever `call` does: QUEUED,
      -- and then it is queued, or an error that it or the client is liable to, and then the queue is
      -- unchanged. An error flags the transaction, except for the errors of a read only slave, of Pub/Sub
      -- and of loading. The errors are wrong arity for a number of arguments that the command does
      -- not take, not permitted for a client that is not authenticated, out of memory for a command
      -- with denyoom, a failed snapshot for a write, a read only slave for a write of a client that is not
      -- the master, Pub/Sub for a subscriber, a master that is down, loading, and a slow script.
      pub process_command-Outcome :
          (s : Server D)
          → (s.clients c).multi ≡ true
          → m.argv ≡ (s.clients c).argv
          → lookup_command (get_or (s.clients c).argv 0 []) ≡ some m.cmd
          → same_bytes (c_string (get_or (s.clients c).argv 0 [])) quit ≡ false
          → Outcome s c m
              (process_command lookup_command free_memory_if_needed call handle_blocked s c).1
      unfolding process_command
      process_command-Outcome s h e l q =
          let x = s.clients c in
          let name = get_or x.argv 0 [] in
          let s1 : Server D = set_client s c (record x { cmd = lookup_command name }) in
          let same : s1.clients c ≡ record x { cmd = lookup_command name } =
            unfold set_client in ground arith in
          let h1 : (s1.clients c).multi ≡ true = ap (λ (y : Client). y.multi) same ∙ h in
          let e1 : m.argv ≡ (s1.clients c).argv = e ∙ sym (ap (λ (y : Client). y.argv) same) in
          let from : (s' : Server D) → Outcome s1 c m s' → Outcome s c m s' = λ s' o.
            Outcome-from s s1 c m s' (ap (λ (y : Client). y.replies) same)
              (ap (λ (y : Client). y.commands) same) (ap (λ (y : Client). y.dirty_exec) same)
              (λ r.
                ap (λ (y : Client). liable y m.cmd r) same
                ∙ liable_found x m.cmd (lookup_command name) r)
              o in
          rw (q, l)
            (elim (Bool-cases (bad_arity m.cmd.arity (length x.argv))) [
              | inl b ↦ rw b (
                  from _ (Outcome-refuse s1 c m h1 wrong_arity (ground (arith, b, same)) refl refl))
              | inr b ↦
                  rw b
                    (elim (Bool-cases
                      (s.requirepass && not x.authenticated && not (is_auth m.cmd.proc))) [
                        | inl a ↦ rw a (
                            from _ (
                              Outcome-refuse s1 c m h1 not_permitted (ground (arith, a, same)) refl
                                refl))
                        | inr a ↦ rw a (from _ (check_memory-Outcome s1 h1 e1))
                      ])
            ])
