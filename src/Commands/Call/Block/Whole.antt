-- ===== src/Commands/Call/Block/Whole.antt =====
-- redis-2.6.14/src/multi.c and redis.c: a call of EXEC, and what it leaves in the append only file.
use mathlib.Core.List.{append_assoc, append-nil}
use galery.Prelude.{
  ℕ, ◌≡◌, ap, sym, ◌∙◌, List, [], ◌∷◌, ◌++◌, Bool, true, false, not, ◌||◌, ◌==◌, if◌then◌else◌,
  arith, length, subst,
}
use galery.Prelude.Int.{ℤ}
use galery.Commands.{
  Command, exec_without_multi, exec_abort, null_multi_bulk, Feed, Server, add_reply, multi_bulk_len,
}
use galery.Commands.Watch.{unwatch_all_keys}
use galery.Commands.Transaction.{discard_transaction, handle_monitor, exec_command}
use galery.Commands.Call.{
  cmd_of, before_run, record_call, call_command, call, propagate_multi, exec_run,
}
use galery.Commands.Call.Block.{
  all_del, AllBehave, propagate_call-Effect, before_run-frame, record_call-frame, own, later,
  later-nothing,
}
use galery.Commands.Transaction.{exec_loop}
use galery.Commands.Call.Block.Exec.{multi_args, exec_loop-Trace, exec_loop-flag, runs_write}
use galery.Commands.Call.Block.Aside.{
  if_cases, Aside-trans, add_reply-Aside, unwatch_all_keys-Aside, discard_transaction-Aside,
  handle_monitor-Aside, Opened, Executed, Aside-Executed, finished, finished-Executed, unchanged,
  opened,
}

-- What is appended to a log in two steps, each with more around it.
logs_add :
    (l0 l1 l2 l3 t xs ys zs : List Feed)
    → l1 ≡ l0
    → l2 ≡ l1 ++ xs
    → l3 ≡ l2
    → zs ≡ []
    → t ≡ l3 ++ (ys ++ zs)
    → t ≡ l0 ++ (xs ++ ys)
logs_add l0 l1 l2 l3 t xs ys zs a b d e f =
    f
    ∙ ap (λ z. l3 ++ (ys ++ z)) e
    ∙ ap (λ l. l3 ++ l) (append-nil ys)
    ∙ ap (λ l. l ++ ys) (d ∙ b ∙ ap (λ l. l ++ xs) a)
    ∙ append_assoc l0 xs ys

-- What a call of EXEC with arguments `argv` leaves in the append only file: DELs, and then where it
-- runs a command that writes, a block that begins with MULTI and ends with EXEC.
pub data IsBlock (argv : List (List ℕ)) : Bool → List Feed → Type 0 where
  only_deletes : (before : List Feed) → all_del before ≡ true → IsBlock argv false before
  block :
      (before : List Feed) (db db' : ℕ) (body : List Feed)
      → all_del before ≡ true
      → IsBlock argv true (before ++ ((db, multi_args) ∷ body ++ (db', argv) ∷ []))

module _ {D : Type 0} (run : Command → Server D → ℕ → Server D) (duration : Server D → ℤ) where
  exec_command-Executed :
      (s : Server D) (c : ℕ)
      → AllBehave run (s.clients c).commands
      → s.aof_on ≡ true
      → s.also_propagate ≡ []
      → Executed c s
          (runs_write (s.clients c))
          (exec_command (call run duration) propagate_multi s c)
  unfolding exec_command
  exec_command-Executed s c bs on none_left =
      let x = s.clients c in
      if_cases (Executed c s (runs_write x)) (not x.multi) _ _
        (λ h.
          subst (λ b. Executed c s b (add_reply s c exec_without_multi)) (ground (arith, h))
            (Aside-Executed c s _ none_left (add_reply-Aside s c exec_without_multi)))
        (λ h.
          if_cases (Executed c s (runs_write x)) (x.dirty_cas || x.dirty_exec) _ _
            (λ d.
              let s1 = add_reply s c (if x.dirty_exec then exec_abort else null_multi_bulk) in
              subst (λ b. Executed c s b (handle_monitor (discard_transaction s1 c) c))
                (ground (arith, d))
                (Aside-Executed c s _ none_left (
                  Aside-trans c s (discard_transaction s1 c) _
                    (Aside-trans c s s1 _ (add_reply-Aside s c _) (discard_transaction-Aside s1 c))
                    (handle_monitor-Aside (discard_transaction s1 c) c))))
            (λ d.
              let s0 = unwatch_all_keys s c in
              let s1 = add_reply s0 c (multi_bulk_len (length x.commands)) in
              let a = Aside-trans c s s0 s1 (unwatch_all_keys-Aside s c) (add_reply-Aside s0 c _) in
              let l =
                exec_loop-Trace run duration x.commands 0 false s1 c bs (a.on ∙ on)
                  (a.scheduled ∙ none_left) in
              let r = exec_loop (call run duration) propagate_multi 0 x.commands false s1 c in
              subst (λ b. Executed c s b (finished x.argv x.cmd r.0 r.1 c))
                (exec_loop-flag (call run duration) propagate_multi x.commands 0 false s1 c
                  ∙ ground (arith, h, d))
                (finished-Executed s s1 r.1 c x.cmd r.0 l.0 a l.1 l.2)))

  own-IsBlock :
      (s s2 s3 : Server D) (c : ℕ) (writes : Bool) (ext : List Feed)
      → s3.aof_on ≡ true
      → (s3.clients c).argv ≡ (s.clients c).argv
      → Opened s s2 writes ext
      → IsBlock (s.clients c).argv writes (ext ++ own s3 c (not (s2.dirty == s.dirty)))
  own-IsBlock s s2 s3 c _ _ on e (unchanged before q h) =
      let nothing : own s3 c (not (s2.dirty == s.dirty)) ≡ [] = ground (arith, h) in
      subst (IsBlock (s.clients c).argv false)
        (sym (append-nil before) ∙ ap (λ l. before ++ l) (sym nothing)) (only_deletes before q)
  own-IsBlock s s2 s3 c _ _ on e (opened before db body q h) =
      let last = own s3 c (not (s2.dirty == s.dirty)) in
      let exec_only : ((s3.clients c).db, (s.clients c).argv) ∷ [] ≡ last =
        ground (arith, h, on, e) in
      subst (IsBlock (s.clients c).argv true)
        (ap (λ l. before ++ ((db, multi_args) ∷ body ++ l)) exec_only
          ∙ sym (append_assoc before ((db, multi_args) ∷ body) last))
        (block before db (s3.clients c).db body q)

  -- With the append only file on, and where the functions of the queued commands feed it nothing
  -- but DELs, do not turn it off, do not lower dirty, and for a read only command neither raise it
  -- nor schedule commands: where the client is in MULTI, no flag aborts the transaction and one of
  -- the queued commands is not read only, a call of EXEC appends to the file DELs and then a block
  -- that begins with MULTI and ends with EXEC, and otherwise nothing but DELs.
  pub exec-IsBlock :
      (k : Command) (s : Server D) (c : ℕ)
      → AllBehave run (s.clients c).commands
      → s.aof_on ≡ true
      → (feeds : List Feed) × ((call_command (exec_run run duration) duration k s c).aof_log
          ≡ s.aof_log ++ feeds)
        × IsBlock (s.clients c).argv (runs_write (s.clients c)) feeds
  unfolding call_command
  exec-IsBlock k s c bs on =
      let s1 = before_run s c k in
      let b = before_run-frame s c k in
      let x =
        exec_command-Executed s1 c (subst (λ f. AllBehave run (f c).commands) (sym b.4) bs)
          (b.1 ∙ on) b.3 in
      let s2 = exec_command (call run duration) propagate_multi s1 c in
      let k' = cmd_of k (s2.clients c) in
      let s3 = record_call s2 c k' (duration s2) in
      let r = record_call-frame s2 c k' (duration s2) in
      let changed = not (s2.dirty == s1.dirty) in
      let e = propagate_call-Effect s3 c k' changed in
      let none_left = later-nothing s3 c k' changed (r.3 ∙ x.effect.scheduled) in
      (
        x.ext ++ own s3 c changed,
        logs_add s.aof_log s1.aof_log s2.aof_log s3.aof_log _ x.ext (own s3 c changed)
            (later s3 c k' changed) b.0 x.effect.log r.0 none_left e.log,
        subst (λ f. IsBlock (f c).argv (runs_write (f c)) (x.ext ++ own s3 c changed)) b.4
            (own-IsBlock s1 s2 s3 c (runs_write (s1.clients c)) x.ext (r.1 ∙ x.effect.on ∙ b.1 ∙ on)
              (ap (λ f. (f c).argv) r.4 ∙ x.argv) x.state),
      )
