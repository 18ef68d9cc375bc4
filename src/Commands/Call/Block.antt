-- ===== src/Commands/Call/Block.antt =====
-- redis-2.6.14/src/redis.c and multi.c: what the append only file gets of a transaction.
pub mod Exec
pub mod Aside
pub mod Whole
use mathlib.Core.List.{append_assoc, append-nil}
use galery.Prelude.{
  ℕ, zero, suc, ◌+◌, ◌≤◌, ◌≡◌, refl, sym, ap, ◌∙◌, inl, inr, Option, none, some, List, [], ◌∷◌,
  ◌++◌, map, Bool, true, false, not, ◌&&◌, ◌||◌, ltb, ◌==◌, if◌then◌else◌, arith, Bool-cases, set,
  length, same_bytes,
}
use galery.Prelude.Int.{ℤ}
use galery.Commands.{
  Proc, exec, Command, Feed, RedisOp, MultiCmd, Client, Server, set_client, add_reply,
  multi_bulk_len,
}
use galery.Commands.Watch.{unwatch_all_keys}
use galery.Commands.Transaction.{discard_transaction, handle_monitor, exec_loop, exec_command}
use galery.Commands.Call.{
  cmd_of, feed_aof, feed_slaves, propagate, propagate_all, before_run, record_call, propagate_call,
  call_command, call, propagate_multi,
}

-- A DEL, and a list of them.
unfoldable pub is_del : Feed → Bool
is_del (db, []) = false
is_del (db, name ∷ args) = same_bytes name (b'D' ∷ b'E' ∷ b'L' ∷ [])

unfoldable pub all_del : List Feed → Bool
all_del [] = true
all_del (f ∷ fs) = is_del f && all_del fs

pub all_del-append :
    (xs ys : List Feed) → all_del xs ≡ true → all_del ys ≡ true → all_del (xs ++ ys) ≡ true
unfolding all_del
all_del-append [] ys h k = k
all_del-append (x ∷ xs) ys h k = ground (arith, all_del-append xs ys)

module _ {D : Type 0} where
  -- From `s` to `t` the append only file got `ext`; nothing is left to propagate, and `dirty` has not
  -- fallen.
  pub record Effect (s : Server D) (ext : List Feed) (t : Server D) : Type 0 where
    pub log : t.aof_log ≡ s.aof_log ++ ext
    pub on : t.aof_on ≡ s.aof_on
    pub scheduled : t.also_propagate ≡ []
    pub rises : s.dirty ≤ t.dirty

  -- What the function of the command `k` does to the rest of the server: it feeds the append only
  -- file nothing but DELs (of keys that expired) and does not turn it off, does not lower `dirty`,
  -- and where `k` is read only it neither raises `dirty` nor schedules a command.
  pub record Behaves (run : Command → Server D → ℕ → Server D) (k : Command) : Type 0 where
    pub feeds :
        (s : Server D) (c : ℕ)
        → (ext : List Feed) × ((run k s c).aof_log ≡ s.aof_log ++ ext) × (all_del ext ≡ true)
    pub on : (s : Server D) (c : ℕ) → (run k s c).aof_on ≡ s.aof_on
    pub rises : (s : Server D) (c : ℕ) → s.dirty ≤ (run k s c).dirty
    pub same_dirty : k.readonly ≡ true → (s : Server D) (c : ℕ) → (run k s c).dirty ≡ s.dirty
    pub same_scheduled :
        k.readonly ≡ true → (s : Server D) (c : ℕ) → (run k s c).also_propagate ≡ s.also_propagate

  -- Each of the commands does so.
  unfoldable pub AllBehave : (Command → Server D → ℕ → Server D) → List MultiCmd → Type 0
  AllBehave run [] = Unit
  AllBehave run (m ∷ ms) = Behaves run m.cmd × AllBehave run ms

  -- What `propagate` appends.
  abbrev appended : Server D → RedisOp → List Feed
  appended s op = if s.aof_on && op.to_aof then op.feed ∷ [] else []

  propagate-log :
      (s : Server D) (op : RedisOp)
      → ((propagate s op).aof_log ≡ s.aof_log ++ appended s op)
        × ((propagate s op).aof_on ≡ s.aof_on)
        × ((propagate s op).dirty ≡ s.dirty)
        × ((propagate s op).also_propagate ≡ s.also_propagate)
  unfolding propagate feed_aof feed_slaves
  propagate-log s op =
      (ground (arith, append-nil s.aof_log), ground arith, ground arith, ground arith)

  -- What the loop over the scheduled commands appends.
  all_appended : Server D → List RedisOp → List Feed
  all_appended s [] = []
  all_appended s (op ∷ ops) = appended s op ++ all_appended (propagate s op) ops

  propagate_all-log :
      (ops : List RedisOp) (s : Server D)
      → ((propagate_all s ops).aof_log ≡ s.aof_log ++ all_appended s ops)
        × ((propagate_all s ops).aof_on ≡ s.aof_on)
        × ((propagate_all s ops).dirty ≡ s.dirty)
  unfolding propagate_all all_appended
  propagate_all-log [] s = (sym (append-nil s.aof_log), refl, refl)
  propagate_all-log (op ∷ ops) s =
      let p = propagate-log s op in
      let r = propagate_all-log ops (propagate s op) in
      (
        r.0
            ∙ ap (λ l. l ++ all_appended (propagate s op) ops) p.0
            ∙ append_assoc s.aof_log (appended s op) _,
        r.1 ∙ p.1,
        r.2 ∙ p.2,
      )

  before_run-frame :
      (s : Server D) (c : ℕ) (k : Command)
      → ((before_run s c k).aof_log ≡ s.aof_log)
        × ((before_run s c k).aof_on ≡ s.aof_on)
        × ((before_run s c k).dirty ≡ s.dirty)
        × ((before_run s c k).also_propagate ≡ [])
        × ((before_run s c k).clients ≡ s.clients)
  unfolding before_run
  before_run-frame s c k = (ground arith, ground arith, ground arith, refl, ground arith)

  record_call-frame :
      (s : Server D) (c : ℕ) (k : Command) (t : ℤ)
      → ((record_call s c k t).aof_log ≡ s.aof_log)
        × ((record_call s c k t).aof_on ≡ s.aof_on)
        × ((record_call s c k t).dirty ≡ s.dirty)
        × ((record_call s c k t).also_propagate ≡ s.also_propagate)
        × ((record_call s c k t).clients ≡ s.clients)
  unfolding record_call
  record_call-frame s c k t = (ground arith, ground arith, ground arith, ground arith, ground arith)

  -- The command itself, where it changed something.
  abbrev own : Server D → ℕ → Bool → List Feed
  own s c changed = if s.aof_on && changed then ((s.clients c).db, (s.clients c).argv) ∷ [] else []

  abbrev own_op : Server D → ℕ → Command → Bool → RedisOp
  own_op s c k changed = record {
    feed = ((s.clients c).db, (s.clients c).argv);
    to_aof = changed;
    to_slaves = changed || k.force_replication;
  }

  abbrev own_step : Server D → ℕ → Command → Bool → Server D
  own_step s c k changed =
      if k.force_replication || changed then propagate s (own_op s c k changed) else s

  own_step-log :
      (s : Server D) (c : ℕ) (k : Command) (changed : Bool)
      → ((own_step s c k changed).aof_log ≡ s.aof_log ++ own s c changed)
        × ((own_step s c k changed).aof_on ≡ s.aof_on)
        × ((own_step s c k changed).dirty ≡ s.dirty)
        × ((own_step s c k changed).also_propagate ≡ s.also_propagate)
  own_step-log s c k changed =
      let p = propagate-log s (own_op s c k changed) in
      elim (Bool-cases (k.force_replication || changed)) [
        | inl h ↦ rw h p
        | inr h ↦
            let e : changed ≡ false = ground arith in
            rw h (ground (arith, e, append-nil s.aof_log), refl, refl, refl)
      ]

  -- And then what it scheduled.
  later : Server D → ℕ → Command → Bool → List Feed
  later s c k changed =
      all_appended (own_step s c k changed) (own_step s c k changed).also_propagate

  later-nothing :
      (s : Server D) (c : ℕ) (k : Command) (changed : Bool)
      → s.also_propagate ≡ []
      → later s c k changed ≡ []
  unfolding later all_appended
  later-nothing s c k changed e =
      ap (all_appended (own_step s c k changed)) ((own_step-log s c k changed).3 ∙ e)

  propagate_call-Effect :
      (s : Server D) (c : ℕ) (k : Command) (changed : Bool)
      → Effect s (own s c changed ++ later s c k changed) (propagate_call s c k changed)
  unfolding propagate_call later
  propagate_call-Effect s c k changed =
      let o = own_step-log s c k changed in
      let a = propagate_all-log (own_step s c k changed).also_propagate (own_step s c k changed) in
      record {
        log =
            a.0
            ∙ ap (λ l. l ++ later s c k changed) o.0
            ∙ append_assoc s.aof_log (own s c changed) _;
        on = a.1 ∙ o.1;
        scheduled = refl;
        rises = omega (arith, a.2, o.2);
      }

  Effect-before :
      (s s' t : Server D) (xs ext : List Feed)
      → s'.aof_log ≡ s.aof_log ++ xs
      → s'.aof_on ≡ s.aof_on
      → s.dirty ≤ s'.dirty
      → Effect s' ext t
      → Effect s (xs ++ ext) t
  Effect-before s s' t xs ext a b d e = record {
    log = e.log ∙ ap (λ l. l ++ ext) a ∙ append_assoc s.aof_log xs ext;
    on = e.on ∙ b;
    scheduled = e.scheduled;
    rises = omega (arith, d, e.rises);
  }

  Effect-trans :
      (s t u : Server D) (xs ys : List Feed) → Effect s xs t → Effect t ys u → Effect s (xs ++ ys) u
  Effect-trans s t u xs ys e f = record {
    log = f.log ∙ ap (λ l. l ++ ys) e.log ∙ append_assoc s.aof_log xs ys;
    on = f.on ∙ e.on;
    scheduled = f.scheduled;
    rises = omega (arith, e.rises, f.rises);
  }

  propagate_call-dirty :
      (s : Server D) (c : ℕ) (k : Command) (changed : Bool)
      → (propagate_call s c k changed).dirty ≡ s.dirty
  unfolding propagate_call
  propagate_call-dirty s c k changed =
      (propagate_all-log (own_step s c k changed).also_propagate (own_step s c k changed)).2
      ∙ (own_step-log s c k changed).2

module _ {D : Type 0} (run : Command → Server D → ℕ → Server D) (duration : Server D → ℤ)
    (k : Command) (behaves : Behaves run k) where
  -- What `call` does to the append only file.
  call_command-Effect :
      (s : Server D) (c : ℕ)
      → (ext : List Feed) × Effect s ext (call_command run duration k s c)
        × (k.readonly ≡ true
            → (all_del ext ≡ true) × ((call_command run duration k s c).dirty ≡ s.dirty))
  unfolding call_command
  call_command-Effect s c =
      let s1 = before_run s c k in
      let b = before_run-frame s c k in
      let s2 = run k s1 c in
      let k' = cmd_of k (s2.clients c) in
      let s3 = record_call s2 c k' (duration s2) in
      let r = record_call-frame s2 c k' (duration s2) in
      let changed = not (s2.dirty == s1.dirty) in
      let rises = behaves.rises s1 c in
      let f = behaves.feeds s1 c in
      let e = propagate_call-Effect s3 c k' changed in
      (
        f.0 ++ (own s3 c changed ++ later s3 c k' changed),
        Effect-before s s3 _ f.0 _ (r.0 ∙ f.1 ∙ ap (λ l. l ++ f.0) b.0)
            (r.1 ∙ behaves.on s1 c ∙ b.1) (omega (arith, r.2, rises, b.2)) e,
        λ h.
            let same : changed ≡ false = ground (arith, behaves.same_dirty h s1 c) in
            let none_left =
              later-nothing s3 c k' changed (r.3 ∙ behaves.same_scheduled h s1 c ∙ b.3) in
            let own_none : own s3 c changed ≡ [] = ground (arith, same) in
            (
              ap (λ l. all_del (f.0 ++ l))
                    (ap (λ l. l ++ later s3 c k' changed) own_none ∙ none_left)
                  ∙ ap all_del (append-nil f.0)
                  ∙ f.2,
              propagate_call-dirty s3 c k' changed ∙ r.2 ∙ behaves.same_dirty h s1 c ∙ b.2,
            ),
      )

  -- `call`, where the client's command is `k`.
  call-Effect :
      (s : Server D) (c : ℕ)
      → (s.clients c).cmd ≡ some k
      → (ext : List Feed) × Effect s ext (call run duration s c)
        × (k.readonly ≡ true → (all_del ext ≡ true) × ((call run duration s c).dirty ≡ s.dirty))
  unfolding call
  call-Effect s c e = rw (call, e) (call_command-Effect s c)
