-- ===== src/Sentinel/Invariant/Roles.antt =====
-- redis-2.6.14/src/sentinel.c: a slave that claims to be a master keeps the state of a failover consistent.
use galery.Prelude.{
  ℕ, ◌+◌, ◌*◌, ltb, ◌≡◌, refl, sym, ap, ◌∙◌, Option, none, some, List, [], ◌∷◌, Bool, true, false,
  not, ◌&&◌, ◌||◌, ◌==◌, if◌then◌else◌, arith,
}
use galery.Sentinel.{
  FailoverState, wait_start, wait_promotion, detect_end, Master, Env, set_slave, is_member, keep_if,
  sentinel_info_period,
}
use galery.Sentinel.Failover.{forget_promoted, abort_failover}
use galery.Sentinel.Info.{
  state_number, no_down_for, demote_old_master, delete_slave, promotion_done, add_reconf_sent,
  observe_failover, slave_turned_master,
}
use galery.Sentinel.Invariant.{
  is_busy, is_late, has_promoted, points_to, is_some, IsFailover, on_if, set_slave-IsFailover,
  send_slaveof-IsFailover, points_to-empty,
}
use galery.Sentinel.Invariant.Abort.{undo_slaves-Keeps, points_to-none, abort_failover-IsFailover}
use galery.Sentinel.Invariant.Begin.{idle_state, each_slave-IsFailover}

demote_old_master-IsFailover :
    (e : Env) (m : Master) (i : ℕ) → IsFailover m → IsFailover (demote_old_master e m i)
unfolding demote_old_master
demote_old_master-IsFailover e m i h =
    let wait_time = sentinel_info_period * 2 + m.down_after_period * 2 in
    on_if (not (no_down_for e m wait_time) || ltb e.now (e.tilt_start_time + wait_time)) m _
      (λ t. h)
      (λ t.
        on_if (not (m.s_down || m.o_down) && ltb e.now (m.info_refresh + sentinel_info_period * 2))
          _ _ (λ t. send_slaveof-IsFailover e m i (some m.addr) h)
          (λ t.
            set_slave-IsFailover m i (record (m.instances i) { demote = false }) h refl (λ l r. r)))

is_member-delete :
    (l : List ℕ) (i j : ℕ)
    → is_member j (keep_if (λ k. not (k == i)) l) ≡ true
    → is_member j l ≡ true
unfolding is_member keep_if
is_member-delete [] i j h = h
is_member-delete (k ∷ ks) i j h = ground (arith, is_member-delete ks i j)

is_none : (o : Option ℕ) → is_some o ≡ false → o ≡ none
is_none none h = refl
is_none (some p) h = absurd (cc)

delete_slave-IsFailover :
    (m : Master) (i : ℕ)
    → IsFailover m
    → m.failover_in_progress ≡ false
    → IsFailover (delete_slave m i)
unfolding delete_slave IsFailover
delete_slave-IsFailover m i h b =
    let (l, n) = idle_state m.failover_state (sym h.in_progress ∙ b) in
    let o : m.promoted_slave ≡ none = is_none m.promoted_slave (h.pointer ∙ n) in
    let c : (if (m.instances i).promoted then none else m.promoted_slave) ≡ none =
      ground (arith, o) in
    record {
      in_progress = h.in_progress;
      observer = h.observer;
      pointer = ap is_some c ∙ sym n;
      flag =
          λ j k. h.flag j (is_member-delete m.slaves i j k) ∙ ap (λ p. points_to p j) (o ∙ sym c);
      member = λ j k. absurd (points_to-none j (ap (λ p. points_to p j) (sym c) ∙ k));
      reconf = λ j k f. h.reconf j (is_member-delete m.slaves i j k) f;
    }

is_waiting :
    (s : FailoverState)
    → (state_number s == state_number wait_promotion) ≡ true
    → s ≡ wait_promotion
unfolding state_number
is_waiting s h = ground arith

promotion_done-IsFailover : (e : Env) (m : Master) → IsFailover m → IsFailover (promotion_done e m)
unfolding promotion_done IsFailover is_busy has_promoted is_late
promotion_done-IsFailover e m h =
    on_if
      (m.failover_in_progress
        && m.i_am_the_leader
        && state_number m.failover_state == state_number wait_promotion)
      _ m
      (λ t.
        let w = is_waiting m.failover_state (ground (arith, t)) in
        let l : m.i_am_the_leader ≡ true = ground (arith, t) in
        record {
          in_progress = h.in_progress ∙ ap is_busy w;
          observer = λ k. absurd (cc);
          pointer = h.pointer ∙ ap has_promoted w;
          flag = h.flag;
          member = h.member;
          reconf = λ j k f. absurd (cc);
        })
      (λ t. h)

-- The observer's view of a failover that another Sentinel began, from a master with no failover.
observed-IsFailover :
    (e : Env) (m : Master) (i : ℕ)
    → IsFailover m
    → m.failover_in_progress ≡ false
    → is_member i m.slaves ≡ true
    → IsFailover (
        set_slave
          (record m {
            failover_in_progress = true;
            failover_state = detect_end;
            failover_state_change_time = e.now;
            promoted_slave = some i;
          })
          i
          (record (m.instances i) { promoted = true; demote = false }))
unfolding set_slave IsFailover is_busy has_promoted is_late
observed-IsFailover e m i h b k =
    let (l, n) = idle_state m.failover_state (sym h.in_progress ∙ b) in
    record {
      in_progress = refl;
      observer = λ f. refl;
      pointer = refl;
      flag = λ j r. ground (arith, h.flag j r, points_to-empty m.promoted_slave j (h.pointer ∙ n));
      member = λ j r. ground (arith, k);
      reconf = λ j r f. absurd (cc);
    }

abort-idle : (e : Env) (m : Master) → (abort_failover e m).failover_in_progress ≡ false
unfolding abort_failover forget_promoted set_slave
abort-idle e m = ground arith

abort-slaves : (e : Env) (m : Master) → (abort_failover e m).slaves ≡ m.slaves
unfolding abort_failover forget_promoted set_slave
abort-slaves e m = ground (arith, (undo_slaves-Keeps e m.slaves m).slaves)

observe_failover-IsFailover :
    (e : Env) (m : Master) (i : ℕ)
    → IsFailover m
    → is_member i m.slaves ≡ true
    → IsFailover (observe_failover e m i)
unfolding observe_failover is_late set_slave
observe_failover-IsFailover e m i h k =
    let m1 = if m.failover_in_progress then abort_failover e m else m in
    let h1 : IsFailover m1 =
      on_if m.failover_in_progress _ m (λ t. abort_failover-IsFailover e m h) (λ t. h) in
    let idle : m1.failover_in_progress ≡ false = ground (arith, abort-idle e m) in
    let same : m1.slaves ≡ m.slaves = ground (arith, abort-slaves e m) in
    each_slave-IsFailover add_reconf_sent (λ x. refl) m1.slaves
      (set_slave _ i (record (m1.instances i) { promoted = true; demote = false })) refl
      (observed-IsFailover e m1 i h1 idle (ap (is_member i) same ∙ k))

pub slave_turned_master-IsFailover :
    (e : Env) (reboot : Bool) (m : Master) (i : ℕ)
    → IsFailover m
    → is_member i m.slaves ≡ true
    → IsFailover (slave_turned_master e reboot m i)
unfolding slave_turned_master
slave_turned_master-IsFailover e reboot m i h k =
    let x = m.instances i in
    on_if (not e.tilt && x.demote) _ _ (λ t. demote_old_master-IsFailover e m i h)
      (λ t.
        on_if (not m.failover_in_progress && reboot) _ _
          (λ b. delete_slave-IsFailover m i h (ground (arith, b)))
          (λ b.
            on_if (not e.tilt && x.promoted) _ _ (λ p. promotion_done-IsFailover e m h)
              (λ p.
                on_if
                  (not e.tilt
                    && (not m.failover_in_progress
                        || (m.failover_in_progress
                            && m.i_am_the_leader
                            && state_number m.failover_state == state_number wait_start)))
                  _ m (λ o. observe_failover-IsFailover e m i h k) (λ o. h))))
