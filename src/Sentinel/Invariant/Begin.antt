-- ===== src/Sentinel/Invariant/Begin.antt =====
-- redis-2.6.14/src/sentinel.c: the begin of a failover, by the timer or by SENTINEL FAILOVER, keeps
-- its state consistent.
use galery.Prelude.{
  ℕ, ◌+◌, ◌/◌, ltb, ◌≡◌, refl, sym, ◌∙◌, if◌then◌else◌, refl, sym, ◌∙◌, Option, none, some, List,
  [], ◌∷◌, Bool, true, false, not, ◌||◌, arith,
}
use galery.Sentinel.{FailoverState, wait_start, reconf_slaves, Slave, Master, Env, each_slave}
use galery.Sentinel.Select.{choose_slave}
use galery.Sentinel.Failover.{
  FailoverReply, failover_command, start_failover, clear_reconf_sent, is_leader,
  start_failover_if_needed,
}
use galery.Sentinel.Invariant.{
  is_busy, is_late, has_promoted, late_promoted, IsFailover, Keeps, Keeps-refl, Keeps-trans,
  set_slave-Keeps, keep-IsFailover, on_if, on_option,
}

pub each_slave-Keeps :
    (f : Slave → Slave)
    → ((x : Slave) → (f x).promoted ≡ x.promoted)
    → (is : List ℕ) (m : Master) → Keeps m (each_slave f is m)
unfolding each_slave
each_slave-Keeps f p [] m = Keeps-refl m
each_slave-Keeps f p (i ∷ is) m =
    Keeps-trans (set_slave-Keeps m i (f (m.instances i)) (p _)) (each_slave-Keeps f p is _)

-- A change of the flags in a late state.
pub each_slave-IsFailover :
    (f : Slave → Slave)
    → ((x : Slave) → (f x).promoted ≡ x.promoted)
    → (is : List ℕ) (m : Master) → is_late m.failover_state ≡ true
    → IsFailover m
    → IsFailover (each_slave f is m)
each_slave-IsFailover f p is m l h =
    keep-IsFailover m (each_slave f is m) h (each_slave-Keeps f p is m) (λ j k n. absurd (cc))

pub idle_state :
    (s : FailoverState) → is_busy s ≡ false → (is_late s ≡ false) × (has_promoted s ≡ false)
unfolding has_promoted is_late is_busy
idle_state s h = ground arith

takedown-IsFailover :
    (e : Env) (m : Master)
    → IsFailover m
    → m.failover_in_progress ≡ true
    → m.i_am_the_leader ≡ false
    → IsFailover (start_failover e reconf_slaves m)
unfolding start_failover IsFailover is_busy is_late has_promoted
takedown-IsFailover e m h b l = record {
  in_progress = refl;
  observer = λ k. absurd (cc);
  pointer = h.pointer ∙ late_promoted m.failover_state (sym (h.observer l) ∙ sym h.in_progress ∙ b);
  flag = h.flag;
  member = h.member;
  reconf = λ i r k. absurd (cc);
}

pub fresh-IsFailover :
    (e : Env) (m : Master)
    → IsFailover m
    → m.failover_in_progress ≡ false
    → IsFailover (start_failover e wait_start m)
unfolding start_failover IsFailover is_busy is_late has_promoted
fresh-IsFailover e m h b =
    let (l, p) = idle_state m.failover_state (sym h.in_progress ∙ b) in
    record {
      in_progress = refl;
      observer = λ k. absurd (cc);
      pointer = h.pointer ∙ p;
      flag = h.flag;
      member = h.member;
      reconf = λ i r k. h.reconf i r l;
    }

pub start_failover_if_needed-IsFailover :
    (e : Env) (m : Master) → IsFailover m → IsFailover (start_failover_if_needed e m)
unfolding start_failover_if_needed is_late start_failover
start_failover_if_needed-IsFailover e m h =
    on_if (not m.can_failover || not (m.o_down || m.failover_in_progress)) m _ (λ t. h)
      (λ t.
        on_if (not (is_leader e m)) m _ (λ t. h)
          (λ t.
            on_if m.failover_in_progress _ _
              (λ b.
                on_if m.i_am_the_leader m _ (λ t. h)
                  (λ l.
                    on_if (ltb e.now (m.failover_state_change_time + m.failover_timeout / 4)) m _
                      (λ t. h)
                      (λ t.
                        each_slave-IsFailover clear_reconf_sent (λ x. refl) m.slaves
                          (start_failover e reconf_slaves m) refl (takedown-IsFailover e m h b l))))
              (λ b. on_option (choose_slave e m) m _ (λ o. h) (λ i o. fresh-IsFailover e m h b))))

forced :
    (e : Env) (m : Master)
    → IsFailover m
    → m.failover_in_progress ≡ false
    → IsFailover (record (start_failover e wait_start m) { force_failover = true })
unfolding IsFailover
forced e m h b = fresh-IsFailover e m h b

reply_if :
    (b : Bool) (r s : FailoverReply × Master)
    → (b ≡ true → IsFailover r.1)
    → (b ≡ false → IsFailover s.1)
    → IsFailover (if b then r else s).1
reply_if true r s h k = h refl
reply_if false r s h k = k refl

reply_option :
    (o : Option ℕ) (r s : FailoverReply × Master)
    → IsFailover r.1
    → IsFailover s.1
    → IsFailover (elim o as (λ x. FailoverReply × Master) [ none ↦ r | some i ↦ s ]).1
reply_option none r s h k = h
reply_option (some i) r s h k = k

pub failover_command-IsFailover :
    (e : Env) (m : Master) → IsFailover m → IsFailover (failover_command e m).1
unfolding failover_command
failover_command-IsFailover e m h =
    reply_if m.failover_in_progress _ _ (λ b. h)
      (λ b. reply_option (choose_slave e m) _ _ h (forced e m h b))
