-- ===== src/Sentinel/Invariant/Steps.antt =====
-- redis-2.6.14/src/sentinel.c: the timer and the INFO replies keep the state of a failover consistent.
use galery.Prelude.{
  ℕ, ◌≡◌, refl, ap, Option, none, some, List, [], ◌∷◌, Bool, false, not, if◌then◌else◌, arith,
}
use galery.Sentinel.{
  FailoverState, no_failover, wait_start, select_slave, send_slaveof_noone, wait_promotion,
  reconf_slaves, wait_next_slave, alert_clients, wait_alert_script, detect_end, update_config, Addr,
  Slave, Master, Env, set_slave, is_member,
}
use galery.Sentinel.Down.{check_subjectively_down, check_objectively_down}
use galery.Sentinel.Failover.{
  start_failover_if_needed, dispatch_state, failover_state_machine, abort_failover_if_needed,
}
use galery.Sentinel.Timer.{
  leave_tilt, act_on_master, handle_master, handle_slaves, reset_master,
  reset_master_and_change_address, old_master, switch_to_promoted,
}
use galery.Sentinel.Invariant.{
  is_busy, is_late, has_promoted, points_to, is_reconf, IsFailover, Returns, on_if, on_option,
  Returns-some, Returns-if,
}
use galery.Sentinel.Invariant.Abort.{
  failover_wait_promotion-Returns, abort_failover_if_needed-IsFailover,
}
use galery.Sentinel.Invariant.Start.{
  IsSort, check_subjectively_down-IsFailover, check_objectively_down-IsFailover,
  check_slave_down-IsFailover, failover_wait_start-IsFailover, failover_select_slave-IsFailover,
  failover_send_slaveof_noone-Returns,
}
use galery.Sentinel.Invariant.Begin.{start_failover_if_needed-IsFailover}
use galery.Sentinel.Invariant.Reconf.{
  failover_detect_end-IsFailover, failover_reconf_next_slave-Returns,
}

dispatch_state-Returns :
    (e : Env) (s : FailoverState) (m : Master)
    → IsSort e.sort_slaves
    → IsFailover m
    → m.failover_state ≡ s
    → Returns IsFailover (dispatch_state e s m)
unfolding dispatch_state is_late
dispatch_state-Returns e wait_start m q h w =
    Returns-some _ (failover_wait_start-IsFailover e m h w)
dispatch_state-Returns e select_slave m q h w =
    Returns-some _ (failover_select_slave-IsFailover e m q h w)
dispatch_state-Returns e send_slaveof_noone m q h w = failover_send_slaveof_noone-Returns e m h w
dispatch_state-Returns e wait_promotion m q h w = failover_wait_promotion-Returns e m h w
dispatch_state-Returns e reconf_slaves m q h w =
    failover_reconf_next_slave-Returns e m (ap is_late w) h
dispatch_state-Returns e detect_end m q h w =
    Returns-some _ (failover_detect_end-IsFailover e m (ap is_late w) h)
dispatch_state-Returns e no_failover m q h w = Returns-some m h
dispatch_state-Returns e wait_next_slave m q h w = Returns-some m h
dispatch_state-Returns e alert_clients m q h w = Returns-some m h
dispatch_state-Returns e wait_alert_script m q h w = Returns-some m h
dispatch_state-Returns e update_config m q h w = Returns-some m h

-- The state machine of a consistent master reads no NULL pointer and leaves it consistent, where the sort
-- keeps the elements.
pub failover_state_machine-IsFailover :
    (e : Env) (m : Master)
    → IsSort e.sort_slaves
    → IsFailover m
    → Returns IsFailover (failover_state_machine e m)
unfolding failover_state_machine
failover_state_machine-IsFailover e m q h =
    Returns-if (not m.failover_in_progress) (λ b. Returns-some m h)
      (λ b. dispatch_state-Returns e m.failover_state m q h refl)

pub act_on_master-IsFailover :
    (e : Env) (m : Master)
    → IsSort e.sort_slaves
    → IsFailover m
    → Returns IsFailover (act_on_master e m)
unfolding act_on_master
act_on_master-IsFailover e m q h =
    let m1 = check_objectively_down e (check_subjectively_down e m) in
    let (n, r, k) = failover_state_machine-IsFailover e (start_failover_if_needed e m1) q (
      start_failover_if_needed-IsFailover e m1
        (check_objectively_down-IsFailover e _ (check_subjectively_down-IsFailover e m h))) in
    (
      abort_failover_if_needed e n,
      rw (act_on_master, r) refl,
      abort_failover_if_needed-IsFailover e n k,
    )

leave_tilt-IsSort : (e : Env) → IsSort e.sort_slaves → IsSort (leave_tilt e).sort_slaves
unfolding leave_tilt
leave_tilt-IsSort e q = ground arith

pub handle_master-IsFailover :
    (e : Env) (m : Master)
    → IsSort e.sort_slaves
    → IsFailover m
    → Returns IsFailover (handle_master e m)
unfolding handle_master
handle_master-IsFailover e m q h =
    Returns-if (leave_tilt e).tilt (λ t. Returns-some m h)
      (λ t. act_on_master-IsFailover (leave_tilt e) m (leave_tilt-IsSort e q) h)

pub handle_slaves-IsFailover :
    (e : Env) (is : List ℕ) (m : Master) → IsFailover m → IsFailover (handle_slaves e is m)
unfolding handle_slaves
handle_slaves-IsFailover e [] m h = h
handle_slaves-IsFailover e (i ∷ is) m h =
    handle_slaves-IsFailover (leave_tilt e) is _ (
      on_if (leave_tilt e).tilt m _ (λ t. h)
        (λ t. check_slave_down-IsFailover (leave_tilt e) m i h))

pub reset_master-IsFailover : (e : Env) (m : Master) → IsFailover (reset_master e m)
unfolding reset_master IsFailover is_busy is_late has_promoted is_member
reset_master-IsFailover e m = record {
  in_progress = refl;
  observer = λ l. refl;
  pointer = refl;
  flag = λ i h. absurd (cc);
  member = λ i h. absurd (cc);
  reconf = λ i h l. absurd (cc);
}

pub change_address-IsFailover :
    (e : Env) (a : Option Addr) (m : Master)
    → IsFailover m
    → IsFailover (reset_master_and_change_address e a m)
unfolding reset_master_and_change_address IsFailover
change_address-IsFailover e none m h = h
change_address-IsFailover e (some a) m h = reset_master-IsFailover e m

-- A new slave in the dict, with none of the flags of a failover.
pub add_slave-IsFailover :
    (m : Master) (i : ℕ) (x : Slave)
    → IsFailover m
    → is_member i m.slaves ≡ false
    → x.promoted ≡ false
    → is_reconf x ≡ false
    → IsFailover (set_slave (record m { slaves = i ∷ m.slaves }) i x)
unfolding set_slave IsFailover is_member
add_slave-IsFailover m i x h f p r =
    let no : points_to m.promoted_slave i ≡ false = ground (arith, h.member i, f) in
    record {
      in_progress = h.in_progress;
      observer = h.observer;
      pointer = h.pointer;
      flag = λ j k. ground (arith, h.flag j, no, p);
      member = λ j k. ground (arith, h.member j k);
      reconf = λ j k l. ground (arith, h.reconf j, l, r);
    }

fresh-change_address :
    (e : Env) (a : Option Addr) (m : Master) (i : ℕ)
    → is_member i m.slaves ≡ false
    → is_member i (reset_master_and_change_address e a m).slaves ≡ false
unfolding reset_master_and_change_address reset_master is_member
fresh-change_address e none m i h = h
fresh-change_address e (some a) m i h = refl

pub switch_to_promoted-IsFailover :
    (e : Env) (resolve : Addr → Option Addr) (fresh : ℕ) (exists : Bool) (m : Master)
    → IsFailover m
    → is_member fresh m.slaves ≡ false
    → IsFailover (switch_to_promoted e resolve fresh exists m)
unfolding switch_to_promoted
switch_to_promoted-IsFailover e resolve fresh exists m h f =
    on_option m.promoted_slave _ _ (λ o. change_address-IsFailover e (resolve m.addr) m h)
      (λ p o.
        let a = resolve (m.instances p).addr in
        let m1 = reset_master_and_change_address e a m in
        let h1 = change_address-IsFailover e a m h in
        elim (resolve m.addr)
          as (λ r. IsFailover (elim r [
            | none ↦ m1
            | some b ↦
                if exists
                then m1
                else set_slave (record m1 { slaves = fresh ∷ m1.slaves }) fresh (old_master e m1 b)
          ])) [
            | none ↦ h1
            | some b ↦
                on_if exists m1 _ (λ t. h1)
                  (λ t.
                    add_slave-IsFailover m1 fresh (old_master e m1 b) h1
                      (fresh-change_address e a m fresh f) refl refl)
          ])
