-- ===== src/Sentinel/Info.antt =====
-- redis-2.6.14/src/sentinel.c: what a Sentinel does about the role that a slave claims in its INFO
-- output, the acting half of `sentinelRefreshInstanceInfo`. none is a read through a NULL pointer.
use galery.Prelude.{
  ℕ, ◌+◌, ◌*◌, max, Option, none, some, Bool, true, false, not, ◌&&◌, ◌||◌, ltb, ◌==◌,
  if◌then◌else◌, same_bytes,
}
use galery.Sentinel.{
  FailoverState, no_failover, wait_start, select_slave, send_slaveof_noone, wait_promotion,
  reconf_slaves, wait_next_slave, alert_clients, wait_alert_script, detect_end, update_config,
  Slave, Master, Env, set_slave, send_slaveof, keep_if, each_slave, sentinel_info_period,
}
use galery.Sentinel.Failover.{abort_failover}

-- The numbers of the states.
unfoldable pub state_number : FailoverState → ℕ
state_number no_failover = 0
state_number wait_start = 1
state_number select_slave = 2
state_number send_slaveof_noone = 3
state_number wait_promotion = 4
state_number reconf_slaves = 5
state_number wait_next_slave = 6
state_number alert_clients = 7
state_number wait_alert_script = 8
state_number detect_end = 9
state_number update_config = 10

-- `sentinelRedisInstanceNoDownFor`
unfoldable pub no_down_for : Env → Master → ℕ → Bool
no_down_for e m ms =
    let most_recent = max m.s_down_since_time m.o_down_since_time in
    (most_recent == 0) || ltb (most_recent + ms) e.now

-- An old master returned back.
unfoldable pub demote_old_master : Env → Master → ℕ → Master
demote_old_master e m i =
    let wait_time = sentinel_info_period * 2 + m.down_after_period * 2 in
    if not (no_down_for e m wait_time) || ltb e.now (e.tilt_start_time + wait_time)
    then m
    else if not (m.s_down || m.o_down) && ltb e.now (m.info_refresh + sentinel_info_period * 2)
    then send_slaveof e m i (some m.addr)
    else set_slave m i (record (m.instances i) { demote = false })

-- `dictDelete` of a slave, whose release clears `promoted_slave` for a promoted one.
unfoldable pub delete_slave : Master → ℕ → Master
delete_slave m i = record m {
  slaves = keep_if (λ j. not (j == i)) m.slaves;
  promoted_slave = if (m.instances i).promoted then none else m.promoted_slave;
}

-- The promoted slave is a master now.
unfoldable pub promotion_done : Env → Master → Master
promotion_done e m =
    if m.failover_in_progress
      && m.i_am_the_leader
      && state_number m.failover_state == state_number wait_promotion
    then record m { failover_state = reconf_slaves; failover_state_change_time = e.now }
    else m

abbrev pub add_reconf_sent : Slave → Slave
add_reconf_sent x = record x { reconf_sent = true }

-- Another Sentinel promoted the slave.
unfoldable pub observe_failover : Env → Master → ℕ → Master
observe_failover e m i =
    let m1 = if m.failover_in_progress then abort_failover e m else m in
    let m2 = record m1 {
      failover_in_progress = true;
      failover_state = detect_end;
      failover_state_change_time = e.now;
      promoted_slave = some i;
    } in
    each_slave add_reconf_sent m1.slaves
      (set_slave m2 i (record (m1.instances i) { promoted = true; demote = false }))

-- The slave claims to be a master. `reboot` is `runid_changed || first_runid`.
unfoldable pub slave_turned_master : Env → Bool → Master → ℕ → Master
slave_turned_master e reboot m i =
    let x = m.instances i in
    if not e.tilt && x.demote
    then demote_old_master e m i
    else if not m.failover_in_progress && reboot
    then delete_slave m i
    else if not e.tilt && x.promoted
    then promotion_done e m
    else if not e.tilt
        && (not m.failover_in_progress
            || (m.failover_in_progress
                && m.i_am_the_leader
                && state_number m.failover_state == state_number wait_start))
    then observe_failover e m i
    else m

-- SRI_RECONF_SENT → SRI_RECONF_INPROG, of a slave with one of the two flags.
unfoldable pub reconf_sent_to_inprog : Master → Slave → Option Slave
reconf_sent_to_inprog m x = elim x.reconf_sent [
  | false ↦ some x
  | true ↦ elim x.slave_master_host [
    | none ↦ some x
    | some host ↦ elim m.promoted_slave [
      | none ↦ none
      | some p ↦
          let (ip, port) = (m.instances p).addr in
          if same_bytes host ip && x.slave_master_port == port
          then some (record x { reconf_sent = false; reconf_inprog = true })
          else some x
    ]
  ]
]

-- SRI_RECONF_INPROG → SRI_RECONF_DONE
unfoldable pub reconf_inprog_to_done : Env → Slave → Slave
reconf_inprog_to_done e x =
    if x.reconf_inprog && x.master_link_up
    then record x { reconf_inprog = false; reconf_done = true; failover_state_change_time = e.now }
    else x

abbrev pub clear_demote : Slave → Slave
clear_demote x = record x { demote = false }

-- The slave claims to be a slave.
unfoldable pub slave_is_slave : Env → Master → ℕ → Option Master
slave_is_slave e m i =
    let x = m.instances i in
    if e.tilt
    then some m
    else if x.reconf_sent || x.reconf_inprog
    then elim (reconf_sent_to_inprog m x) [
      | none ↦ none
      | some y ↦ some (set_slave m i (clear_demote (reconf_inprog_to_done e y)))
    ]
    else some (set_slave m i (clear_demote x))

unfoldable pub refresh_role : Env → Bool → Bool → Master → ℕ → Option Master
refresh_role e is_master reboot m i =
    if is_master then some (slave_turned_master e reboot m i) else slave_is_slave e m i
