-- ===== src/Sentinel/Failover.antt =====
-- redis-2.6.14/src/sentinel.c: the start, the states and the end of a failover. none is a read through a
-- NULL pointer.
pub mod Syncs
pub mod Starts
pub mod Ends
use galery.Prelude.{
  ℕ, ◌+◌, ◌*◌, ◌/◌, ◌%◌, Option, none, some, List, [], ◌∷◌, Bool, true, false, not, ◌&&◌, ◌||◌, ltb,
  leb, ◌==◌, if◌then◌else◌,
}
use galery.Prelude.Int.{ℤ, pos, eqb_ℤ}
use galery.Sentinel.{
  FailoverState, no_failover, wait_start, select_slave, send_slaveof_noone, wait_promotion,
  reconf_slaves, detect_end, update_config, Addr, Slave, Master, Env, set_slave, send_slaveof,
  keep_if, each_slave, sentinel_promotion_retry_period, sentinel_slave_reconf_retry_period,
  sentinel_extended_sdown_multiplier, sentinel_failover_fixed_delay,
  sentinel_failover_max_random_delay,
}
use galery.Sentinel.Leader.{get_objective_leader}
use galery.Sentinel.Select.{choose_slave}

-- `sentinelStartFailover`
unfoldable pub start_failover : Env → FailoverState → Master → Master
start_failover e wait_start m = record m {
  failover_state = wait_start;
  failover_in_progress = true;
  i_am_the_leader = true;
  failover_start_time =
      e.now + sentinel_failover_fixed_delay + e.random % sentinel_failover_max_random_delay;
  failover_state_change_time = e.now;
}
start_failover e state m = record m {
  failover_state = state;
  failover_in_progress = true;
  i_am_the_leader = true;
  failover_state_change_time = e.now;
}

abbrev pub clear_reconf_sent : Slave → Slave
clear_reconf_sent x = record x { reconf_sent = false }

-- Whether the own run id is the elected one.
unfoldable pub is_leader : Env → Master → Bool
is_leader e m = elim (get_objective_leader e m) [
  | none ↦ false
  | some l ↦ eqb_ℤ (e.strcasecmp l e.server_runid) (pos 0)
]

-- `sentinelStartFailoverIfNeeded`
unfoldable pub start_failover_if_needed : Env → Master → Master
start_failover_if_needed e m =
    if not m.can_failover || not (m.o_down || m.failover_in_progress)
    then m
    else if not (is_leader e m)
    then m
    else if m.failover_in_progress
    then (if m.i_am_the_leader
        then m
        else if ltb e.now (m.failover_state_change_time + m.failover_timeout / 4)
        then m
        else each_slave clear_reconf_sent m.slaves (start_failover e reconf_slaves m))
    else elim (choose_slave e m) [ none ↦ m | some i ↦ start_failover e wait_start m ]

-- What SENTINEL FAILOVER replies: -INPROG, -NOGOODSLAVE or OK.
pub data FailoverReply : Type 0 where
  already_in_progress no_good_slave started : FailoverReply

-- The branch of `sentinelCommand` for it.
unfoldable pub failover_command : Env → Master → FailoverReply × Master
failover_command e m =
    if m.failover_in_progress then (already_in_progress, m) else elim (choose_slave e m) [
      | none ↦ (no_good_slave, m)
      | some i ↦ (started, record (start_failover e wait_start m) { force_failover = true })
    ]

abbrev pub clear_reconf : Slave → Slave
clear_reconf x = record x { reconf_sent = false; reconf_inprog = false; reconf_done = false }

-- The loop of `sentinelAbortFailover`.
unfoldable pub undo_slaves : Env → List ℕ → Master → Master
undo_slaves e [] m = m
undo_slaves e (i ∷ is) m =
    let x = m.instances i in
    let m1 =
      if m.i_am_the_leader
        && not x.disconnected
        && (x.promoted || x.reconf_sent || x.reconf_inprog || x.reconf_done)
      then send_slaveof e m i (some m.addr)
      else m in
    undo_slaves e is (set_slave m1 i (clear_reconf (m1.instances i)))

-- `ri->promoted_slave->flags &= ~SRI_PROMOTED; ri->promoted_slave = NULL` where it is not NULL.
unfoldable pub forget_promoted : Master → Master
forget_promoted m = elim m.promoted_slave [
  | none ↦ m
  | some p ↦ record (set_slave m p (record (m.instances p) { promoted = false })) {
    promoted_slave = none;
  }
]

-- `sentinelAbortFailover`, where a failover is in progress (the assertion is left out).
unfoldable pub abort_failover : Env → Master → Master
abort_failover e m = forget_promoted (record (undo_slaves e m.slaves m) {
  failover_in_progress = false;
  i_am_the_leader = false;
  force_failover = false;
  failover_state = no_failover;
  failover_state_change_time = e.now;
})

-- `sentinelAbortFailoverIfNeeded`
unfoldable pub abort_failover_if_needed : Env → Master → Master
abort_failover_if_needed e m = elim m.promoted_slave [
  | none ↦ m
  | some p ↦
      let x = m.instances p in
      if not m.failover_in_progress
      then m
      else if not x.s_down
          || ltb e.now
              (x.s_down_since_time + m.down_after_period * sentinel_extended_sdown_multiplier)
      then m
      else abort_failover e m
]

-- `sentinelFailoverWaitStart`
unfoldable pub failover_wait_start : Env → Master → Master
failover_wait_start e m =
    if not (m.s_down || m.o_down || m.force_failover)
    then abort_failover e m
    else if leb m.failover_start_time e.now
    then record m { failover_state = select_slave; failover_state_change_time = e.now }
    else m

-- `sentinelFailoverSelectSlave`
unfoldable pub failover_select_slave : Env → Master → Master
failover_select_slave e m = elim (choose_slave e m) [
  | none ↦ abort_failover e m
  | some i ↦ record (set_slave m i (record (m.instances i) { promoted = true })) {
    promoted_slave = some i;
    failover_state = send_slaveof_noone;
    failover_state_change_time = e.now;
  }
]

-- `sentinelFailoverSendSlaveOfNoOne`
unfoldable pub failover_send_slaveof_noone : Env → Master → Option Master
failover_send_slaveof_noone e m = elim m.promoted_slave [
  | none ↦ none
  | some p ↦
      let x = m.instances p in
      let m1 = send_slaveof e m p none in
      if x.disconnected || not (e.accepts x)
      then some m
      else some (record (set_slave m1 p (record x { pending_commands = x.pending_commands + 1 })) {
        failover_state = wait_promotion;
        failover_state_change_time = e.now;
      })
]

-- `sentinelFailoverWaitPromotion`
unfoldable pub failover_wait_promotion : Env → Master → Option Master
failover_wait_promotion e m =
    if leb (m.failover_state_change_time + sentinel_promotion_retry_period) e.now
    then elim m.promoted_slave [
      | none ↦ none
      | some p ↦ some (
          forget_promoted
            (record m { failover_state = select_slave; failover_state_change_time = e.now }))
    ]
    else some m

-- What `sentinelFailoverDetectEnd` counts.
unfoldable pub not_reconfigured : Master → ℕ → Bool
not_reconfigured m i = let x = m.instances i in not (x.promoted || x.reconf_done) && not x.s_down

-- Its loop at a timeout.
unfoldable pub reconf_best_effort : Env → Addr → List ℕ → Master → Master
reconf_best_effort e target [] m = m
reconf_best_effort e target (i ∷ is) m =
    let x = m.instances i in
    let m1 =
      if x.reconf_done || x.reconf_sent || x.disconnected || not (e.accepts x)
      then m
      else set_slave (send_slaveof e m i (some target)) i (record x { reconf_sent = true }) in
    reconf_best_effort e target is m1

-- `sentinelFailoverDetectEnd`
unfoldable pub failover_detect_end : Env → Master → Master
failover_detect_end e m = elim m.promoted_slave [
  | none ↦ m
  | some p ↦
      let timeout = ltb (m.failover_state_change_time + m.failover_timeout) e.now in
      let finished =
        timeout || elim (keep_if (not_reconfigured m) m.slaves) [ [] ↦ true | i ∷ is ↦ false ] in
      let m1 =
        if finished
        then record m { failover_state = update_config; failover_state_change_time = e.now }
        else m in
      if (m.instances p).s_down
      then m
      else if timeout && m.i_am_the_leader
      then reconf_best_effort e (m.instances p).addr m.slaves m1
      else m1
]

-- One round of the loop of `sentinelFailoverReconfNextSlave`, and whether it sent SLAVEOF.
unfoldable pub reconf_one : Env → Master → ℕ → Option (Bool × Master)
reconf_one e m i =
    let x = m.instances i in
    let late =
      x.reconf_sent && ltb (x.slave_reconf_sent_time + sentinel_slave_reconf_retry_period) e.now in
    let x1 = if late then record x { reconf_sent = false } else x in
    let m1 = set_slave m i x1 in
    if x.promoted || x.reconf_done
    then some (false, m)
    else if x1.disconnected || x1.reconf_sent || x1.reconf_inprog
    then some (false, m1)
    else elim m.promoted_slave [
      | none ↦ none
      | some p ↦
          if e.accepts x1
          then some (
            true,
            set_slave (send_slaveof e m1 i (some (m1.instances p).addr)) i (record x1 {
              reconf_sent = true;
              pending_commands = x1.pending_commands + 1;
              slave_reconf_sent_time = e.now;
            }),
          )
          else some (false, m1)
    ]

unfoldable pub reconf_loop : Env → ℕ → List ℕ → Master → Option Master
reconf_loop e in_progress [] m = some m
reconf_loop e in_progress (i ∷ is) m = elim (ltb in_progress m.parallel_syncs) [
  | false ↦ some m
  | true ↦ elim (reconf_one e m i) [
    | none ↦ none
    | some r ↦ reconf_loop e (in_progress + (if r.0 then 1 else 0)) is r.1
  ]
]

-- How many slaves are being reconfigured.
unfoldable pub count_in_progress : Master → List ℕ → ℕ
count_in_progress m [] = 0
count_in_progress m (i ∷ is) =
    (if (m.instances i).reconf_sent || (m.instances i).reconf_inprog then 1 else 0)
    + count_in_progress m is

-- `sentinelFailoverReconfNextSlave`
unfoldable pub failover_reconf_next_slave : Env → Master → Option Master
failover_reconf_next_slave e m = elim (reconf_loop e (count_in_progress m m.slaves) m.slaves m) [
  | none ↦ none
  | some m1 ↦ some (failover_detect_end e m1)
]

-- `sentinelFailoverStateMachine`
unfoldable pub dispatch_state : Env → FailoverState → Master → Option Master
dispatch_state e wait_start m = some (failover_wait_start e m)
dispatch_state e select_slave m = some (failover_select_slave e m)
dispatch_state e send_slaveof_noone m = failover_send_slaveof_noone e m
dispatch_state e wait_promotion m = failover_wait_promotion e m
dispatch_state e reconf_slaves m = failover_reconf_next_slave e m
dispatch_state e detect_end m = some (failover_detect_end e m)
dispatch_state e _ m = some m

unfoldable pub failover_state_machine : Env → Master → Option Master
failover_state_machine e m =
    if not m.failover_in_progress then some m else dispatch_state e m.failover_state m
