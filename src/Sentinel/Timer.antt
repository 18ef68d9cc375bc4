-- ===== src/Sentinel/Timer.antt =====
-- redis-2.6.14/src/sentinel.c: what the timer does for a master after the monitoring half, the tilt mode,
-- and the switch to the promoted slave.
use galery.Prelude.{
  ℕ, ◌+◌, Option, none, some, List, [], ◌∷◌, Bool, true, false, not, ◌&&◌, ◌||◌, ltb, if◌then◌else◌,
}
use galery.Sentinel.{
  no_failover, Addr, Slave, Master, Env, set_slave, sentinel_tilt_trigger, sentinel_tilt_period,
  sentinel_default_slave_priority,
}
use galery.Sentinel.Down.{check_subjectively_down, check_slave_down, check_objectively_down}
use galery.Sentinel.Failover.{
  start_failover_if_needed, failover_state_machine, abort_failover_if_needed,
}

-- The tilt mode: the flag, when it began, and when the timer last ran.
pub record Tilt : Type 0 where
  pub tilt : Bool
  pub tilt_start_time : ℕ
  pub previous_time : ℕ

-- `sentinelCheckTiltCondition`
unfoldable pub check_tilt_condition : ℕ → Tilt → Tilt
check_tilt_condition now t =
    if ltb now t.previous_time || ltb (t.previous_time + sentinel_tilt_trigger) now
    then record t { tilt = true; tilt_start_time = now; previous_time = now }
    else record t { previous_time = now }

-- The test in `sentinelHandleRedisInstance`, which leaves the tilt mode when its period is over.
unfoldable pub leave_tilt : Env → Env
leave_tilt e =
    if e.tilt && not (ltb e.now (e.tilt_start_time + sentinel_tilt_period))
    then record e { tilt = false }
    else e

-- `sentinelHandleRedisInstance` after its monitoring half, for a master and for a slave.
unfoldable pub act_on_master : Env → Master → Option Master
act_on_master e m =
    let m1 = check_objectively_down e (check_subjectively_down e m) in
    elim (failover_state_machine e (start_failover_if_needed e m1)) [
      | none ↦ none
      | some m2 ↦ some (abort_failover_if_needed e m2)
    ]

unfoldable pub handle_master : Env → Master → Option Master
handle_master e m = let e1 = leave_tilt e in if e1.tilt then some m else act_on_master e1 m

unfoldable pub handle_slaves : Env → List ℕ → Master → Master
handle_slaves e [] m = m
handle_slaves e (i ∷ is) m =
    let e1 = leave_tilt e in handle_slaves e1 is (if e1.tilt then m else check_slave_down e1 m i)

-- `sentinelResetMaster`
unfoldable pub reset_master : Env → Master → Master
reset_master e m = record m {
  slaves = [];
  sentinels = [];
  s_down = false;
  o_down = false;
  failover_in_progress = false;
  i_am_the_leader = false;
  force_failover = false;
  failover_state = no_failover;
  failover_state_change_time = 0;
  failover_start_time = 0;
  promoted_slave = none;
  last_avail_time = e.now;
}

-- `sentinelResetMasterAndChangeAddress`, where `resolved` is what createSentinelAddr answers.
unfoldable pub reset_master_and_change_address : Env → Option Addr → Master → Master
reset_master_and_change_address e resolved m = elim resolved [
  | none ↦ m
  | some a ↦ record (reset_master e m) { addr = a; o_down_since_time = 0; s_down_since_time = 0 }
]

-- `createSentinelRedisInstance` for an old master.
abbrev pub old_master : Env → Master → Addr → Slave
old_master e m a = record {
  addr = a;
  runid = none;
  disconnected = true;
  s_down = false;
  o_down = false;
  promoted = false;
  reconf_sent = false;
  reconf_inprog = false;
  reconf_done = false;
  demote = true;
  pending_commands = 0;
  last_avail_time = e.now;
  s_down_since_time = 0;
  down_after_period = m.down_after_period;
  info_refresh = 0;
  master_link_down_time = 0;
  slave_priority = sentinel_default_slave_priority;
  slave_reconf_sent_time = 0;
  slave_master_host = none;
  slave_master_port = 0;
  master_link_up = false;
  failover_state_change_time = 0;
}

-- `sentinelFailoverSwitchToPromotedSlave`. `fresh` is the pointer to a new instance and `exists`
-- what dictFind answers for its name.
unfoldable pub switch_to_promoted : Env → (Addr → Option Addr) → ℕ → Bool → Master → Master
switch_to_promoted e resolve fresh exists m = elim m.promoted_slave [
  | none ↦ reset_master_and_change_address e (resolve m.addr) m
  | some p ↦
      let m1 = reset_master_and_change_address e (resolve (m.instances p).addr) m in
      elim (resolve m.addr) [
        | none ↦ m1
        | some a ↦
            if exists
            then m1
            else set_slave (record m1 { slaves = fresh ∷ m1.slaves }) fresh (old_master e m1 a)
      ]
]
