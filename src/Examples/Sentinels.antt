-- ===== src/Examples/Sentinels.antt =====
-- redis-2.6.14/src/sentinel.c: runs of a Sentinel with two slaves.
mod Sorting
use galery.Prelude.{
  ℕ, ◌+◌, ◌≤◌, ◌<◌, max, ◌≡◌, refl, sym, ap, subst, ◌⊎◌, ◌↔◌, inl, inr, Option, none, some, List,
  [], ◌∷◌, Bool, true, false, arith,
}
use galery.Prelude.Int.{ℤ}
use galery.Sentinel.{
  FailoverState, no_failover, detect_end, update_config, Slave, Peer, Master, Env, set_slave,
  is_member, each_slave,
}
use galery.Sentinel.Leader.{get_objective_leader}
use galery.Sentinel.Leader.Votes.{IsElected, get_objective_leader-IsElected}
use galery.Sentinel.Select.{choose_slave}
use galery.Sentinel.Select.Best.{IsBest, choose_slave-IsBest}
use galery.Sentinel.Failover.{
  reconf_loop, count_in_progress, failover_state_machine, abort_failover,
}
use galery.Sentinel.Failover.Syncs.{Distinct, reconf_loop-in_progress}
use galery.Sentinel.Failover.Ends.{IsUnmarked, abort_failover-clears, failover_state_machine-ends}
use galery.Sentinel.Info.{observe_failover, slave_turned_master, refresh_role}
use galery.Sentinel.Timer.{handle_master, reset_master}
use galery.Sentinel.Invariant.{is_some, IsFailover, Returns, has_promoted}
use galery.Sentinel.Invariant.Reach.{
  Reach, begin, after, Step, discover, info, reach-IsFailover, reach-Returns, reach-promoted,
}
use galery.Examples.Sentinels.Sorting.{
  sort, compare_bytes, sort-IsSort, sort-IsLeastFirst, compare_bytes-IsOrder,
}

-- A slave that is up, at a port and with a priority.
abbrev up : ℕ → ℕ → Slave
up port priority = record {
  addr = (b'a' ∷ [], port);
  runid = some (b's' ∷ []);
  disconnected = false;
  s_down = false;
  o_down = false;
  promoted = false;
  reconf_sent = false;
  reconf_inprog = false;
  reconf_done = false;
  demote = false;
  pending_commands = 0;
  last_avail_time = 1000000;
  s_down_since_time = 0;
  down_after_period = 30000;
  info_refresh = 1000000;
  master_link_down_time = 0;
  slave_priority = priority;
  slave_reconf_sent_time = 0;
  slave_master_host = none;
  slave_master_port = 0;
  master_link_up = false;
  failover_state_change_time = 0;
}

abbrev voter : Peer
voter = record {
  runid = some (b'z' ∷ []);
  leader = some (b'b' ∷ []);
  disconnected = false;
  can_failover = true;
  master_down = true;
  last_avail_time = 1000000;
  last_master_down_reply_time = 1000000;
  pending_commands = 0;
}

-- A master that is objectively down, with two slaves and another Sentinel.
abbrev down_master : Master
down_master = record {
  addr = (b'a' ∷ [], 6379);
  can_failover = true;
  s_down = true;
  o_down = true;
  failover_in_progress = false;
  i_am_the_leader = false;
  force_failover = false;
  last_avail_time = 900000;
  s_down_since_time = 930000;
  o_down_since_time = 930000;
  down_after_period = 30000;
  info_refresh = 900000;
  sentinels = voter ∷ [];
  slaves = 1 ∷ 2 ∷ [];
  instances = λ i. up (6379 + i) (100 + i);
  quorum = 2;
  parallel_syncs = 1;
  failover_state = no_failover;
  failover_state_change_time = 0;
  failover_start_time = 0;
  failover_timeout = 900000;
  promoted_slave = none;
  sent = [];
}

abbrev at_time : ℕ → Env
at_time t = record {
  now = t;
  random = 7;
  server_runid = b'b' ∷ [];
  tilt = false;
  tilt_start_time = 0;
  sort_slaves = sort;
  sort_runids = λ cmp l. l;
  strcasecmp = compare_bytes;
  accepts = λ x. true;
}

abbrev env : Env
env = at_time 1000000

-- Two slaves are discovered, and the first claims to be a master.
abbrev one_slave : Master
one_slave = set_slave (record (reset_master env down_master) { slaves = 1 ∷ [] }) 1 (up 6380 101)

abbrev two_slaves : Master
two_slaves = set_slave (record one_slave { slaves = 2 ∷ one_slave.slaves }) 2 (up 6381 102)

abbrev observed : Master
observed = slave_turned_master env false two_slaves 1

two_slaves-Reach : Reach two_slaves
unfolding is_member reset_master set_slave
two_slaves-Reach =
    after one_slave two_slaves
      (after (reset_master env down_master) one_slave (begin env down_master)
        (discover (reset_master env down_master) 1 (up 6380 101) refl refl refl))
      (discover one_slave 2 (up 6381 102) refl refl refl)

observed-Reach : Reach observed
unfolding is_member reset_master set_slave refresh_role
observed-Reach =
    after two_slaves observed two_slaves-Reach (info env true false two_slaves observed 1 refl refl)

-- What the run leaves.
observed-state :
    (observed.failover_state ≡ detect_end)
    × (observed.promoted_slave ≡ some 1)
    × (observed.slaves ≡ 2 ∷ 1 ∷ [])
unfolding slave_turned_master observe_failover each_slave set_slave reset_master
observed-state = (refl, refl, refl)

observed-times :
    (observed.failover_state_change_time ≡ 1000000)
    × (observed.failover_timeout ≡ 900000)
    × ((observed.instances 1).s_down ≡ false)
    × ((observed.instances 1).promoted ≡ true)
unfolding slave_turned_master observe_failover each_slave set_slave reset_master
observed-times = (refl, refl, refl, refl)

observed-member : is_member 1 observed.slaves ≡ true
unfolding is_member
observed-member = ap (is_member 1) (observed-state.2)

observed-Distinct : Distinct observed.slaves
unfolding Distinct is_member
observed-Distinct = subst Distinct (sym observed-state.2) (refl, (refl, tt))

reach-IsFailover_example : IsFailover observed
reach-IsFailover_example = reach-IsFailover observed observed-Reach

reach-Returns_example :
    Returns IsFailover (handle_master env observed)
    × ((is_master reboot : Bool) (i : ℕ)
        → is_member i observed.slaves ≡ true
        → Returns IsFailover (refresh_role env is_master reboot observed i))
reach-Returns_example = reach-Returns env observed observed-Reach sort-IsSort

get_objective_leader-IsElected_example :
    (get_objective_leader env down_master ≡ some (b'b' ∷ []))
    ↔ IsElected (b'b' ∷ []) env down_master
get_objective_leader-IsElected_example = get_objective_leader-IsElected env down_master (b'b' ∷ [])

choose_slave-IsBest_example : IsBest env down_master (choose_slave env down_master)
choose_slave-IsBest_example =
    choose_slave-IsBest env down_master sort-IsSort sort-IsLeastFirst compare_bytes-IsOrder

reconf_loop-in_progress_example :
    (n : Master) × (reconf_loop env
        (count_in_progress observed observed.slaves)
        observed.slaves
        observed
      ≡ some n)
    × (count_in_progress n observed.slaves
        ≤ max (count_in_progress observed observed.slaves) observed.parallel_syncs)
reconf_loop-in_progress_example =
    reconf_loop-in_progress env observed (ap is_some observed-state.1) observed-Distinct

abort_failover-clears_example :
    ((abort_failover env observed).failover_in_progress ≡ false)
    × ((abort_failover env observed).i_am_the_leader ≡ false)
    × ((abort_failover env observed).failover_state ≡ no_failover)
    × ((abort_failover env observed).promoted_slave ≡ none)
    × ((i : ℕ)
        → is_member i observed.slaves ≡ true
        → IsUnmarked ((abort_failover env observed).instances i))
abort_failover-clears_example = abort_failover-clears env observed reach-IsFailover_example

failover_state_machine-ends_example :
    (n : Master) × (failover_state_machine (at_time 5000000) observed ≡ some n)
    × (n.failover_state ≡ update_config)
    × (n.promoted_slave ≡ some 1)
failover_state_machine-ends_example =
    failover_state_machine-ends (at_time 5000000) observed 1
      (reach-IsFailover observed observed-Reach) (inr observed-state.0) observed-state.1
      (omega (arith, observed-times.0, observed-times.1)) observed-times.2
