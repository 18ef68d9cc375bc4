-- ===== src/Sentinel/Failover/Starts.antt =====
-- redis-2.6.14/src/sentinel.c: when a Sentinel begins a failover or takes one over.
use galery.Prelude.{ℕ, ◌+◌, ◌/◌, ◌≤◌, ◌<◌, ◌≡◌, List, true, false, not, ◌||◌, if◌then◌else◌}
use galery.Prelude.Int.{pos, eqb_ℤ}
use galery.Sentinel.{FailoverState, wait_start, reconf_slaves, Master, Env, is_member}
use galery.Sentinel.Leader.Votes.{IsElected}
use galery.Sentinel.Select.{is_suitable}

-- The run id that the other Sentinels elected is the own one.
unfoldable pub IsLeader : Env → Master → Type 0
IsLeader e m =
    (l : List ℕ) × IsElected l e m × (eqb_ℤ (e.strcasecmp l e.server_runid) (pos 0) ≡ true)

-- A failover of which this Sentinel is in charge, just put in the state `state`, with the slaves,
-- the pointer and the commands sent unchanged.
pub record Led (e : Env) (state : FailoverState) (m n : Master) : Type 0 where
  pub failover_state : n.failover_state ≡ state
  pub in_progress : n.failover_in_progress ≡ true
  pub leader : n.i_am_the_leader ≡ true
  pub change_time : n.failover_state_change_time ≡ e.now
  pub slaves : n.slaves ≡ m.slaves
  pub promoted_slave : n.promoted_slave ≡ m.promoted_slave
  pub sent : n.sent ≡ m.sent

-- What the call may do, and when: nothing, a new failover, or the failover of a Sentinel that lags.
pub data Start (e : Env) (m : Master) : Master → Type 0 where
  not_asked : not m.can_failover || not (m.o_down || m.failover_in_progress) ≡ true → Start e m m
  not_the_leader : ¬ IsLeader e m → Start e m m
  in_charge : m.failover_in_progress ≡ true → m.i_am_the_leader ≡ true → Start e m m
  too_early :
      m.failover_in_progress ≡ true
      → e.now < m.failover_state_change_time + m.failover_timeout / 4
      → Start e m m
  no_slave :
      m.failover_in_progress ≡ false
      → ((i : ℕ) → is_member i m.slaves ≡ true → is_suitable e m i ≡ false)
      → Start e m m
  begins :
      (n : Master) (i : ℕ)
      → m.can_failover ≡ true
      → IsLeader e m
      → m.failover_in_progress ≡ false
      → m.o_down ≡ true
      → is_member i m.slaves ≡ true
      → is_suitable e m i ≡ true
      → Led e wait_start m n
      → e.now + 5000 ≤ n.failover_start_time
      → n.failover_start_time < e.now + 15000
      → ((j : ℕ) → n.instances j ≡ m.instances j)
      → Start e m n
  takes_over :
      (n : Master)
      → m.can_failover ≡ true
      → IsLeader e m
      → m.failover_in_progress ≡ true
      → m.i_am_the_leader ≡ false
      → m.failover_state_change_time + m.failover_timeout / 4 ≤ e.now
      → Led e reconf_slaves m n
      → n.failover_start_time ≡ m.failover_start_time
      → ((j : ℕ)
          → n.instances j ≡ (
              if is_member j m.slaves
              then record (m.instances j) { reconf_sent = false }
              else m.instances j))
      → Start e m n

-- Clearing the flag of all slaves in a list touches nothing else.
record Cleared (is : List ℕ) (m n : Master) : Type 0 where
  failover_state : n.failover_state ≡ m.failover_state
  in_progress : n.failover_in_progress ≡ m.failover_in_progress
  leader : n.i_am_the_leader ≡ m.i_am_the_leader
  change_time : n.failover_state_change_time ≡ m.failover_state_change_time
  start_time : n.failover_start_time ≡ m.failover_start_time
  slaves : n.slaves ≡ m.slaves
  promoted_slave : n.promoted_slave ≡ m.promoted_slave
  sent : n.sent ≡ m.sent
  instances :
      (j : ℕ)
      → n.instances j
        ≡ (if is_member j is then record (m.instances j) { reconf_sent = false } else m.instances j)
