-- ===== src/Sentinel.antt =====
-- redis-2.6.14/src/sentinel.c: a monitored master, its slaves, and the other Sentinels that monitor it.
pub mod Down
pub mod Leader
pub mod Select
pub mod Failover
pub mod Info
pub mod Timer
pub mod Invariant
use galery.Prelude.{
  ℕ, ◌+◌, Option, none, some, List, [], ◌∷◌, ◌++◌, Bool, true, false, ◌&&◌, ◌||◌, ◌==◌,
  if◌then◌else◌,
}
use galery.Prelude.Int.{ℤ}

-- `sentinelAddr`: ip and port.
abbrev pub Addr : Type 0
Addr = List ℕ × ℕ

-- SENTINEL_FAILOVER_STATE_...
pub data FailoverState : Type 0 where
  no_failover wait_start select_slave send_slaveof_noone wait_promotion reconf_slaves :
      FailoverState
  wait_next_slave alert_clients wait_alert_script detect_end update_config : FailoverState

-- `sentinelRedisInstance` of a slave; each of its flags is a Boolean. Times are in milliseconds.
pub record Slave : Type 0 where
  pub addr : Addr
  pub runid : Option (List ℕ)
  pub disconnected : Bool
  pub s_down : Bool
  pub o_down : Bool
  pub promoted : Bool
  pub reconf_sent : Bool
  pub reconf_inprog : Bool
  pub reconf_done : Bool
  pub demote : Bool
  pub pending_commands : ℕ
  pub last_avail_time : ℕ
  pub s_down_since_time : ℕ
  pub down_after_period : ℕ
  pub info_refresh : ℕ
  pub master_link_down_time : ℕ
  pub slave_priority : ℕ
  pub slave_reconf_sent_time : ℕ
  pub slave_master_host : Option (List ℕ)
  pub slave_master_port : ℕ
  pub master_link_up : Bool
  pub failover_state_change_time : ℕ

-- The same of another Sentinel. `leader` is its vote, NULL being none.
pub record Peer : Type 0 where
  pub runid : Option (List ℕ)
  pub leader : Option (List ℕ)
  pub disconnected : Bool
  pub can_failover : Bool
  pub master_down : Bool
  pub last_avail_time : ℕ
  pub last_master_down_reply_time : ℕ
  pub pending_commands : ℕ

-- A SLAVEOF that was sent to the slave: its argument is NO ONE (none) or an address.
abbrev pub Slaveof : Type 0
Slaveof = ℕ × Option Addr

-- The same of a master. `slaves` are the pointers of the dict in the order of its iterator, and
-- `instances` what they point to.
pub record Master : Type 0 where
  pub addr : Addr
  pub can_failover : Bool
  pub s_down : Bool
  pub o_down : Bool
  pub failover_in_progress : Bool
  pub i_am_the_leader : Bool
  pub force_failover : Bool
  pub last_avail_time : ℕ
  pub s_down_since_time : ℕ
  pub o_down_since_time : ℕ
  pub down_after_period : ℕ
  pub info_refresh : ℕ
  pub sentinels : List Peer
  pub slaves : List ℕ
  pub instances : ℕ → Slave
  pub quorum : ℕ
  pub parallel_syncs : ℕ
  pub failover_state : FailoverState
  pub failover_state_change_time : ℕ
  pub failover_start_time : ℕ
  pub failover_timeout : ℕ
  pub promoted_slave : Option ℕ
  pub sent : List Slaveof

-- What the functions take from outside: the clock, rand(), the own run id, the tilt mode, qsort for the
-- two kinds of arrays, strcasecmp, and whether redisAsyncCommand accepts a command for an instance.
pub record Env : Type 0 where
  pub now : ℕ
  pub random : ℕ
  pub server_runid : List ℕ
  pub tilt : Bool
  pub tilt_start_time : ℕ
  pub sort_slaves : (ℕ → ℕ → ℤ) → List ℕ → List ℕ
  pub sort_runids : (List ℕ → List ℕ → ℤ) → List (List ℕ) → List (List ℕ)
  pub strcasecmp : List ℕ → List ℕ → ℤ
  pub accepts : Slave → Bool

abbrev pub sentinel_info_period : ℕ
sentinel_info_period = 10000

abbrev pub sentinel_info_validity_time : ℕ
sentinel_info_validity_time = 5000

abbrev pub sentinel_ask_period : ℕ
sentinel_ask_period = 1000

abbrev pub sentinel_tilt_trigger : ℕ
sentinel_tilt_trigger = 2000

abbrev pub sentinel_tilt_period : ℕ
sentinel_tilt_period = 30000

abbrev pub sentinel_promotion_retry_period : ℕ
sentinel_promotion_retry_period = 30000

abbrev pub sentinel_slave_reconf_retry_period : ℕ
sentinel_slave_reconf_retry_period = 10000

abbrev pub sentinel_extended_sdown_multiplier : ℕ
sentinel_extended_sdown_multiplier = 10

abbrev pub sentinel_failover_fixed_delay : ℕ
sentinel_failover_fixed_delay = 5000

abbrev pub sentinel_failover_max_random_delay : ℕ
sentinel_failover_max_random_delay = 10000

abbrev pub sentinel_default_slave_priority : ℕ
sentinel_default_slave_priority = 100

-- A write through the pointer `i`.
unfoldable pub set_slave : Master → ℕ → Slave → Master
set_slave m i x = record m { instances = λ j. if j == i then x else m.instances j }

-- `redisAsyncCommand` with a SLAVEOF: whether it is accepted.
unfoldable pub send_slaveof : Env → Master → ℕ → Option Addr → Master
send_slaveof e m i target =
    if e.accepts (m.instances i) then record m { sent = m.sent ++ (i, target) ∷ [] } else m

-- The entries of a list that a loop does not skip.
unfoldable pub keep_if : {A : Type 0} → (A → Bool) → List A → List A
keep_if p [] = []
keep_if p (x ∷ xs) = if p x then x ∷ keep_if p xs else keep_if p xs

-- Whether a slave is in the dict.
unfoldable pub is_member : ℕ → List ℕ → Bool
is_member i [] = false
is_member i (j ∷ js) = (j == i) || is_member i js

-- A change of every slave of the dict.
unfoldable pub each_slave : (Slave → Slave) → List ℕ → Master → Master
each_slave f [] m = m
each_slave f (i ∷ is) m = each_slave f is (set_slave m i (f (m.instances i)))
