-- ===== src/Sentinel/Select.antt =====
-- redis-2.6.14/src/sentinel.c: the slave to promote.
pub mod Best
use galery.Prelude.{
  ℕ, ◌+◌, ◌*◌, Option, none, some, List, [], ◌∷◌, Bool, true, false, not, ◌&&◌, ◌||◌, ltb, ◌==◌,
  if◌then◌else◌,
}
use galery.Prelude.Int.{ℤ, pos, negsuc, sub_ℕ}
use galery.Sentinel.{Slave, Master, Env, keep_if, sentinel_info_validity_time, sentinel_info_period}

unfoldable pub compare_slaves_for_promotion : Env → Master → ℕ → ℕ → ℤ
compare_slaves_for_promotion e m a b =
    let x = m.instances a in
    let y = m.instances b in
    if not (x.slave_priority == y.slave_priority)
    then sub_ℕ x.slave_priority y.slave_priority
    else elim x.runid [
      | none ↦ elim y.runid [ none ↦ pos 0 | some s ↦ pos 1 ]
      | some r ↦ elim y.runid [ none ↦ negsuc 0 | some s ↦ e.strcasecmp r s ]
    ]

-- What the loop does not skip. `master_link_down_time` is compared with the time since the master is
-- down, which the clock may have overtaken, plus ten periods.
unfoldable pub is_suitable : Env → Master → ℕ → Bool
is_suitable e m i =
    let x = m.instances i in
    let validity = sentinel_info_validity_time + (if m.s_down then 0 else sentinel_info_period) in
    let max_down = m.down_after_period * 10 in
    not (x.s_down || x.o_down || x.disconnected)
    && not x.demote
    && not (ltb (x.last_avail_time + sentinel_info_validity_time) e.now)
    && not (x.slave_priority == 0)
    && not (ltb (x.info_refresh + validity) e.now)
    && not (
        if m.s_down
        then ltb (e.now + max_down) (x.master_link_down_time + m.s_down_since_time)
        else ltb max_down x.master_link_down_time)

-- `sentinelSelectSlave`
unfoldable pub choose_slave : Env → Master → Option ℕ
choose_slave e m =
    let suitable = keep_if (is_suitable e m) m.slaves in
    elim suitable [
      | [] ↦ none
      | i ∷ is ↦ elim (e.sort_slaves (compare_slaves_for_promotion e m) (i ∷ is)) [
        | [] ↦ none
        | j ∷ js ↦ some j
      ]
    ]
