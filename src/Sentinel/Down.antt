-- ===== src/Sentinel/Down.antt =====
-- redis-2.6.14/src/sentinel.c: subjectively and objectively down, and the votes of other Sentinels.
use galery.Prelude.{
  ℕ, ◌+◌, ◌-◌, none, some, List, [], ◌∷◌, Bool, true, false, not, ◌&&◌, ◌||◌, ltb, leb,
  if◌then◌else◌, length,
}
use galery.Sentinel.{
  Peer, Master, Env, keep_if, set_slave, sentinel_info_validity_time, sentinel_ask_period,
}

-- `sentinelCheckSubjectivelyDown` for a master and for a slave, after the links.
unfoldable pub check_subjectively_down : Env → Master → Master
check_subjectively_down e m =
    if ltb (m.last_avail_time + m.down_after_period) e.now
    then (if m.s_down then m else record m { s_down_since_time = e.now; s_down = true })
    else record m { s_down = false }

unfoldable pub check_slave_down : Env → Master → ℕ → Master
check_slave_down e m i =
    let x = m.instances i in
    set_slave m i (
      if ltb (x.last_avail_time + x.down_after_period) e.now
      then (if x.s_down then x else record x { s_down_since_time = e.now; s_down = true })
      else record x { s_down = false })

-- `sentinelCheckObjectivelyDown`
unfoldable pub check_objectively_down : Env → Master → Master
check_objectively_down e m =
    let quorum = if m.s_down then 1 + length (keep_if (λ p. p.master_down) m.sentinels) else 0 in
    let odown = m.s_down && leb m.quorum quorum in
    if odown
    then (if m.o_down then m else record m { o_down = true; o_down_since_time = e.now })
    else record m { o_down = false }

-- `sentinelReceiveIsMasterDownReply`, for a reply of an integer and a string.
unfoldable pub receive_is_master_down : Env → Bool → List ℕ → Peer → Peer
receive_is_master_down e down vote p = record p {
  pending_commands = p.pending_commands - 1;
  last_master_down_reply_time = e.now;
  master_down = down;
  leader = some vote;
}

-- One round of `sentinelAskMasterStateToOtherSentinels`, where `ok` is what redisAsyncCommand answers.
unfoldable pub ask_peer : Env → Bool → Bool → Peer → Peer
ask_peer e wanted ok p =
    let p1 =
      if ltb (p.last_master_down_reply_time + sentinel_info_validity_time) e.now
      then record p { master_down = false; leader = none }
      else p in
    if not wanted
      || p1.disconnected
      || ltb e.now (p1.last_master_down_reply_time + sentinel_ask_period)
    then p1
    else if ok
    then record p1 { pending_commands = p1.pending_commands + 1 }
    else p1

unfoldable pub ask_each : Env → Bool → (Peer → Bool) → List Peer → List Peer
ask_each e wanted ok [] = []
ask_each e wanted ok (p ∷ ps) = ask_peer e wanted (ok p) p ∷ ask_each e wanted ok ps

unfoldable pub ask_master_state : Env → (Peer → Bool) → Master → Master
ask_master_state e ok m = record m {
  sentinels = ask_each e (m.s_down || m.failover_in_progress) ok m.sentinels;
}
