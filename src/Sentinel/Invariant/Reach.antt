-- ===== src/Sentinel/Invariant/Reach.antt =====
-- redis-2.6.14/src/sentinel.c: the runs of a Sentinel for one master, as far as a failover is concerned.
use galery.Prelude.{
  ℕ, ◌≡◌, refl, sym, ap, subst, ◌∙◌, Option, none, some, List, ◌∷◌, Bool, true, false, arith,
}
use galery.Sentinel.{Addr, Slave, Master, Env, set_slave, is_member}
use galery.Sentinel.Info.{refresh_role}
use galery.Sentinel.Failover.{failover_command}
use galery.Sentinel.Timer.{
  handle_master, handle_slaves, reset_master, reset_master_and_change_address, switch_to_promoted,
}
use galery.Sentinel.Invariant.{
  has_promoted, is_some, points_to, is_reconf, IsFailover, Keeps, Returns, keep-IsFailover,
}
use galery.Sentinel.Invariant.Begin.{failover_command-IsFailover}
use galery.Sentinel.Invariant.Start.{IsSort}
use galery.Sentinel.Invariant.Steps.{
  handle_master-IsFailover, handle_slaves-IsFailover, reset_master-IsFailover,
  change_address-IsFailover, switch_to_promoted-IsFailover, add_slave-IsFailover,
}
use galery.Sentinel.Invariant.Replies.{refresh_role-IsFailover}

-- One event: the timer for the master and for its slaves, an INFO reply of a slave, SENTINEL
-- FAILOVER, the end of a failover, a reset, a new address, a slave that is discovered, and a change
-- of what the functions only read.
pub data Step : Master → Master → Type 0 where
  timer : (e : Env) (m n : Master) → IsSort e.sort_slaves → handle_master e m ≡ some n → Step m n
  slaves_timer : (e : Env) (is : List ℕ) (m : Master) → Step m (handle_slaves e is m)
  info :
      (e : Env) (is_master reboot : Bool) (m n : Master) (i : ℕ)
      → is_member i m.slaves ≡ true
      → refresh_role e is_master reboot m i ≡ some n
      → Step m n
  command : (e : Env) (m : Master) → Step m (failover_command e m).1
  switch :
      (e : Env) (resolve : Addr → Option Addr) (fresh : ℕ) (exists : Bool) (m : Master)
      → is_member fresh m.slaves ≡ false
      → Step m (switch_to_promoted e resolve fresh exists m)
  reset : (e : Env) (m : Master) → Step m (reset_master e m)
  redirect :
      (e : Env) (a : Option Addr) (m : Master) → Step m (reset_master_and_change_address e a m)
  discover :
      (m : Master) (i : ℕ) (x : Slave)
      → is_member i m.slaves ≡ false
      → x.promoted ≡ false
      → is_reconf x ≡ false
      → Step m (set_slave (record m { slaves = i ∷ m.slaves }) i x)
  observe :
      (m n : Master)
      → Keeps m n
      → ((i : ℕ) → is_reconf (n.instances i) ≡ is_reconf (m.instances i))
      → Step m n

pub data Reach : Master → Type 0 where
  begin : (e : Env) (m : Master) → Reach (reset_master e m)
  after : (m n : Master) → Reach m → Step m n → Reach n

same_result : {m n : Master} → some m ≡ some n → m ≡ n
same_result {m = m} h = ap (λ o. elim o [ none ↦ m | some x ↦ x ]) h

from_result : {o : Option Master} {n : Master} → Returns IsFailover o → o ≡ some n → IsFailover n
from_result (k, q, h) e = subst IsFailover (same_result (sym q ∙ e)) h

step-IsFailover : (m n : Master) → IsFailover m → Step m n → IsFailover n
unfolding IsFailover
step-IsFailover m n h (timer e _ _ s q) = from_result (handle_master-IsFailover e m s h) q
step-IsFailover m _ h (slaves_timer e is _) = handle_slaves-IsFailover e is m h
step-IsFailover m n h (info e is_master reboot _ _ i k q) =
    from_result (refresh_role-IsFailover e is_master reboot m i h k) q
step-IsFailover m _ h (command e _) = failover_command-IsFailover e m h
step-IsFailover m _ h (switch e resolve fresh exists _ k) =
    switch_to_promoted-IsFailover e resolve fresh exists m h k
step-IsFailover m _ h (reset e _) = reset_master-IsFailover e m
step-IsFailover m _ h (redirect e a _) = change_address-IsFailover e a m h
step-IsFailover m _ h (discover _ i x k p r) = add_slave-IsFailover m i x h k p r
step-IsFailover m n h (observe _ _ k r) = keep-IsFailover m n h k (λ i t l. r i ∙ h.reconf i t l)

-- In every master that a Sentinel can reach by these events, the failover flag stands exactly in
-- the states of a failover, an observer's failover is in a late state, `promoted_slave` is NULL
-- exactly in the states without one, it is in the dict and is the only slave of the dict with
-- SRI_PROMOTED, and in the early states no slave is being reconfigured.
pub reach-IsFailover : (m : Master) → Reach m → IsFailover m
reach-IsFailover _ (begin e m) = reset_master-IsFailover e m
reach-IsFailover n (after m _ r s) = step-IsFailover m n (reach-IsFailover m r) s

-- From a reachable master, with a sort that keeps the elements of an array, the timer's run for the master
-- returns, and so does what an INFO reply of any slave of the dict brings, whatever role it claims: neither
-- reads a NULL pointer, and what they leave is consistent.
pub reach-Returns :
    (e : Env) (m : Master)
    → Reach m
    → IsSort e.sort_slaves
    → Returns IsFailover (handle_master e m)
      × ((is_master reboot : Bool) (i : ℕ)
          → is_member i m.slaves ≡ true
          → Returns IsFailover (refresh_role e is_master reboot m i))
reach-Returns e m r s = (
  handle_master-IsFailover e m s (reach-IsFailover m r),
  λ is_master reboot i k. refresh_role-IsFailover e is_master reboot m i (reach-IsFailover m r) k,
)

points_to-some : (o : Option ℕ) (i : ℕ) → points_to o i ≡ true → o ≡ some i
points_to-some none i h = absurd (cc)
points_to-some (some p) i h = ground (arith, h)

points_to-is_some : (o : Option ℕ) (i : ℕ) → points_to o i ≡ true → is_some o ≡ true
points_to-is_some none i h = absurd (cc)
points_to-is_some (some p) i h = refl

points_to_unique : (o : Option ℕ) (i j : ℕ) → points_to o i ≡ true → points_to o j ≡ true → i ≡ j
points_to_unique none i j h k = absurd (cc)
points_to_unique (some p) i j h k = ground arith

-- In a reachable master two slaves of the dict with SRI_PROMOTED are one, which is
-- `promoted_slave`, and the failover is in a state with a slave that is being promoted.
pub reach-promoted :
    (m : Master) (i j : ℕ)
    → Reach m
    → is_member i m.slaves ≡ true
    → is_member j m.slaves ≡ true
    → (m.instances i).promoted ≡ true
    → (m.instances j).promoted ≡ true
    → (m.promoted_slave ≡ some i) × (i ≡ j) × (has_promoted m.failover_state ≡ true)
unfolding IsFailover
reach-promoted m i j r a b p q =
    let h = reach-IsFailover m r in
    let t = sym (h.flag i a) ∙ p in
    (
      points_to-some m.promoted_slave i t,
      points_to_unique m.promoted_slave i j t (sym (h.flag j b) ∙ q),
      sym h.pointer ∙ points_to-is_some m.promoted_slave i t,
    )
