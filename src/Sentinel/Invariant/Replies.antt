-- ===== src/Sentinel/Invariant/Replies.antt =====
-- redis-2.6.14/src/sentinel.c: an INFO reply of a slave keeps the state of a failover consistent
-- and reads no NULL pointer.
use galery.Prelude.{
  ℕ, ◌≡◌, refl, ◌∙◌, Option, none, some, List, Bool, true, false, ◌&&◌, ◌||◌, ◌==◌, if◌then◌else◌,
  same_bytes, arith,
}
use galery.Sentinel.{FailoverState, Slave, Master, Env, set_slave, is_member}
use galery.Sentinel.Info.{
  reconf_sent_to_inprog, reconf_inprog_to_done, clear_demote, slave_is_slave, refresh_role,
}
use galery.Sentinel.Invariant.{
  is_late, late_promoted, is_some, is_reconf, IsFailover, Returns, Returns-some, Returns-if,
  set_slave-IsFailover,
}
use galery.Sentinel.Invariant.Roles.{slave_turned_master-IsFailover}

-- The two steps of a reconfiguration, which need the promoted slave.
abbrev pub Progress : Slave → Option Slave → Type 0
Progress x o =
    (y : Slave) × (o ≡ some y)
    × (y.promoted ≡ x.promoted)
    × (is_reconf x ≡ false → is_reconf y ≡ false)

Progress-if :
    (x : Slave) (b : Bool) (o u : Option Slave)
    → (b ≡ true → Progress x o)
    → Progress x u
    → Progress x (elim b [ true ↦ o | false ↦ u ])
Progress-if x true o u h k = h refl
Progress-if x false o u h k = k

Progress-host :
    (x : Slave) (o : Option (List ℕ)) (f : List ℕ → Option Slave)
    → ((a : List ℕ) → Progress x (f a))
    → Progress x (elim o [ none ↦ some x | some a ↦ f a ])
Progress-host x none f h = (x, refl, refl, λ r. r)
Progress-host x (some a) f h = h a

Progress-pointer :
    (x : Slave) (o : Option ℕ) (f : ℕ → Option Slave)
    → is_some o ≡ true
    → ((a : ℕ) → Progress x (f a))
    → Progress x (elim o [ none ↦ none | some a ↦ f a ])
Progress-pointer x none f s h = absurd (cc)
Progress-pointer x (some a) f s h = h a

reconf_sent_to_inprog-Progress :
    (m : Master) (x : Slave)
    → is_some m.promoted_slave ≡ true
    → Progress x (reconf_sent_to_inprog m x)
unfolding reconf_sent_to_inprog
reconf_sent_to_inprog-Progress m x p =
    Progress-if x x.reconf_sent _ _
      (λ t. Progress-host x x.slave_master_host _ (λ host.
        Progress-pointer x m.promoted_slave _ p (λ p.
          let matches =
            same_bytes host (m.instances p).addr.0
            && x.slave_master_port == (m.instances p).addr.1 in
          elim matches
            as (λ b. Progress x (
              if b
              then some (record x { reconf_sent = false; reconf_inprog = true })
              else some x)) [
                | true ↦ (_, refl, refl, λ r. absurd (ground (arith, r, t)))
                | false ↦ (x, refl, refl, λ r. r)
              ])))
      (x, refl, refl, λ r. r)

reconf_late :
    {b : Bool} (s : FailoverState) → (is_late s ≡ false → b ≡ false) → b ≡ true → is_late s ≡ true
reconf_late s h r = ground (arith, h)

reconf_inprog_to_done-keeps :
    (e : Env) (x : Slave)
    → ((reconf_inprog_to_done e x).promoted ≡ x.promoted)
      × (is_reconf x ≡ false → is_reconf (reconf_inprog_to_done e x) ≡ false)
unfolding reconf_inprog_to_done
reconf_inprog_to_done-keeps e x = (ground arith, λ r. ground (arith, r))

slave_is_slave-Returns :
    (e : Env) (m : Master) (i : ℕ)
    → IsFailover m
    → is_member i m.slaves ≡ true
    → Returns IsFailover (slave_is_slave e m i)
unfolding slave_is_slave IsFailover
slave_is_slave-Returns e m i h k =
    let x = m.instances i in
    Returns-if e.tilt (λ t. Returns-some m h)
      (λ t.
        Returns-if (x.reconf_sent || x.reconf_inprog)
          (λ r.
            let (y, q, p, c) =
              reconf_sent_to_inprog-Progress m x
                (h.pointer ∙ late_promoted _ (reconf_late m.failover_state (h.reconf i k) r)) in
            let z = reconf_inprog_to_done-keeps e y in
            (
              set_slave m i (clear_demote (reconf_inprog_to_done e y)),
              rw q refl,
              set_slave-IsFailover m i _ h (z.0 ∙ p) (λ l f. z.1 (c f)),
            ))
          (λ r. Returns-some _ (set_slave-IsFailover m i (clear_demote x) h refl (λ l f. f))))

-- What an INFO reply of a slave changes leaves a consistent master consistent, and reads no NULL pointer.
pub refresh_role-IsFailover :
    (e : Env) (is_master reboot : Bool) (m : Master) (i : ℕ)
    → IsFailover m
    → is_member i m.slaves ≡ true
    → Returns IsFailover (refresh_role e is_master reboot m i)
unfolding refresh_role
refresh_role-IsFailover e is_master reboot m i h k =
    Returns-if is_master (λ t. Returns-some _ (slave_turned_master-IsFailover e reboot m i h k))
      (λ t. slave_is_slave-Returns e m i h k)
