-- ===== src/Sentinel/Invariant/Abort.antt =====
-- redis-2.6.14/src/sentinel.c: `sentinelAbortFailover` keeps the state of a failover consistent.
use galery.Prelude.{
  ℕ, ◌+◌, ◌*◌, ltb, leb, ◌≡◌, refl, sym, ap, subst, ◌∙◌, ◌⊎◌, inl, inr, none, some, List, [], ◌∷◌,
  Bool, true, false, not, ◌&&◌, ◌||◌, ◌==◌, if◌then◌else◌, Option-cases, Bool-cases, arith,
}
use galery.Sentinel.{
  no_failover, select_slave, wait_promotion, sentinel_promotion_retry_period,
  sentinel_extended_sdown_multiplier, Slave, Master, Env, set_slave, send_slaveof, is_member,
}
use galery.Sentinel.Failover.{
  clear_reconf, undo_slaves, forget_promoted, abort_failover, abort_failover_if_needed,
  failover_wait_promotion,
}
use galery.Sentinel.Invariant.{
  is_busy, is_late, has_promoted, points_to, is_some, is_reconf, IsFailover, Keeps, Keeps-refl,
  Keeps-trans, Keeps-if, instances-send_slaveof, set_slave-Keeps, send_slaveof-Keeps, Returns,
  on_if, on_option, Returns-some, Returns-if, Returns-pointer,
}

-- The command that undoes a reconfiguration, where it is sent.
abbrev pub undo_command : Env → Master → ℕ → Master
undo_command e m i =
    let x = m.instances i in
    if m.i_am_the_leader
      && not x.disconnected
      && (x.promoted || x.reconf_sent || x.reconf_inprog || x.reconf_done)
    then send_slaveof e m i (some m.addr)
    else m

undo_command-Keeps : (e : Env) (m : Master) (i : ℕ) → Keeps m (undo_command e m i)
undo_command-Keeps e m i = Keeps-if m _ (send_slaveof-Keeps e m i (some m.addr))

instances-undo_command :
    (e : Env) (m : Master) (i : ℕ) → (undo_command e m i).instances ≡ m.instances
instances-undo_command e m i = ground (arith, instances-send_slaveof e m i (some m.addr))

pub undo_slaves-Keeps : (e : Env) (is : List ℕ) (m : Master) → Keeps m (undo_slaves e is m)
unfolding undo_slaves
undo_slaves-Keeps e [] m = Keeps-refl m
undo_slaves-Keeps e (i ∷ is) m =
    let m1 = undo_command e m i in
    Keeps-trans (undo_command-Keeps e m i) (
      Keeps-trans (set_slave-Keeps m1 i (clear_reconf (m1.instances i)) refl)
        (undo_slaves-Keeps e is _))

-- SRI_RECONF_SENT, SRI_RECONF_INPROG or SRI_RECONF_DONE.
abbrev pub is_marked : Slave → Bool
is_marked x = is_reconf x || x.reconf_done

reconf-clear :
    (m : Master) (i j : ℕ)
    → is_marked (m.instances j) ≡ false ⊎ ((i == j) ≡ true)
    → is_marked ((set_slave m i (clear_reconf (m.instances i))).instances j) ≡ false
unfolding set_slave
reconf-clear m i j h = ground arith

-- After the loop no slave that it met is being reconfigured.
pub reconf-undo_slaves :
    (e : Env) (is : List ℕ) (m : Master) (j : ℕ)
    → is_marked (m.instances j) ≡ false ⊎ (is_member j is ≡ true)
    → is_marked ((undo_slaves e is m).instances j) ≡ false
unfolding undo_slaves is_member
reconf-undo_slaves e [] m j (inl h) = h
reconf-undo_slaves e [] m j (inr h) = cc
reconf-undo_slaves e (i ∷ is) m j (inl h) =
    let m1 = undo_command e m i in
    reconf-undo_slaves e is (set_slave m1 i (clear_reconf (m1.instances i))) j (
      inl (
        reconf-clear m1 i j
          (inl (subst (λ at. is_marked (at j) ≡ false) (sym (instances-undo_command e m i)) h))))
reconf-undo_slaves e (i ∷ is) m j (inr h) =
    let m1 = undo_command e m i in
    reconf-undo_slaves e is (set_slave m1 i (clear_reconf (m1.instances i))) j
      (elim (Bool-cases (is_member j is)) [
        | inl t ↦ inr t
        | inr f ↦ inl (reconf-clear m1 i j (inr (ground arith)))
      ])

pub points_to-none : {A : Type 0} (i : ℕ) → points_to none i ≡ true → A
points_to-none i h = absurd (cc)

-- A master whose promoted slave is to be forgotten.
pub forget_promoted-IsFailover :
    (m : Master)
    → m.failover_in_progress ≡ is_busy m.failover_state
    → (m.i_am_the_leader ≡ false → is_busy m.failover_state ≡ is_late m.failover_state)
    → has_promoted m.failover_state ≡ false
    → ((i : ℕ)
        → is_member i m.slaves ≡ true
        → (m.instances i).promoted ≡ points_to m.promoted_slave i)
    → ((i : ℕ) → is_member i m.slaves ≡ true → is_reconf (m.instances i) ≡ false)
    → IsFailover (forget_promoted m)
unfolding forget_promoted IsFailover set_slave
forget_promoted-IsFailover m b v p f r = elim (Option-cases m.promoted_slave) [
  | inl e ↦
      rw (forget_promoted, e)
        record {
          in_progress = b;
          observer = v;
          pointer = ap is_some e ∙ sym p;
          flag = f;
          member = λ i h. points_to-none i (ap (λ o. points_to o i) (sym e) ∙ h);
          reconf = λ i h l. r i h;
        }
  | inr (s, e) ↦
      rw (forget_promoted, e)
        record {
          in_progress = b;
          observer = v;
          pointer = sym p;
          flag = λ i h. ground (arith, f i h ∙ ap (λ o. points_to o i) e);
          member = λ i h. points_to-none i h;
          reconf = λ i h l. ground (arith, r i h);
        }
]

pub abort_failover-IsFailover :
    (e : Env) (m : Master) → IsFailover m → IsFailover (abort_failover e m)
unfolding abort_failover IsFailover is_busy has_promoted is_late
abort_failover-IsFailover e m h =
    let k = undo_slaves-Keeps e m.slaves m in
    forget_promoted-IsFailover
      (record (undo_slaves e m.slaves m) {
        failover_in_progress = false;
        i_am_the_leader = false;
        force_failover = false;
        failover_state = no_failover;
        failover_state_change_time = e.now;
      })
      refl (λ l. refl) refl
      (λ i t.
        k.promoted i
        ∙ h.flag i (ap (is_member i) (sym k.slaves) ∙ t)
        ∙ ap (λ o. points_to o i) (sym k.promoted_slave))
      (λ i t.
        ground
          (arith, reconf-undo_slaves e m.slaves m i (inr (ap (is_member i) (sym k.slaves) ∙ t))))

pub failover_wait_promotion-Returns :
    (e : Env) (m : Master)
    → IsFailover m
    → m.failover_state ≡ wait_promotion
    → Returns IsFailover (failover_wait_promotion e m)
unfolding failover_wait_promotion IsFailover is_busy has_promoted is_late
failover_wait_promotion-Returns e m h w =
    Returns-if (leb (m.failover_state_change_time + sentinel_promotion_retry_period) e.now)
      (λ t. Returns-pointer m.promoted_slave (h.pointer ∙ ap has_promoted w) (λ p o.
        Returns-some _ (
          forget_promoted-IsFailover
            (record m { failover_state = select_slave; failover_state_change_time = e.now })
            (h.in_progress ∙ ap is_busy w) (λ l. ap is_busy (sym w) ∙ h.observer l ∙ ap is_late w)
            refl h.flag (λ i t. h.reconf i t (ap is_late w)))))
      (λ t. Returns-some m h)

pub abort_failover_if_needed-IsFailover :
    (e : Env) (m : Master) → IsFailover m → IsFailover (abort_failover_if_needed e m)
unfolding abort_failover_if_needed
abort_failover_if_needed-IsFailover e m h =
    on_option m.promoted_slave m _ (λ o. h)
      (λ p o.
        on_if (not m.failover_in_progress) m _ (λ t. h)
          (λ t.
            on_if
              (not (m.instances p).s_down
                || ltb e.now (
                    (m.instances p).s_down_since_time
                    + m.down_after_period * sentinel_extended_sdown_multiplier))
              m _ (λ t. h) (λ t. abort_failover-IsFailover e m h)))
