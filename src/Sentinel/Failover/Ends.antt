-- ===== src/Sentinel/Failover/Ends.antt =====
-- redis-2.6.14/src/sentinel.c: the end of a failover, after its time or by an abort.
use galery.Prelude.{
  ℕ, ◌+◌, ◌<◌, ltb, ◌≡◌, refl, sym, ap, subst, ◌∙◌, ◌⊎◌, inl, inr, Option, none, some, List, [],
  ◌∷◌, Bool, true, false, ◌||◌, if◌then◌else◌, Bool-cases, arith,
}
use galery.Sentinel.{
  Addr, no_failover, reconf_slaves, detect_end, update_config, Slave, Master, Env, is_member,
  set_slave, send_slaveof,
}
use galery.Sentinel.Failover.{
  undo_slaves, forget_promoted, abort_failover, failover_detect_end, reconf_one, reconf_loop,
  failover_reconf_next_slave, count_in_progress, dispatch_state, failover_state_machine,
}
use galery.Sentinel.Invariant.{
  is_some, is_busy, points_to, IsFailover, Keeps, Keeps-refl, Keeps-trans,
}
use galery.Sentinel.Invariant.Abort.{
  is_marked, undo_slaves-Keeps, reconf-undo_slaves, abort_failover-IsFailover,
}
use galery.Sentinel.Invariant.Reconf.{
  retried, instances-set_slave, reconf_one-Round, reconf_best_effort-Keeps,
}

-- A slave that an abort left with no flag of a failover.
abbrev pub IsUnmarked : Slave → Type 0
IsUnmarked x = (x.promoted ≡ false) × (is_marked x ≡ false)

forget_promoted-clears :
    (m : Master)
    → ((forget_promoted m).failover_in_progress ≡ m.failover_in_progress)
      × ((forget_promoted m).i_am_the_leader ≡ m.i_am_the_leader)
      × ((forget_promoted m).failover_state ≡ m.failover_state)
      × ((forget_promoted m).promoted_slave ≡ none)
unfolding forget_promoted set_slave
forget_promoted-clears m = (ground arith, ground arith, ground arith, ground arith)

forget_promoted-slaves :
    (m : Master) (i : ℕ)
    → ((forget_promoted m).slaves ≡ m.slaves)
      × (is_marked ((forget_promoted m).instances i) ≡ is_marked (m.instances i))
unfolding forget_promoted set_slave
forget_promoted-slaves m i = (ground arith, ground arith)

-- An abort of a consistent master leaves no failover in progress, no leadership, the first state
-- and no promoted slave, and no slave of the dict with a flag of the promotion or of a
-- reconfiguration.
pub abort_failover-clears :
    (e : Env) (m : Master)
    → IsFailover m
    → ((abort_failover e m).failover_in_progress ≡ false)
      × ((abort_failover e m).i_am_the_leader ≡ false)
      × ((abort_failover e m).failover_state ≡ no_failover)
      × ((abort_failover e m).promoted_slave ≡ none)
      × ((i : ℕ) → is_member i m.slaves ≡ true → IsUnmarked ((abort_failover e m).instances i))
unfolding abort_failover IsFailover
abort_failover-clears e m h =
    let n = record (undo_slaves e m.slaves m) {
      failover_in_progress = false;
      i_am_the_leader = false;
      force_failover = false;
      failover_state = no_failover;
      failover_state_change_time = e.now;
    } in
    let (b, l, s, p) = forget_promoted-clears n in
    let k = undo_slaves-Keeps e m.slaves m in
    let h1 = abort_failover-IsFailover e m h in
    (
      b,
      l,
      s,
      p,
      λ i t. (
        h1.flag i (ap (is_member i) ((forget_promoted-slaves n i).0 ∙ k.slaves) ∙ t)
            ∙ ap (λ o. points_to o i) p,
        (forget_promoted-slaves n i).1 ∙ reconf-undo_slaves e m.slaves m i (inr t),
      ),
    )

-- What the loop over the slaves leaves as it is, of what the timeout and the end read.
pub record Waits (m n : Master) : Type 0 where
  pub change_time : n.failover_state_change_time ≡ m.failover_state_change_time
  pub failover_timeout : n.failover_timeout ≡ m.failover_timeout
  pub s_down : (i : ℕ) → (n.instances i).s_down ≡ (m.instances i).s_down

Waits-refl : (m : Master) → Waits m m
Waits-refl m = record { change_time = refl; failover_timeout = refl; s_down = λ i. refl }

Waits-trans : {m n o : Master} → Waits m n → Waits n o → Waits m o
Waits-trans h k = record {
  change_time = k.change_time ∙ h.change_time;
  failover_timeout = k.failover_timeout ∙ h.failover_timeout;
  s_down = λ i. k.s_down i ∙ h.s_down i;
}

set_slave-Waits :
    (m : Master) (i : ℕ) (x : Slave) → x.s_down ≡ (m.instances i).s_down → Waits m (set_slave m i x)
unfolding set_slave
set_slave-Waits m i x h = record {
  change_time = refl;
  failover_timeout = refl;
  s_down = λ j. ground (arith, h);
}

send_slaveof-Waits :
    (e : Env) (m : Master) (i : ℕ) (a : Option Addr) → Waits m (send_slaveof e m i a)
unfolding send_slaveof
send_slaveof-Waits e m i a = record {
  change_time = ground arith;
  failover_timeout = ground arith;
  s_down = λ j. ground arith;
}

-- A round that leaves them, where it returns.
abbrev pub Leaves : Master → Option (Bool × Master) → Type 0
Leaves m o = (r : Bool × Master) → o ≡ some r → Waits m r.1

Leaves-some : (m : Master) (r : Bool × Master) → Waits m r.1 → Leaves m (some r)
Leaves-some m r h q e = subst (λ r. Waits m r.1) (ap (λ o. elim o [ none ↦ r | some x ↦ x ]) e) h

Leaves-if :
    (m : Master) (b : Bool) (x y : Option (Bool × Master))
    → Leaves m x
    → Leaves m y
    → Leaves m (if b then x else y)
Leaves-if m true x y h k = h
Leaves-if m false x y h k = k

Leaves-pointer :
    (m : Master) (o : Option ℕ) (f : ℕ → Option (Bool × Master))
    → ((p : ℕ) → Leaves m (f p))
    → Leaves m (elim o [ none ↦ none | some p ↦ f p ])
Leaves-pointer m none f h r e = absurd (cc)
Leaves-pointer m (some p) f h r e = h p r e

retried-s_down : (e : Env) (x : Slave) → (retried e x).s_down ≡ x.s_down
unfolding retried
retried-s_down e x = ground arith

reconf_one-Leaves : (e : Env) (m : Master) (i : ℕ) → Leaves m (reconf_one e m i)
unfolding reconf_one retried
reconf_one-Leaves e m i =
    let x = m.instances i in
    let y = retried e x in
    let m1 = set_slave m i y in
    let w = set_slave-Waits m i y (retried-s_down e x) in
    Leaves-if m (x.promoted || x.reconf_done) _ _ (Leaves-some m (false, m) (Waits-refl m)) (
      Leaves-if m (y.disconnected || y.reconf_sent || y.reconf_inprog) _ _
        (Leaves-some m (false, m1) w)
        (Leaves-pointer m m.promoted_slave _ (λ p.
          Leaves-if m (e.accepts y) _ _
            (Leaves-some m _ (
              Waits-trans w (
                Waits-trans (send_slaveof-Waits e m1 i _) (
                  set_slave-Waits (send_slaveof e m1 i _) i _ (
                    sym (
                      (send_slaveof-Waits e m1 i _).s_down i
                      ∙ ap (λ z. z.s_down) (instances-set_slave m i y)))))))
            (Leaves-some m (false, m1) w))))

reconf_loop-Waits :
    (e : Env) (is : List ℕ) (c : ℕ) (m : Master)
    → is_some m.promoted_slave ≡ true
    → (n : Master) × (reconf_loop e c is m ≡ some n) × Keeps m n × Waits m n
unfolding reconf_loop
reconf_loop-Waits e [] c m p = (m, refl, Keeps-refl m, Waits-refl m)
reconf_loop-Waits e (i ∷ is) c m p = elim (Bool-cases (ltb c m.parallel_syncs)) [
  | inl t ↦
      let (r, q, v) = reconf_one-Round e m i p in
      let (n, s, k, w) =
        reconf_loop-Waits e is (c + (if r.0 then 1 else 0)) r.1
          (ap is_some v.keeps.promoted_slave ∙ p) in
      (
        n,
        rw (reconf_loop, t, q) s,
        Keeps-trans v.keeps k,
        Waits-trans (reconf_one-Leaves e m i r q) w,
      )
  | inr t ↦ (m, rw (reconf_loop, t) refl, Keeps-refl m, Waits-refl m)
]

field_if :
    {A : Type 0} (f : Master → A) {a : A} (b : Bool) (x y : Master)
    → f x ≡ a
    → f y ≡ a
    → f (if b then x else y) ≡ a
field_if f true x y h k = h
field_if f false x y h k = k

-- The last step of a failover, whose time is over and whose promoted slave is up.
detect_end-timeout :
    (e : Env) (m : Master) (p : ℕ)
    → m.promoted_slave ≡ some p
    → m.failover_state_change_time + m.failover_timeout < e.now
    → (m.instances p).s_down ≡ false
    → ((failover_detect_end e m).failover_state ≡ update_config)
      × ((failover_detect_end e m).promoted_slave ≡ some p)
unfolding failover_detect_end
detect_end-timeout e m p o t d =
    let late : ltb (m.failover_state_change_time + m.failover_timeout) e.now ≡ true =
      ground (arith, t) in
    let m1 = record m { failover_state = update_config; failover_state_change_time = e.now } in
    let k = reconf_best_effort-Keeps e (m.instances p).addr m.slaves m1 in
    (
      rw (failover_detect_end, o, late, d)
          (field_if (λ n. n.failover_state) m.i_am_the_leader _ m1 k.failover_state refl),
      rw (failover_detect_end, o, late, d)
          (field_if (λ n. n.promoted_slave) m.i_am_the_leader _ m1 (k.promoted_slave ∙ o) o),
    )

machine-runs :
    (e : Env) (m : Master)
    → m.failover_in_progress ≡ true
    → failover_state_machine e m ≡ dispatch_state e m.failover_state m
unfolding failover_state_machine
machine-runs e m b = ground arith

-- For a consistent master in one of the two states that wait for the slaves, once the timeout is
-- over and while the promoted slave is not down, the next run of the state machine returns and ends
-- the failover with that slave.
pub failover_state_machine-ends :
    (e : Env) (m : Master) (p : ℕ)
    → IsFailover m
    → (m.failover_state ≡ reconf_slaves) ⊎ (m.failover_state ≡ detect_end)
    → m.promoted_slave ≡ some p
    → m.failover_state_change_time + m.failover_timeout < e.now
    → (m.instances p).s_down ≡ false
    → (n : Master) × (failover_state_machine e m ≡ some n)
      × (n.failover_state ≡ update_config)
      × (n.promoted_slave ≡ some p)
unfolding IsFailover failover_state_machine dispatch_state is_busy failover_reconf_next_slave
failover_state_machine-ends e m p h (inl w) o t d =
    let (n, q, k, v) =
      reconf_loop-Waits e m.slaves (count_in_progress m m.slaves) m (ap is_some o) in
    let z =
      detect_end-timeout e n p (k.promoted_slave ∙ o)
        (omega (arith, t, v.change_time, v.failover_timeout)) (v.s_down p ∙ d) in
    let b = h.in_progress ∙ ap is_busy w in
    (
      failover_detect_end e n,
      machine-runs e m b
          ∙ ap (λ s. dispatch_state e s m) w
          ∙ rw (failover_reconf_next_slave, q) refl,
      z.0,
      z.1,
    )
failover_state_machine-ends e m p h (inr w) o t d =
    let z = detect_end-timeout e m p o t d in
    (
      failover_detect_end e m,
      machine-runs e m (h.in_progress ∙ ap is_busy w) ∙ ap (λ s. dispatch_state e s m) w,
      z.0,
      z.1,
    )
