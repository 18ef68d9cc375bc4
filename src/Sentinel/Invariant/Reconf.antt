-- ===== src/Sentinel/Invariant/Reconf.antt =====
-- redis-2.6.14/src/sentinel.c: the reconfiguration of the slaves and the end of a failover keep its state
-- consistent and read no NULL pointer.
use galery.Prelude.{
  ℕ, ◌+◌, ltb, ◌≡◌, refl, sym, ap, ◌∙◌, inl, inr, Option, none, some, List, [], ◌∷◌, Bool, true,
  false, not, ◌&&◌, ◌||◌, ◌==◌, if◌then◌else◌, Bool-cases, arith,
}
use galery.Sentinel.{
  update_config, Addr, Slave, Master, Env, set_slave, send_slaveof, keep_if,
  sentinel_slave_reconf_retry_period,
}
use galery.Sentinel.Failover.{
  failover_detect_end, reconf_best_effort, reconf_one, reconf_loop, failover_reconf_next_slave,
  count_in_progress, not_reconfigured,
}
use galery.Sentinel.Invariant.{
  is_busy, is_late, has_promoted, late_promoted, late_busy, is_some, is_reconf, IsFailover, Keeps,
  Keeps-refl, Keeps-trans, set_slave-Keeps, send_slaveof-Keeps, instances-send_slaveof,
  keep-IsFailover, advance-IsFailover, Returns, on_if, on_option,
}

late_keep :
    (m n : Master) → is_late m.failover_state ≡ true → IsFailover m → Keeps m n → IsFailover n
late_keep m n l h k = keep-IsFailover m n h k (λ i t f. absurd (cc))

tell-Keeps :
    (e : Env) (m : Master) (i : ℕ) (a : Option Addr) (x : Slave)
    → x.promoted ≡ (m.instances i).promoted
    → Keeps m (set_slave (send_slaveof e m i a) i x)
tell-Keeps e m i a x p = Keeps-trans (send_slaveof-Keeps e m i a) (
    set_slave-Keeps (send_slaveof e m i a) i x
      (p ∙ ap (λ at. (at i).promoted) (sym (instances-send_slaveof e m i a))))

-- What a round leaves: only the flags of the slave `i` change, and it is being reconfigured then only if it
-- was or SLAVEOF was sent.
pub record Visits (m : Master) (i : ℕ) (r : Bool × Master) : Type 0 where
  pub keeps : Keeps m r.1
  pub others : (j : ℕ) → (i == j) ≡ false → is_reconf (r.1.instances j) ≡ is_reconf (m.instances j)
  pub sent : r.0 ≡ false → is_reconf (m.instances i) ≡ false → is_reconf (r.1.instances i) ≡ false

-- A round that returns.
abbrev pub Round : Master → ℕ → Option (Bool × Master) → Type 0
Round m i o = (r : Bool × Master) × (o ≡ some r) × Visits m i r

Round-if :
    (m : Master) (i : ℕ) (b : Bool) (x y : Option (Bool × Master))
    → Round m i x
    → (b ≡ false → Round m i y)
    → Round m i (if b then x else y)
Round-if m i true x y h k = h
Round-if m i false x y h k = k refl

Round-pointer :
    (m : Master) (i : ℕ) (o : Option ℕ) (f : ℕ → Option (Bool × Master))
    → is_some o ≡ true
    → ((p : ℕ) → Round m i (f p))
    → Round m i (elim o [ none ↦ none | some p ↦ f p ])
Round-pointer m i none f h k = absurd (cc)
Round-pointer m i (some p) f h k = k p

pub instances-set_slave : (m : Master) (i : ℕ) (x : Slave) → (set_slave m i x).instances i ≡ x
unfolding set_slave
instances-set_slave m i x = ground arith

-- The slave after the flag of a lost command is cleared.
unfoldable pub retried : Env → Slave → Slave
retried e x =
    if x.reconf_sent && ltb (x.slave_reconf_sent_time + sentinel_slave_reconf_retry_period) e.now
    then record x { reconf_sent = false }
    else x

retried-keeps :
    (e : Env) (x : Slave)
    → ((retried e x).promoted ≡ x.promoted)
      × (is_reconf x ≡ false → is_reconf (retried e x) ≡ false)
unfolding retried
retried-keeps e x = (ground arith, λ r. ground (arith, r))

visit_none : (m : Master) (i : ℕ) → Visits m i (false, m)
visit_none m i = record { keeps = Keeps-refl m; others = λ j h. refl; sent = λ b r. r }

visit_retried :
    (e : Env) (m : Master) (i : ℕ) → Visits m i (false, set_slave m i (retried e (m.instances i)))
unfolding set_slave
visit_retried e m i =
    let x = m.instances i in
    record {
      keeps = set_slave-Keeps m i (retried e x) (retried-keeps e x).0;
      others = λ j h. ground (arith, h);
      sent = λ b r. ground (arith, (retried-keeps e x).1 r);
    }

visit_sent :
    (e : Env) (m n : Master) (i : ℕ) (a : Option Addr) (x : Slave)
    → Keeps m n
    → (n.instances i).promoted ≡ x.promoted
    → ((j : ℕ) → (i == j) ≡ false → n.instances j ≡ m.instances j)
    → Visits m i (true, set_slave (send_slaveof e n i a) i x)
unfolding set_slave
visit_sent e m n i a x k p h = record {
  keeps = Keeps-trans k (tell-Keeps e n i a x (sym p));
  others = λ j f.
      ground (arith, f, ap is_reconf (ap (λ at. at j) (instances-send_slaveof e n i a) ∙ h j f));
  sent = λ b r. absurd (cc);
}

others-set_slave :
    (m : Master) (i j : ℕ) (x : Slave)
    → (i == j) ≡ false
    → (set_slave m i x).instances j ≡ m.instances j
unfolding set_slave
others-set_slave m i j x h = ground (arith, h)

pub reconf_one-Round :
    (e : Env) (m : Master) (i : ℕ) → is_some m.promoted_slave ≡ true → Round m i (reconf_one e m i)
unfolding reconf_one retried
reconf_one-Round e m i h =
    let x = m.instances i in
    let y = retried e x in
    let m1 = set_slave m i y in
    let v = visit_retried e m i in
    Round-if m i (x.promoted || x.reconf_done) _ _ ((false, m), refl, visit_none m i)
      (λ t.
        Round-if m i (y.disconnected || y.reconf_sent || y.reconf_inprog) _ _ ((false, m1), refl, v)
          (λ t. Round-pointer m i m.promoted_slave _ h (λ p.
            Round-if m i (e.accepts y) _ _
              (
                _,
                refl,
                visit_sent e m m1 i _ _ v.keeps (ap (λ z. z.promoted) (instances-set_slave m i y))
                    (λ j f. others-set_slave m i j y f),
              )
              (λ t. ((false, m1), refl, v)))))

pub reconf_loop-Returns :
    (e : Env) (is : List ℕ) (n : ℕ) (m : Master)
    → is_some m.promoted_slave ≡ true
    → Returns (Keeps m) (reconf_loop e n is m)
unfolding reconf_loop
reconf_loop-Returns e [] n m p = (m, refl, Keeps-refl m)
reconf_loop-Returns e (i ∷ is) n m p = elim (Bool-cases (ltb n m.parallel_syncs)) [
  | inl t ↦
      let (r, q, v) = reconf_one-Round e m i p in
      let (o, s, l) =
        reconf_loop-Returns e is (n + (if r.0 then 1 else 0)) r.1
          (ap is_some v.keeps.promoted_slave ∙ p) in
      (o, rw (reconf_loop, t, q) s, Keeps-trans v.keeps l)
  | inr t ↦ (m, rw (reconf_loop, t) refl, Keeps-refl m)
]

Keeps-unless : (m : Master) {n : Master} (b : Bool) → Keeps m n → Keeps m (if b then m else n)
Keeps-unless m true h = Keeps-refl m
Keeps-unless m false h = h

pub reconf_best_effort-Keeps :
    (e : Env) (a : Addr) (is : List ℕ) (m : Master) → Keeps m (reconf_best_effort e a is m)
unfolding reconf_best_effort
reconf_best_effort-Keeps e a [] m = Keeps-refl m
reconf_best_effort-Keeps e a (i ∷ is) m =
    let x = m.instances i in
    Keeps-trans
      (Keeps-unless m (x.reconf_done || x.reconf_sent || x.disconnected || not (e.accepts x))
        (tell-Keeps e m i (some a) (record x { reconf_sent = true }) refl))
      (reconf_best_effort-Keeps e a is _)

pub failover_detect_end-IsFailover :
    (e : Env) (m : Master)
    → is_late m.failover_state ≡ true
    → IsFailover m
    → IsFailover (failover_detect_end e m)
unfolding failover_detect_end is_busy is_late has_promoted IsFailover
failover_detect_end-IsFailover e m l h =
    on_option m.promoted_slave m _ (λ o. h)
      (λ p o.
        let timeout = ltb (m.failover_state_change_time + m.failover_timeout) e.now in
        let finished =
          timeout || elim (keep_if (not_reconfigured m) m.slaves) [ [] ↦ true | i ∷ is ↦ false ] in
        let m1 =
          if finished
          then record m { failover_state = update_config; failover_state_change_time = e.now }
          else m in
        let h1 : IsFailover m1 =
          on_if finished _ m
            (λ f.
              advance-IsFailover m m.failover_state update_config e.now h refl (late_busy _ l) l
                (late_promoted _ l))
            (λ f. h) in
        let l1 : is_late m1.failover_state ≡ true = ground arith in
        on_if (m.instances p).s_down m _ (λ s. h)
          (λ s.
            on_if (timeout && m.i_am_the_leader) _ m1
              (λ b.
                late_keep m1 _ l1 h1 (reconf_best_effort-Keeps e (m.instances p).addr m.slaves m1))
              (λ b. h1)))

pub failover_reconf_next_slave-Returns :
    (e : Env) (m : Master)
    → is_late m.failover_state ≡ true
    → IsFailover m
    → Returns IsFailover (failover_reconf_next_slave e m)
unfolding failover_reconf_next_slave IsFailover
failover_reconf_next_slave-Returns e m l h =
    let (n, q, k) =
      reconf_loop-Returns e m.slaves (count_in_progress m m.slaves) m
        (h.pointer ∙ late_promoted _ l) in
    (
      failover_detect_end e n,
      rw (failover_reconf_next_slave, q) refl,
      failover_detect_end-IsFailover e n (ap is_late k.failover_state ∙ l) (late_keep m n l h k),
    )
