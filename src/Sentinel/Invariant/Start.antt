-- ===== src/Sentinel/Invariant/Start.antt =====
-- redis-2.6.14/src/sentinel.c: the checks of a master and the first states of a failover keep its state
-- consistent.
use galery.Prelude.{
  ℕ, ◌+◌, leb, ◌≡◌, refl, sym, ap, ◌∙◌, Option, none, some, List, [], ◌∷◌, Bool, true, not, ◌||◌,
  arith,
}
use galery.Prelude.Int.{ℤ}
use galery.Sentinel.{
  wait_start, select_slave, send_slaveof_noone, wait_promotion, Slave, Master, Env, set_slave,
  send_slaveof, is_member, keep_if,
}
use galery.Sentinel.Down.{check_subjectively_down, check_slave_down, check_objectively_down}
use galery.Sentinel.Select.{choose_slave, is_suitable, compare_slaves_for_promotion}
use galery.Sentinel.Failover.{
  failover_wait_start, failover_select_slave, failover_send_slaveof_noone,
}
use galery.Sentinel.Invariant.{
  is_busy, is_late, has_promoted, IsFailover, send_slaveof-Keeps, points_to-empty,
  advance-IsFailover, set_slave-IsFailover, tell_slave-IsFailover, Returns, on_if, on_option,
  Returns-some, Returns-if, Returns-pointer,
}
use galery.Sentinel.Invariant.Abort.{abort_failover-IsFailover}

-- What qsort keeps: the elements.
unfoldable pub IsSort : ((ℕ → ℕ → ℤ) → List ℕ → List ℕ) → Type 0
IsSort sort = (cmp : ℕ → ℕ → ℤ) (l : List ℕ) (i : ℕ) → is_member i (sort cmp l) ≡ is_member i l

pub is_member-keep_if :
    (p : ℕ → Bool) (l : List ℕ) (i : ℕ) → is_member i (keep_if p l) ≡ true → is_member i l ≡ true
unfolding keep_if is_member
is_member-keep_if p [] i h = h
is_member-keep_if p (j ∷ js) i h = ground (arith, is_member-keep_if p js i)

head? : List ℕ → Option ℕ
head? l = elim l [ [] ↦ none | j ∷ js ↦ some j ]

head?-member : (l : List ℕ) (i : ℕ) → head? l ≡ some i → is_member i l ≡ true
unfolding head? is_member
head?-member [] i h = cc
head?-member (j ∷ js) i h = ground arith

first-member :
    (sort : List ℕ → List ℕ) (l : List ℕ) (i : ℕ)
    → (is_member i (sort l) ≡ is_member i l)
    → elim l [ [] ↦ none | j ∷ js ↦ head? (sort (j ∷ js)) ] ≡ some i
    → is_member i l ≡ true
first-member sort [] i q h = absurd (cc)
first-member sort (j ∷ js) i q h = sym q ∙ head?-member (sort (j ∷ js)) i h

pub choose_slave-member :
    (e : Env) (m : Master) (i : ℕ)
    → IsSort e.sort_slaves
    → choose_slave e m ≡ some i
    → is_member i m.slaves ≡ true
unfolding choose_slave head? IsSort
choose_slave-member e m i q h =
    let p = is_suitable e m in
    let cmp = compare_slaves_for_promotion e m in
    is_member-keep_if p m.slaves i
      (first-member (e.sort_slaves cmp) (keep_if p m.slaves) i (q cmp _ i) h)

pub check_subjectively_down-IsFailover :
    (e : Env) (m : Master) → IsFailover m → IsFailover (check_subjectively_down e m)
unfolding check_subjectively_down IsFailover
check_subjectively_down-IsFailover e m h = ground (arith)

pub failover_wait_start-IsFailover :
    (e : Env) (m : Master)
    → IsFailover m
    → m.failover_state ≡ wait_start
    → IsFailover (failover_wait_start e m)
unfolding failover_wait_start IsFailover is_busy has_promoted is_late
failover_wait_start-IsFailover e m h w =
    on_if (not (m.s_down || m.o_down || m.force_failover)) _ _
      (λ t. abort_failover-IsFailover e m h)
      (λ t.
        on_if (leb m.failover_start_time e.now) _ m
          (λ k. advance-IsFailover m wait_start select_slave e.now h w refl refl refl) (λ k. h))

pub check_objectively_down-IsFailover :
    (e : Env) (m : Master) → IsFailover m → IsFailover (check_objectively_down e m)
unfolding check_objectively_down IsFailover
check_objectively_down-IsFailover e m h = ground arith

pub check_slave_down-IsFailover :
    (e : Env) (m : Master) (i : ℕ) → IsFailover m → IsFailover (check_slave_down e m i)
unfolding check_slave_down
check_slave_down-IsFailover e m i h =
    set_slave-IsFailover m i _ h (ground arith) (λ l c. ground arith)

pub failover_select_slave-IsFailover :
    (e : Env) (m : Master)
    → IsSort e.sort_slaves
    → IsFailover m
    → m.failover_state ≡ select_slave
    → IsFailover (failover_select_slave e m)
unfolding failover_select_slave IsFailover is_busy has_promoted is_late set_slave
failover_select_slave-IsFailover e m q h w =
    on_option (choose_slave e m) _ _ (λ o. abort_failover-IsFailover e m h)
      (λ p o. record {
        in_progress = h.in_progress ∙ ap is_busy w;
        observer = λ l. ap is_busy (sym w) ∙ h.observer l ∙ ap is_late w;
        pointer = refl;
        flag = λ i t.
            ground (
              arith,
              h.flag i t,
              points_to-empty m.promoted_slave i (h.pointer ∙ ap has_promoted w),
            );
        member = λ i t. ground (arith, choose_slave-member e m p q o);
        reconf = λ i t l. ground (arith, h.reconf i t (ap is_late w));
      })

abbrev pending : Slave → Slave
pending x = record x { pending_commands = x.pending_commands + 1 }

pub failover_send_slaveof_noone-Returns :
    (e : Env) (m : Master)
    → IsFailover m
    → m.failover_state ≡ send_slaveof_noone
    → Returns IsFailover (failover_send_slaveof_noone e m)
unfolding failover_send_slaveof_noone IsFailover is_busy has_promoted is_late set_slave send_slaveof
failover_send_slaveof_noone-Returns e m h w =
    Returns-pointer m.promoted_slave (h.pointer ∙ ap has_promoted w) (λ p o.
      Returns-if ((m.instances p).disconnected || not (e.accepts (m.instances p)))
        (λ t. Returns-some m h)
        (λ t. Returns-some _ (
          advance-IsFailover (set_slave (send_slaveof e m p none) p (pending (m.instances p)))
            send_slaveof_noone wait_promotion e.now
            (tell_slave-IsFailover e m p none (pending (m.instances p)) h refl (λ l c. c))
            ((send_slaveof-Keeps e m p none).failover_state ∙ w) refl refl refl)))
