-- ===== src/Sentinel/Invariant.antt =====
-- redis-2.6.14/src/sentinel.c: how the state of a failover, the promoted slave and the flags of the slaves
-- agree.
pub mod Abort
pub mod Start
pub mod Begin
pub mod Reconf
pub mod Steps
pub mod Roles
pub mod Replies
pub mod Reach
use galery.Prelude.{
  ℕ, ◌≡◌, refl, sym, ap, ◌∙◌, subst, ◌⊎◌, inl, inr, Option, none, some, List, [], ◌∷◌, ◌++◌, Bool,
  true, false, not, ◌&&◌, ◌||◌, ◌==◌, if◌then◌else◌, Bool-cases, arith,
}
use galery.Sentinel.{
  FailoverState, no_failover, wait_start, select_slave, send_slaveof_noone, wait_promotion,
  reconf_slaves, detect_end, update_config, Addr, Slave, Master, Env, set_slave, send_slaveof,
  is_member, each_slave,
}

-- The states of a failover in progress, those with a slave that is being promoted, and those in which
-- slaves are reconfigured.
unfoldable pub is_busy : FailoverState → Bool
is_busy no_failover = false
is_busy _ = true

unfoldable pub is_late : FailoverState → Bool
is_late reconf_slaves = true
is_late detect_end = true
is_late update_config = true
is_late _ = false

unfoldable pub has_promoted : FailoverState → Bool
has_promoted send_slaveof_noone = true
has_promoted wait_promotion = true
has_promoted s = is_late s

abbrev pub points_to : Option ℕ → ℕ → Bool
points_to none i = false
points_to (some p) i = i == p

abbrev pub is_some : {A : Type 0} → Option A → Bool
is_some none = false
is_some (some a) = true

abbrev pub is_reconf : Slave → Bool
is_reconf x = x.reconf_sent || x.reconf_inprog

pub record IsFailoverOf (busy leader : Bool) (state : FailoverState) (promoted : Option ℕ)
    (slaves : List ℕ) (at : ℕ → Slave) : Type 0 where
  pub in_progress : busy ≡ is_busy state
  pub observer : leader ≡ false → is_busy state ≡ is_late state
  pub pointer : is_some promoted ≡ has_promoted state
  pub flag : (i : ℕ) → is_member i slaves ≡ true → (at i).promoted ≡ points_to promoted i
  pub member : (i : ℕ) → points_to promoted i ≡ true → is_member i slaves ≡ true
  pub reconf :
      (i : ℕ) → is_member i slaves ≡ true → is_late state ≡ false → is_reconf (at i) ≡ false

unfoldable pub IsFailover : Master → Type 0
IsFailover m =
    IsFailoverOf m.failover_in_progress m.i_am_the_leader m.failover_state m.promoted_slave m.slaves
      m.instances

-- The fields that a failover is about, which an operation leaves as they are, with SRI_PROMOTED of
-- the slaves.
pub record Keeps (m n : Master) : Type 0 where
  pub slaves : n.slaves ≡ m.slaves
  pub promoted_slave : n.promoted_slave ≡ m.promoted_slave
  pub failover_state : n.failover_state ≡ m.failover_state
  pub parallel_syncs : n.parallel_syncs ≡ m.parallel_syncs
  pub leader : n.i_am_the_leader ≡ m.i_am_the_leader
  pub in_progress : n.failover_in_progress ≡ m.failover_in_progress
  pub promoted : (i : ℕ) → (n.instances i).promoted ≡ (m.instances i).promoted

pub Keeps-refl : (m : Master) → Keeps m m
Keeps-refl m = record {
  slaves = refl;
  promoted_slave = refl;
  failover_state = refl;
  parallel_syncs = refl;
  leader = refl;
  in_progress = refl;
  promoted = λ i. refl;
}

pub Keeps-trans : {m n o : Master} → Keeps m n → Keeps n o → Keeps m o
Keeps-trans h k = record {
  slaves = k.slaves ∙ h.slaves;
  promoted_slave = k.promoted_slave ∙ h.promoted_slave;
  failover_state = k.failover_state ∙ h.failover_state;
  parallel_syncs = k.parallel_syncs ∙ h.parallel_syncs;
  leader = k.leader ∙ h.leader;
  in_progress = k.in_progress ∙ h.in_progress;
  promoted = λ i. k.promoted i ∙ h.promoted i;
}

pub Keeps-if : (m : Master) {n : Master} (b : Bool) → Keeps m n → Keeps m (if b then n else m)
Keeps-if m true h = h
Keeps-if m false h = Keeps-refl m

pub set_slave-Keeps :
    (m : Master) (i : ℕ) (x : Slave)
    → x.promoted ≡ (m.instances i).promoted
    → Keeps m (set_slave m i x)
unfolding set_slave
set_slave-Keeps m i x h = record {
  slaves = refl;
  promoted_slave = refl;
  failover_state = refl;
  parallel_syncs = refl;
  leader = refl;
  in_progress = refl;
  promoted = λ j. ground arith;
}

pub send_slaveof-Keeps :
    (e : Env) (m : Master) (i : ℕ) (a : Option Addr) → Keeps m (send_slaveof e m i a)
unfolding send_slaveof
send_slaveof-Keeps e m i a = Keeps-if m (e.accepts (m.instances i)) (record {
  slaves = refl;
  promoted_slave = refl;
  failover_state = refl;
  parallel_syncs = refl;
  leader = refl;
  in_progress = refl;
  promoted = λ i. refl;
})

pub keep-IsFailover :
    (m n : Master)
    → IsFailover m
    → Keeps m n
    → ((i : ℕ)
        → is_member i m.slaves ≡ true
        → is_late m.failover_state ≡ false
        → is_reconf (n.instances i) ≡ false)
    → IsFailover n
unfolding IsFailover
keep-IsFailover m n h k r = record {
  in_progress = k.in_progress ∙ h.in_progress ∙ ap is_busy (sym k.failover_state);
  observer = λ l.
      ap is_busy k.failover_state
      ∙ h.observer (sym k.leader ∙ l)
      ∙ ap is_late (sym k.failover_state);
  pointer = ap is_some k.promoted_slave ∙ h.pointer ∙ ap has_promoted (sym k.failover_state);
  flag = λ i e.
      k.promoted i
      ∙ h.flag i (ap (is_member i) (sym k.slaves) ∙ e)
      ∙ ap (λ o. points_to o i) (sym k.promoted_slave);
  member = λ i e.
      ap (is_member i) k.slaves ∙ h.member i (ap (λ o. points_to o i) (sym k.promoted_slave) ∙ e);
  reconf =
      λ i e l. r i (ap (is_member i) (sym k.slaves) ∙ e) (ap is_late (sym k.failover_state) ∙ l);
}

-- A call that returns, with the state it leaves.
abbrev pub Returns : (Master → Type 0) → Option Master → Type 0
Returns P o = (n : Master) × (o ≡ some n) × P n

pub on_if :
    (b : Bool) (m n : Master)
    → (b ≡ true → IsFailover m)
    → (b ≡ false → IsFailover n)
    → IsFailover (if b then m else n)
on_if true m n h k = h refl
on_if false m n h k = k refl

pub on_option :
    (o : Option ℕ) (m : Master) (f : ℕ → Master)
    → (o ≡ none → IsFailover m)
    → ((i : ℕ) → o ≡ some i → IsFailover (f i))
    → IsFailover (elim o [ none ↦ m | some i ↦ f i ])
on_option none m f h k = h refl
on_option (some i) m f h k = k i refl

pub Returns-some : (m : Master) → IsFailover m → Returns IsFailover (some m)
Returns-some m h = (m, refl, h)

pub Returns-if :
    (b : Bool) {m n : Option Master}
    → (b ≡ true → Returns IsFailover m)
    → (b ≡ false → Returns IsFailover n)
    → Returns IsFailover (if b then m else n)
Returns-if true h k = h refl
Returns-if false h k = k refl

pub Returns-pointer :
    (o : Option ℕ) {f : ℕ → Option Master}
    → is_some o ≡ true
    → ((i : ℕ) → o ≡ some i → Returns IsFailover (f i))
    → Returns IsFailover (elim o [ none ↦ none | some i ↦ f i ])
Returns-pointer none h k = absurd (cc)
Returns-pointer (some i) h k = k i refl

pub instances-send_slaveof :
    (e : Env) (m : Master) (i : ℕ) (a : Option Addr)
    → (send_slaveof e m i a).instances ≡ m.instances
unfolding send_slaveof
instances-send_slaveof e m i a = ground arith

pub same_index : (i j : ℕ) → (i == j) ≡ true → i ≡ j
same_index i j t = ground (arith, t)

pub points_to-empty : (o : Option ℕ) (i : ℕ) → is_some o ≡ false → points_to o i ≡ false
points_to-empty none i h = refl
points_to-empty (some p) i h = absurd (cc)

-- Another state of the same kind.
pub advance-IsFailover :
    (m : Master) (s0 s : FailoverState) (t : ℕ)
    → IsFailover m
    → m.failover_state ≡ s0
    → is_busy s0 ≡ is_busy s
    → is_late s0 ≡ is_late s
    → has_promoted s0 ≡ has_promoted s
    → IsFailover (record m { failover_state = s; failover_state_change_time = t })
unfolding IsFailover
advance-IsFailover m s0 s t h w b l p = record {
  in_progress = h.in_progress ∙ ap is_busy w ∙ b;
  observer = λ k. sym b ∙ ap is_busy (sym w) ∙ h.observer k ∙ ap is_late w ∙ l;
  pointer = h.pointer ∙ ap has_promoted w ∙ p;
  flag = h.flag;
  member = h.member;
  reconf = λ i r k. h.reconf i r (ap is_late w ∙ l ∙ k);
}

-- A write to a slave that leaves SRI_PROMOTED as it is, and begins a reconfiguration in the late
-- states only.
pub set_slave-IsFailover :
    (m : Master) (i : ℕ) (x : Slave)
    → IsFailover m
    → x.promoted ≡ (m.instances i).promoted
    → (is_late m.failover_state ≡ false → is_reconf (m.instances i) ≡ false → is_reconf x ≡ false)
    → IsFailover (set_slave m i x)
unfolding IsFailover set_slave
set_slave-IsFailover m i x h p r =
    keep-IsFailover m (set_slave m i x) h (set_slave-Keeps m i x p)
      (λ j k l. ground (arith, h.reconf j k l, r l))

pub send_slaveof-IsFailover :
    (e : Env) (m : Master) (i : ℕ) (a : Option Addr)
    → IsFailover m
    → IsFailover (send_slaveof e m i a)
unfolding IsFailover
send_slaveof-IsFailover e m i a h =
    keep-IsFailover m (send_slaveof e m i a) h (send_slaveof-Keeps e m i a)
      (λ j k l. ap (λ at. is_reconf (at j)) (instances-send_slaveof e m i a) ∙ h.reconf j k l)

pub tell_slave-IsFailover :
    (e : Env) (m : Master) (i : ℕ) (a : Option Addr) (x : Slave)
    → IsFailover m
    → x.promoted ≡ (m.instances i).promoted
    → (is_late m.failover_state ≡ false → is_reconf (m.instances i) ≡ false → is_reconf x ≡ false)
    → IsFailover (set_slave (send_slaveof e m i a) i x)
tell_slave-IsFailover e m i a x h p r =
    let k = send_slaveof-Keeps e m i a in
    let s = instances-send_slaveof e m i a in
    set_slave-IsFailover (send_slaveof e m i a) i x (send_slaveof-IsFailover e m i a h)
      (p ∙ ap (λ at. (at i).promoted) (sym s))
      (λ l c. r (ap is_late (sym k.failover_state) ∙ l) (ap (λ at. is_reconf (at i)) (sym s) ∙ c))

pub late_promoted : (s : FailoverState) → is_late s ≡ true → has_promoted s ≡ true
unfolding has_promoted is_late
late_promoted s h = ground arith

pub late_busy : (s : FailoverState) → is_late s ≡ true → is_busy s ≡ true
unfolding is_busy is_late
late_busy s h = ground arith
