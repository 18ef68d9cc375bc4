-- ===== src/Sentinel/Failover/Syncs.antt =====
-- redis-2.6.14/src/sentinel.c: how many slaves a failover reconfigures at a time.
use galery.Prelude.{
  ℕ, ◌+◌, ◌≤◌, max, ltb, ◌≡◌, refl, ap, subst, ◌∙◌, inl, inr, some, List, [], ◌∷◌, Bool, true,
  false, ◌==◌, if◌then◌else◌, Bool-cases, arith,
}
use galery.Sentinel.{Master, Env, is_member}
use galery.Sentinel.Failover.{reconf_loop, count_in_progress}
use galery.Sentinel.Invariant.{is_some, is_reconf, same_index}
use galery.Sentinel.Invariant.Reconf.{Visits, reconf_one-Round}

-- A dict has no slave twice.
unfoldable pub Distinct : List ℕ → Type 0
Distinct [] = Unit
Distinct (i ∷ is) = (is_member i is ≡ false) × Distinct is

count-same :
    (m n : Master) (i : ℕ) (l : List ℕ)
    → is_member i l ≡ false
    → ((j : ℕ) → (i == j) ≡ false → is_reconf (n.instances j) ≡ is_reconf (m.instances j))
    → count_in_progress n l ≡ count_in_progress m l
unfolding count_in_progress is_member
count-same m n i [] h o = refl
count-same m n i (j ∷ js) h o = ground (arith, h, o j, count-same m n i js)

count-visit :
    (m : Master) (i : ℕ) (r : Bool × Master) (l : List ℕ)
    → Visits m i r
    → Distinct l
    → count_in_progress r.1 l ≤ count_in_progress m l + (if r.0 then 1 else 0)
unfolding count_in_progress Distinct
count-visit m i r [] v d = omega arith
count-visit m i r (j ∷ js) v (f, d) = elim (Bool-cases (i == j)) [
  | inl t ↦
      let w = subst (λ k. Visits m k r) (same_index i j t) v in
      ground (arith, count-same m r.1 j js f w.others, w.sent)
  | inr u ↦ ground (arith, v.others j u, count-visit m i r js v d)
]

reconf_loop-bound :
    (e : Env) (is : List ℕ) (c : ℕ) (m : Master) (l : List ℕ)
    → is_some m.promoted_slave ≡ true
    → Distinct l
    → count_in_progress m l ≤ c
    → (n : Master) × (reconf_loop e c is m ≡ some n)
      × (count_in_progress n l ≤ max c m.parallel_syncs)
unfolding reconf_loop
reconf_loop-bound e [] c m l p d h = (m, refl, omega (arith, h))
reconf_loop-bound e (i ∷ is) c m l p d h = elim (Bool-cases (ltb c m.parallel_syncs)) [
  | inl t ↦
      let (r, q, v) = reconf_one-Round e m i p in
      let c1 = c + (if r.0 then 1 else 0) in
      let (n, s, b) =
        reconf_loop-bound e is c1 r.1 l (ap is_some v.keeps.promoted_slave ∙ p) d
          (omega (arith, h, count-visit m i r l v d)) in
      (n, rw (reconf_loop, t, q) s, ground (arith, t, b, v.keeps.parallel_syncs))
  | inr t ↦ (m, rw (reconf_loop, t) refl, omega (arith, h))
]

-- With a promoted slave and no slave twice in the dict, the loop that sends SLAVEOF returns, and
-- leaves at most `parallel_syncs` slaves being reconfigured, or as many as were before.
pub reconf_loop-in_progress :
    (e : Env) (m : Master)
    → is_some m.promoted_slave ≡ true
    → Distinct m.slaves
    → (n : Master) × (reconf_loop e (count_in_progress m m.slaves) m.slaves m ≡ some n)
      × (count_in_progress n m.slaves ≤ max (count_in_progress m m.slaves) m.parallel_syncs)
reconf_loop-in_progress e m p d = reconf_loop-bound e m.slaves _ m m.slaves p d (omega arith)
