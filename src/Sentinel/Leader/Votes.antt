-- ===== src/Sentinel/Leader/Votes.antt =====
-- redis-2.6.14/src/sentinel.c: the elected leader and the votes that it has.
use galery.Prelude.{
  ℕ, ◌+◌, ◌/◌, ◌≤◌, ltb, ◌≡◌, ◌≢◌, ◌↔◌, refl, sym, ap, ◌∙◌, ◌⊎◌, inl, inr, Option, none, some, List,
  [], ◌∷◌, false, ◌&&◌, ◌||◌, if◌then◌else◌, length, same_bytes, same_bytes→eq, same_bytes_refl,
  Bool-cases, arith,
}
use galery.Sentinel.{Master, Env}
use galery.Sentinel.Leader.{leader_incr, count_votes, find_winner, ballots, get_objective_leader}

-- The votes for a run id.
unfoldable pub votes_for : List ℕ → List (List ℕ) → ℕ
votes_for r [] = 0
votes_for r (v ∷ vs) = (if same_bytes v r then 1 else 0) + votes_for r vs

-- The first counter of a run id, and the sum of all.
lookup : List ℕ → List (List ℕ × ℕ) → ℕ
lookup r [] = 0
lookup r ((k, v) ∷ cs) = if same_bytes k r then v else lookup r cs

sum_for : List ℕ → List (List ℕ × ℕ) → ℕ
sum_for r [] = 0
sum_for r ((k, v) ∷ cs) = (if same_bytes k r then v else 0) + sum_for r cs

-- Two different run ids do not count for one.
same_key : (k x r : List ℕ) → same_bytes k x ≡ false → same_bytes k r && same_bytes x r ≡ false
same_key k x r f = elim (Bool-cases (same_bytes k r && same_bytes x r)) [
  | inl t ↦
      let e : k ≡ r = same_bytes→eq k r (ground (arith, t)) in
      let g : x ≡ r = same_bytes→eq x r (ground (arith, t)) in
      absurd (ground (arith, f, ap (same_bytes k) (g ∙ sym e), same_bytes_refl k))
  | inr t ↦ t
]

lookup-incr :
    (r x : List ℕ) (cs : List (List ℕ × ℕ))
    → lookup r (leader_incr cs x) ≡ (if same_bytes x r then 1 else 0) + lookup r cs
unfolding lookup leader_incr
lookup-incr r x [] = ground arith
lookup-incr r x ((k, v) ∷ cs) = elim (Bool-cases (same_bytes k x)) [
  | inl t ↦ rw (leader_incr, t) (ground (arith, ap (λ y. same_bytes y r) (same_bytes→eq k x t)))
  | inr f ↦ rw (leader_incr, f) (ground (arith, lookup-incr r x cs, same_key k x r f))
]

sum_for-incr :
    (r x : List ℕ) (cs : List (List ℕ × ℕ))
    → sum_for r (leader_incr cs x) ≡ (if same_bytes x r then 1 else 0) + sum_for r cs
unfolding sum_for leader_incr
sum_for-incr r x [] = ground arith
sum_for-incr r x ((k, v) ∷ cs) = ground (arith, sum_for-incr r x cs, same_bytes→eq k x)

lookup-count :
    (r : List ℕ) (vs : List (List ℕ)) (cs : List (List ℕ × ℕ))
    → lookup r (count_votes cs vs) ≡ votes_for r vs + lookup r cs
unfolding count_votes votes_for
lookup-count r [] cs = omega arith
lookup-count r (v ∷ vs) cs = omega (arith, lookup-count r vs (leader_incr cs v), lookup-incr r v cs)

sum_for-count :
    (r : List ℕ) (vs : List (List ℕ)) (cs : List (List ℕ × ℕ))
    → sum_for r (count_votes cs vs) ≡ votes_for r vs + sum_for r cs
unfolding count_votes votes_for
sum_for-count r [] cs = omega arith
sum_for-count r (v ∷ vs) cs =
    omega (arith, sum_for-count r vs (leader_incr cs v), sum_for-incr r v cs)

find_winner-bound :
    (r : List ℕ) (cs : List (List ℕ × ℕ)) (n : ℕ) (w : Option (List ℕ))
    → (n ≤ (find_winner cs n w).0) × (lookup r cs ≤ (find_winner cs n w).0)
unfolding find_winner lookup
find_winner-bound r [] n w = (omega arith, omega arith)
find_winner-bound r ((k, v) ∷ cs) n w = elim (Bool-cases (ltb n v)) [
  | inl t ↦
      let h = find_winner-bound r cs v (some k) in
      rw (find_winner, t) (ground (arith, t, h), ground (arith, t, h))
  | inr t ↦ let h = find_winner-bound r cs n w in rw (find_winner, t) (h.0, ground (arith, t, h))
]

-- The winner is the one it was, or has a counter.
Wins : ℕ → Option (List ℕ) → List (List ℕ × ℕ) → ℕ × Option (List ℕ) → Type 0
Wins n w cs r = ((r.0 ≡ n) × (r.1 ≡ w)) ⊎ ((k : List ℕ) × (r.1 ≡ some k) × (r.0 ≤ sum_for k cs))

find_winner-Wins :
    (cs : List (List ℕ × ℕ)) (n : ℕ) (w : Option (List ℕ)) → Wins n w cs (find_winner cs n w)
unfolding find_winner Wins sum_for
find_winner-Wins [] n w = inl (refl, refl)
find_winner-Wins ((k, v) ∷ cs) n w = elim (Bool-cases (ltb n v)) [
  | inl t ↦
      rw (find_winner, t)
        (elim (find_winner-Wins cs v (some k)) [
          | inl (l, q) ↦ inr (k, q, ground (arith, l, same_bytes_refl k))
          | inr (j, q, l) ↦ inr (j, q, omega (arith, l))
        ])
  | inr t ↦
      rw (find_winner, t)
        (elim (find_winner-Wins cs n w) [
          | inl h ↦ inl h
          | inr (j, q, l) ↦ inr (j, q, omega (arith, l))
        ])
]

differ : (r s : List ℕ) → same_bytes r s ≡ false → r ≢ s
differ r s f h = absurd (ground (arith, f, ap (same_bytes r) (sym h), same_bytes_refl r))

-- Two run ids share the votes.
votes_for-two :
    (r s : List ℕ) (vs : List (List ℕ)) → r ≢ s → votes_for r vs + votes_for s vs ≤ length vs
unfolding votes_for
votes_for-two r s [] h = omega arith
votes_for-two r s (v ∷ vs) h =
    ground (arith, votes_for-two r s vs h, same_bytes→eq v r, same_bytes→eq v s)

-- Two run ids with a majority are one.
majority :
    (r s : List ℕ) (vs : List (List ℕ))
    → length vs / 2 + 1 ≤ votes_for r vs
    → length vs / 2 + 1 ≤ votes_for s vs
    → r ≡ s
majority r s vs h k = elim (Bool-cases (same_bytes r s)) [
  | inl t ↦ same_bytes→eq r s t
  | inr f ↦ absurd (omega (arith, h, k, votes_for-two r s vs (differ r s f)))
]

none-some : {A : Type 0} {a : A} → none ≢ some a
none-some h = cc

some-injective : {A : Type 0} {a b : A} → some a ≡ some b → a ≡ b
some-injective {a = a} h = ap (λ o. elim o [ none ↦ a | some x ↦ x ]) h

-- The last test.
winner_if :
    (n a q : ℕ) (o : Option (List ℕ)) (w : List ℕ)
    → ((if ltb n a || ltb n q then none else o) ≡ some w) ↔ ((o ≡ some w) × (a ≤ n) × (q ≤ n))
winner_if n a q o w = elim (Bool-cases (ltb n a || ltb n q)) [
  | inl t ↦ rw (t) (λ h. absurd (none-some h), λ h. absurd (ground (arith, t, h.1, h.2)))
  | inr f ↦ rw (f) (λ h. (h, ground (arith, f), ground (arith, f)), λ h. h.0)
]

-- The vote of more than half of the voters, and of the quorum.
unfoldable pub IsElected : List ℕ → Env → Master → Type 0
IsElected w e m =
    (length (ballots e m) / 2 + 1 ≤ votes_for w (ballots e m))
    × (m.quorum ≤ votes_for w (ballots e m))

-- The objective leader is a given run id exactly if that run id has the votes of more than half of
-- the voters and at least the quorum of the master.
pub get_objective_leader-IsElected :
    (e : Env) (m : Master) (w : List ℕ) → (get_objective_leader e m ≡ some w) ↔ IsElected w e m
unfolding get_objective_leader IsElected Wins lookup sum_for
get_objective_leader-IsElected e m w =
    let bs = ballots e m in
    let r = find_winner (count_votes [] bs) 0 none in
    let a = length bs / 2 + 1 in
    let bound = (find_winner-bound w (count_votes [] bs) 0 none).1 in
    let counted = lookup-count w bs [] in
    let d = winner_if r.0 a m.quorum r.1 w in
    elim (find_winner-Wins (count_votes [] bs) 0 none) [
      | inl (z, n) ↦ (
        λ h. absurd (none-some (sym n ∙ (d.0 h).0)),
        λ h. absurd (omega (arith, h.0, bound, counted, z)),
      )
      | inr (k, q, l) ↦
          let own = sum_for-count k bs [] in
          (
            λ h.
                let (g, x, y) = d.0 h in
                let c = ap (λ v. votes_for v bs) (some-injective (sym q ∙ g)) in
                (omega (arith, x, l, own, c), omega (arith, y, l, own, c)),
            λ h. d.1 (
              q ∙ ap some (majority k w bs (omega (arith, l, own, bound, counted, h.0)) h.0),
              omega (arith, h.0, bound, counted),
              omega (arith, h.1, bound, counted),
            ),
          )
    ]
