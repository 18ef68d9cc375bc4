-- ===== src/Sentinel/Select/Best.antt =====
-- redis-2.6.14/src/sentinel.c: the slave that is chosen is the best one.
use galery.Prelude.{
  ℕ, ◌≤◌, ltb, ◌≡◌, refl, sym, ap, ◌∙◌, ◌⊎◌, inl, inr, Option, none, some, List, [], ◌∷◌, Bool,
  true, false, ◌&&◌, ◌||◌, ◌==◌, Bool-cases, arith,
}
use galery.Prelude.Int.{ℤ, pos, leb_ℤ}
use galery.Sentinel.{Master, Env, keep_if, is_member}
use galery.Sentinel.Select.{compare_slaves_for_promotion, is_suitable, choose_slave}
use galery.Sentinel.Invariant.{same_index}
use galery.Sentinel.Invariant.Start.{IsSort}

-- What a comparison says: the first does not stand after the second.
abbrev pub not_after : ℤ → Bool
not_after z = leb_ℤ z (pos 0)

-- A comparison that qsort can sort by.
pub record IsOrder {A : Type 0} (cmp : A → A → ℤ) : Type 0 where
  pub total : (a b : A) → not_after (cmp a b) || not_after (cmp b a) ≡ true
  pub trans :
      (a b c : A)
      → not_after (cmp a b) ≡ true
      → not_after (cmp b c) ≡ true
      → not_after (cmp a c) ≡ true

-- The first element of a sorted array is not after another.
unfoldable pub IsLeastFirst : ((ℕ → ℕ → ℤ) → List ℕ → List ℕ) → Type 0
IsLeastFirst sort =
    (cmp : ℕ → ℕ → ℤ)
    → IsOrder cmp
    → (l : List ℕ) (j : ℕ) (js : List ℕ) → sort cmp l ≡ j ∷ js
    → (i : ℕ) → is_member i l ≡ true
    → not_after (cmp j i) ≡ true

-- A run id that is NULL stands last.
abbrev runid_before : (List ℕ → List ℕ → ℤ) → Option (List ℕ) → Option (List ℕ) → Bool
runid_before cmp none none = true
runid_before cmp none (some s) = false
runid_before cmp (some r) none = true
runid_before cmp (some r) (some s) = not_after (cmp r s)

runid_before_total :
    (cmp : List ℕ → List ℕ → ℤ)
    → IsOrder cmp
    → (r s : Option (List ℕ)) → runid_before cmp r s || runid_before cmp s r ≡ true
runid_before_total cmp o none none = refl
runid_before_total cmp o none (some s) = refl
runid_before_total cmp o (some r) none = refl
runid_before_total cmp o (some r) (some s) = o.total r s

runid_before_trans :
    (cmp : List ℕ → List ℕ → ℤ)
    → IsOrder cmp
    → (r s t : Option (List ℕ)) → runid_before cmp r s ≡ true
    → runid_before cmp s t ≡ true
    → runid_before cmp r t ≡ true
runid_before_trans cmp o none none t h k = k
runid_before_trans cmp o none (some s) t h k = absurd (cc)
runid_before_trans cmp o (some r) s none h k = refl
runid_before_trans cmp o (some r) none (some t) h k = absurd (cc)
runid_before_trans cmp o (some r) (some s) (some t) h k = o.trans r s t h k

-- The order: by priority, then by run id.
compare_slaves_iff :
    (e : Env) (m : Master) (a b : ℕ)
    → not_after (compare_slaves_for_promotion e m a b) ≡ (
        ltb (m.instances a).slave_priority (m.instances b).slave_priority
        || ((m.instances a).slave_priority == (m.instances b).slave_priority)
          && runid_before e.strcasecmp (m.instances a).runid (m.instances b).runid)
unfolding compare_slaves_for_promotion
compare_slaves_iff e m a b = ground arith

pub compare_slaves-IsOrder :
    (e : Env) (m : Master) → IsOrder e.strcasecmp → IsOrder (compare_slaves_for_promotion e m)
compare_slaves-IsOrder e m o = record {
  total = λ a b. ground (
    arith,
    compare_slaves_iff e m a b,
    compare_slaves_iff e m b a,
    runid_before_total e.strcasecmp o (m.instances a).runid (m.instances b).runid,
  );
  trans = λ a b c h k. ground (
    arith,
    compare_slaves_iff e m a b,
    compare_slaves_iff e m b c,
    compare_slaves_iff e m a c,
    h,
    k,
    runid_before_trans e.strcasecmp o (m.instances a).runid (m.instances b).runid
        (m.instances c).runid,
  );
}

is_member-keep_if_iff :
    (p : ℕ → Bool) (l : List ℕ) (i : ℕ) → is_member i (keep_if p l) ≡ (is_member i l && p i)
unfolding keep_if is_member
is_member-keep_if_iff p [] i = refl
is_member-keep_if_iff p (j ∷ js) i = elim (Bool-cases (j == i)) [
  | inl t ↦ ground (arith, is_member-keep_if_iff p js i, ap p (same_index j i t), t)
  | inr f ↦ ground (arith, is_member-keep_if_iff p js i, f)
]

-- The first of a list after it is sorted, if any.
first_of : (List ℕ → List ℕ) → List ℕ → Option ℕ
first_of sort l = elim l [
  | [] ↦ none
  | i ∷ is ↦ elim (sort (i ∷ is)) [ [] ↦ none | j ∷ js ↦ some j ]
]

-- None of an empty list, else an element that stands after no other.
abbrev pub IsFirst : (ℕ → ℕ → ℤ) → List ℕ → Option ℕ → Type 0
IsFirst cmp l o =
    ((o ≡ none) × ((i : ℕ) → is_member i l ≡ false))
    ⊎ ((j : ℕ) × (o ≡ some j)
        × (is_member j l ≡ true)
        × ((i : ℕ) → is_member i l ≡ true → not_after (cmp j i) ≡ true))

sorted-IsFirst :
    (cmp : ℕ → ℕ → ℤ) (i : ℕ) (is s : List ℕ)
    → ((k : ℕ) → is_member k s ≡ is_member k (i ∷ is))
    → ((j : ℕ) (js : List ℕ)
        → s ≡ j ∷ js
        → (k : ℕ) → is_member k (i ∷ is) ≡ true
        → not_after (cmp j k) ≡ true)
    → IsFirst cmp (i ∷ is) (elim s [ [] ↦ none | j ∷ js ↦ some j ])
unfolding is_member
sorted-IsFirst cmp i is [] h k = absurd (ground (arith, h i))
sorted-IsFirst cmp i is (j ∷ js) h k = inr (j, refl, sym (h j) ∙ ground arith, k j js refl)

first_of-IsFirst :
    (sort : (ℕ → ℕ → ℤ) → List ℕ → List ℕ) (cmp : ℕ → ℕ → ℤ) (l : List ℕ)
    → IsSort sort
    → IsLeastFirst sort
    → IsOrder cmp
    → IsFirst cmp l (first_of (sort cmp) l)
unfolding first_of IsSort IsLeastFirst is_member
first_of-IsFirst sort cmp [] s h o = inl (refl, λ i. refl)
first_of-IsFirst sort cmp (i ∷ is) s h o =
    sorted-IsFirst cmp i is (sort cmp (i ∷ is)) (s cmp (i ∷ is)) (h cmp o (i ∷ is))

first_of-member :
    (sort : List ℕ → List ℕ) (l : List ℕ)
    → ((l : List ℕ) (i : ℕ) → is_member i (sort l) ≡ is_member i l)
    → ((first_of sort l ≡ none) × ((i : ℕ) → is_member i l ≡ false))
      ⊎ ((j : ℕ) × (first_of sort l ≡ some j) × (is_member j l ≡ true))
unfolding first_of is_member
first_of-member sort [] s = inl (refl, λ i. refl)
first_of-member sort (i ∷ is) s =
    elim (sorted-IsFirst (λ a b. pos 0) i is (sort (i ∷ is)) (s (i ∷ is)) (λ j js h k t. refl)) [
      | inl (n, a) ↦ inl (n, a)
      | inr (j, q, k, b) ↦ inr (j, q, k)
    ]

-- None where no slave is suitable, else a suitable slave of the dict.
unfoldable pub IsSuitable : Env → Master → Option ℕ → Type 0
IsSuitable e m o =
    ((o ≡ none) × ((i : ℕ) → is_member i m.slaves ≡ true → is_suitable e m i ≡ false))
    ⊎ ((j : ℕ) × (o ≡ some j) × (is_member j m.slaves ≡ true) × (is_suitable e m j ≡ true))

pub choose_slave-IsSuitable :
    (e : Env) (m : Master) → IsSort e.sort_slaves → IsSuitable e m (choose_slave e m)
unfolding IsSuitable choose_slave first_of IsSort
choose_slave-IsSuitable e m s =
    let cmp = compare_slaves_for_promotion e m in
    let member = is_member-keep_if_iff (is_suitable e m) m.slaves in
    elim (first_of-member (e.sort_slaves cmp) (keep_if (is_suitable e m) m.slaves) (s cmp)) [
      | inl (n, a) ↦ inl (n, λ i k. ground (arith, member i, a i, k))
      | inr (j, q, k) ↦ inr (j, q, ground (arith, member j, k), ground (arith, member j, k))
    ]

-- What the choice is to be: none where no slave is suitable, else a suitable slave of the dict with the
-- least priority, and the least run id of those.
unfoldable pub IsBest : Env → Master → Option ℕ → Type 0
IsBest e m o =
    ((o ≡ none) × ((i : ℕ) → is_member i m.slaves ≡ true → is_suitable e m i ≡ false))
    ⊎ ((j : ℕ) × (o ≡ some j)
        × (is_member j m.slaves ≡ true)
        × (is_suitable e m j ≡ true)
        × ((i : ℕ)
            → is_member i m.slaves ≡ true
            → is_suitable e m i ≡ true
            → ((m.instances j).slave_priority ≤ (m.instances i).slave_priority)
              × (not_after (compare_slaves_for_promotion e m j i) ≡ true)))

-- With a sort that keeps the elements of an array and puts the least first, and a strcasecmp that
-- orders run ids: where no slave of the dict is suitable none is chosen, else a suitable slave of
-- the dict is, and no suitable slave has a lower priority or stands before it.
pub choose_slave-IsBest :
    (e : Env) (m : Master)
    → IsSort e.sort_slaves
    → IsLeastFirst e.sort_slaves
    → IsOrder e.strcasecmp
    → IsBest e m (choose_slave e m)
unfolding choose_slave IsBest first_of
choose_slave-IsBest e m s h o =
    let cmp = compare_slaves_for_promotion e m in
    let member = is_member-keep_if_iff (is_suitable e m) m.slaves in
    elim (first_of-IsFirst e.sort_slaves cmp (keep_if (is_suitable e m) m.slaves) s h
      (compare_slaves-IsOrder e m o)) [
        | inl (n, a) ↦ inl (n, λ i k. ground (arith, member i, a i, k))
        | inr (j, q, k, b) ↦ inr (
          j,
          q,
          ground (arith, member j, k),
          ground (arith, member j, k),
          λ i t u.
              let c = b i (member i ∙ ground (arith, t, u)) in
              (ground (arith, compare_slaves_iff e m j i, c), c),
        )
      ]
