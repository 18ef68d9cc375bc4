-- ===== src/Examples/Sentinels/Sorting.antt =====
-- redis-2.6.14/src/sentinel.c: a sort and a comparison of byte strings for the runs.
use galery.Prelude.{
  ℕ, ◌≡◌, refl, sym, ap, subst, ◌∙◌, List, [], ◌∷◌, true, ◌||◌, ◌==◌, if◌then◌else◌, Bool-cases,
  inl, inr, arith,
}
use galery.Prelude.Int.{ℤ, pos, negsuc, sub_ℕ}
use galery.Sentinel.{is_member}
use galery.Sentinel.Invariant.{same_index}
use galery.Sentinel.Invariant.Start.{IsSort}
use galery.Sentinel.Select.Best.{IsOrder, IsLeastFirst, not_after}

unfoldable pub compare_bytes : List ℕ → List ℕ → ℤ
compare_bytes [] [] = pos 0
compare_bytes [] (y ∷ ys) = negsuc 0
compare_bytes (x ∷ xs) [] = pos 1
compare_bytes (x ∷ xs) (y ∷ ys) = if x == y then compare_bytes xs ys else sub_ℕ x y

compare_bytes_total :
    (a b : List ℕ) → not_after (compare_bytes a b) || not_after (compare_bytes b a) ≡ true
unfolding compare_bytes
compare_bytes_total [] [] = refl
compare_bytes_total [] (y ∷ ys) = refl
compare_bytes_total (x ∷ xs) [] = refl
compare_bytes_total (x ∷ xs) (y ∷ ys) = ground (arith, compare_bytes_total xs ys)

compare_bytes_trans :
    (a b c : List ℕ)
    → not_after (compare_bytes a b) ≡ true
    → not_after (compare_bytes b c) ≡ true
    → not_after (compare_bytes a c) ≡ true
unfolding compare_bytes
compare_bytes_trans [] b [] h k = refl
compare_bytes_trans [] b (z ∷ zs) h k = refl
compare_bytes_trans (x ∷ xs) [] c h k = absurd (cc)
compare_bytes_trans (x ∷ xs) (y ∷ ys) [] h k = absurd (cc)
compare_bytes_trans (x ∷ xs) (y ∷ ys) (z ∷ zs) h k =
    ground (arith, h, k, compare_bytes_trans xs ys zs)

pub compare_bytes-IsOrder : IsOrder compare_bytes
compare_bytes-IsOrder = record { total = compare_bytes_total; trans = compare_bytes_trans }

unfoldable pub insert : (ℕ → ℕ → ℤ) → ℕ → List ℕ → List ℕ
insert cmp x [] = x ∷ []
insert cmp x (y ∷ ys) =
    let rest = insert cmp x ys in if not_after (cmp x y) then x ∷ y ∷ ys else y ∷ rest

unfoldable pub sort : (ℕ → ℕ → ℤ) → List ℕ → List ℕ
sort cmp [] = []
sort cmp (x ∷ xs) = insert cmp x (sort cmp xs)

is_member-insert :
    (cmp : ℕ → ℕ → ℤ) (x i : ℕ) (l : List ℕ)
    → is_member i (insert cmp x l) ≡ ((x == i) || is_member i l)
unfolding insert is_member
is_member-insert cmp x i [] = refl
is_member-insert cmp x i (y ∷ ys) = elim (Bool-cases (not_after (cmp x y))) [
  | inl t ↦ rw (insert, t) refl
  | inr f ↦ rw (insert, f) (ground (arith, is_member-insert cmp x i ys))
]

pub sort-IsSort : IsSort sort
unfolding IsSort sort is_member
sort-IsSort cmp [] i = refl
sort-IsSort cmp (x ∷ xs) i =
    is_member-insert cmp x i (sort cmp xs) ∙ ap (λ b. (x == i) || b) (sort-IsSort cmp xs i)

-- The first element is not after another.
IsHeaded : (ℕ → ℕ → ℤ) → List ℕ → Type 0
IsHeaded cmp [] = Unit
IsHeaded cmp (j ∷ js) = (i : ℕ) → is_member i (j ∷ js) ≡ true → not_after (cmp j i) ≡ true

before_self :
    (cmp : ℕ → ℕ → ℤ) → IsOrder cmp → (x i : ℕ) → (x == i) ≡ true → not_after (cmp x i) ≡ true
before_self cmp o x i t =
    ap (λ k. not_after (cmp x k)) (sym (same_index x i t)) ∙ ground (arith, o.total x x)

insert-IsHeaded :
    (cmp : ℕ → ℕ → ℤ)
    → IsOrder cmp
    → (x : ℕ) (l : List ℕ) → IsHeaded cmp l
    → IsHeaded cmp (insert cmp x l)
unfolding IsHeaded insert is_member
insert-IsHeaded cmp o x [] h = λ i k. before_self cmp o x i (ground (arith, k))
insert-IsHeaded cmp o x (y ∷ ys) h = elim (Bool-cases (not_after (cmp x y))) [
  | inl t ↦
      rw (insert, t)
        (λ i k. elim (Bool-cases (x == i)) [
          | inl s ↦ before_self cmp o x i s
          | inr s ↦ o.trans x y i t (h i (ground (arith, k, s)))
        ])
  | inr f ↦
      rw (insert, f)
        (λ i k. elim (Bool-cases (x == i)) [
          | inl s ↦
              ap (λ z. not_after (cmp y z)) (sym (same_index x i s))
              ∙ ground (arith, f, o.total x y)
          | inr s ↦ h i (ground (arith, k, s, is_member-insert cmp x i ys))
        ])
]

sort-IsHeaded : (cmp : ℕ → ℕ → ℤ) → IsOrder cmp → (l : List ℕ) → IsHeaded cmp (sort cmp l)
unfolding IsHeaded sort
sort-IsHeaded cmp o [] = tt
sort-IsHeaded cmp o (x ∷ xs) = insert-IsHeaded cmp o x (sort cmp xs) (sort-IsHeaded cmp o xs)

headed :
    (cmp : ℕ → ℕ → ℤ) (s : List ℕ) (j : ℕ) (js : List ℕ)
    → IsHeaded cmp s
    → s ≡ j ∷ js
    → (i : ℕ) → is_member i s ≡ true
    → not_after (cmp j i) ≡ true
unfolding IsHeaded
headed cmp s j js h e i k = subst (IsHeaded cmp) e h i (ap (is_member i) (sym e) ∙ k)

pub sort-IsLeastFirst : IsLeastFirst sort
unfolding IsLeastFirst IsSort
sort-IsLeastFirst cmp o l j js e i k =
    headed cmp (sort cmp l) j js (sort-IsHeaded cmp o l) e i (sort-IsSort cmp l i ∙ k)
