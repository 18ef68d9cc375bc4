-- ===== src/Intset/Values.antt =====
-- redis-2.6.14/src/intset.c: the sorted list of integers that an intset stands for.
use galery.Prelude.{
  ℕ, zero, suc, ◌≤◌, ◌<◌, ◌≡◌, refl, ap, ◌∙◌, List, [], ◌∷◌, Bool, true, false, ◌||◌, arith,
  if◌then◌else◌,
}
use galery.Prelude.Int.{ℤ, ltb_ℤ, eqb_ℤ}
use galery.Intset.{Intset, get_at}
use galery.Intset.Search.{◌<ℤ◌, eqb_ℤ_refl, eqb_ℤ_ne, eqb_ℤ_ne'}

unfoldable pub tabulate : ℕ → (ℕ → ℤ) → List ℤ
tabulate zero f = []
tabulate (suc n) f = f 0 ∷ tabulate n (λ i. f (suc i))

-- The values of the slots in use, in order.
abbrev pub values : Intset → List ℤ
values s = tabulate s.len (get_at s)

-- Sorted lists without duplicates, as a set.
unfoldable pub is_member : ℤ → List ℤ → Bool
is_member v [] = false
is_member v (x ∷ xs) = eqb_ℤ v x || is_member v xs

unfoldable pub insert_sorted : ℤ → List ℤ → List ℤ
insert_sorted v [] = v ∷ []
insert_sorted v (x ∷ xs) = if ltb_ℤ x v then x ∷ insert_sorted v xs else v ∷ x ∷ xs

unfoldable pub remove_value : ℤ → List ℤ → List ℤ
remove_value v [] = []
remove_value v (x ∷ xs) = if eqb_ℤ v x then xs else x ∷ remove_value v xs

pub tabulate-cong :
    (n : ℕ) (f g : ℕ → ℤ) → ((i : ℕ) → i < n → f i ≡ g i) → tabulate n f ≡ tabulate n g
unfolding tabulate
tabulate-cong zero f g h = refl
tabulate-cong (suc n) f g h =
    rw (h 0 (omega arith))
      (ap (λ l. g 0 ∷ l) (tabulate-cong n _ _ (λ i l. h (suc i) (omega arith))))

module _ (v : ℤ) where
  pub is_member-present :
      (n p : ℕ) (f : ℕ → ℤ) → p < n → f p ≡ v → is_member v (tabulate n f) ≡ true
  unfolding is_member tabulate
  is_member-present zero p f h e = absurd (omega arith)
  is_member-present (suc n) zero f h e = let t = eqb_ℤ_refl v in rw e (rw t refl)
  is_member-present (suc n) (suc p) f h e =
      ground (arith, is_member-present n p (λ i. f (suc i)) (omega arith) e)

  pub is_member-missing :
      (n p : ℕ) (f : ℕ → ℤ)
      → ((i : ℕ) → i < p → f i <ℤ v)
      → ((i : ℕ) → p ≤ i → i < n → v <ℤ f i)
      → is_member v (tabulate n f) ≡ false
  unfolding is_member tabulate
  is_member-missing zero p f below above = refl
  is_member-missing (suc n) zero f below above = ground (
    arith,
    eqb_ℤ_ne v (f 0) (above 0 (omega arith) (omega arith)),
    is_member-missing n zero (λ i. f (suc i)) (λ i l. absurd (omega arith))
        (λ i l k. above (suc i) (omega arith) (omega arith)),
  )
  is_member-missing (suc n) (suc p) f below above = ground (
    arith,
    eqb_ℤ_ne' v (f 0) (below 0 (omega arith)),
    is_member-missing n p (λ i. f (suc i)) (λ i l. below (suc i) (omega arith))
        (λ i l k. above (suc i) (omega arith) (omega arith)),
  )

  pub insert_sorted-tabulate :
      (n p : ℕ) (f g : ℕ → ℤ)
      → p ≤ n
      → ((i : ℕ) → i < p → f i <ℤ v)
      → ((i : ℕ) → p ≤ i → i < n → v <ℤ f i)
      → ((i : ℕ) → i < p → g i ≡ f i)
      → g p ≡ v
      → ((i : ℕ) → p ≤ i → i < n → g (suc i) ≡ f i)
      → tabulate (suc n) g ≡ insert_sorted v (tabulate n f)
  unfolding tabulate insert_sorted
  insert_sorted-tabulate zero zero f g h below above low at high = ap (λ x. x ∷ []) at
  insert_sorted-tabulate zero (suc p) f g h below above low at high = absurd (omega arith)
  insert_sorted-tabulate (suc n) zero f g h below above low at high =
      let later : ltb_ℤ (f 0) v ≡ false = ground (arith, above 0 (omega arith) (omega arith)) in
      rw (later, at)
        (ap (λ l. v ∷ l) (tabulate-cong (suc n) (λ i. g (suc i)) f (λ i l. high i (omega arith) l)))
  insert_sorted-tabulate (suc n) (suc p) f g h below above low at high =
      let first : ltb_ℤ (f 0) v ≡ true = ground (arith, below 0 (omega arith)) in
      rw (first, low 0 (omega arith))
        (ap (λ l. f 0 ∷ l)
          (insert_sorted-tabulate n p (λ i. f (suc i)) (λ i. g (suc i)) (omega arith)
            (λ i l. below (suc i) (omega arith))
            (λ i l k. above (suc i) (omega arith) (omega arith)) (λ i l. low (suc i) (omega arith))
            at (λ i l k. high (suc i) (omega arith) (omega arith))))

  pub remove_value-tabulate :
      (n p : ℕ) (f g : ℕ → ℤ)
      → p < suc n
      → f p ≡ v
      → ((i : ℕ) → i < p → f i <ℤ v)
      → ((i : ℕ) → i < p → g i ≡ f i)
      → ((i : ℕ) → p ≤ i → i < n → g i ≡ f (suc i))
      → tabulate n g ≡ remove_value v (tabulate (suc n) f)
  unfolding tabulate remove_value
  remove_value-tabulate n zero f g h e below low high =
      let t : eqb_ℤ v (f 0) ≡ true = ap (eqb_ℤ v) e ∙ eqb_ℤ_refl v in
      rw t (tabulate-cong n g (λ i. f (suc i)) (λ i l. high i (omega arith) l))
  remove_value-tabulate zero (suc p) f g h e below low high = absurd (omega arith)
  remove_value-tabulate (suc n) (suc p) f g h e below low high =
      let t = eqb_ℤ_ne' v (f 0) (below 0 (omega arith)) in
      rw (t, low 0 (omega arith))
        (ap (λ l. f 0 ∷ l)
          (remove_value-tabulate n p (λ i. f (suc i)) (λ i. g (suc i)) (omega arith) e
            (λ i l. below (suc i) (omega arith)) (λ i l. low (suc i) (omega arith))
            (λ i l k. high (suc i) (omega arith) (omega arith))))
