-- ===== src/PubSub/Counts.antt =====
-- redis-2.6.14/src/pubsub.c: how often an entry stands in a list, after additions and deletions.
use galery.Prelude.{
  ℕ, ◌+◌, ◌-◌, ◌≤◌, ◌≡◌, refl, sym, ◌∙◌, ap, List, [], ◌∷◌, ◌++◌, Bool, true, false, ◌==◌,
  if◌then◌else◌, arith, inl, inr, Bool-cases, same_bytes, same_bytes→eq,
}
use galery.PubSub.{contains, remove_first, same_pattern}

module _ {A : Type 0} (same : A → A → Bool) where
  unfoldable pub count : A → List A → ℕ
  count a [] = 0
  count a (x ∷ xs) = (if same x a then 1 else 0) + count a xs

  pub count-append :
      (a : A) (xs : List A) (b : A)
      → count a (xs ++ b ∷ []) ≡ count a xs + (if same b a then 1 else 0)
  unfolding count
  count-append a [] b = omega arith
  count-append a (x ∷ xs) b = omega (arith, count-append a xs b)

  pub contains-count : (a : A) (xs : List A) → contains same a xs ≡ true → 1 ≤ count a xs
  unfolding count contains
  contains-count a [] h = absurd (ground arith)
  contains-count a (x ∷ xs) h = ground (arith, contains-count a xs)

  pub absent-count : (a : A) (xs : List A) → contains same a xs ≡ false → count a xs ≡ 0
  unfolding count contains
  absent-count a [] h = refl
  absent-count a (x ∷ xs) h = ground (arith, absent-count a xs)

  pub count-contains : (a : A) (xs : List A) → 1 ≤ count a xs → contains same a xs ≡ true
  unfolding count contains
  count-contains a [] h = absurd (omega arith)
  count-contains a (x ∷ xs) h = ground (arith, count-contains a xs)

  module _ (sound : (a b : A) → same a b ≡ true → a ≡ b) where
    pub count-remove_first :
        (a b : A) (xs : List A)
        → count a (remove_first same b xs) ≡ count a xs - (if same b a then 1 else 0)
    unfolding count remove_first
    count-remove_first a b [] = omega arith
    count-remove_first a b (x ∷ xs) = elim (Bool-cases (same x b)) [
      | inl h ↦
          rw h
            (let e : same x a ≡ same b a = ap (λ y. same y a) (sound x b h) in rw e (omega arith))
      | inr h ↦ elim (Bool-cases (same b a)) [
        | inl g ↦
            let e : same x a ≡ false = ap (same x) (sym (sound b a g)) ∙ h in
            rw h (ground (arith, count-remove_first a b xs, e, g))
        | inr g ↦ rw h (ground (arith, count-remove_first a b xs, g))
      ]
    ]

pub same_number : (a b : ℕ) → (a == b) ≡ true → a ≡ b
same_number a b h = ground arith

pub same_text_refl : (a : List ℕ) → same_bytes a a ≡ true
unfolding same_bytes
same_text_refl [] = refl
same_text_refl (x ∷ xs) = ground (arith, same_text_refl xs)

pub same_pattern_sound : (a b : ℕ × List ℕ) → same_pattern a b ≡ true → a ≡ b
same_pattern_sound (i, a) (j, b) h = ground (arith, same_bytes→eq a b)

-- The subscriptions of one client to one pattern, apart from the others.
pub same_text_sym : (a b : List ℕ) → same_bytes a b ≡ same_bytes b a
unfolding same_bytes
same_text_sym [] [] = refl
same_text_sym [] (y ∷ ys) = refl
same_text_sym (x ∷ xs) [] = refl
same_text_sym (x ∷ xs) (y ∷ ys) = ground (arith, same_text_sym xs ys)
