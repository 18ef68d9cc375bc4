-- ===== src/Slowlog/Bounded.antt =====
-- redis-2.6.14/src/slowlog.c: the log keeps its newest entries, as many as its length allows.
use galery.Prelude.{
  ℕ, zero, suc, ◌≤◌, ◌≡◌, refl, sym, ◌∙◌, ap, List, [], ◌∷◌, false, arith, ltb, if◌then◌else◌,
  length, take, Bool-cases, inl, inr,
}
use galery.Prelude.Int.{ℤ, pos, leb_ℤ, ltb_ℤ}
use galery.Rdb.Integer.{StringObject}
use galery.Slowlog.{Slowlog, create_entry, drop_last, remove_old, push_entry_if_needed}

length-drop_last {ℓ} : {A : Type ℓ} (x : A) (xs : List A) → length (drop_last (x ∷ xs)) ≡ length xs
unfolding drop_last
length-drop_last x [] = refl
length-drop_last x (y ∷ xs) = omega (arith, length-drop_last y xs)

take-drop_last {ℓ} :
    {A : Type ℓ} (n : ℕ) (x : A) (xs : List A)
    → n ≤ length xs
    → take n (drop_last (x ∷ xs)) ≡ take n (x ∷ xs)
unfolding drop_last
take-drop_last zero x xs h = refl
take-drop_last (suc n) x [] h = absurd (omega arith)
take-drop_last (suc n) x (y ∷ xs) h = ap (λ l. x ∷ l) (take-drop_last n y xs (omega arith))

take-all {ℓ} : {A : Type ℓ} (n : ℕ) (xs : List A) → length xs ≤ n → take n xs ≡ xs
take-all zero [] h = refl
take-all zero (x ∷ xs) h = absurd (omega arith)
take-all (suc n) [] h = refl
take-all (suc n) (x ∷ xs) h = ap (λ l. x ∷ l) (take-all n xs (omega arith))

remove_old-take {ℓ} :
    {A : Type ℓ} (f n : ℕ) (xs : List A) → length xs ≤ f → remove_old f n xs ≡ take n xs
unfolding remove_old drop_last
remove_old-take zero n xs h = sym (take-all n xs (omega arith))
remove_old-take (suc f) n [] h =
    let e : ltb n 0 ≡ false = ground arith in rw e (sym (take-all n [] (omega arith)))
remove_old-take (suc f) n (x ∷ xs) h = elim (Bool-cases (ltb n (length (x ∷ xs)))) [
  | inl l ↦ rw l (
      remove_old-take f n (drop_last (x ∷ xs)) (omega (arith, length-drop_last x xs))
      ∙ take-drop_last n x xs (ground arith))
  | inr l ↦ rw l (sym (take-all n (x ∷ xs) (ground arith)))
]

-- Unless the log is disabled, a push leaves the `max_len` newest of the entries, in front of them the
-- new one where the command was slow enough.
pub push_entry_if_needed_lem :
    (s : Slowlog) (argv : List StringObject) (duration : ℤ)
    → ltb_ℤ s.log_slower_than (pos 0) ≡ false
    → (push_entry_if_needed s argv duration).entries
      ≡ take s.max_len (
          if leb_ℤ s.log_slower_than duration
          then create_entry s argv duration ∷ s.entries
          else s.entries)
unfolding push_entry_if_needed
push_entry_if_needed_lem s argv duration h = rw h (remove_old-take _ s.max_len _ (omega arith))
