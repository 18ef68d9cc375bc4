-- ===== src/Dict/Moves.antt =====
-- redis-2.6.14/src/dict.c: the two loops of a rehashing round. The walk over empty buckets ends
-- inside the table, and moving a chain adds its entries to the other table.
use galery.Prelude.{
  ℕ, zero, suc, ◌+◌, ◌≤◌, ◌<◌, ◌≡◌, ◌≢◌, refl, ap, ◌∙◌, List, [], ◌∷◌, arith, length, get_or,
  get_or-past,
}
use native.Mathlib.Decide.{ℕ_discrete, dec_lt}
use galery.Dict.Chain.{DictType, IsLawful, chain_find, occurrences}
use galery.Dict.Chain.Laws.{find-none}
use galery.Dict.Table.{HashTable, push_at, push, push_all}
use galery.Dict.Table.Laws.{total, IsTable}
use galery.Dict.Table.Steps.{found, count, push-IsTable, found-push, count-push}
use galery.Dict.{skip_empty}
use galery.Dict.Invariant.{or_else}

total-empty {ℓ} :
    {A : Type ℓ} (table : List (List A))
    → ((j : ℕ) → j < length table → get_or table j [] ≡ [])
    → total table ≡ 0
unfolding total
total-empty [] h = refl
total-empty (c ∷ cs) h =
    omega (arith, ap length (h 0 (omega arith)), total-empty cs (λ j lt. h (suc j) (omega arith)))

module _ {K V : Type 0} (table : List (List (K × V))) where
  -- A bucket with entries, inside the table, below which all are empty.
  pub record IsFirst (i : ℕ) : Type 0 where
    pub inside : i < length table
    pub cleared : (j : ℕ) → j < i → get_or table j [] ≡ []
    pub holds : get_or table i [] ≢ []

  skip_empty-pass :
      (f i : ℕ) → get_or table i [] ≡ [] → skip_empty (suc f) table i ≡ skip_empty f table (i + 1)
  unfolding skip_empty
  skip_empty-pass f i e = rw (e, skip_empty)

  skip_empty-stop :
      (f i : ℕ) (e : K × V) (he : List (K × V))
      → get_or table i [] ≡ e ∷ he
      → skip_empty (suc f) table i ≡ i
  unfolding skip_empty
  skip_empty-stop f i e he p = rw (p, skip_empty)

  in_table : (i : ℕ) (x : K × V) (l : List (K × V)) → get_or table i [] ≡ x ∷ l → i < length table
  in_table i x l e = elim (dec_lt i (length table)) [
    | yes p ↦ p
    | no p ↦ absurd (ground (arith, get_or-past table i [] (omega arith)))
  ]

  -- One round of the walk, for the chain `l` of bucket `i`.
  bucket-IsFirst :
      (f i : ℕ)
      → ((j : ℕ) → j < i → get_or table j [] ≡ [])
      → (l : List (K × V)) → get_or table i [] ≡ l
      → (((j : ℕ) → j < i + 1 → get_or table j [] ≡ []) → IsFirst (skip_empty f table (i + 1)))
      → IsFirst (skip_empty (suc f) table i)
  bucket-IsFirst f i c [] e later = rw (skip_empty-pass f i e) (
      later (λ j lt. elim (ℕ_discrete j i) [
        | yes p ↦ ap (λ k. get_or table k []) p ∙ e
        | no p ↦ c j (omega arith)
      ]))
  bucket-IsFirst f i c (x ∷ l) e later =
      rw (skip_empty-stop f i x l e)
        (record { inside = in_table i x l e; cleared = c; holds = λ p. cc })

  -- The walk stops at such a bucket when the table has entries and rounds enough are allowed.
  pub skip_empty-IsFirst :
      (f i : ℕ)
      → total table ≢ 0
      → length table ≤ i + f
      → ((j : ℕ) → j < i → get_or table j [] ≡ [])
      → IsFirst (skip_empty f table i)
  skip_empty-IsFirst zero i full h c = absurd (full (total-empty table (λ j lt. c j (omega arith))))
  skip_empty-IsFirst (suc f) i full h c =
      bucket-IsFirst f i c (get_or table i []) refl
        (λ c'. skip_empty-IsFirst f (i + 1) full (omega arith) c')

module _ {K V : Type 0} (t : DictType K) (lawful : IsLawful t) where
  -- Pushing a chain of entries with different keys adds them to what is found.
  pub push_all-IsTable :
      (he : List (K × V)) (ht : HashTable K V) → IsTable t ht → IsTable t (push_all t he ht)
  unfolding push_all
  push_all-IsTable [] ht w = w
  push_all-IsTable ((k, v) ∷ he) ht w =
      push_all-IsTable he (push t ht k v) (push-IsTable t lawful ht w k v)

  pub used-push_all :
      (he : List (K × V)) (ht : HashTable K V) → (push_all t he ht).used ≡ ht.used + length he
  unfolding push_all push push_at
  used-push_all [] ht = omega arith
  used-push_all ((k, v) ∷ he) ht = omega (arith, used-push_all he (push t ht k v))

  pub count-push_all :
      (he : List (K × V)) (ht : HashTable K V)
      → IsTable t ht
      → (j : K) → count t lawful (push_all t he ht) j ≡ occurrences t j he + count t lawful ht j
  unfolding push_all occurrences
  count-push_all [] ht w j = omega arith
  count-push_all ((k, v) ∷ he) ht w j = ground (
    arith,
    count-push_all he (push t ht k v) (push-IsTable t lawful ht w k v) j,
    count-push t lawful ht w k v j,
  )

  pub found-push_all :
      (he : List (K × V)) (ht : HashTable K V)
      → IsTable t ht
      → (j : K) → occurrences t j he ≤ 1
      → found t lawful (push_all t he ht) j ≡ or_else (chain_find t j he) (found t lawful ht j)
  unfolding push_all occurrences chain_find
  found-push_all [] ht w j h = refl
  found-push_all ((k, v) ∷ he) ht w j h = ground (
    arith,
    found-push_all he (push t ht k v) (push-IsTable t lawful ht w k v) j,
    found-push t lawful ht w k v j,
    find-none t j he,
  )
