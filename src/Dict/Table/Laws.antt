-- ===== src/Dict/Table/Laws.antt =====
-- redis-2.6.14/src/dict.c: a well-formed table, and what its buckets hold after each step.
use galery.Prelude.{
  ℕ, zero, suc, ◌+◌, ◌<◌, ◌≡◌, ◌≢◌, refl, ap, subst, sym, ◌∙◌, true, List, [], ◌∷◌, arith,
  if◌then◌else◌, length, get_or, set, replicate, length-set, length-replicate, ◌==◌,
  get_or-set_self, get_or-set_ne, get_or-replicate,
}
use native.Mathlib.Decide.{ℕ_discrete}
use galery.Prelude.Bits.{bit_and-le_right}
use galery.Dict.Chain.{DictType, IsLawful, occurrences}
use galery.Dict.Table.{HashTable, fresh, index_of, bucket}

-- The number of entries in all the chains.
unfoldable pub total {ℓ} : {A : Type ℓ} → List (List A) → ℕ
total [] = 0
total (c ∷ cs) = length c + total cs

pub total-set {ℓ} :
    {A : Type ℓ} (table : List (List A)) (i : ℕ) (c : List A)
    → i < length table
    → total (set table i c) + length (get_or table i []) ≡ total table + length c
unfolding total
total-set [] i c h = absurd (omega arith)
total-set (x ∷ xs) zero c h = omega arith
total-set (x ∷ xs) (suc i) c h = omega (arith, total-set xs i c (omega arith))

pub total-zero {ℓ} :
    {A : Type ℓ} (table : List (List A)) (i : ℕ) → total table ≡ 0 → get_or table i [] ≡ []
unfolding total
total-zero [] i h = refl
total-zero ([] ∷ xs) zero h = refl
total-zero ((y ∷ c) ∷ xs) zero h = absurd (omega arith)
total-zero (c ∷ xs) (suc i) h = total-zero xs i (omega arith)

total-replicate {ℓ} : (A : Type ℓ) (n : ℕ) → total {A = A} (replicate n []) ≡ 0
unfolding total
total-replicate A zero = refl
total-replicate A (suc n) = omega (arith, total-replicate A n)

module _ {K V : Type 0} (t : DictType K) where
  -- A table that is there: as many chains as its size, a mask of that size, every entry in the bucket of
  -- its key, and a count of the entries.
  pub record IsTable (ht : HashTable K V) : Type 0 where
    pub sized : length ht.table ≡ ht.size
    pub masked : ht.sizemask + 1 ≡ ht.size
    pub counted : ht.used ≡ total ht.table
    pub placed : (i : ℕ) (k : K) → index_of t ht k ≢ i → occurrences t k (get_or ht.table i []) ≡ 0

  pub index_in_bounds :
      (ht : HashTable K V) → IsTable ht → (k : K) → index_of t ht k < length ht.table
  unfolding index_of
  index_in_bounds ht w k =
      omega (arith, bit_and-le_right (t.hash_function k) ht.sizemask, w.sized, w.masked)

  pub fresh-IsTable : (n : ℕ) → 0 < n → IsTable (fresh n)
  unfolding occurrences
  fresh-IsTable n h = record {
    sized = length-replicate n [];
    masked = omega arith;
    counted = sym (total-replicate (K × V) n);
    placed = λ i k ne. ap (occurrences t k) (get_or-replicate n i []);
  }

  pub bucket-fresh : (h : HashTable K V) (n : ℕ) → h ≡ fresh n → (k : K) → bucket t h k ≡ []
  unfolding bucket
  bucket-fresh h n e k =
      ap (λ (h : HashTable K V). get_or h.table (index_of t h k) []) e ∙ get_or-replicate n _ []

  -- A table with another chain at one bucket, whose entries belong there.
  pub set-IsTable :
      (ht : HashTable K V) (i : ℕ) (c : List (K × V)) (n : ℕ)
      → IsTable ht
      → i < length ht.table
      → n + length (get_or ht.table i []) ≡ ht.used + length c
      → ((k : K) → index_of t ht k ≢ i → occurrences t k c ≡ 0)
      → IsTable (record ht { table = set ht.table i c; used = n })
  unfolding index_of
  set-IsTable ht i c n w h count belongs = record {
    sized = length-set ht.table i c ∙ w.sized;
    masked = w.masked;
    counted = omega (arith, total-set ht.table i c h, w.counted);
    placed = λ j k ne. elim (ℕ_discrete i j) [
      | yes e ↦
          subst (λ l. occurrences t k (get_or (set ht.table i c) l []) ≡ 0) e
            (ap (occurrences t k) (get_or-set_self ht.table i c [] h) ∙ belongs k (λ p. ne (p ∙ e)))
      | no d ↦ ap (occurrences t k) (get_or-set_ne ht.table i j c [] d) ∙ w.placed j k ne
    ];
  }

  -- What the bucket of `k` is after bucket `i` became `c`.
  pub bucket-set :
      (ht : HashTable K V) (i : ℕ) (c : List (K × V)) (n : ℕ) (k : K)
      → i < length ht.table
      → bucket t (record ht { table = set ht.table i c; used = n }) k
        ≡ (if index_of t ht k == i then c else bucket t ht k)
  unfolding bucket
  bucket-set ht i c n k h = elim (ℕ_discrete i (index_of t ht k)) [
    | yes e ↦ ground (arith, get_or-set_self ht.table i c [] h)
    | no d ↦ ground (arith, get_or-set_ne ht.table i (index_of t ht k) c [] d)
  ]

  module _ (lawful : IsLawful t) where
    pub index_of-cong :
        (ht : HashTable K V) (a b : K)
        → t.key_compare a b ≡ true
        → index_of t ht a ≡ index_of t ht b
    unfolding index_of
    index_of-cong ht a b e = rw (lawful.hash_cong a b e)
