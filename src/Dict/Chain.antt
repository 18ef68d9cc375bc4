-- ===== src/Dict/Chain.antt =====
-- redis-2.6.14/src/dict.c: a bucket's chain of entries, walked from its head.
pub mod Laws
use galery.Prelude.{
  ℕ, ◌+◌, ◌≤◌, ◌≡◌, refl, ap, Bool, true, false, Option, none, some, List, [], ◌∷◌, arith,
  if◌then◌else◌, Bool-cases,
}

-- `hashFunction` and `keyCompare` of a `dictType`.
pub record DictType (K : Type 0) : Type 0 where
  pub hash_function : K → ℕ
  pub key_compare : K → K → Bool

-- Keys that compare equal are interchangeable, and have one hash.
pub record IsLawful {K : Type 0} (t : DictType K) : Type 0 where
  pub compare_refl : (a : K) → t.key_compare a a ≡ true
  pub compare_cong : (a b c : K) → t.key_compare a b ≡ true → t.key_compare c a ≡ t.key_compare c b
  pub compare_sym : (a b : K) → t.key_compare a b ≡ t.key_compare b a
  pub hash_cong : (a b : K) → t.key_compare a b ≡ true → t.hash_function a ≡ t.hash_function b

module _ {K V : Type 0} (t : DictType K) where
  -- The loop `while(he) { if (dictCompareKeys(d, key, he->key)) ...; he = he->next; }`.
  unfoldable pub chain_find : K → List (K × V) → Option (K × V)
  chain_find key [] = none
  chain_find key ((k, v) ∷ he) = if t.key_compare key k then some (k, v) else chain_find key he

  -- Unlinking the first entry of that key.
  unfoldable pub chain_remove : K → List (K × V) → List (K × V)
  chain_remove key [] = []
  chain_remove key ((k, v) ∷ he) = if t.key_compare key k then he else (k, v) ∷ chain_remove key he

  -- Setting the value of the first entry of that key.
  unfoldable pub chain_update : K → V → List (K × V) → List (K × V)
  chain_update key val [] = []
  chain_update key val ((k, v) ∷ he) =
      if t.key_compare key k then (k, val) ∷ he else (k, v) ∷ chain_update key val he

  -- How many entries of the chain have that key.
  unfoldable pub occurrences : K → List (K × V) → ℕ
  occurrences key [] = 0
  occurrences key ((k, v) ∷ he) = (if t.key_compare key k then 1 else 0) + occurrences key he
