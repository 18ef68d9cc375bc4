-- ===== src/Dict/Invariant.antt =====
-- redis-2.6.14/src/dict.c: a well-formed dict, and the finite map that it stands for.
use galery.Prelude.{ℕ, ◌+◌, ◌≤◌, ◌<◌, ◌≡◌, ap, Option, none, some, [], arith, get_or}
use galery.Dict.Chain.{DictType, IsLawful, chain_find, occurrences}
use galery.Dict.Table.{HashTable, reset, bucket}
use galery.Dict.Table.Laws.{IsTable}
use galery.Dict.Table.Steps.{found, count}
use galery.Dict.{Dict, find_entry}

abbrev pub or_else {ℓ} : {A : Type ℓ} → Option A → Option A → Option A
or_else (some a) b = some a
or_else none b = b

module _ {K V : Type 0} (t : DictType K) where
  -- No table yet; one table; or two, of which the first is empty below rehashidx.
  pub data Phase (d : Dict K V) : Type 0 where
    unallocated : d.ht0 ≡ reset → d.ht1 ≡ reset → d.rehashidx ≡ none → Phase d
    stable : IsTable t d.ht0 → d.ht1 ≡ reset → d.rehashidx ≡ none → Phase d
    rehashing :
        (i : ℕ)
        → IsTable t d.ht0
        → IsTable t d.ht1
        → d.rehashidx ≡ some i
        → ((j : ℕ) → j < i → get_or d.ht0.table j [] ≡ [])
        → Phase d

  module _ (lawful : IsLawful t) where
    -- No key has two entries.
    pub record IsDict (d : Dict K V) : Type 0 where
      pub phase : Phase d
      pub unique : (k : K) → count t lawful d.ht0 k + count t lawful d.ht1 k ≤ 1

    -- The entry of each key.
    abbrev pub view : Dict K V → K → Option (K × V)
    view d k = or_else (found t lawful d.ht0 k) (found t lawful d.ht1 k)

    pub found-reset : (h : HashTable K V) → h ≡ reset → (k : K) → found t lawful h k ≡ none
    unfolding chain_find bucket
    found-reset h e k = ap (λ h. found t lawful h k) e

    pub count-reset : (h : HashTable K V) → h ≡ reset → (k : K) → count t lawful h k ≡ 0
    unfolding occurrences bucket
    count-reset h e k = ap (λ h. count t lawful h k) e

    -- The walk over the tables finds the entry.
    pub find_entry-view : (d : Dict K V) → Phase d → (k : K) → find_entry t d k ≡ view d k
    unfolding find_entry
    find_entry-view d (unallocated e f r) k = ground (arith, r, found-reset d.ht1 f k)
    find_entry-view d (stable w f r) k = ground (arith, r, found-reset d.ht1 f k)
    find_entry-view d (rehashing i w w' r c) k = ground (arith, r)
