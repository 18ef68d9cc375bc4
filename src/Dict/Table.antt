-- ===== src/Dict/Table.antt =====
-- redis-2.6.14/src/dict.h: `dictht`, and the steps that the functions of dict.c do on one table.
pub mod Laws
pub mod Steps
use Prim.Native.Nat.{bit_and}
use galery.Prelude.{ℕ, zero, suc, ◌+◌, ◌-◌, List, [], ◌∷◌, get_or, set, replicate}
use galery.Dict.Chain.{DictType, chain_remove, chain_update}

-- The table holds the chain of each bucket, and is [] for NULL.
pub record HashTable (K V : Type 0) : Type 0 where
  pub table : List (List (K × V))
  pub size : ℕ
  pub sizemask : ℕ
  pub used : ℕ

module _ {K V : Type 0} where
  -- `_dictReset`
  abbrev pub reset : HashTable K V
  reset = record { table = []; size = 0; sizemask = 0; used = 0 }

  -- The new table of `dictExpand`.
  abbrev pub fresh : ℕ → HashTable K V
  fresh n = record { table = replicate n []; size = n; sizemask = n - 1; used = 0 }

  -- `entry->next = ht->table[index]; ht->table[index] = entry; ht->used++`
  unfoldable pub push_at : HashTable K V → ℕ → K → V → HashTable K V
  push_at ht index key val = record ht {
    table = set ht.table index ((key, val) ∷ get_or ht.table index []);
    used = ht.used + 1;
  }

  module _ (t : DictType K) where
    -- `dictHashKey(d, key) & ht->sizemask`
    unfoldable pub index_of : HashTable K V → K → ℕ
    index_of ht key = bit_and (t.hash_function key) ht.sizemask

    -- `ht->table[index_of(key)]`
    unfoldable pub bucket : HashTable K V → K → List (K × V)
    unfolding index_of
    bucket ht key = get_or ht.table (index_of ht key) []

    -- A new first entry of its bucket.
    unfoldable pub push : HashTable K V → K → V → HashTable K V
    unfolding bucket
    push ht key val = push_at ht (index_of ht key) key val

    -- Each entry of a chain in turn becomes the first of its bucket.
    unfoldable pub push_all : List (K × V) → HashTable K V → HashTable K V
    unfolding push
    push_all [] ht = ht
    push_all ((key, val) ∷ he) ht = push_all he (push ht key val)

    -- The chain of the key's bucket without its first entry of that key.
    unfoldable pub unlink : HashTable K V → K → HashTable K V
    unfolding bucket
    unlink ht key = record ht {
      table = set ht.table (index_of ht key) (chain_remove t key (bucket ht key));
      used = ht.used - 1;
    }

    -- A new value in the first entry of that key.
    unfoldable pub update : HashTable K V → K → V → HashTable K V
    unfolding bucket
    update ht key val = record ht {
      table = set ht.table (index_of ht key) (chain_update t key val (bucket ht key));
    }
