-- ===== src/Dict.antt =====
-- redis-2.6.14/src/dict.c and dict.h: the hash table with chaining and incremental rehashing. Each
-- function returns its result beside the new dict; DICT_OK is true. What `dictType` gives is a
-- parameter; duplicating and freeing keys and values does not change them. A count is decremented only
-- where an entry goes, and is not cut to a word.
pub mod Chain
pub mod Table
pub mod Invariant
pub mod Moves
pub mod Rehash
pub mod Finish
pub mod Expand
pub mod Operations
pub mod Delete
pub mod Replace
pub mod Types
use galery.Prelude.{
  ℕ, zero, suc, ◌+◌, ◌-◌, ◌*◌, ◌/◌, ◌%◌, ◌^◌, max, Bool, true, false, not, ◌&&◌, ◌||◌, Option, none,
  some, List, [], ◌∷◌, ltb, leb, ◌==◌, if◌then◌else◌, get_or, set, length,
}
use galery.Prelude.Int.{ℤ, pos, negsuc, eqb_ℤ}
use galery.Dict.Chain.{DictType, chain_find, chain_remove, chain_update}
use galery.Dict.Table.{HashTable, reset, fresh, index_of, bucket, push_at, push_all, unlink, update}

-- `dict`, with none for the rehashidx -1.
pub record Dict (K V : Type 0) : Type 0 where
  pub ht0 : HashTable K V
  pub ht1 : HashTable K V
  pub rehashidx : Option ℕ
  pub iterators : ℕ

abbrev pub initial_size : ℕ
initial_size = 4

abbrev pub long_max : ℕ
long_max = 2 ^ 63 - 1

abbrev pub force_resize_ratio : ℕ
force_resize_ratio = 5

-- The loop of `_dictNextPower`. From 4 on, 61 doublings pass LONG_MAX.
unfoldable pub double_until : ℕ → ℕ → ℕ → ℕ
double_until zero i size = i
double_until (suc f) i size =
    let rest = double_until f (i * 2) size in if leb size i then i else rest

unfoldable pub next_power : ℕ → ℕ
next_power size = if leb long_max size then long_max else double_until 61 initial_size size

-- An unsigned int that is returned as an int of 32 bits.
unfoldable pub int_of_unsigned : ℕ → ℤ
int_of_unsigned idx =
    if ltb (idx % 2 ^ 32) (2 ^ 31) then pos (idx % 2 ^ 32) else negsuc (2 ^ 32 - 1 - idx % 2 ^ 32)

module _ {K V : Type 0} where
  -- The new entry of `dictAddRaw`. A negative index is outside of the table: no bucket changes.
  unfoldable pub push_at_index : HashTable K V → ℤ → K → V → HashTable K V
  push_at_index ht (pos i) key val = push_at ht i key val
  push_at_index ht (negsuc i) key val = record ht { used = ht.used + 1 }

  -- `_dictInit`
  abbrev pub empty : Dict K V
  empty = record { ht0 = reset; ht1 = reset; rehashidx = none; iterators = 0 }

  abbrev pub is_rehashing : Dict K V → Bool
  is_rehashing d = elim d.rehashidx [ none ↦ false | some i ↦ true ]

  -- `dictSize`
  abbrev pub dict_size : Dict K V → ℕ
  dict_size d = d.ht0.used + d.ht1.used

  unfoldable pub dict_expand : Dict K V → ℕ → Bool × Dict K V
  dict_expand d size =
      let n = fresh (next_power size) in
      if is_rehashing d || ltb size d.ht0.used then (false, d) else elim d.ht0.table [
        | [] ↦ (true, record d { ht0 = n })
        | c ∷ cs ↦ (true, record d { ht1 = n; rehashidx = some 0 })
      ]

  -- `while(d->ht[0].table[d->rehashidx] == NULL) d->rehashidx++` over the rounds that the table has
  -- room for.
  unfoldable pub skip_empty : ℕ → List (List (K × V)) → ℕ → ℕ
  skip_empty zero table i = i
  skip_empty (suc f) table i = elim (get_or table i []) [
    | [] ↦ skip_empty f table (i + 1)
    | e ∷ he ↦ i
  ]

  module _ (t : DictType K) where
    -- All the entries of bucket `i` go to the second table.
    unfoldable pub move_bucket : Dict K V → ℕ → Dict K V
    move_bucket d i =
        let he = get_or d.ht0.table i [] in
        record d {
          ht0 = record (d.ht0) { table = set d.ht0.table i []; used = d.ht0.used - length he };
          ht1 = push_all t he d.ht1;
          rehashidx = some (i + 1);
        }

    -- One round of `dictRehash`: true where it returns 0.
    unfoldable pub rehash_round : Dict K V → Bool × Dict K V
    rehash_round d = elim d.rehashidx [
      | none ↦ (true, d)
      | some i ↦
          if d.ht0.used == 0
          then (true, record d { ht0 = d.ht1; ht1 = reset; rehashidx = none })
          else (false, move_bucket d (skip_empty (d.ht0.size - i) d.ht0.table i))
    ]

    unfoldable pub rehash_rounds : ℕ → Dict K V → Bool × Dict K V
    rehash_rounds zero d = (true, d)
    rehash_rounds (suc n) d =
        let (done, d') = rehash_round d in
        let rest = rehash_rounds n d' in if done then (false, d') else rest

    -- `dictRehash`: true for the result 1.
    unfoldable pub dict_rehash : Dict K V → ℕ → Bool × Dict K V
    dict_rehash d n = if is_rehashing d then rehash_rounds n d else (false, d)

    -- `_dictRehashStep`
    unfoldable pub rehash_step : Dict K V → Dict K V
    rehash_step d = if d.iterators == 0 then (dict_rehash d 1).1 else d

    -- `if (dictIsRehashing(d)) _dictRehashStep(d)`
    unfoldable pub step_if_rehashing : Dict K V → Dict K V
    step_if_rehashing d = if is_rehashing d then rehash_step d else d

    -- `_dictExpandIfNeeded`, under the setting `dict_can_resize`.
    unfoldable pub expand_if_needed : Bool → Dict K V → Bool × Dict K V
    expand_if_needed can_resize d =
        if is_rehashing d
        then (true, d)
        else if d.ht0.size == 0
        then dict_expand d initial_size
        else if leb d.ht0.size d.ht0.used
            && (can_resize || ltb force_resize_ratio (d.ht0.used / d.ht0.size))
        then dict_expand d (max d.ht0.size d.ht0.used * 2)
        else (true, d)

    -- The loop over the two tables in `dictFind` and `_dictKeyIndex`.
    unfoldable pub find_entry : Dict K V → K → Option (K × V)
    find_entry d key = elim (chain_find t key (bucket t d.ht0 key)) [
      | some e ↦ some e
      | none ↦ if is_rehashing d then chain_find t key (bucket t d.ht1 key) else none
    ]

    -- `_dictKeyIndex`: -1 where the dict cannot expand or has the key, else the index of a bucket.
    unfoldable pub key_index : Bool → Dict K V → K → ℤ × Dict K V
    key_index can_resize d key =
        let (okay, d') = expand_if_needed can_resize d in
        if okay
        then elim (find_entry d' key) [
          | some e ↦ (negsuc 0, d')
          | none ↦
              (int_of_unsigned (index_of t (if is_rehashing d' then d'.ht1 else d'.ht0) key), d')
        ]
        else (negsuc 0, d')

    -- `dictAddRaw` with the value that its caller sets.
    unfoldable pub dict_add_raw : Bool → Dict K V → K → V → Bool × Dict K V
    dict_add_raw can_resize d key val =
        let (index, d') = key_index can_resize (step_if_rehashing d) key in
        if eqb_ℤ index (negsuc 0) then (false, d') else (
          true,
          if is_rehashing d'
              then record d' { ht1 = push_at_index d'.ht1 index key val }
              else record d' { ht0 = push_at_index d'.ht0 index key val },
        )

    unfoldable pub dict_add : Bool → Dict K V → K → V → Bool × Dict K V
    dict_add can_resize d key val = dict_add_raw can_resize d key val

    unfoldable pub dict_find : Dict K V → K → Option (K × V) × Dict K V
    dict_find d key =
        let d' = step_if_rehashing d in
        if d.ht0.size == 0 then (none, d) else (find_entry d' key, d')

    unfoldable pub dict_fetch_value : Dict K V → K → Option V × Dict K V
    dict_fetch_value d key =
        let (he, d') = dict_find d key in (elim he [ none ↦ none | some e ↦ some e.1 ], d')

    -- Setting the value of the entry that `dictFind` returned.
    unfoldable pub set_found : Dict K V → K → V → Dict K V
    set_found d key val = elim (chain_find t key (bucket t d.ht0 key)) [
      | some e ↦ record d { ht0 = update t d.ht0 key val }
      | none ↦ if is_rehashing d then record d { ht1 = update t d.ht1 key val } else d
    ]

    -- `dictReplace`: true where the key was added.
    unfoldable pub dict_replace : Bool → Dict K V → K → V → Bool × Dict K V
    dict_replace can_resize d key val =
        let (added, d1) = dict_add can_resize d key val in
        let (entry, d2) = dict_find d1 key in
        if added then (true, d1) else (false, set_found d2 key val)

    -- `dictGenericDelete`: both kinds of it leave the same table.
    unfoldable pub dict_delete : Dict K V → K → Bool × Dict K V
    dict_delete d key =
        let d' = step_if_rehashing d in
        if d.ht0.size == 0 then (false, d) else elim (chain_find t key (bucket t d'.ht0 key)) [
          | some e ↦ (true, record d' { ht0 = unlink t d'.ht0 key })
          | none ↦
              if is_rehashing d'
              then elim (chain_find t key (bucket t d'.ht1 key)) [
                | some e ↦ (true, record d' { ht1 = unlink t d'.ht1 key })
                | none ↦ (false, d')
              ]
              else (false, d')
        ]

  -- `dictResize`, under the setting `dict_can_resize`.
  unfoldable pub dict_resize : Bool → Dict K V → Bool × Dict K V
  dict_resize can_resize d =
      if not can_resize || is_rehashing d
      then (false, d)
      else dict_expand d (max d.ht0.used initial_size)

  -- `dictEmpty`
  abbrev pub dict_empty : Dict K V → Dict K V
  dict_empty d = record d { ht0 = reset; ht1 = reset; rehashidx = none; iterators = 0 }
