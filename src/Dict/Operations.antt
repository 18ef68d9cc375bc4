-- ===== src/Dict/Operations.antt =====
-- redis-2.6.14/src/dict.c: dictAdd, dictFind, dictReplace and dictDelete as operations on a finite map.
use galery.Prelude.{
  ℕ, ◌+◌, ◌^◌, ◌≤◌, ◌<◌, ◌≡◌, ap, sym, ◌∙◌, Bool, true, false, not, ◌&&◌, Option, none, some, arith,
  if◌then◌else◌, Bool-cases, Option-cases, inl, inr, ◌==◌,
}
use galery.Prelude.Int.{pos}
use galery.Dict.Chain.{DictType, IsLawful}
use galery.Dict.Chain.Laws.{occurrences-none}
use galery.Dict.Table.{HashTable, index_of, push, push_at}
use galery.Dict.Table.Laws.{IsTable, index_in_bounds}
use galery.Dict.Table.Steps.{found, count, found-cong, push-IsTable, found-push, count-push}
use galery.Dict.{
  Dict, is_rehashing, dict_size, expand_if_needed, step_if_rehashing, key_index, dict_add_raw,
  dict_add, dict_find, int_of_unsigned, push_at_index,
}
use galery.Dict.Invariant.{
  Phase, unallocated, stable, rehashing, IsDict, view, found-reset, count-reset, find_entry-view,
}
use galery.Dict.Rehash.{Keeps, Keeps-refl, Keeps-trans, step_if_rehashing-Keeps}
use galery.Dict.Expand.{expand_if_needed-Expanded}

abbrev pub is_present {ℓ} : {A : Type ℓ} → Option A → Bool
is_present none = false
is_present (some e) = true

module _ {K V : Type 0} (t : DictType K) (lawful : IsLawful t) where
  pub not_rehashing : (d : Dict K V) → d.rehashidx ≡ none → is_rehashing d ≡ false
  not_rehashing d r = ground arith

  pub at_index : (d : Dict K V) (i : ℕ) → d.rehashidx ≡ some i → is_rehashing d ≡ true
  at_index d i r = ground arith

  -- The new entry goes to the second table while rehashing, else to the first.
  abbrev inserted : Dict K V → K → V → Dict K V
  inserted d key val =
      if is_rehashing d
      then record d { ht1 = push t d.ht1 key val }
      else record d { ht0 = push t d.ht0 key val }

  -- A map with the entry of `key` given anew.
  pub record Inserts (d d' : Dict K V) (key : K) (e : K × V) : Type 0 where
    pub valid : IsDict t lawful d'
    pub views :
        (k : K) → view t lawful d' k ≡ (if t.key_compare k key then some e else view t lawful d k)

  module _ (d : Dict K V) (v : IsDict t lawful d) (key : K) (val : V)
      (absent : view t lawful d key ≡ none) where
    absent0 : (k : K) → t.key_compare k key ≡ true → found t lawful d.ht0 k ≡ none
    absent0 k e = ground (arith, found-cong t lawful d.ht0 k key e)

    count0 : (k : K) → t.key_compare k key ≡ true → count t lawful d.ht0 k ≡ 0
    count0 k e = occurrences-none t k _ (absent0 k e)

    absent1 : (k : K) → t.key_compare k key ≡ true → found t lawful d.ht1 k ≡ none
    absent1 k e = ground (arith, found-cong t lawful d.ht1 k key e)

    count1 : (k : K) → t.key_compare k key ≡ true → count t lawful d.ht1 k ≡ 0
    count1 k e = occurrences-none t k _ (absent1 k e)

    inserted-Inserts : IsTable t d.ht0 → Inserts d (inserted d key val) key (key, val)
    inserted-Inserts w = go v.phase
      where
        go : Phase t d → Inserts d (inserted d key val) key (key, val)
        go (unallocated e f r) =
            absurd (omega (arith, w.masked, ap (λ (h : HashTable K V). h.size) e))
        go (stable _ f r) = rw (not_rehashing d r) (record {
          valid = record {
            phase = stable (push-IsTable t lawful d.ht0 w key val) f r;
            unique = λ k. ground (
              arith,
              count-push t lawful d.ht0 w key val k,
              count-reset t lawful d.ht1 f k,
              count0 k,
              v.unique k,
            );
          };
          views = λ k. ground (arith, found-push t lawful d.ht0 w key val k);
        })
        go (rehashing i _ w' r c) = rw (at_index d i r) (record {
          valid = record {
            phase = rehashing i w (push-IsTable t lawful d.ht1 w' key val) r c;
            unique = λ k.
                ground
                  (arith, count-push t lawful d.ht1 w' key val k, count0 k, count1 k, v.unique k);
          };
          views = λ k. ground (arith, found-push t lawful d.ht1 w' key val k, absent0 k);
        })

  -- The dict that `dictAdd` puts an entry into: after a step of rehashing and the expansion.
  unfoldable pub prepared : Bool → Dict K V → Dict K V
  prepared can_resize d = (expand_if_needed t can_resize (step_if_rehashing t d)).1

  prepared-Expanded :
      (can_resize : Bool) (d : Dict K V)
      → IsDict t lawful d
      → Keeps t lawful d (prepared can_resize d) × IsTable t (prepared can_resize d).ht0
  unfolding prepared
  prepared-Expanded can_resize d v =
      let k = step_if_rehashing-Keeps t lawful d v in
      let e = expand_if_needed-Expanded t lawful can_resize (step_if_rehashing t d) k.valid in
      (Keeps-trans t lawful d (step_if_rehashing t d) _ k e.keeps, e.allocated)

  add-present :
      (can_resize : Bool) (d : Dict K V) (key : K) (val : V) (e : K × V)
      → IsDict t lawful d
      → view t lawful d key ≡ some e
      → dict_add t can_resize d key val ≡ (false, prepared can_resize d)
  unfolding dict_add dict_add_raw key_index prepared
  add-present can_resize d key val e v p =
      let k = step_if_rehashing-Keeps t lawful d v in
      let x = expand_if_needed-Expanded t lawful can_resize (step_if_rehashing t d) k.valid in
      ground (
        arith,
        x.okay,
        find_entry-view t lawful _ x.keeps.valid.phase key,
        x.keeps.same.views key,
        k.same.views key,
      )

  -- The table of `prepared` that takes the entry.
  abbrev pub target : Bool → Dict K V → HashTable K V
  target can_resize d = let d' = prepared can_resize d in if is_rehashing d' then d'.ht1 else d'.ht0

  target-IsTable :
      (can_resize : Bool) (d : Dict K V) → IsDict t lawful d → IsTable t (target can_resize d)
  target-IsTable can_resize d v = let x = prepared-Expanded can_resize d v in go x.0.valid.phase x.1
    where
      go :
          {d : Dict K V}
          → Phase t d
          → IsTable t d.ht0
          → IsTable t (if is_rehashing d then d.ht1 else d.ht0)
      go {d} (unallocated e f r) w = rw (not_rehashing d r) w
      go {d} (stable _ f r) w = rw (not_rehashing d r) w
      go {d} (rehashing i _ w' r c) w = rw (at_index d i r) w'

  -- The index of a bucket in a table of at most 2 ^ 31 buckets is not negative.
  pub int_of_unsigned-small :
      (ht : HashTable K V) (key : K)
      → IsTable t ht
      → ht.size ≤ 2 ^ 31
      → int_of_unsigned (index_of t ht key) ≡ pos (index_of t ht key)
  unfolding int_of_unsigned
  int_of_unsigned-small ht key w h =
      let b : index_of t ht key < 2 ^ 31 = omega (arith, index_in_bounds t ht w key, w.sized) in
      ground arith

  add-absent :
      (can_resize : Bool) (d : Dict K V) (key : K) (val : V)
      → IsDict t lawful d
      → (target can_resize d).size ≤ 2 ^ 31
      → view t lawful d key ≡ none
      → dict_add t can_resize d key val ≡ (true, inserted (prepared can_resize d) key val)
  unfolding dict_add dict_add_raw key_index prepared push push_at_index
  add-absent can_resize d key val v small p =
      let k = step_if_rehashing-Keeps t lawful d v in
      let x = expand_if_needed-Expanded t lawful can_resize (step_if_rehashing t d) k.valid in
      let index = int_of_unsigned-small _ key (target-IsTable can_resize d v) small in
      ground (
        arith,
        x.okay,
        index,
        find_entry-view t lawful _ x.keeps.valid.phase key,
        x.keeps.same.views key,
        k.same.views key,
      )

  inserted-size :
      (d : Dict K V) (key : K) (val : V) → dict_size (inserted d key val) ≡ dict_size d + 1
  unfolding push push_at
  inserted-size d key val = ground arith

  -- What `dictAdd` does to the map: DICT_OK and a new entry for a key that had none, and otherwise
  -- DICT_ERR and no change.
  pub record Adds (d : Dict K V) (key : K) (val : V) (r : Bool × Dict K V) : Type 0 where
    pub valid : IsDict t lawful r.1
    pub result : r.0 ≡ not (is_present (view t lawful d key))
    pub views :
        (k : K)
        → view t lawful r.1 k
          ≡ (if r.0 && t.key_compare k key then some (key, val) else view t lawful d k)
    pub sizes : dict_size r.1 ≡ dict_size d + (if r.0 then 1 else 0)

  -- Where the table that takes the entry, after the step of rehashing and the expansion, has at
  -- most 2 ^ 31 buckets: `dictAdd` on a well-formed dict, rehashing or not and whatever
  -- dict_can_resize is, answers DICT_OK exactly for a key without an entry; the map that it leaves
  -- has that entry and all the others unchanged, and the dict stays well-formed.
  pub dict_add-Adds :
      (can_resize : Bool) (d : Dict K V) (key : K) (val : V)
      → IsDict t lawful d
      → (target can_resize d).size ≤ 2 ^ 31
      → Adds d key val (dict_add t can_resize d key val)
  dict_add-Adds can_resize d key val v small = elim (Option-cases (view t lawful d key)) [
    | inl p ↦
        let x = prepared-Expanded can_resize d v in
        let i =
          inserted-Inserts (prepared can_resize d) x.0.valid key val (x.0.same.views key ∙ p) x.1 in
        rw (add-absent can_resize d key val v small p) (record {
          valid = i.valid;
          result = ground arith;
          views = λ k. ground (arith, i.views k, x.0.same.views k);
          sizes = omega (arith, inserted-size (prepared can_resize d) key val, x.0.same.sizes);
        })
    | inr (e, p) ↦
        let x = prepared-Expanded can_resize d v in
        rw (add-present can_resize d key val e v p) (record {
          valid = x.0.valid;
          result = ground arith;
          views = λ k. x.0.same.views k;
          sizes = omega (arith, x.0.same.sizes);
        })
  ]

  pub no_table :
      (d : Dict K V) → Phase t d → (d.ht0.size == 0) ≡ true → (k : K) → view t lawful d k ≡ none
  no_table d (unallocated e f r) z k =
      ground (arith, found-reset t lawful d.ht0 e k, found-reset t lawful d.ht1 f k)
  no_table d (stable w f r) z k = absurd (ground (arith, w.masked))
  no_table d (rehashing i w w' r c) z k = absurd (ground (arith, w.masked))

  -- `dictFind` on a well-formed dict returns the entry of the map that the dict stands for; the dict
  -- stays well-formed, with the same entry of every key.
  pub dict_find_lem :
      (d : Dict K V) (key : K)
      → IsDict t lawful d
      → ((dict_find t d key).0 ≡ view t lawful d key) × Keeps t lawful d (dict_find t d key).1
  unfolding dict_find
  dict_find_lem d key v = elim (Bool-cases (d.ht0.size == 0)) [
    | inl z ↦ rw z (sym (no_table d v.phase z key), Keeps-refl t lawful d v)
    | inr z ↦
        let k = step_if_rehashing-Keeps t lawful d v in
        rw z
          (find_entry-view t lawful (step_if_rehashing t d) k.valid.phase key ∙ k.same.views key, k)
  ]

  -- What `dictDelete` does to the map: DICT_OK and no entry of the key any more, or DICT_ERR where it
  -- had none.
  pub record Deletes (d : Dict K V) (key : K) (r : Bool × Dict K V) : Type 0 where
    pub valid : IsDict t lawful r.1
    pub result : r.0 ≡ is_present (view t lawful d key)
    pub views :
        (k : K) → view t lawful r.1 k ≡ (if t.key_compare k key then none else view t lawful d k)
    pub sizes : dict_size r.1 + (if r.0 then 1 else 0) ≡ dict_size d
