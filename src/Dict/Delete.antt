-- ===== src/Dict/Delete.antt =====
-- redis-2.6.14/src/dict.c: dictDelete and dictReplace as operations on a finite map.
use galery.Prelude.{
  ℕ, ◌<◌, ◌≡◌, ap, sym, ◌∙◌, Bool, true, false, none, some, [], arith, if◌then◌else◌, Bool-cases,
  Option-cases, inl, inr, ◌⊎◌, ◌==◌, get_or, get_or-set_ne,
}
use native.Mathlib.Decide.{ℕ_discrete}
use galery.Dict.Chain.{DictType, IsLawful, chain_find}
use galery.Dict.Chain.Laws.{find-none}
use galery.Dict.Table.{HashTable, index_of, bucket, unlink}
use galery.Dict.Table.Laws.{IsTable}
use galery.Dict.Table.Steps.{
  found, count, found-cong, count-cong, unlink-IsTable, found-unlink_ne, count-unlink,
  count-unlink_self, used-unlink,
}
use galery.Dict.{Dict, is_rehashing, step_if_rehashing, dict_delete}
use galery.Dict.Invariant.{
  or_else, Phase, unallocated, stable, rehashing, IsDict, view, found-reset,
}
use galery.Dict.Rehash.{Keeps, Keeps-refl, step_if_rehashing-Keeps}
use galery.Dict.Operations.{at_index, is_present, no_table, Deletes}

module _ {K V : Type 0} (t : DictType K) (lawful : IsLawful t) where
  abbrev first_without : Dict K V → K → Dict K V
  first_without d key = record d { ht0 = unlink t d.ht0 key }

  abbrev second_without : Dict K V → K → Dict K V
  second_without d key = record d { ht1 = unlink t d.ht1 key }

  module _ (d : Dict K V) (v : IsDict t lawful d) (key : K) (e : K × V) where
    -- With one entry of the key at most, none is left when it is unlinked.
    gone0 :
        IsTable t d.ht0
        → found t lawful d.ht0 key ≡ some e
        → (k : K) → t.key_compare k key ≡ true
        → view t lawful (first_without d key) k ≡ none
    gone0 w h k c =
        let n = count-unlink_self t lawful d.ht0 w key e h in
        let a : count t lawful (unlink t d.ht0 key) k ≡ 0 =
          omega (arith, count-cong t lawful (unlink t d.ht0 key) k key c, n, v.unique key) in
        let b : count t lawful d.ht1 k ≡ 0 =
          omega (arith, count-cong t lawful d.ht1 k key c, n, v.unique key) in
        ground (
          arith,
          find-none t k (bucket t (unlink t d.ht0 key) k) a,
          find-none t k (bucket t d.ht1 k) b,
        )

    gone1 :
        IsTable t d.ht1
        → found t lawful d.ht0 key ≡ none
        → found t lawful d.ht1 key ≡ some e
        → (k : K) → t.key_compare k key ≡ true
        → view t lawful (second_without d key) k ≡ none
    gone1 w h0 h k c =
        let n = count-unlink_self t lawful d.ht1 w key e h in
        let a : count t lawful (unlink t d.ht1 key) k ≡ 0 =
          omega (arith, count-cong t lawful (unlink t d.ht1 key) k key c, n, v.unique key) in
        ground (
          arith,
          find-none t k (bucket t (unlink t d.ht1 key) k) a,
          found-cong t lawful d.ht0 k key c,
        )

    views0 :
        (w : IsTable t d.ht0)
        → found t lawful d.ht0 key ≡ some e
        → (k : K)
        → view t lawful (first_without d key) k
          ≡ (if t.key_compare k key then none else view t lawful d k)
    views0 w h k = elim (Bool-cases (t.key_compare k key)) [
      | inl c ↦ rw c (gone0 w h k c)
      | inr c ↦ rw c (
          ap (λ o. or_else o (found t lawful d.ht1 k))
            (found-unlink_ne t lawful d.ht0 w key e h k c))
    ]

    views1 :
        (w : IsTable t d.ht1)
        → found t lawful d.ht0 key ≡ none
        → found t lawful d.ht1 key ≡ some e
        → (k : K)
        → view t lawful (second_without d key) k
          ≡ (if t.key_compare k key then none else view t lawful d k)
    views1 w h0 h k = elim (Bool-cases (t.key_compare k key)) [
      | inl c ↦ rw c (gone1 w h0 h k c)
      | inr c ↦ rw c (
          ap (λ o. or_else (found t lawful d.ht0 k) o)
            (found-unlink_ne t lawful d.ht1 w key e h k c))
    ]

    first_valid :
        IsTable t d.ht0 → found t lawful d.ht0 key ≡ some e → IsDict t lawful (first_without d key)
    first_valid w h = record {
      phase = go v.phase;
      unique = λ k. omega (arith, count-unlink t lawful d.ht0 w key e h k, v.unique k);
    }
      where
        go : Phase t d → Phase t (first_without d key)
        go (unallocated p f r) = absurd (ground (arith, found-reset t lawful d.ht0 p key))
        go (stable _ f r) = stable (unlink-IsTable t lawful d.ht0 w key e h) f r
        go (rehashing i _ w' r c) =
            rehashing i (unlink-IsTable t lawful d.ht0 w key e h) w' r (cleared i c)
          where
            cleared :
                (i : ℕ)
                → ((j : ℕ) → j < i → get_or d.ht0.table j [] ≡ [])
                → (j : ℕ) → j < i
                → get_or (unlink t d.ht0 key).table j [] ≡ []
            cleared i c j lt = elim (ℕ_discrete (index_of t d.ht0 key) j) [
              | yes q ↦ absurd (
                  unfold bucket chain_find in
                  ground (arith, ap (λ x. get_or d.ht0.table x []) q, c j lt))
              | no q ↦
                  unfold unlink in
                  get_or-set_ne d.ht0.table (index_of t d.ht0 key) j _ [] q ∙ c j lt
            ]

    second_valid :
        (i : ℕ)
        → IsTable t d.ht0
        → IsTable t d.ht1
        → d.rehashidx ≡ some i
        → ((j : ℕ) → j < i → get_or d.ht0.table j [] ≡ [])
        → found t lawful d.ht1 key ≡ some e
        → IsDict t lawful (second_without d key)
    second_valid i w w' r c h = record {
      phase = rehashing i w (unlink-IsTable t lawful d.ht1 w' key e h) r c;
      unique = λ k. omega (arith, count-unlink t lawful d.ht1 w' key e h k, v.unique k);
    }

    Deletes-first :
        (w : IsTable t d.ht0)
        → found t lawful d.ht0 key ≡ some e
        → Deletes t lawful d key (true, (first_without d key))
    Deletes-first w h = record {
      valid = first_valid w h;
      result = ground arith;
      views = views0 w h;
      sizes = omega (arith, used-unlink t lawful d.ht0 w key e h);
    }

    Deletes-second :
        (i : ℕ)
        → IsTable t d.ht0
        → IsTable t d.ht1
        → d.rehashidx ≡ some i
        → ((j : ℕ) → j < i → get_or d.ht0.table j [] ≡ [])
        → found t lawful d.ht0 key ≡ none
        → found t lawful d.ht1 key ≡ some e
        → Deletes t lawful d key (true, (second_without d key))
    Deletes-second i w w' r c h0 h = record {
      valid = second_valid i w w' r c h;
      result = ground arith;
      views = views1 w' h0 h;
      sizes = omega (arith, used-unlink t lawful d.ht1 w' key e h);
    }

  Deletes-after :
      (d d' : Dict K V) (key : K) (r : Bool × Dict K V)
      → Keeps t lawful d d'
      → Deletes t lawful d' key r
      → Deletes t lawful d key r
  Deletes-after d d' key r k x = record {
    valid = x.valid;
    result = x.result ∙ ap is_present (k.same.views key);
    views = λ j. ground (arith, x.views j, k.same.views j);
    sizes = x.sizes ∙ k.same.sizes;
  }

  Deletes-nothing :
      (d d' : Dict K V) (key : K)
      → Keeps t lawful d d'
      → view t lawful d key ≡ none
      → Deletes t lawful d key (false, d')
  Deletes-nothing d d' key k n = record {
    valid = k.valid;
    result = ground arith;
    views = λ j. elim (Bool-cases (t.key_compare j key)) [
      | inl c ↦ rw c (k.same.views j ∙ gone j c)
      | inr c ↦ rw c (k.same.views j)
    ];
    sizes = omega (arith, k.same.sizes);
  }
    where
      gone : (j : K) → t.key_compare j key ≡ true → view t lawful d j ≡ none
      gone j c =
          ground (arith, found-cong t lawful d.ht0 j key c, found-cong t lawful d.ht1 j key c)

  module _ (d : Dict K V) (key : K) (z : (d.ht0.size == 0) ≡ false) where
    abbrev d' : Dict K V
    d' = step_if_rehashing t d

    delete-first :
        (e : K × V)
        → found t lawful d'.ht0 key ≡ some e
        → dict_delete t d key ≡ (true, first_without d' key)
    unfolding dict_delete
    delete-first e h = ground arith

    delete-second :
        (e : K × V)
        → found t lawful d'.ht0 key ≡ none
        → is_rehashing d' ≡ true
        → found t lawful d'.ht1 key ≡ some e
        → dict_delete t d key ≡ (true, second_without d' key)
    unfolding dict_delete
    delete-second e h0 r h = ground arith

    delete-nothing :
        found t lawful d'.ht0 key ≡ none
        → (is_rehashing d' ≡ false) ⊎ (found t lawful d'.ht1 key ≡ none)
        → dict_delete t d key ≡ (false, d')
    unfolding dict_delete
    delete-nothing h0 h = ground arith

  unallocated_delete :
      (d : Dict K V) (key : K) → (d.ht0.size == 0) ≡ true → dict_delete t d key ≡ (false, d)
  unfolding dict_delete
  unallocated_delete d key z = ground arith

  abbrev Found : HashTable K V → K → Type 0
  Found ht key = (found t lawful ht key ≡ none) ⊎ ((e : K × V) × (found t lawful ht key ≡ some e))

  delete_none :
      (d : Dict K V) (key : K)
      → (d.ht0.size == 0) ≡ false
      → Keeps t lawful d (step_if_rehashing t d)
      → found t lawful (step_if_rehashing t d).ht0 key ≡ none
      → found t lawful (step_if_rehashing t d).ht1 key ≡ none
      → Deletes t lawful d key (dict_delete t d key)
  delete_none d key z k a b =
      rw (delete-nothing d key z a (inr b))
        (Deletes-nothing d (step_if_rehashing t d) key k (sym (k.same.views key) ∙ ground arith))

  delete_after :
      (d : Dict K V) (key : K)
      → (d.ht0.size == 0) ≡ false
      → Keeps t lawful d (step_if_rehashing t d)
      → Phase t (step_if_rehashing t d)
      → Found (step_if_rehashing t d).ht0 key
      → Found (step_if_rehashing t d).ht1 key
      → Deletes t lawful d key (dict_delete t d key)
  delete_after d key z k (unallocated e f r) (inl a) _ =
      delete_none d key z k a (found-reset t lawful (step_if_rehashing t d).ht1 f key)
  delete_after d key z k (unallocated e f r) (inr (x, a)) _ =
      absurd (ground (arith, found-reset t lawful (step_if_rehashing t d).ht0 e key))
  delete_after d key z k (stable w f r) (inl a) _ =
      delete_none d key z k a (found-reset t lawful (step_if_rehashing t d).ht1 f key)
  delete_after d key z k (stable w f r) (inr (x, a)) _ = rw (delete-first d key z x a) (
      Deletes-after d (step_if_rehashing t d) key _ k
        (Deletes-first (step_if_rehashing t d) k.valid key x w a))
  delete_after d key z k (rehashing i w w' r c) (inr (x, a)) _ = rw (delete-first d key z x a) (
      Deletes-after d (step_if_rehashing t d) key _ k
        (Deletes-first (step_if_rehashing t d) k.valid key x w a))
  delete_after d key z k (rehashing i w w' r c) (inl a) (inl b) = delete_none d key z k a b
  delete_after d key z k (rehashing i w w' r c) (inl a) (inr (x, b)) =
      rw (delete-second d key z x a (at_index t lawful (step_if_rehashing t d) i r) b) (
        Deletes-after d (step_if_rehashing t d) key _ k
          (Deletes-second (step_if_rehashing t d) k.valid key x i w w' r c a b))

  -- `dictDelete` on a well-formed dict, rehashing or not, answers DICT_OK exactly for a key with an
  -- entry; afterwards that key has none, the others are unchanged, and the dict stays well-formed.
  pub dict_delete-Deletes :
      (d : Dict K V) (key : K) → IsDict t lawful d → Deletes t lawful d key (dict_delete t d key)
  dict_delete-Deletes d key v = elim (Bool-cases (d.ht0.size == 0)) [
    | inl z ↦
        rw (unallocated_delete d key z)
          (Deletes-nothing d d key (Keeps-refl t lawful d v) (no_table t lawful d v.phase z key))
    | inr z ↦
        let k = step_if_rehashing-Keeps t lawful d v in
        delete_after d key z k k.valid.phase
          (Option-cases (found t lawful (step_if_rehashing t d).ht0 key))
          (Option-cases (found t lawful (step_if_rehashing t d).ht1 key))
  ]
