-- ===== src/Dict/Table/Steps.antt =====
-- redis-2.6.14/src/dict.c: pushing, unlinking and updating keep a table well-formed, and what is found in
-- it afterwards.
use galery.Prelude.{
  ℕ, ◌+◌, ◌-◌, ◌≤◌, ◌<◌, ◌≡◌, ◌≢◌, ap, ◌∙◌, true, false, Option, some, [], ◌∷◌, arith,
  if◌then◌else◌, Bool-cases, inl, inr, length, get_or, ◌==◌,
}
use native.Mathlib.Decide.{ℕ_discrete}
use galery.Dict.Chain.{DictType, IsLawful, chain_find, chain_remove, chain_update, occurrences}
use galery.Dict.Chain.Laws.{
  length-remove, length-update, occurrences-remove, occurrences-remove_self, occurrences-update,
  find-remove_ne, find-update_ne, find-update_self, find-cong, occurrences-cong,
}
use galery.Dict.Table.{HashTable, index_of, bucket, push_at, push, unlink, update}
use galery.Dict.Table.Laws.{
  total-set, IsTable, index_in_bounds, set-IsTable, bucket-set, index_of-cong,
}

module _ {K V : Type 0} (t : DictType K) (lawful : IsLawful t) where
  -- What the walk to `k` finds.
  abbrev pub found : HashTable K V → K → Option (K × V)
  found ht k = chain_find t k (bucket t ht k)

  -- How many entries have the key `k`.
  abbrev pub count : HashTable K V → K → ℕ
  count ht k = occurrences t k (bucket t ht k)

  differ :
      (ht : HashTable K V) (a b : K) → index_of t ht a ≢ index_of t ht b → t.key_compare a b ≡ false
  differ ht a b ne = elim (Bool-cases (t.key_compare a b)) [
    | inl e ↦ absurd (ne (index_of-cong t lawful ht a b e))
    | inr e ↦ e
  ]

  bucket-placed :
      (ht : HashTable K V)
      → IsTable t ht
      → (k j : K) → index_of t ht j ≢ index_of t ht k
      → occurrences t j (bucket t ht k) ≡ 0
  unfolding bucket
  bucket-placed ht w k j ne = w.placed (index_of t ht k) j ne

  same_bucket :
      (ht : HashTable K V) (a b : K)
      → index_of t ht a ≡ index_of t ht b
      → bucket t ht a ≡ bucket t ht b
  unfolding bucket
  same_bucket ht a b e = ap (λ i. get_or ht.table i []) e

  pub found-cong :
      (ht : HashTable K V) (a b : K) → t.key_compare a b ≡ true → found ht a ≡ found ht b
  found-cong ht a b e =
      find-cong t lawful a b e (bucket t ht a)
      ∙ ap (chain_find t b) (same_bucket ht a b (index_of-cong t lawful ht a b e))

  pub count-cong :
      (ht : HashTable K V) (a b : K) → t.key_compare a b ≡ true → count ht a ≡ count ht b
  count-cong ht a b e =
      occurrences-cong t lawful a b e (bucket t ht a)
      ∙ ap (occurrences t b) (same_bucket ht a b (index_of-cong t lawful ht a b e))

  module _ (ht : HashTable K V) (w : IsTable t ht) (key : K) where
    bound : index_of t ht key < length ht.table
    bound = index_in_bounds t ht w key

    module _ (val : V) where
      pub push-IsTable : IsTable t (push t ht key val)
      unfolding push push_at occurrences
      push-IsTable =
          set-IsTable t ht (index_of t ht key) _ _ w bound (omega arith)
            (λ k ne. ground (arith, differ ht k key ne, w.placed (index_of t ht key) k ne))

      pub bucket-push :
          (k : K)
          → bucket t (push t ht key val) k ≡ (
              if index_of t ht k == index_of t ht key
              then (key, val) ∷ bucket t ht key
              else bucket t ht k)
      unfolding push push_at
      bucket-push k = bucket-set t ht (index_of t ht key) _ (ht.used + 1) k bound

      pub found-push :
          (k : K)
          → found (push t ht key val) k
            ≡ (if t.key_compare k key then some (key, val) else found ht k)
      unfolding chain_find
      found-push k = elim (ℕ_discrete (index_of t ht k) (index_of t ht key)) [
        | yes e ↦ ground (arith, bucket-push k, same_bucket ht k key e)
        | no ne ↦ ground (arith, bucket-push k, differ ht k key ne)
      ]

      pub count-push :
          (k : K)
          → count (push t ht key val) k ≡ (if t.key_compare k key then 1 else 0) + count ht k
      unfolding occurrences
      count-push k = elim (ℕ_discrete (index_of t ht k) (index_of t ht key)) [
        | yes e ↦ ground (arith, bucket-push k, same_bucket ht k key e)
        | no ne ↦ ground (arith, bucket-push k, differ ht k key ne)
      ]

    unlinked_count :
        (e : K × V)
        → found ht key ≡ some e
        → ht.used - 1 + length (get_or ht.table (index_of t ht key) [])
          ≡ ht.used + length (chain_remove t key (bucket t ht key))
    unlinked_count e here =
        let c = total-set ht.table (index_of t ht key) [] bound in
        let l = length-remove t key (bucket t ht key) e here in
        unfold bucket in omega (arith, c, l, w.counted)

    used_pos : (e : K × V) → found ht key ≡ some e → 0 < ht.used
    used_pos e here =
        let c = total-set ht.table (index_of t ht key) [] bound in
        let l = length-remove t key (bucket t ht key) e here in
        unfold bucket in omega (arith, c, l, w.counted)

    module _ (e : K × V) (here : found ht key ≡ some e) where
      pub unlink-IsTable : IsTable t (unlink t ht key)
      unfolding unlink
      unlink-IsTable =
          set-IsTable t ht (index_of t ht key) _ _ w bound (unlinked_count e here) (λ k ne. omega (
            arith,
            occurrences-remove t lawful k key (bucket t ht key),
            bucket-placed ht w key k ne,
          ))

      pub used-unlink : (unlink t ht key).used + 1 ≡ ht.used
      unfolding unlink
      used-unlink = omega (
        arith,
        unlinked_count e here,
        length-remove t key (bucket t ht key) e here,
        used_pos e here,
      )

      pub bucket-unlink :
          (k : K)
          → bucket t (unlink t ht key) k ≡ (
              if index_of t ht k == index_of t ht key
              then chain_remove t key (bucket t ht key)
              else bucket t ht k)
      unfolding unlink
      bucket-unlink k = bucket-set t ht (index_of t ht key) _ (ht.used - 1) k bound

      pub found-unlink_ne :
          (k : K) → t.key_compare k key ≡ false → found (unlink t ht key) k ≡ found ht k
      found-unlink_ne k d = elim (ℕ_discrete (index_of t ht k) (index_of t ht key)) [
        | yes p ↦ ground (
          arith,
          bucket-unlink k,
          same_bucket ht k key p,
          find-remove_ne t lawful k key d (bucket t ht key),
        )
        | no ne ↦ ground (arith, bucket-unlink k)
      ]

      pub count-unlink : (k : K) → count (unlink t ht key) k ≤ count ht k
      count-unlink k = elim (ℕ_discrete (index_of t ht k) (index_of t ht key)) [
        | yes p ↦ ground (
          arith,
          bucket-unlink k,
          same_bucket ht k key p,
          occurrences-remove t lawful k key (bucket t ht key),
        )
        | no ne ↦ ground (arith, bucket-unlink k)
      ]

      pub count-unlink_self : count (unlink t ht key) key + 1 ≡ count ht key
      count-unlink_self =
          ground (
            arith,
            bucket-unlink key,
            occurrences-remove_self t lawful key (bucket t ht key) e here,
          )

      pub update-IsTable : (val : V) → IsTable t (update t ht key val)
      unfolding update
      update-IsTable val =
          set-IsTable t ht (index_of t ht key) _ _ w bound
            (unfold bucket in omega (arith, length-update t key val (bucket t ht key)))
            (λ k ne. omega (
              arith,
              occurrences-update t lawful k key val (bucket t ht key),
              bucket-placed ht w key k ne,
            ))

      pub bucket-update :
          (val : V) (k : K)
          → bucket t (update t ht key val) k ≡ (
              if index_of t ht k == index_of t ht key
              then chain_update t key val (bucket t ht key)
              else bucket t ht k)
      unfolding update
      bucket-update val k = bucket-set t ht (index_of t ht key) _ ht.used k bound

      updated_chain :
          (val : V) (k : K)
          → chain_find t k (chain_update t key val (bucket t ht key))
            ≡ (if t.key_compare k key then some (e.0, val) else chain_find t k (bucket t ht key))
      updated_chain val k = elim (Bool-cases (t.key_compare k key)) [
        | inl p ↦ rw p (find-update_self t lawful k key val p (bucket t ht key) e here)
        | inr p ↦ rw p (find-update_ne t lawful k key val p (bucket t ht key))
      ]

      pub found-update :
          (val : V) (k : K)
          → found (update t ht key val) k
            ≡ (if t.key_compare k key then some (e.0, val) else found ht k)
      found-update val k = elim (ℕ_discrete (index_of t ht k) (index_of t ht key)) [
        | yes p ↦ ground (arith, bucket-update val k, same_bucket ht k key p, updated_chain val k)
        | no ne ↦ ground (arith, bucket-update val k, differ ht k key ne)
      ]

      pub count-update : (val : V) (k : K) → count (update t ht key val) k ≡ count ht k
      count-update val k = elim (ℕ_discrete (index_of t ht k) (index_of t ht key)) [
        | yes p ↦ ground (
          arith,
          bucket-update val k,
          same_bucket ht k key p,
          occurrences-update t lawful k key val (bucket t ht key),
        )
        | no ne ↦ ground (arith, bucket-update val k)
      ]
