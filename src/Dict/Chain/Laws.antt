-- ===== src/Dict/Chain/Laws.antt =====
-- redis-2.6.14/src/dict.c: what a walk along a chain finds after a change to it.
use galery.Prelude.{◌+◌, ◌≤◌, ◌≡◌, refl, true, false, none, some, List, [], ◌∷◌, arith, length}
use galery.Dict.Chain.{DictType, IsLawful, chain_find, chain_remove, chain_update, occurrences}

module _ {K V : Type 0} (t : DictType K) where
  pub find-none :
      (key : K) (he : List (K × V)) → occurrences t key he ≡ 0 → chain_find t key he ≡ none
  unfolding chain_find occurrences
  find-none key [] h = refl
  find-none key ((k, v) ∷ he) h = ground (arith, find-none key he)

  pub occurrences-none :
      (key : K) (he : List (K × V)) → chain_find t key he ≡ none → occurrences t key he ≡ 0
  unfolding chain_find occurrences
  occurrences-none key [] h = refl
  occurrences-none key ((k, v) ∷ he) h = ground (arith, occurrences-none key he)

  pub length-remove :
      (key : K) (he : List (K × V)) (e : K × V)
      → chain_find t key he ≡ some e
      → length (chain_remove t key he) + 1 ≡ length he
  unfolding chain_find chain_remove
  length-remove key [] e h = absurd (ground arith)
  length-remove key ((k, v) ∷ he) e h = ground (arith, length-remove key he e)

  pub length-update :
      (key : K) (val : V) (he : List (K × V)) → length (chain_update t key val he) ≡ length he
  unfolding chain_update
  length-update key val [] = refl
  length-update key val ((k, v) ∷ he) = ground (arith, length-update key val he)

  module _ (lawful : IsLawful t) where
    pub occurrences-cong :
        (a b : K)
        → t.key_compare a b ≡ true
        → (he : List (K × V)) → occurrences t a he ≡ occurrences t b he
    unfolding occurrences
    occurrences-cong a b e [] = refl
    occurrences-cong a b e ((k, v) ∷ he) = ground (
      arith,
      occurrences-cong a b e he,
      lawful.compare_cong a b k e,
      lawful.compare_sym a k,
      lawful.compare_sym b k,
    )

    pub occurrences-remove :
        (j key : K) (he : List (K × V))
        → occurrences t j (chain_remove t key he) ≤ occurrences t j he
    unfolding occurrences chain_remove
    occurrences-remove j key [] = omega arith
    occurrences-remove j key ((k, v) ∷ he) = ground (arith, occurrences-remove j key he)

    -- The entry that is unlinked was there.
    pub occurrences-remove_self :
        (key : K) (he : List (K × V)) (e : K × V)
        → chain_find t key he ≡ some e
        → occurrences t key (chain_remove t key he) + 1 ≡ occurrences t key he
    unfolding occurrences chain_remove chain_find
    occurrences-remove_self key [] e h = absurd (ground arith)
    occurrences-remove_self key ((k, v) ∷ he) e h = ground (arith, occurrences-remove_self key he e)

    pub find-remove_ne :
        (j key : K)
        → t.key_compare j key ≡ false
        → (he : List (K × V)) → chain_find t j (chain_remove t key he) ≡ chain_find t j he
    unfolding chain_remove chain_find
    find-remove_ne j key h [] = refl
    find-remove_ne j key h ((k, v) ∷ he) =
        ground (arith, find-remove_ne j key h he, lawful.compare_cong key k j)

    pub occurrences-update :
        (j key : K) (val : V) (he : List (K × V))
        → occurrences t j (chain_update t key val he) ≡ occurrences t j he
    unfolding occurrences chain_update
    occurrences-update j key val [] = refl
    occurrences-update j key val ((k, v) ∷ he) = ground (arith, occurrences-update j key val he)

    pub find-update_ne :
        (j key : K) (val : V)
        → t.key_compare j key ≡ false
        → (he : List (K × V)) → chain_find t j (chain_update t key val he) ≡ chain_find t j he
    unfolding chain_update chain_find
    find-update_ne j key val h [] = refl
    find-update_ne j key val h ((k, v) ∷ he) =
        ground (arith, find-update_ne j key val h he, lawful.compare_cong key k j)

    pub find-update_self :
        (j key : K) (val : V)
        → t.key_compare j key ≡ true
        → (he : List (K × V)) (e : K × V) → chain_find t key he ≡ some e
        → chain_find t j (chain_update t key val he) ≡ some (e.0, val)
    unfolding chain_update chain_find
    find-update_self j key val h [] e f = absurd (ground arith)
    find-update_self j key val h ((k, v) ∷ he) e f = ground (
      arith,
      find-update_self j key val h he e,
      lawful.compare_cong j key k h,
      lawful.compare_sym j k,
      lawful.compare_sym key k,
    )

    pub find-cong :
        (a b : K)
        → t.key_compare a b ≡ true
        → (he : List (K × V)) → chain_find t a he ≡ chain_find t b he
    unfolding chain_find
    find-cong a b e [] = refl
    find-cong a b e ((k, v) ∷ he) = ground (
      arith,
      find-cong a b e he,
      lawful.compare_cong a b k e,
      lawful.compare_sym a k,
      lawful.compare_sym b k,
    )
