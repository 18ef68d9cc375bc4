-- ===== src/Dict/Rehash.antt =====
-- redis-2.6.14/src/dict.c: dictRehash keeps a dict well-formed, with the same entries.
use galery.Prelude.{
  ℕ, zero, suc, ◌+◌, ◌-◌, ◌≤◌, ◌<◌, ◌≡◌, ◌≢◌, refl, ap, sym, ◌∙◌, true, false, none, some, List, [],
  arith, if◌then◌else◌, Bool-cases, inl, inr, length, get_or, set, get_or-set_self, get_or-set_ne,
  ◌==◌,
}
use native.Mathlib.Decide.{ℕ_discrete}
use galery.Dict.Chain.{DictType, IsLawful, chain_find, occurrences}
use galery.Dict.Chain.Laws.{find-none}
use galery.Dict.Table.{HashTable, reset, index_of, bucket}
use galery.Dict.Table.Laws.{total-set, total-zero, IsTable, set-IsTable, bucket-set}
use galery.Dict.Table.Steps.{found, count}
use galery.Dict.{
  Dict, is_rehashing, dict_size, skip_empty, move_bucket, rehash_round, rehash_rounds, dict_rehash,
  rehash_step, step_if_rehashing,
}
use galery.Dict.Invariant.{
  Phase, unallocated, stable, rehashing, IsDict, view, found-reset, count-reset,
}
use galery.Dict.Moves.{
  IsFirst, skip_empty-IsFirst, push_all-IsTable, used-push_all, count-push_all, found-push_all,
}

module _ {K V : Type 0} (t : DictType K) (lawful : IsLawful t) where
  -- The same entries, as many of them.
  pub record Same (d d' : Dict K V) : Type 0 where
    pub views : (k : K) → view t lawful d' k ≡ view t lawful d k
    pub sizes : dict_size d' ≡ dict_size d

  module _ (d : Dict K V) (i : ℕ) (w : IsTable t d.ht0) (w' : IsTable t d.ht1)
      (first : IsFirst d.ht0.table i)
      (unique : (k : K) → count t lawful d.ht0 k + count t lawful d.ht1 k ≤ 1) where
    abbrev chain : List (K × V)
    chain = get_or d.ht0.table i []

    -- Keys of other buckets have no entry in the chain.
    occurrences-chain :
        (k : K)
        → occurrences t k chain ≡ (if index_of t d.ht0 k == i then count t lawful d.ht0 k else 0)
    unfolding bucket
    occurrences-chain k = elim (ℕ_discrete (index_of t d.ht0 k) i) [
      | yes e ↦ ground (arith, ap (λ j. occurrences t k (get_or d.ht0.table j [])) e)
      | no ne ↦ ground (arith, w.placed i k ne)
    ]

    find-chain :
        (k : K)
        → chain_find t k chain ≡ (if index_of t d.ht0 k == i then found t lawful d.ht0 k else none)
    unfolding bucket
    find-chain k = elim (ℕ_discrete (index_of t d.ht0 k) i) [
      | yes e ↦ ground (arith, ap (λ j. chain_find t k (get_or d.ht0.table j [])) e)
      | no ne ↦ ground (arith, find-none t k chain (w.placed i k ne))
    ]

    counts :
        (k : K)
        → count t lawful (move_bucket t d i).ht0 k + count t lawful (move_bucket t d i).ht1 k
          ≡ count t lawful d.ht0 k + count t lawful d.ht1 k
    unfolding move_bucket occurrences
    counts k = ground (
      arith,
      bucket-set t d.ht0 i [] (d.ht0.used - length chain) k first.inside,
      occurrences-chain k,
      count-push_all t lawful chain d.ht1 w' k,
    )

    views : (k : K) → view t lawful (move_bucket t d i) k ≡ view t lawful d k
    unfolding move_bucket chain_find
    views k = ground (
      arith,
      bucket-set t d.ht0 i [] (d.ht0.used - length chain) k first.inside,
      find-chain k,
      occurrences-chain k,
      unique k,
      found-push_all t lawful chain d.ht1 w' k,
    )

    length-chain : length chain ≤ d.ht0.used
    length-chain = omega (arith, total-set d.ht0.table i [] first.inside, w.counted)

    move_bucket-Same : Same d (move_bucket t d i)
    move_bucket-Same = record {
      views = views;
      sizes = unfold move_bucket in omega (arith, length-chain, used-push_all t lawful chain d.ht1);
    }

    move_bucket-IsDict : IsDict t lawful (move_bucket t d i)
    move_bucket-IsDict = record {
      phase =
          unfold move_bucket in
          rehashing (i + 1)
            (set-IsTable t d.ht0 i [] (d.ht0.used - length chain) w first.inside
              (omega (arith, length-chain)) (λ k ne. unfold occurrences in refl))
            (push_all-IsTable t lawful chain d.ht1 w') refl
            (λ j lt. elim (ℕ_discrete i j) [
              | yes e ↦
                  ap (λ k. get_or (set d.ht0.table i []) k []) (sym e)
                  ∙ get_or-set_self d.ht0.table i [] [] first.inside
              | no ne ↦ get_or-set_ne d.ht0.table i j [] [] ne ∙ first.cleared j (omega arith)
            ]);
      unique = λ k. omega (arith, counts k, unique k);
    }

  Same-refl : (d : Dict K V) → Same d d
  Same-refl d = record { views = λ k. refl; sizes = refl }

  pub Same-trans : (a b c : Dict K V) → Same a b → Same b c → Same a c
  Same-trans a b c p q = record { views = λ k. q.views k ∙ p.views k; sizes = q.sizes ∙ p.sizes }

  -- Well-formed still, with the same entries.
  pub record Keeps (d d' : Dict K V) : Type 0 where
    pub valid : IsDict t lawful d'
    pub same : Same d d'

  pub Keeps-refl : (d : Dict K V) → IsDict t lawful d → Keeps d d
  Keeps-refl d w = record { valid = w; same = Same-refl d }

  pub Keeps-trans : (a b c : Dict K V) → Keeps a b → Keeps b c → Keeps a c
  Keeps-trans a b c p q = record { valid = q.valid; same = Same-trans a b c p.same q.same }

  -- The last round: the second table takes the place of the first.
  abbrev pub finished : Dict K V → Dict K V
  finished d = record d { ht0 = d.ht1; ht1 = reset; rehashidx = none }

  bucket-total : (ht : HashTable K V) → IsTable t ht → ht.used ≡ 0 → (k : K) → bucket t ht k ≡ []
  unfolding bucket
  bucket-total ht w e k = total-zero ht.table (index_of t ht k) (sym w.counted ∙ e)

  finished-Keeps :
      (d : Dict K V)
      → IsDict t lawful d
      → IsTable t d.ht0
      → IsTable t d.ht1
      → d.ht0.used ≡ 0
      → Keeps d (finished d)
  unfolding chain_find occurrences
  finished-Keeps d v w w' e = record {
    valid = record {
      phase = stable w' refl refl;
      unique = λ k. omega (arith, v.unique k, count-reset t lawful (finished d).ht1 refl k);
    };
    same = record {
      views = λ k.
          ground (arith, bucket-total d.ht0 w e k, found-reset t lawful (finished d).ht1 refl k);
      sizes = omega arith;
    };
  }

  pub round-done :
      (d : Dict K V) (i : ℕ)
      → d.rehashidx ≡ some i
      → d.ht0.used ≡ 0
      → rehash_round t d ≡ (true, finished d)
  unfolding rehash_round
  round-done d i r e = ground arith

  abbrev pub next_bucket : Dict K V → ℕ → ℕ
  next_bucket d i = skip_empty (d.ht0.size - i) d.ht0.table i

  pub round-move :
      (d : Dict K V) (i : ℕ)
      → d.rehashidx ≡ some i
      → d.ht0.used ≢ 0
      → rehash_round t d ≡ (false, move_bucket t d (next_bucket d i))
  unfolding rehash_round
  round-move d i r e = ground arith

  round-none : (d : Dict K V) → d.rehashidx ≡ none → rehash_round t d ≡ (true, d)
  unfolding rehash_round
  round-none d r = ground arith

  pub next_bucket-IsFirst :
      (d : Dict K V) (i : ℕ)
      → IsTable t d.ht0
      → d.ht0.used ≢ 0
      → ((j : ℕ) → j < i → get_or d.ht0.table j [] ≡ [])
      → IsFirst d.ht0.table (next_bucket d i)
  next_bucket-IsFirst d i w e c =
      skip_empty-IsFirst d.ht0.table (d.ht0.size - i) i (λ z. e (w.counted ∙ z))
        (omega (arith, w.sized)) c

  -- A round of rehashing loses no entry.
  pub rehash_round-Keeps : (d : Dict K V) → IsDict t lawful d → Keeps d (rehash_round t d).1
  rehash_round-Keeps d v = go v.phase
    where
      go : Phase t d → Keeps d (rehash_round t d).1
      go (unallocated e f r) = rw (round-none d r) (Keeps-refl d v)
      go (stable w f r) = rw (round-none d r) (Keeps-refl d v)
      go (rehashing i w w' r c) = elim (ℕ_discrete d.ht0.used 0) [
        | yes e ↦ rw (round-done d i r e) (finished-Keeps d v w w' e)
        | no e ↦
            let first = next_bucket-IsFirst d i w e c in
            rw (round-move d i r e) (record {
              valid = move_bucket-IsDict d (next_bucket d i) w w' first v.unique;
              same = move_bucket-Same d (next_bucket d i) w w' first v.unique;
            })
      ]

  pub rounds-stop :
      (n : ℕ) (d : Dict K V)
      → (rehash_round t d).0 ≡ true
      → rehash_rounds t (suc n) d ≡ (false, (rehash_round t d).1)
  unfolding rehash_rounds
  rounds-stop n d e = ground arith

  pub rounds-go :
      (n : ℕ) (d : Dict K V)
      → (rehash_round t d).0 ≡ false
      → rehash_rounds t (suc n) d ≡ rehash_rounds t n (rehash_round t d).1
  unfolding rehash_rounds
  rounds-go n d e = ground arith

  rehash_rounds-Keeps : (n : ℕ) (d : Dict K V) → IsDict t lawful d → Keeps d (rehash_rounds t n d).1
  rehash_rounds-Keeps zero d v = unfold rehash_rounds in Keeps-refl d v
  rehash_rounds-Keeps (suc n) d v =
      let r = rehash_round-Keeps d v in
      elim (Bool-cases (rehash_round t d).0) [
        | inl e ↦ rw (rounds-stop n d e) r
        | inr e ↦ rw (rounds-go n d e) (
            Keeps-trans d (rehash_round t d).1 _ r
              (rehash_rounds-Keeps n (rehash_round t d).1 r.valid))
      ]

  -- Any number of rounds of `dictRehash` keeps a dict well-formed, with the same entry of every key
  -- and the same size.
  pub dict_rehash-Keeps : (d : Dict K V) (n : ℕ) → IsDict t lawful d → Keeps d (dict_rehash t d n).1
  unfolding dict_rehash
  dict_rehash-Keeps d n v = elim (Bool-cases (is_rehashing d)) [
    | inl e ↦ rw e (rehash_rounds-Keeps n d v)
    | inr e ↦ rw e (Keeps-refl d v)
  ]

  pub step_if_rehashing-Keeps : (d : Dict K V) → IsDict t lawful d → Keeps d (step_if_rehashing t d)
  unfolding step_if_rehashing rehash_step
  step_if_rehashing-Keeps d v = elim (Bool-cases (is_rehashing d)) [
    | inl e ↦ rw e (elim (Bool-cases (d.iterators == 0)) [
      | inl z ↦ rw z (dict_rehash-Keeps d 1 v)
      | inr z ↦ rw z (Keeps-refl d v)
    ])
    | inr e ↦ rw e (Keeps-refl d v)
  ]
