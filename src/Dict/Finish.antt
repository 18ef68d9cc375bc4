-- ===== src/Dict/Finish.antt =====
-- redis-2.6.14/src/dict.c: rehashing ends.
use galery.Prelude.{
  ℕ, zero, suc, ◌+◌, ◌-◌, ◌≤◌, ◌<◌, ◌≡◌, ◌≢◌, refl, ap, subst, Bool, true, false, none, some, [],
  arith, get_or,
}
use native.Mathlib.Decide.{ℕ_discrete, dec_lt}
use galery.Dict.Chain.{DictType, IsLawful}
use galery.Dict.{Dict, empty, is_rehashing, move_bucket, rehash_round, rehash_rounds, dict_rehash}
use galery.Dict.Invariant.{Phase, unallocated, stable, rehashing, IsDict, count-reset}
use galery.Dict.Moves.{IsFirst}
use galery.Dict.Rehash.{
  next_bucket, next_bucket-IsFirst, round-done, round-move, rounds-stop, rounds-go,
  rehash_round-Keeps,
}

module _ {K V : Type 0} (t : DictType K) (lawful : IsLawful t) where
  -- The bucket that is moved next is none of those passed.
  next-after :
      (d : Dict K V) (i : ℕ)
      → IsFirst d.ht0.table (next_bucket t lawful d i)
      → ((j : ℕ) → j < i → get_or d.ht0.table j [] ≡ [])
      → i ≤ next_bucket t lawful d i
  next-after d i first c = elim (dec_lt (next_bucket t lawful d i) i) [
    | yes lt ↦ absurd (first.holds (c _ lt))
    | no h ↦ omega arith
  ]

  -- The result 0, with the second table in the place of the first.
  abbrev Ended : Bool × Dict K V → Type 0
  Ended r = (r.0 ≡ false) × (r.1.rehashidx ≡ none)

  -- A round that moves a bucket brings rehashidx past it.
  advance :
      (n : ℕ) (d : Dict K V) (i : ℕ)
      → Phase t d
      → d.rehashidx ≡ some i
      → d.ht0.size - i < suc n
      → d.ht0.used ≢ 0
      → ((rehash_round t d).1.rehashidx ≡ some (next_bucket t lawful d i + 1))
        × ((rehash_round t d).1.ht0.size - (next_bucket t lawful d i + 1) < n)
  advance n d i (unallocated a b c) r h e = absurd (ground arith)
  advance n d i (stable a b c) r h e = absurd (ground arith)
  advance n d i (rehashing j w w' s c) r h e =
      let same : j ≡ i = ground arith in
      let c' = subst (λ x. (k : ℕ) → k < x → get_or d.ht0.table k [] ≡ []) same c in
      let first = next_bucket-IsFirst t lawful d i w e c' in
      let after = next-after d i first c' in
      rw (round-move t lawful d i r e)
        (unfold move_bucket in (refl, omega (arith, after, first.inside, w.sized)))

  rounds-Ended :
      (n : ℕ) (d : Dict K V) (i : ℕ)
      → IsDict t lawful d
      → d.rehashidx ≡ some i
      → d.ht0.size - i < n
      → Ended (rehash_rounds t n d)
  rounds-Ended zero d i v r h = absurd (omega arith)
  rounds-Ended (suc n) d i v r h = elim (ℕ_discrete d.ht0.used 0) [
    | yes e ↦
        let q = round-done t lawful d i r e in
        rw (rounds-stop t lawful n d (ap (λ (x : Bool × Dict K V). x.0) q), q) (refl, refl)
    | no e ↦
        let q = round-move t lawful d i r e in
        let a = advance n d i v.phase r h e in
        rw (rounds-go t lawful n d (ap (λ (x : Bool × Dict K V). x.0) q)) (
          rounds-Ended n (rehash_round t d).1 (next_bucket t lawful d i + 1)
            (rehash_round-Keeps t lawful d v).valid a.0 a.1)
  ]

  -- On a well-formed dict that is rehashing, with more rounds than there are buckets left, `dictRehash`
  -- returns 0 and the rehashing is over.
  pub dict_rehash-ends :
      (d : Dict K V) (n i : ℕ)
      → IsDict t lawful d
      → d.rehashidx ≡ some i
      → d.ht0.size - i < n
      → ((dict_rehash t d n).0 ≡ false) × ((dict_rehash t d n).1.rehashidx ≡ none)
  unfolding dict_rehash
  dict_rehash-ends d n i v r h =
      let e : is_rehashing d ≡ true = ground arith in rw e (rounds-Ended n d i v r h)

  -- `dictCreate` makes a well-formed dict.
  pub empty-IsDict : (d : Dict K V) → d ≡ empty → IsDict t lawful d
  empty-IsDict d e = record {
    phase =
        unallocated (ap (λ (x : Dict K V). x.ht0) e) (ap (λ (x : Dict K V). x.ht1) e)
          (ap (λ (x : Dict K V). x.rehashidx) e);
    unique = λ k. omega (
      arith,
      count-reset t lawful d.ht0 (ap (λ (x : Dict K V). x.ht0) e) k,
      count-reset t lawful d.ht1 (ap (λ (x : Dict K V). x.ht1) e) k,
    );
  }
