-- ===== src/Dict/Expand.antt =====
-- redis-2.6.14/src/dict.c: dictExpand, _dictExpandIfNeeded, dictResize and _dictNextPower.
use native.Mathlib.Nat.{pow-suc}
use galery.Prelude.{
  ◌/◌, List-cases, ℕ, zero, suc, ◌*◌, ◌^◌, ◌≤◌, ◌<◌, ◌≡◌, refl, ap, Bool, true, false, ◌&&◌, ◌||◌,
  none, some, List, [], ◌∷◌, arith, Bool-cases, inl, inr, length, ◌==◌, ltb, leb,
}
use galery.Dict.Chain.{DictType, IsLawful, chain_find, occurrences}
use galery.Dict.Table.{HashTable, fresh}
use galery.Dict.Table.Laws.{IsTable, fresh-IsTable, bucket-fresh}
use galery.Dict.Table.Steps.{found, count}
use galery.Dict.{
  Dict, is_rehashing, initial_size, long_max, double_until, next_power, dict_expand,
  expand_if_needed, force_resize_ratio,
}
use galery.Dict.Invariant.{Phase, unallocated, stable, rehashing, IsDict, found-reset, count-reset}
use galery.Dict.Rehash.{Keeps, Keeps-refl}

le-double_until : (f i size : ℕ) → i ≤ double_until f i size
unfolding double_until
le-double_until zero i size = omega arith
le-double_until (suc f) i size = ground (arith, le-double_until f (i * 2) size)

pub next_power_pos : (size : ℕ) → 0 < next_power size
unfolding next_power
next_power_pos size = ground (arith, le-double_until 61 4 size)

-- Doubling `f` times from `i` is enough to pass what `i * 2 ^ f` passes.
double_until_reaches : (f i size : ℕ) → size ≤ i * 2 ^ f → size ≤ double_until f i size
unfolding double_until
double_until_reaches zero i size h = omega arith
double_until_reaches (suc f) i size h = ground (
  arith,
  double_until_reaches f (i * 2) size (omega (arith, ap (λ (k : ℕ). i * k) (pow-suc 2 f))),
)

double_until_power : (f e size : ℕ) → (k : ℕ) × (double_until f (2 ^ e) size ≡ 2 ^ k)
unfolding double_until
double_until_power zero e size = (e, refl)
double_until_power (suc f) e size = elim (Bool-cases (leb size (2 ^ e))) [
  | inl h ↦ (e, ground arith)
  | inr h ↦ let r = double_until_power f (suc e) size in (r.0, ground (arith, pow-suc 2 e, r.1))
]

-- Below LONG_MAX the size chosen is a power of two that is large enough: the loop ends.
pub next_power_lem :
    (size : ℕ) → size < long_max → (size ≤ next_power size) × ((k : ℕ) × (next_power size ≡ 2 ^ k))
unfolding next_power
next_power_lem size h =
    let p = double_until_power 61 2 size in
    (ground (arith, double_until_reaches 61 4 size (omega arith)), (p.0, ground (arith, p.1)))

module _ {K V : Type 0} (t : DictType K) (lawful : IsLawful t) where
  expand-first :
      (d : Dict K V) (size : ℕ)
      → is_rehashing d ≡ false
      → d.ht0.used ≤ size
      → d.ht0.table ≡ []
      → dict_expand d size ≡ (true, record d { ht0 = fresh (next_power size) })
  unfolding dict_expand
  expand-first d size r u e = ground arith

  expand-second :
      (d : Dict K V) (size : ℕ) (c : List (K × V)) (cs : List (List (K × V)))
      → is_rehashing d ≡ false
      → d.ht0.used ≤ size
      → d.ht0.table ≡ c ∷ cs
      → dict_expand d size ≡ (true, record d { ht1 = fresh (next_power size); rehashidx = some 0 })
  unfolding dict_expand
  expand-second d size c cs r u e = ground arith

  found-fresh : (h : HashTable K V) (n : ℕ) → h ≡ fresh n → (k : K) → found t lawful h k ≡ none
  unfolding chain_find
  found-fresh h n e k = ap (chain_find t k) (bucket-fresh t h n e k)

  count-fresh : (h : HashTable K V) (n : ℕ) → h ≡ fresh n → (k : K) → count t lawful h k ≡ 0
  unfolding occurrences
  count-fresh h n e k = ap (occurrences t k) (bucket-fresh t h n e k)

  rehashing_allocated : (d : Dict K V) → Phase t d → is_rehashing d ≡ true → IsTable t d.ht0
  rehashing_allocated d (unallocated e f r) h = absurd (ground arith)
  rehashing_allocated d (stable w f r) h = w
  rehashing_allocated d (rehashing i w w' r c) h = w

  sized_allocated :
      (d : Dict K V)
      → Phase t d
      → is_rehashing d ≡ false
      → (d.ht0.size == 0) ≡ false
      → IsTable t d.ht0
  sized_allocated d (unallocated e f r) h z =
      absurd (ground (arith, ap (λ (h : HashTable K V). h.size) e))
  sized_allocated d (stable w f r) h z = w
  sized_allocated d (rehashing i w w' r c) h z = w

  unallocated_used :
      (d : Dict K V)
      → Phase t d
      → is_rehashing d ≡ false
      → (d.ht0.size == 0) ≡ true
      → d.ht0.used ≤ initial_size
  unallocated_used d (unallocated e f r) h z = omega (arith, ap (λ (h : HashTable K V). h.used) e)
  unallocated_used d (stable w f r) h z = absurd (ground (arith, w.masked))
  unallocated_used d (rehashing i w w' r c) h z = absurd (ground arith)

  -- With a table to hold entries now.
  pub record Expanded (d : Dict K V) (r : Bool × Dict K V) : Type 0 where
    pub okay : r.0 ≡ true
    pub keeps : Keeps t lawful d r.1
    pub allocated : IsTable t r.1.ht0

  pub dict_expand-Expanded :
      (d : Dict K V) (size : ℕ)
      → IsDict t lawful d
      → is_rehashing d ≡ false
      → d.ht0.used ≤ size
      → Expanded d (dict_expand d size)
  dict_expand-Expanded d size v r u = go v.phase
    where
      n : ℕ
      n = next_power size

      go : Phase t d → Expanded d (dict_expand d size)
      go (unallocated e f i) =
          rw (expand-first d size r u (ap (λ (h : HashTable K V). h.table) e)) (record {
            okay = refl;
            keeps = record {
              valid = record {
                phase = stable (fresh-IsTable t n (next_power_pos size)) f i;
                unique = λ k.
                    omega (arith, count-fresh (fresh n) n refl k, count-reset t lawful d.ht1 f k);
              };
              same = record {
                views = λ k.
                    ground (arith, found-fresh (fresh n) n refl k, found-reset t lawful d.ht0 e k);
                sizes = omega (arith, ap (λ (h : HashTable K V). h.used) e);
              };
            };
            allocated = fresh-IsTable t n (next_power_pos size);
          })
      go (stable w f i) = elim (List-cases d.ht0.table) [
        | inl e ↦ absurd (omega (arith, ap length e, w.sized, w.masked))
        | inr p ↦ rw (expand-second d size p.0 p.1 r u p.2) (record {
          okay = refl;
          keeps = record {
            valid = record {
              phase =
                  rehashing 0 w (fresh-IsTable t n (next_power_pos size)) refl
                    (λ j h. absurd (omega arith));
              unique = λ k. omega (arith, count-fresh (fresh n) n refl k, v.unique k);
            };
            same = record {
              views = λ k.
                  ground (arith, found-fresh (fresh n) n refl k, found-reset t lawful d.ht1 f k);
              sizes = omega (arith, ap (λ (h : HashTable K V). h.used) f);
            };
          };
          allocated = w;
        })
      ]
      go (rehashing j w w' i c) = absurd (ground arith)

  pub expand_if_needed-Expanded :
      (can_resize : Bool) (d : Dict K V)
      → IsDict t lawful d
      → Expanded d (expand_if_needed t can_resize d)
  unfolding expand_if_needed
  expand_if_needed-Expanded can_resize d v = elim (Bool-cases (is_rehashing d)) [
    | inl e ↦ rw e (record {
      okay = refl;
      keeps = Keeps-refl t lawful d v;
      allocated = rehashing_allocated d v.phase e;
    })
    | inr e ↦ rw e (elim (Bool-cases (d.ht0.size == 0)) [
      | inl z ↦ rw z (dict_expand-Expanded d initial_size v e (unallocated_used d v.phase e z))
      | inr z ↦
          rw z
            (elim (Bool-cases (
              leb d.ht0.size d.ht0.used
              && (can_resize || ltb force_resize_ratio (d.ht0.used / d.ht0.size)))) [
                | inl b ↦ rw b (dict_expand-Expanded d _ v e (omega arith))
                | inr b ↦ rw b (record {
                  okay = refl;
                  keeps = Keeps-refl t lawful d v;
                  allocated = sized_allocated d v.phase e z;
                })
              ])
    ])
  ]
