-- ===== src/Dict/Replace.antt =====
-- redis-2.6.14/src/dict.c: dictReplace as an operation on a finite map.
use galery.Prelude.{
  ℕ, ◌+◌, ◌^◌, ◌≤◌, ◌<◌, ◌≡◌, refl, ap, ◌∙◌, Bool, true, false, not, none, some, [], arith,
  if◌then◌else◌, Option-cases, inl, inr, ◌⊎◌, get_or, get_or-set_ne,
}
use native.Mathlib.Decide.{ℕ_discrete}
use galery.Dict.Chain.{DictType, IsLawful, chain_find}
use galery.Dict.Table.{index_of, bucket, update}
use galery.Dict.Table.Laws.{IsTable}
use galery.Dict.Table.Steps.{found, found-cong, update-IsTable, found-update, count-update}
use galery.Dict.{Dict, is_rehashing, dict_size, dict_add, dict_find, set_found, dict_replace}
use galery.Dict.Invariant.{Phase, unallocated, stable, rehashing, IsDict, view, found-reset}
use galery.Dict.Operations.{at_index, is_present, target, dict_add-Adds, dict_find_lem}

module _ {K V : Type 0} (t : DictType K) (lawful : IsLawful t) where
  -- The entry of `key` given anew, and as many entries.
  record Sets (d : Dict K V) (key : K) (e : K × V) (d' : Dict K V) : Type 0 where
    valid : IsDict t lawful d'
    views :
        (k : K) → view t lawful d' k ≡ (if t.key_compare k key then some e else view t lawful d k)
    sizes : dict_size d' ≡ dict_size d

  module _ (d : Dict K V) (v : IsDict t lawful d) (key : K) (val : V) (e : K × V) where
    abbrev first_set : Dict K V
    first_set = record d { ht0 = update t d.ht0 key val }

    abbrev second_set : Dict K V
    second_set = record d { ht1 = update t d.ht1 key val }

    set-first : found t lawful d.ht0 key ≡ some e → set_found t d key val ≡ first_set
    unfolding set_found
    set-first h = ground arith

    set-second :
        found t lawful d.ht0 key ≡ none → is_rehashing d ≡ true → set_found t d key val ≡ second_set
    unfolding set_found
    set-second h r = ground arith

    Sets-first :
        IsTable t d.ht0 → found t lawful d.ht0 key ≡ some e → Sets d key (e.0, val) first_set
    Sets-first w h = record {
      valid = record {
        phase = go v.phase;
        unique = λ k. omega (arith, count-update t lawful d.ht0 w key e h val k, v.unique k);
      };
      views = λ k. ground (arith, found-update t lawful d.ht0 w key e h val k);
      sizes = unfold update in refl;
    }
      where
        go : Phase t d → Phase t first_set
        go (unallocated p f r) = absurd (ground (arith, found-reset t lawful d.ht0 p key))
        go (stable _ f r) = stable (update-IsTable t lawful d.ht0 w key e h val) f r
        go (rehashing i _ w' r c) =
            rehashing i (update-IsTable t lawful d.ht0 w key e h val) w' r (cleared i c)
          where
            cleared :
                (i : ℕ)
                → ((j : ℕ) → j < i → get_or d.ht0.table j [] ≡ [])
                → (j : ℕ) → j < i
                → get_or (update t d.ht0 key val).table j [] ≡ []
            cleared i c j lt = elim (ℕ_discrete (index_of t d.ht0 key) j) [
              | yes q ↦ absurd (
                  unfold bucket chain_find in
                  ground (arith, ap (λ x. get_or d.ht0.table x []) q, c j lt))
              | no q ↦
                  unfold update in
                  get_or-set_ne d.ht0.table (index_of t d.ht0 key) j _ [] q ∙ c j lt
            ]

    Sets-second :
        (i : ℕ)
        → IsTable t d.ht0
        → IsTable t d.ht1
        → d.rehashidx ≡ some i
        → ((j : ℕ) → j < i → get_or d.ht0.table j [] ≡ [])
        → found t lawful d.ht0 key ≡ none
        → found t lawful d.ht1 key ≡ some e
        → Sets d key (e.0, val) second_set
    Sets-second i w w' r c h0 h = record {
      valid = record {
        phase = rehashing i w (update-IsTable t lawful d.ht1 w' key e h val) r c;
        unique = λ k. omega (arith, count-update t lawful d.ht1 w' key e h val k, v.unique k);
      };
      views = λ k.
          ground
            (arith, found-update t lawful d.ht1 w' key e h val k, found-cong t lawful d.ht0 k key);
      sizes = unfold update in refl;
    }

    set_found-Sets : view t lawful d key ≡ some e → Sets d key (e.0, val) (set_found t d key val)
    set_found-Sets p = go v.phase (Option-cases (found t lawful d.ht0 key))
      where
        go :
            Phase t d
            → (found t lawful d.ht0 key ≡ none)
              ⊎ ((x : K × V) × (found t lawful d.ht0 key ≡ some x))
            → Sets d key (e.0, val) (set_found t d key val)
        go (unallocated q f r) h =
            absurd
              (ground (arith, found-reset t lawful d.ht0 q key, found-reset t lawful d.ht1 f key))
        go (stable w f r) (inl h) = absurd (ground (arith, found-reset t lawful d.ht1 f key))
        go (stable w f r) (inr (x, h)) =
            let g : found t lawful d.ht0 key ≡ some e = ground arith in
            rw (set-first g) (Sets-first w g)
        go (rehashing i w w' r c) (inl h) =
            rw (set-second h (at_index t lawful d i r)) (Sets-second i w w' r c h (ground arith))
        go (rehashing i w w' r c) (inr (x, h)) =
            let g : found t lawful d.ht0 key ≡ some e = ground arith in
            rw (set-first g) (Sets-first w g)

  -- What `dictReplace` does to the map: the key's entry has the new value. The result is 1 where there
  -- was none, and the key of an old entry stays.
  pub record Replaces (d : Dict K V) (key : K) (val : V) (r : Bool × Dict K V) : Type 0 where
    pub valid : IsDict t lawful r.1
    pub result : r.0 ≡ not (is_present (view t lawful d key))
    pub views :
        (k : K)
        → view t lawful r.1 k ≡ (
            if t.key_compare k key
            then some (elim (view t lawful d key) [ none ↦ key | some e ↦ e.0 ], val)
            else view t lawful d k)
    pub sizes : dict_size r.1 ≡ dict_size d + (if r.0 then 1 else 0)

  replace-new :
      (can_resize : Bool) (d : Dict K V) (key : K) (val : V)
      → (dict_add t can_resize d key val).0 ≡ true
      → dict_replace t can_resize d key val ≡ (true, (dict_add t can_resize d key val).1)
  unfolding dict_replace
  replace-new can_resize d key val h = ground arith

  replace-old :
      (can_resize : Bool) (d : Dict K V) (key : K) (val : V)
      → (dict_add t can_resize d key val).0 ≡ false
      → dict_replace t can_resize d key val
        ≡ (false, set_found t (dict_find t (dict_add t can_resize d key val).1 key).1 key val)
  unfolding dict_replace
  replace-old can_resize d key val h = ground arith

  -- Where the table that would take a new entry, after the step of rehashing and the expansion, has
  -- at most 2 ^ 31 buckets: `dictReplace` on a well-formed dict, rehashing or not, leaves the key
  -- with the new value, keeps the key of an old entry and all other entries, and answers 1 exactly
  -- where there was no entry.
  pub dict_replace-Replaces :
      (can_resize : Bool) (d : Dict K V) (key : K) (val : V)
      → IsDict t lawful d
      → (target t lawful can_resize d).size ≤ 2 ^ 31
      → Replaces d key val (dict_replace t can_resize d key val)
  dict_replace-Replaces can_resize d key val v small =
      let a = dict_add-Adds t lawful can_resize d key val v small in
      let d1 = (dict_add t can_resize d key val).1 in
      let f = dict_find_lem t lawful d1 key a.valid in
      elim (Option-cases (view t lawful d key)) [
        | inl p ↦
            let ok : (dict_add t can_resize d key val).0 ≡ true = ground (arith, a.result) in
            rw (replace-new can_resize d key val ok) (record {
              valid = a.valid;
              result = ground arith;
              views = λ k. ground (arith, a.views k);
              sizes = ground (arith, a.sizes);
            })
        | inr (e, p) ↦
            let no_add : (dict_add t can_resize d key val).0 ≡ false = ground (arith, a.result) in
            let same : view t lawful (dict_find t d1 key).1 key ≡ some e =
              f.1.same.views key ∙ (ground (arith, a.views key)) in
            let s = set_found-Sets (dict_find t d1 key).1 f.1.valid key val e same in
            rw (replace-old can_resize d key val no_add) (record {
              valid = s.valid;
              result = ground arith;
              views = λ k. ground (arith, s.views k, f.1.same.views k, a.views k);
              sizes = ground (arith, s.sizes, f.1.same.sizes, a.sizes);
            })
      ]
