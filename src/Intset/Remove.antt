-- ===== src/Intset/Remove.antt =====
-- redis-2.6.14/src/intset.c: intsetRemove, intsetFind and intsetGet on the sorted list of the values.
use galery.Prelude.{
  ℕ, suc, ◌+◌, ◌-◌, ◌*◌, ◌^◌, ◌≤◌, ◌<◌, ◌≡◌, refl, sym, ap, ◌∙◌, inl, inr, Bool, true, false, arith,
  ltb, leb, if◌then◌else◌, Bool-cases,
}
use galery.Prelude.Int.{ℤ, pos, ltb_ℤ}
use galery.Intset.{
  width, Intset, get_at, intset_resize, value_encoding, intset_move_tail, intset_remove,
  intset_find,
}
use galery.Intset.Slots.{get-move_inside, get-move_outside, value_encoding-outside}
use galery.Intset.Search.{◌<ℤ◌, IsIntset, present, missing, intset_search-Position}
use galery.Intset.Values.{
  tabulate, values, is_member, remove_value, is_member-present, is_member-missing,
  remove_value-tabulate,
}
use galery.Intset.Insert.{no_wrap}

module _ (s : Intset) (value : ℤ) (w : IsIntset s) where
  -- A value of a wider encoding is no member.
  too_wide : width s.encoding < width (value_encoding value) → is_member value (values s) ≡ false
  too_wide h = elim (Bool-cases (ltb_ℤ value (pos 0))) [
    | inl n ↦
        is_member-missing value s.len 0 (get_at s) (λ i l. absurd (omega arith))
          (λ i q l.
            ground (arith, value_encoding-outside value (get_at s i) s.encoding h (w.fits i l)))
    | inr n ↦
        is_member-missing value s.len s.len (get_at s)
          (λ i l.
            ground (arith, value_encoding-outside value (get_at s i) s.encoding h (w.fits i l)))
          (λ i q l. absurd (omega arith))
  ]

  -- `intsetFind` answers whether a well-formed set has the value.
  pub intset_find_lem : intset_find s value ≡ is_member value (values s)
  unfolding intset_find
  intset_find_lem = elim (Bool-cases (leb (width (value_encoding value)) (width s.encoding))) [
    | inr h ↦ rw h (sym (too_wide (ground arith)))
    | inl h ↦ rw h (elim (intset_search-Position s value w) [
      | present e l g ↦ e ∙ sym (is_member-present value s.len _ (get_at s) l g)
      | missing e l below above ↦ e ∙ sym (is_member-missing value s.len _ (get_at s) below above)
    ])
  ]

  -- What `intsetRemove` does to the sorted list of the values.
  pub record Removes (r : Bool × Intset) : Type 0 where
    pub valid : IsIntset r.1
    pub result : r.0 ≡ is_member value (values s)
    pub list : values r.1 ≡ (if r.0 then remove_value value (values s) else values s)

  module _ (small : s.len < 2 ^ 28) (p : ℕ) (inside : p < s.len) (here : get_at s p ≡ value) where
    -- The set with the tail moved down over the value.
    removed : Intset
    removed =
        let s1 = if ltb p (s.len - 1) then intset_move_tail s (p + 1) p else s in
        let s2 = intset_resize s1 (s.len - 1) in record s2 { len = s.len - 1 }

    removed-low : (i : ℕ) → i < p → get_at removed i ≡ get_at s i
    unfolding removed intset_resize intset_move_tail
    removed-low i h = elim (Bool-cases (ltb p (s.len - 1))) [
      | inl l ↦
          rw (l, no_wrap s.encoding (s.len - (p + 1)) (omega arith))
            (get-move_outside s.contents (p + 1) p (s.len - (p + 1)) i s.encoding (inl h))
      | inr l ↦ rw l refl
    ]

    removed-high : (i : ℕ) → p ≤ i → i < s.len - 1 → get_at removed i ≡ get_at s (suc i)
    unfolding removed intset_resize intset_move_tail
    removed-high i h b =
        let l : ltb p (s.len - 1) ≡ true = ground arith in
        rw (l, no_wrap s.encoding (s.len - (p + 1)) (omega arith))
          (get-move_inside s.contents (p + 1) p (s.len - (p + 1)) i s.encoding h (omega arith)
            ∙ ap (get_at s) (omega arith))

    removed-frame :
        (removed.encoding ≡ s.encoding)
        × (removed.len ≡ s.len - 1)
        × (removed.size ≡ (s.len - 1) * width s.encoding)
    unfolding removed intset_resize intset_move_tail
    removed-frame = elim (Bool-cases (ltb p (s.len - 1))) [
      | inl l ↦ rw l (refl, refl, no_wrap s.encoding (s.len - 1) (omega arith))
      | inr l ↦ rw l (refl, refl, no_wrap s.encoding (s.len - 1) (omega arith))
    ]

    -- Where a slot of the smaller set comes from.
    from : ℕ → ℕ
    from i = if ltb i p then i else suc i

    removed-from :
        (i : ℕ) → i < removed.len → (get_at removed i ≡ get_at s (from i)) × (from i < s.len)
    unfolding from
    removed-from i h = elim (Bool-cases (ltb i p)) [
      | inl l ↦ rw l (removed-low i (ground arith), ground (arith, removed-frame))
      | inr l ↦ rw l (
        removed-high i (ground arith) (omega (arith, removed-frame.1)),
        omega (arith, removed-frame.1),
      )
    ]

    from-lt : (i j : ℕ) → i < j → from i < from j
    unfolding from
    from-lt i j h = ground arith

    removed-Removes : Removes (true, removed)
    removed-Removes = record {
      valid = record {
        fits = λ i h. let o = removed-from i h in rw (o.0, removed-frame.0) (w.fits (from i) o.1);
        sorted = λ i j h k.
            let a = removed-from i (omega arith) in
            let b = removed-from j k in
            rw (a.0, b.0) (w.sorted (from i) (from j) (from-lt i j h) b.1);
        sized = rw (removed-frame.0, removed-frame.1) removed-frame.2;
      };
      result = sym (is_member-present value s.len p (get_at s) inside here);
      list =
          let e : s.len ≡ suc (s.len - 1) = omega arith in
          let below : (i : ℕ) → i < p → get_at s i <ℤ value =
            λ i l. rw (sym here) (w.sorted i p l inside) in
          ap (λ n. tabulate n (get_at removed)) removed-frame.1
          ∙ remove_value-tabulate value (s.len - 1) p (get_at s) (get_at removed) (omega arith) here
              below removed-low removed-high
          ∙ ap (λ n. remove_value value (tabulate n (get_at s))) (sym e);
    }

  -- On a well-formed set of fewer than 2 ^ 28 values, `intsetRemove` answers 1 exactly where the set
  -- has the value, and takes it out of the sorted list of the values; the set stays well-formed.
  pub intset_remove-Removes : s.len < 2 ^ 28 → Removes (intset_remove s value)
  unfolding intset_remove removed
  intset_remove-Removes small =
      elim (Bool-cases (leb (width (value_encoding value)) (width s.encoding))) [
        | inr h ↦ rw h (record { valid = w; result = sym (too_wide (ground arith)); list = refl })
        | inl h ↦ elim (intset_search-Position s value w) [
          | present e l g ↦ rw (h, e) (removed-Removes small _ l g)
          | missing e l below above ↦
              rw (h, e)
                (record {
                  valid = w;
                  result = sym (is_member-missing value s.len _ (get_at s) below above);
                  list = refl;
                })
        ]
      ]
