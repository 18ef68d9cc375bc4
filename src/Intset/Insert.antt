-- ===== src/Intset/Insert.antt =====
-- redis-2.6.14/src/intset.c: intsetAdd inserts into the sorted list of the values.
use galery.Prelude.{
  ℕ, suc, ◌+◌, ◌-◌, ◌*◌, ◌%◌, ◌^◌, ◌≤◌, ◌<◌, ◌≡◌, ◌⊎◌, refl, sym, ap, ◌∙◌, inl, inr, Bool, true,
  not, arith, ltb, if◌then◌else◌, Bool-cases, ◌==◌,
}
use galery.Prelude.Int.{ℤ, pos, ltb_ℤ}
use galery.Intset.{
  Encoding, int16, int32, int64, width, Intset, get_encoded, get_at, set_at, intset_resize,
  value_encoding, upgrade_loop, intset_upgrade_and_add, move_bytes, intset_move_tail, intset_add,
}
use galery.Intset.Memory.{Fits}
use galery.Intset.Slots.{
  get-set_self, get-set_ne, get-move_inside, get-move_outside, value_encoding-Fits, Fits-wider,
  value_encoding-outside,
}
use galery.Intset.Search.{◌<ℤ◌, IsIntset, present, missing, intset_search-Position}
use galery.Intset.Values.{
  tabulate, values, is_member, insert_sorted, is_member-present, is_member-missing,
  insert_sorted-tabulate,
}
use galery.Intset.Upgrade.{upgrade_loop-moved}

-- The set `t` has the slots of `s` with one more, for the value, at `p`.
pub record Inserts (s t : Intset) (value : ℤ) (p : ℕ) : Type 0 where
  pub place : p ≤ s.len
  pub below : (i : ℕ) → i < p → get_at s i <ℤ value
  pub above : (i : ℕ) → p ≤ i → i < s.len → value <ℤ get_at s i
  pub length : t.len ≡ s.len + 1
  pub low : (i : ℕ) → i < p → get_at t i ≡ get_at s i
  pub at : get_at t p ≡ value
  pub high : (i : ℕ) → p ≤ i → i < s.len → get_at t (suc i) ≡ get_at s i
  pub wider : width s.encoding ≤ width t.encoding
  pub fits : Fits t.encoding value
  pub sized : t.size ≡ t.len * width t.encoding

module _ (s t : Intset) (value : ℤ) (p : ℕ) (w : IsIntset s) (x : Inserts s t value p) where
  -- Where a slot of `t` comes from.
  origin :
      (i : ℕ)
      → i < t.len
      → ((i < p) × (get_at t i ≡ get_at s i))
        ⊎ (((i ≡ p) × (get_at t i ≡ value))
            ⊎ ((j : ℕ) × (i ≡ suc j) × (p ≤ j) × (j < s.len) × (get_at t i ≡ get_at s j)))
  origin i h = elim (Bool-cases (ltb i p)) [
    | inl l ↦ inl (ground arith, x.low i (ground arith))
    | inr l ↦ elim (Bool-cases (i == p)) [
      | inl e ↦ let same : i ≡ p = ground arith in inr (inl (same, ap (get_at t) same ∙ x.at))
      | inr e ↦
          let up : i ≡ suc (i - 1) = ground arith in
          let q : p ≤ i - 1 = ground arith in
          let b : i - 1 < s.len = omega (arith, x.length) in
          inr (inr (i - 1, up, q, b, ap (get_at t) up ∙ x.high (i - 1) q b))
    ]
  ]

  Inserts-fits : (i : ℕ) → i < t.len → Fits t.encoding (get_at t i)
  Inserts-fits i h = elim (origin i h) [
    | inl (l, e) ↦
        rw e (Fits-wider _ s.encoding t.encoding x.wider (w.fits i (omega (arith, x.place))))
    | inr (inl (l, e)) ↦ rw e x.fits
    | inr (inr (j, l, q, b, e)) ↦ rw e (Fits-wider _ s.encoding t.encoding x.wider (w.fits j b))
  ]

  Inserts-sorted : (i j : ℕ) → i < j → j < t.len → get_at t i <ℤ get_at t j
  Inserts-sorted i j h k = elim (origin i (omega arith)) [
    | inl (l, e) ↦ elim (origin j k) [
      | inl (l', e') ↦ rw (e, e') (w.sorted i j h (omega (arith, x.place)))
      | inr (inl (l', e')) ↦ rw (e, e') (x.below i l)
      | inr (inr (j', l', q, b, e')) ↦ rw (e, e') (w.sorted i j' (omega arith) b)
    ]
    | inr (inl (l, e)) ↦ elim (origin j k) [
      | inl (l', e') ↦ absurd (omega arith)
      | inr (inl (l', e')) ↦ absurd (omega arith)
      | inr (inr (j', l', q, b, e')) ↦ rw (e, e') (x.above j' q b)
    ]
    | inr (inr (i', l, q, b, e)) ↦ elim (origin j k) [
      | inl (l', e') ↦ absurd (omega arith)
      | inr (inl (l', e')) ↦ absurd (omega arith)
      | inr (inr (j', l', q', b', e')) ↦ rw (e, e') (w.sorted i' j' (omega arith) b')
    ]
  ]

  pub Inserts-IsIntset : IsIntset t
  Inserts-IsIntset = record { fits = Inserts-fits; sorted = Inserts-sorted; sized = x.sized }

  pub Inserts-values : values t ≡ insert_sorted value (values s)
  Inserts-values =
      ap (λ n. tabulate n (get_at t))
        (x.length ∙ (let e : s.len + 1 ≡ suc s.len = omega arith in e))
      ∙ insert_sorted-tabulate value s.len p (get_at s) (get_at t) x.place x.below x.above x.low
          x.at x.high

pub no_wrap : (e : Encoding) (n : ℕ) → n ≤ 2 ^ 28 → n * width e % 2 ^ 32 ≡ n * width e
no_wrap int16 n h = omega arith
no_wrap int32 n h = omega arith
no_wrap int64 n h = omega arith

module _ (s : Intset) (value : ℤ) (w : IsIntset s) (small : s.len < 2 ^ 28) where
  -- In the same encoding: the tail moves up, and the value goes into the gap.
  inserted : ℕ → Intset
  inserted p =
      let s1 = intset_resize s (s.len + 1) in
      let s2 = if ltb p s1.len then intset_move_tail s1 p (p + 1) else s1 in
      let s3 = set_at s2 p value in record s3 { len = s3.len + 1 }

  inserted-Inserts :
      (p : ℕ)
      → p ≤ s.len
      → ((i : ℕ) → i < p → get_at s i <ℤ value)
      → ((i : ℕ) → p ≤ i → i < s.len → value <ℤ get_at s i)
      → Fits s.encoding value
      → Inserts s (inserted p) value p
  unfolding inserted intset_resize intset_move_tail set_at
  inserted-Inserts p h below above f = elim (Bool-cases (ltb p s.len)) [
    | inl l ↦
        let wrap = no_wrap s.encoding (s.len - p) (omega arith) in
        let mem =
          move_bytes s.contents ((p + 1) * width s.encoding) (p * width s.encoding)
            ((s.len - p) * width s.encoding) in
        rw (l, wrap)
          (record {
            place = h;
            below = below;
            above = above;
            length = refl;
            low = λ i k.
                get-set_ne mem i p value s.encoding (λ e. absurd (omega arith))
                ∙ get-move_outside s.contents p (p + 1) (s.len - p) i s.encoding
                    (inl (omega arith));
            at = get-set_self mem p value s.encoding f;
            high = λ i k b.
                get-set_ne mem (suc i) p value s.encoding (λ e. absurd (omega arith))
                ∙ get-move_inside s.contents p (p + 1) (s.len - p) (suc i) s.encoding (omega arith)
                    (omega arith)
                ∙ ap (get_at s) (omega arith);
            wider = omega arith;
            fits = f;
            sized = no_wrap s.encoding (s.len + 1) (omega arith);
          })
    | inr l ↦ rw l (record {
      place = h;
      below = below;
      above = above;
      length = refl;
      low = λ i k. get-set_ne s.contents i p value s.encoding (λ e. absurd (omega arith));
      at = get-set_self s.contents p value s.encoding f;
      high = λ i k b. absurd (ground arith);
      wider = omega arith;
      fits = f;
      sized = no_wrap s.encoding (s.len + 1) (omega arith);
    })
  ]

  -- With a wider encoding: every slot is rewritten, and the value goes to one of the ends.
  upgraded-Inserts :
      Fits int64 value
      → width s.encoding < width (value_encoding value)
      → (p : ℕ) × Inserts s (intset_upgrade_and_add s value) value p
  unfolding intset_upgrade_and_add intset_resize set_at
  upgraded-Inserts long wide =
      let cur = s.encoding in
      let new = value_encoding value in
      let fits : Fits new value = value_encoding-Fits value new long (omega arith) in
      let each : (i : ℕ) → i < s.len → Fits new (get_at s i) =
        λ i l. Fits-wider _ cur new (omega arith) (w.fits i l) in
      let wrap = no_wrap new (s.len + 1) (omega arith) in
      elim (Bool-cases (ltb_ℤ value (pos 0))) [
        | inl n ↦
            let mem = upgrade_loop s.len 1 cur new s.contents in
            (
              0,
              rw n (record {
                place = omega arith;
                below = λ i l. absurd (omega arith);
                above = λ i q l.
                    ground (arith, value_encoding-outside value (get_at s i) cur wide (w.fits i l));
                length = refl;
                low = λ i l. absurd (omega arith);
                at = get-set_self mem 0 value new fits;
                high = λ i q l.
                    get-set_ne mem (suc i) 0 value new (λ e. absurd (omega arith))
                    ∙ ap (λ k. get_encoded mem k new) (let e : suc i ≡ i + 1 = omega arith in e)
                    ∙ upgrade_loop-moved cur new (omega arith) 1 s.len s.contents each i l;
                wider = omega arith;
                fits = fits;
                sized = wrap;
              }),
            )
        | inr n ↦
            let mem = upgrade_loop s.len 0 cur new s.contents in
            (
              s.len,
              rw n (record {
                place = omega arith;
                below = λ i l.
                    ground (arith, value_encoding-outside value (get_at s i) cur wide (w.fits i l));
                above = λ i q l. absurd (omega arith);
                length = refl;
                low = λ i l.
                    get-set_ne mem i s.len value new (λ e. absurd (omega arith))
                    ∙ ap (λ k. get_encoded mem k new) (let e : i ≡ i + 0 = omega arith in e)
                    ∙ upgrade_loop-moved cur new (omega arith) 0 s.len s.contents each i l;
                at = get-set_self mem s.len value new fits;
                high = λ i q l. absurd (omega arith);
                wider = omega arith;
                fits = fits;
                sized = wrap;
              }),
            )
      ]

  -- What `intsetAdd` does to the sorted list of the values.
  pub record Adds (r : Bool × Intset) : Type 0 where
    pub valid : IsIntset r.1
    pub result : r.0 ≡ not (is_member value (values s))
    pub list : values r.1 ≡ (if r.0 then insert_sorted value (values s) else values s)

  Inserts-Adds : (t : Intset) (p : ℕ) → Inserts s t value p → Adds (true, t)
  Inserts-Adds t p x = record {
    valid = Inserts-IsIntset s t value p w x;
    result = ap not (sym (is_member-missing value s.len p (get_at s) x.below x.above));
    list = Inserts-values s t value p w x;
  }

  -- On a well-formed set of fewer than 2 ^ 28 values, `intsetAdd` of a 64-bit value answers 1 exactly
  -- where the value is new, and puts it into its place in the sorted list of the values; the set stays
  -- well-formed, also where its encoding is upgraded.
  pub intset_add-Adds : Fits int64 value → Adds (intset_add s value)
  unfolding intset_add inserted
  intset_add-Adds long = elim (Bool-cases (ltb (width s.encoding) (width (value_encoding value)))) [
    | inl h ↦ let u = upgraded-Inserts long (ground arith) in rw h (Inserts-Adds _ u.0 u.1)
    | inr h ↦ elim (intset_search-Position s value w) [
      | present e l g ↦
          rw (h, e)
            (record {
              valid = w;
              result = ap not (sym (is_member-present value s.len _ (get_at s) l g));
              list = refl;
            })
      | missing e l below above ↦
          let fits = value_encoding-Fits value s.encoding long (ground arith) in
          rw (h, e) (Inserts-Adds _ _ (inserted-Inserts _ l below above fits))
    ]
  ]
