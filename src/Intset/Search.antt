-- ===== src/Intset/Search.antt =====
-- redis-2.6.14/src/intset.c: a well-formed intset, and the binary search of intsetSearch.
use galery.Prelude.{
  ℕ, zero, suc, ◌+◌, ◌-◌, ◌*◌, ◌/◌, ◌^◌, ◌≤◌, ◌<◌, ◌≡◌, refl, ap, ◌∙◌, inl, inr, Bool, true, false,
  arith, ltb, ◌==◌, if◌then◌else◌, Bool-cases,
}
use galery.Prelude.Int.{ℤ, pos, negsuc, pos_part, neg_part, ltb_ℤ, eqb_ℤ}
use galery.Intset.{width, Intset, get_at, search_loop, intset_search, intset_new}
use galery.Intset.Memory.{Fits}

infix 50 ◌<ℤ◌
abbrev pub ◌<ℤ◌ : ℤ → ℤ → Type 0
a <ℤ b = pos_part a + neg_part b < pos_part b + neg_part a

-- Strictly ascending values of the encoding, in an allocation of their size.
pub record IsIntset (s : Intset) : Type 0 where
  pub fits : (i : ℕ) → i < s.len → Fits s.encoding (get_at s i)
  pub sorted : (i j : ℕ) → i < j → j < s.len → get_at s i <ℤ get_at s j
  pub sized : s.size ≡ s.len * width s.encoding

pub intset_new-IsIntset : IsIntset intset_new
unfolding intset_new
intset_new-IsIntset = record {
  fits = λ i h. absurd (omega arith);
  sorted = λ i j h k. absurd (omega arith);
  sized = omega arith;
}

-- What the search says: the place of the value, or the place to insert it.
pub data Position (s : Intset) (value : ℤ) (found : Bool) (p : ℕ) : Type 0 where
  present : found ≡ true → p < s.len → get_at s p ≡ value → Position s value found p
  missing :
      found ≡ false
      → p ≤ s.len
      → ((i : ℕ) → i < p → get_at s i <ℤ value)
      → ((i : ℕ) → p ≤ i → i < s.len → value <ℤ get_at s i)
      → Position s value found p

pub eqb_ℤ_refl : (a : ℤ) → eqb_ℤ a a ≡ true
eqb_ℤ_refl (pos n) = ground arith
eqb_ℤ_refl (negsuc n) = ground arith

pub eqb_ℤ_ne : (a b : ℤ) → a <ℤ b → eqb_ℤ a b ≡ false
eqb_ℤ_ne (pos n) (pos m) h = ground arith
eqb_ℤ_ne (pos n) (negsuc m) h = refl
eqb_ℤ_ne (negsuc n) (pos m) h = refl
eqb_ℤ_ne (negsuc n) (negsuc m) h = ground arith

pub eqb_ℤ_ne' : (a b : ℤ) → b <ℤ a → eqb_ℤ a b ≡ false
eqb_ℤ_ne' (pos n) (pos m) h = ground arith
eqb_ℤ_ne' (pos n) (negsuc m) h = refl
eqb_ℤ_ne' (negsuc n) (pos m) h = refl
eqb_ℤ_ne' (negsuc n) (negsuc m) h = ground arith

pub eq_of_order : (a b : ℤ) → ltb_ℤ a b ≡ false → ltb_ℤ b a ≡ false → a ≡ b
eq_of_order a b h k = ground arith

module _ (s : Intset) (value : ℤ) (w : IsIntset s) where
  -- What stands below a smaller value is smaller, and what stands above a larger one larger.
  below_mid : (m : ℕ) → m < s.len → get_at s m <ℤ value → (i : ℕ) → i < m + 1 → get_at s i <ℤ value
  below_mid m b h i l = elim (Bool-cases (ltb i m)) [
    | inl e ↦ omega (arith, w.sorted i m (ground arith) b)
    | inr e ↦ let same : i ≡ m = ground arith in rw same h
  ]

  above_mid : (m : ℕ) → value <ℤ get_at s m → (i : ℕ) → m ≤ i → i < s.len → value <ℤ get_at s i
  above_mid m h i l b = elim (Bool-cases (ltb m i)) [
    | inl e ↦ omega (arith, w.sorted m i (ground arith) b)
    | inr e ↦ let same : i ≡ m = ground arith in rw same h
  ]

  Answers : ℕ × ℕ × ℤ → Type 0
  Answers r = Position s value (eqb_ℤ value r.2) (if eqb_ℤ value r.2 then r.1 else r.0)

  missing_at :
      (lo mid : ℕ) (cur : ℤ)
      → lo ≤ s.len
      → ((i : ℕ) → i < lo → get_at s i <ℤ value)
      → ((i : ℕ) → lo ≤ i → i < s.len → value <ℤ get_at s i)
      → eqb_ℤ value cur ≡ false
      → Answers (lo, mid, cur)
  unfolding Answers
  missing_at lo mid cur b below above e = rw e (missing refl b below above)

  present_at : (lo mid : ℕ) → mid < s.len → get_at s mid ≡ value → Answers (lo, mid, get_at s mid)
  unfolding Answers
  present_at lo mid b e =
      let t : eqb_ℤ value (get_at s mid) ≡ true = ap (eqb_ℤ value) e ∙ eqb_ℤ_refl value in
      rw t (present refl b e)

  -- With a turn for each slot between the bounds the loop finds the place.
  search_loop-Answers :
      (f lo hi mid : ℕ) (cur : ℤ)
      → hi - lo ≤ f
      → lo ≤ hi
      → hi ≤ s.len
      → ((i : ℕ) → i < lo → get_at s i <ℤ value)
      → ((i : ℕ) → hi ≤ i → i < s.len → value <ℤ get_at s i)
      → (lo ≡ hi → eqb_ℤ value cur ≡ false)
      → Answers (search_loop f s value lo hi mid cur)
  unfolding search_loop
  search_loop-Answers zero lo hi mid cur fuel o b below above last =
      let e : lo ≡ hi = omega arith in
      missing_at lo mid cur (omega arith) below (λ i l. above i (omega arith)) (last e)
  search_loop-Answers (suc f) lo hi mid cur fuel o b below above last =
      let m = (lo + hi - 1) / 2 in
      elim (Bool-cases (ltb lo hi)) [
        | inr h ↦
            let e : lo ≡ hi = ground arith in
            rw (h, search_loop)
              (missing_at lo mid cur (omega arith) below (λ i l. above i (omega arith)) (last e))
        | inl h ↦
            let l : lo < hi = ground arith in
            elim (Bool-cases (ltb_ℤ (get_at s m) value)) [
              | inl c ↦
                  rw (h, c, search_loop)
                    (search_loop-Answers f (m + 1) hi m (get_at s m) (omega arith) (omega arith) b
                      (below_mid m (omega arith) (ground arith)) above
                      (λ e. eqb_ℤ_ne' value (get_at s m) (ground arith)))
              | inr c ↦ elim (Bool-cases (ltb_ℤ value (get_at s m))) [
                | inl d ↦
                    rw (h, c, d, search_loop)
                      (search_loop-Answers f lo m m (get_at s m) (omega arith) (omega arith)
                        (omega arith) below (above_mid m (ground arith))
                        (λ e. eqb_ℤ_ne value (get_at s m) (ground arith)))
                | inr d ↦
                    rw (h, c, d, search_loop)
                      (present_at lo m (omega arith) (eq_of_order (get_at s m) value c d))
              ]
            ]
      ]

  answered :
      (r : ℕ × ℕ × ℤ)
      → Answers r
      → (let q : Bool × ℕ = if eqb_ℤ value r.2 then (true, r.1) else (false, r.0) in
          Position s value q.0 q.1)
  unfolding Answers
  answered r a = elim (Bool-cases (eqb_ℤ value r.2)) [
    | inl e ↦ rw e (rw e at a)
    | inr e ↦ rw e (rw e at a)
  ]

  -- The search of a well-formed set finds the value, or the place between the smaller and the larger
  -- values.
  pub intset_search-Position : Position s value (intset_search s value).0 (intset_search s value).1
  unfolding intset_search Answers
  intset_search-Position = elim (Bool-cases (s.len == 0)) [
    | inl z ↦
        rw z (
          missing refl (omega arith) (λ i l. absurd (omega arith)) (λ i l k. absurd (ground arith)))
    | inr z ↦ elim (Bool-cases (ltb_ℤ (get_at s (s.len - 1)) value)) [
      | inl h ↦
          rw (z, h)
            (missing refl (omega arith)
              (λ i l. below_mid (s.len - 1) (ground arith) (ground arith) i (omega arith))
              (λ i l k. absurd (omega arith)))
      | inr h ↦ elim (Bool-cases (ltb_ℤ value (get_at s 0))) [
        | inl k ↦
            rw (z, h, k)
              (missing refl (omega arith) (λ i l. absurd (omega arith))
                (above_mid 0 (ground arith)))
        | inr k ↦
            let pos_len : 0 < s.len = ground arith in
            let a =
              search_loop-Answers s.len 0 s.len (2 ^ 32 - 1) (negsuc 0) (omega arith) (omega arith)
                (omega arith) (λ i l. absurd (omega arith)) (λ i l j. absurd (omega arith))
                (λ e. absurd (omega arith)) in
            rw (z, h, k) (answered _ a)
      ]
    ]
  ]
