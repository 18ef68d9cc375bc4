-- ===== src/Intset/Upgrade.antt =====
-- redis-2.6.14/src/intset.c: the loop of intsetUpgradeAndAdd widens the slots in place.
use galery.Prelude.{
  ℕ, zero, suc, ◌+◌, ◌*◌, ◌≤◌, ◌<◌, ◌≡◌, refl, ◌∙◌, inl, inr, arith, ltb, Bool-cases,
}
use galery.Intset.{
  Encoding, int16, int32, int64, width, Memory, get_encoded, set_encoded, upgrade_loop,
}
use galery.Intset.Memory.{Fits}
use galery.Intset.Slots.{get-set_self, get-set_ne, get-set_away}

-- The wider slot that is written lies behind all the narrow ones that are still to be read.
behind :
    (cur new : Encoding) (i n prepend : ℕ)
    → width cur ≤ width new
    → i < n
    → i * width cur + width cur ≤ (n + prepend) * width new
behind int16 int16 i n p h l = omega arith
behind int16 int32 i n p h l = omega arith
behind int16 int64 i n p h l = omega arith
behind int32 int16 i n p h l = absurd (omega arith)
behind int32 int32 i n p h l = omega arith
behind int32 int64 i n p h l = omega arith
behind int64 int16 i n p h l = absurd (omega arith)
behind int64 int32 i n p h l = absurd (omega arith)
behind int64 int64 i n p h l = omega arith

module _ (cur new : Encoding) (wider : width cur ≤ width new) (prepend : ℕ) where
  -- Slots at and behind the end keep what they hold.
  pub upgrade_loop-after :
      (n : ℕ) (mem : Memory) (j : ℕ)
      → n + prepend ≤ j
      → get_encoded (upgrade_loop n prepend cur new mem) j new ≡ get_encoded mem j new
  unfolding upgrade_loop
  upgrade_loop-after zero mem j h = refl
  upgrade_loop-after (suc n) mem j h =
      upgrade_loop-after n _ j (omega arith)
      ∙ get-set_ne mem j (n + prepend) (get_encoded mem n cur) new (λ e. absurd (omega arith))

  -- Every value arrives in the wider encoding, although the slots overlap.
  pub upgrade_loop-moved :
      (n : ℕ) (mem : Memory)
      → ((i : ℕ) → i < n → Fits new (get_encoded mem i cur))
      → (i : ℕ) → i < n
      → get_encoded (upgrade_loop n prepend cur new mem) (i + prepend) new ≡ get_encoded mem i cur
  unfolding upgrade_loop
  upgrade_loop-moved zero mem fits i h = absurd (omega arith)
  upgrade_loop-moved (suc n) mem fits i h =
      let v = get_encoded mem n cur in
      let mem' = set_encoded mem (n + prepend) v new in
      let kept : (k : ℕ) → k < n → get_encoded mem' k cur ≡ get_encoded mem k cur = λ k l.
        get-set_away mem k (n + prepend) v cur new (inl (behind cur new k n prepend wider l)) in
      elim (Bool-cases (ltb i n)) [
        | inl l ↦
            upgrade_loop-moved n mem' (λ k j. rw (kept k j) (fits k (omega arith))) i (ground arith)
            ∙ kept i (ground arith)
        | inr l ↦
            let e : i ≡ n = ground arith in
            rw e (
              upgrade_loop-after n mem' (n + prepend) (omega arith)
              ∙ get-set_self mem (n + prepend) v new (fits n (omega arith)))
      ]
