-- ===== src/Prelude/Bits.antt =====
-- Masks and shifts on machine words, at the widths that the sources use: `x >> k` is `x / 2 ^ k`, and
-- `x << k` is `x * 2 ^ k`, cut to the width where the source's type cuts it.
use Prim.Native.Nat.{
  ℕ, zero, suc, ◌+◌, ◌-◌, ◌*◌, ◌/◌, ◌%◌, ◌^◌, ◌≤◌, ◌<◌, max, bit_and, bit_or, digits,
  bit_or-bitwise, bit_and-bitwise, min,
}
use mathlib.Core.Path.{◌≡◌, refl, ap, sym, ◌∙◌}
use mathlib.Core.Bool.{Bool, true, ◌&&◌}
use native.Mathlib.Omega.{arith}
use native.Mathlib.Decide.{ℕ_discrete}
use galery.Prelude.Tests.{◌==◌}

-- A test that every number before `n` passes, evaluated from 0 on.
passes : (ℕ → Bool) → ℕ → Bool
passes test zero = true
passes test (suc n) = passes test n && test n

passes-below : (test : ℕ → Bool) {n : ℕ} → passes test n ≡ true → {k : ℕ} → k < n → test k ≡ true
unfolding passes
passes-below test {n = zero} all {k} small = absurd (omega arith)
passes-below test {n = suc n} all {k} small = elim (ℕ_discrete k n) [
  | yes last ↦ rw last (ground arith)
  | no earlier ↦
      passes-below test {n = n} (let e : passes test n ≡ true = ground arith in e) (omega arith)
]

-- Two tag bits over a six-bit field.
abbrev is_tagged : ℕ → Bool
is_tagged x = (bit_or x 0x40 == x + 0x40) && (bit_or x 0 == x) && (bit_or x 0xC0 == x + 0xC0)

all_tagged : passes is_tagged 64 ≡ true
unfolding passes
all_tagged = refl

abbrev is_split : ℕ → Bool
is_split x = (bit_and x 0xC0 / 2 ^ 6 == x / 64) && (bit_and x 0x3F == x % 64)

all_split : passes is_split 256 ≡ true
unfolding passes
all_split = refl

pub bit_or_tags :
    (x : ℕ) → x < 64 → (bit_or x 0x40 ≡ x + 0x40) × (bit_or x 0 ≡ x) × (bit_or x 0xC0 ≡ x + 0xC0)
bit_or_tags x h = ground (arith, passes-below is_tagged all_tagged {k = x} h)

pub bit_and_tags : (x : ℕ) → x < 256 → (bit_and x 0xC0 / 2 ^ 6 ≡ x / 64) × (bit_and x 0x3F ≡ x % 64)
bit_and_tags x h = ground (arith, passes-below is_split all_split {k = x} h)

-- The digits of `|`, on the fuel that the library's definition counts down.
abbrev or_digits : ℕ → ℕ → ℕ → ℕ
or_digits fuel a b = digits (λ y. y) max fuel a b

or_digits-nil : (fuel b : ℕ) → or_digits fuel 0 b ≡ b
or_digits-nil zero b = refl
or_digits-nil (suc fuel) b = refl

-- One more round changes nothing where the fuel covers the left operand.
or_digits-suc : (a b fuel : ℕ) → a ≤ fuel → or_digits (suc fuel) a b ≡ or_digits fuel a b
or_digits-suc zero b fuel covers = or_digits-nil (suc fuel) b ∙ sym (or_digits-nil fuel b)
or_digits-suc (suc a) b zero covers = absurd (omega arith)
or_digits-suc (suc a) b (suc fuel) covers =
    omega (arith, or_digits-suc (suc a / 2) (b / 2) fuel (omega arith))

or_digits-add : (a b more fuel : ℕ) → a ≤ fuel → or_digits (more + fuel) a b ≡ or_digits fuel a b
or_digits-add a b zero fuel covers =
    ap (λ f. or_digits f a b) (let e : 0 + fuel ≡ fuel = omega arith in e)
or_digits-add a b (suc more) fuel covers =
    ap (λ f. or_digits f a b) (let e : suc more + fuel ≡ suc (more + fuel) = omega arith in e)
    ∙ or_digits-suc a b (more + fuel) (omega arith)
    ∙ or_digits-add a b more fuel covers

-- `|` bit by bit from the lowest.
bit_or-halves : (a b : ℕ) → bit_or a b ≡ bit_or (a / 2) (b / 2) * 2 + max (a % 2) (b % 2)
bit_or-halves zero b = omega (arith, bit_or-bitwise 0 b, bit_or-bitwise 0 (b / 2))
bit_or-halves (suc a) b =
    let half = suc a / 2 in
    let spare = or_digits-add half (b / 2) (a - half) half (omega arith) in
    let enough : a - half + half ≡ a = omega arith in
    omega (arith, rw enough at spare, bit_or-bitwise half (b / 2), bit_or-bitwise (suc a) b)

bit_or-zero_below : (n a : ℕ) → a ≤ n → bit_or a 0 ≡ a
bit_or-zero_below n zero h = refl
bit_or-zero_below zero (suc a) h = absurd (omega arith)
bit_or-zero_below (suc n) (suc a) h =
    omega (arith, bit_or-halves (suc a) 0, bit_or-zero_below n (suc a / 2) (omega arith))

zero-bit_or : (b : ℕ) → bit_or 0 b ≡ b
zero-bit_or b = bit_or-bitwise 0 b

-- `|` of a multiple of `m` and a number below `m` is their sum.
record Splits (m : ℕ) : Type 0 where
  high : (q r : ℕ) → r < m → bit_or (q * m) r ≡ q * m + r
  low : (q r : ℕ) → r < m → bit_or r (q * m) ≡ q * m + r

Splits-one : Splits 1
Splits-one = record {
  high = λ q r h.
      let e : r ≡ 0 = omega arith in
      rw e (omega (arith, bit_or-zero_below (q * 1) (q * 1) (omega arith)));
  low = λ q r h. let e : r ≡ 0 = omega arith in rw e (omega (arith, zero-bit_or (q * 1)));
}

Splits-double : (m : ℕ) → Splits m → Splits (m * 2)
Splits-double m s = record {
  high = λ q r h.
      let half : q * (m * 2) / 2 ≡ q * m = omega arith in
      let rest : bit_or (q * (m * 2) / 2) (r / 2) ≡ q * m + r / 2 =
        rw half (s.high q (r / 2) (omega arith)) in
      omega (arith, bit_or-halves (q * (m * 2)) r, rest);
  low = λ q r h.
      let half : q * (m * 2) / 2 ≡ q * m = omega arith in
      let rest : bit_or (r / 2) (q * (m * 2) / 2) ≡ q * m + r / 2 =
        rw half (s.low q (r / 2) (omega arith)) in
      omega (arith, bit_or-halves r (q * (m * 2)), rest);
}

abbrev doublings : ℕ → ℕ
doublings zero = 1
doublings (suc k) = doublings k * 2

Splits-doublings : (k : ℕ) → Splits (doublings k)
Splits-doublings zero = Splits-one
Splits-doublings (suc k) = Splits-double (doublings k) (Splits-doublings k)

-- `(q << 8) | r` for a byte `r`.
pub bit_or_byte : (q r : ℕ) → r < 256 → bit_or (q * 256) r ≡ q * 256 + r
bit_or_byte = (Splits-doublings 8).high

-- `r | (q << 8)`, and at 16 and 24.
pub byte_bit_or : (q r : ℕ) → r < 256 → bit_or r (q * 256) ≡ q * 256 + r
byte_bit_or = (Splits-doublings 8).low

pub two_bytes_bit_or : (q r : ℕ) → r < 65536 → bit_or r (q * 65536) ≡ q * 65536 + r
two_bytes_bit_or = (Splits-doublings 16).low

pub three_bytes_bit_or : (q r : ℕ) → r < 16777216 → bit_or r (q * 16777216) ≡ q * 16777216 + r
three_bytes_bit_or = (Splits-doublings 24).low

-- A mask bounds what it lets through.
and_digits-le : (n a b : ℕ) → digits (λ y. zero) min n a b ≤ b
and_digits-le zero a b = omega arith
and_digits-le (suc n) zero b = omega arith
and_digits-le (suc n) (suc a) b = omega (arith, and_digits-le n (suc a / 2) (b / 2))

pub bit_and-le_right : (a b : ℕ) → bit_and a b ≤ b
bit_and-le_right a b = omega (arith, bit_and-bitwise a b, and_digits-le a a b)
