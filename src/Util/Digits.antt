-- ===== src/Util/Digits.antt =====
-- redis-2.6.14/src/util.c: what the digit loops of ll2string and string2ll compute.
use native.Mathlib.Nat.{pow-suc}
use native.Mathlib.Decide.{ℕ_discrete}
use mathlib.Core.Path.{ap₂}
use galery.Prelude.{
  ℕ, zero, suc, ◌+◌, ◌-◌, ◌*◌, ◌/◌, ◌%◌, ◌^◌, ◌≤◌, ◌<◌, ◌≡◌, refl, ap, ◌≢◌, ◌∙◌, sym, true, false,
  some, List, [], ◌∷◌, ◌==◌, length, arith,
}
use galery.Util.{put_digits, read_digits, ullong_max}

-- The number that digits stand for, after a number `v` read before.
unfoldable pub value_of : ℕ → List ℕ → ℕ
value_of v [] = v
value_of v (c ∷ cs) = value_of (v * 10 + (c - b'0')) cs

abbrev pub AllDigits : List ℕ → Type 0
AllDigits [] = Unit
AllDigits (c ∷ cs) = (b'0' ≤ c) × (c ≤ b'9') × AllDigits cs

pow-step : (f v : ℕ) → v < 10 ^ suc f → v / 10 < 10 ^ f
pow-step f v h = omega (arith, pow-suc 10 f)

module _ (f v : ℕ) (buf : List ℕ) where
  pub put_digits-last : v / 10 ≡ 0 → put_digits (suc f) v buf ≡ (b'0' + v % 10) ∷ buf
  unfolding put_digits
  put_digits-last h = ground arith

  put_digits-more :
      v / 10 ≢ 0 → put_digits (suc f) v buf ≡ put_digits f (v / 10) ((b'0' + v % 10) ∷ buf)
  unfolding put_digits
  put_digits-more h = ground arith

value_of-cons :
    (w v : ℕ) (buf : List ℕ) → w ≡ v / 10 → value_of w ((b'0' + v % 10) ∷ buf) ≡ value_of v buf
unfolding value_of
value_of-cons w v buf h = ap (λ k. value_of k buf) (omega arith)

-- Reading the digits that were put down gives the number back.
pub value_of-put_digits :
    (f v : ℕ) (buf : List ℕ) → v < 10 ^ f → value_of 0 (put_digits f v buf) ≡ value_of v buf
value_of-put_digits zero v buf h = unfold put_digits in ap (λ k. value_of k buf) (omega arith)
value_of-put_digits (suc f) v buf h = elim (ℕ_discrete (v / 10) 0) [
  | yes e ↦ ap (value_of 0) (put_digits-last f v buf e) ∙ value_of-cons 0 v buf (omega arith)
  | no e ↦
      ap (value_of 0) (put_digits-more f v buf e)
      ∙ value_of-put_digits f (v / 10) _ (pow-step f v h)
      ∙ value_of-cons (v / 10) v buf refl
]

-- Enough rounds are enough.
put_digits-fuel :
    (f g v : ℕ) (buf : List ℕ)
    → v < 10 ^ f
    → v < 10 ^ g
    → 0 < v
    → put_digits f v buf ≡ put_digits g v buf
put_digits-fuel zero g v buf h k p = absurd (omega arith)
put_digits-fuel (suc f) zero v buf h k p = absurd (omega arith)
put_digits-fuel (suc f) (suc g) v buf h k p = elim (ℕ_discrete (v / 10) 0) [
  | yes e ↦ put_digits-last f v buf e ∙ sym (put_digits-last g v buf e)
  | no e ↦
      put_digits-more f v buf e
      ∙ put_digits-fuel f g (v / 10) _ (pow-step f v h) (pow-step g v k) (omega arith)
      ∙ sym (put_digits-more g v buf e)
]

pub le-value_of : (v : ℕ) (cs : List ℕ) → v ≤ value_of v cs
unfolding value_of
le-value_of v [] = omega arith
le-value_of v (c ∷ cs) = omega (arith, le-value_of (v * 10 + (c - b'0')) cs)

-- Printing the number that digits stand for gives the digits.
pub put_digits-value_of :
    (f v : ℕ) (cs : List ℕ)
    → 0 < v
    → AllDigits cs
    → value_of v cs < 10 ^ f
    → put_digits f (value_of v cs) [] ≡ put_digits f v cs
unfolding value_of
put_digits-value_of f v [] p d h = refl
put_digits-value_of zero v (c ∷ cs) p d h = absurd (omega (arith, le-value_of v (c ∷ cs)))
put_digits-value_of (suc f) v (c ∷ cs) p d h =
    put_digits-value_of (suc f) w cs (omega arith) d.2 h
    ∙ put_digits-more f w cs (omega arith)
    ∙ ap₂ (λ k x. put_digits f k (x ∷ cs)) (omega arith) (omega arith)
    ∙ put_digits-fuel f (suc f) v (c ∷ cs) (omega (arith, pow-suc 10 f, le-value_of w cs))
        (omega (arith, le-value_of w cs)) p
  where
    w : ℕ
    w = v * 10 + (c - b'0')

-- What is put down are digits, and the first of a number above zero is not 0.
pub AllDigits-put_digits : (f v : ℕ) (buf : List ℕ) → AllDigits buf → AllDigits (put_digits f v buf)
unfolding put_digits
AllDigits-put_digits zero v buf d = d
AllDigits-put_digits (suc f) v buf d =
    elim (v / 10 == 0)
      as (λ b. AllDigits (elim b [
        | true ↦ (b'0' + v % 10) ∷ buf
        | false ↦ put_digits f (v / 10) ((b'0' + v % 10) ∷ buf)
      ])) [
        | true ↦ (omega arith, omega arith, d)
        | false ↦ AllDigits-put_digits f (v / 10) _ (omega arith, omega arith, d)
      ]

-- `cs` begins with a digit from 1 to 9, and the rest are digits.
pub record IsCanonical (cs : List ℕ) : Type 0 where
  pub first : ℕ
  pub rest : List ℕ
  pub whole : cs ≡ first ∷ rest
  pub low : b'1' ≤ first
  pub high : first ≤ b'9'
  pub digits : AllDigits rest

pub put_digits-IsCanonical :
    (f v : ℕ) (buf : List ℕ) → AllDigits buf → 0 < v → v < 10 ^ f → IsCanonical (put_digits f v buf)
put_digits-IsCanonical zero v buf d p h = absurd (omega arith)
put_digits-IsCanonical (suc f) v buf d p h = elim (ℕ_discrete (v / 10) 0) [
  | yes e ↦ record {
    first = b'0' + v % 10;
    rest = buf;
    whole = put_digits-last f v buf e;
    low = omega arith;
    high = omega arith;
    digits = d;
  }
  | no e ↦ rw (put_digits-more f v buf e) (
      put_digits-IsCanonical f (v / 10) _ (omega arith, omega arith, d) (omega arith)
        (pow-step f v h))
]

-- `string2ll`'s loop reads digits as their value, unless that passes `ullong_max`.
pub read_digits-value_of :
    (v : ℕ) (cs : List ℕ)
    → AllDigits cs
    → value_of v cs ≤ ullong_max
    → read_digits v cs ≡ some (value_of v cs)
unfolding read_digits value_of
read_digits-value_of v [] d h = refl
read_digits-value_of v (c ∷ cs) d h = ground (
  arith,
  read_digits-value_of (v * 10 + (c - b'0')) cs d.2 h,
  le-value_of (v * 10 + (c - b'0')) cs,
)

-- And what it reads were digits.
pub read_digits-some :
    (v : ℕ) (cs : List ℕ) (n : ℕ) → read_digits v cs ≡ some n → AllDigits cs × (n ≡ value_of v cs)
unfolding read_digits value_of
read_digits-some v [] n h = (tt, ground arith)
read_digits-some v (c ∷ cs) n h = ground (arith, read_digits-some (v * 10 + (c - b'0')) cs n)

pub length-put_digits : (f v : ℕ) (buf : List ℕ) → length (put_digits f v buf) ≤ f + length buf
unfolding put_digits
length-put_digits zero v buf = omega arith
length-put_digits (suc f) v buf =
    ground (arith, length-put_digits f (v / 10) ((b'0' + v % 10) ∷ buf))
