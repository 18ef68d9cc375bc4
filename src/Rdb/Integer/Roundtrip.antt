-- ===== src/Rdb/Integer/Roundtrip.antt =====
-- redis-2.6.14/src/rdb.c: rdbLoadIntegerObject after rdbEncodeInteger.
use Prim.Native.Nat.{bit_or}
use galery.Prelude.{
  ℕ, ◌+◌, ◌-◌, ◌*◌, ◌/◌, ◌%◌, ◌^◌, ◌<◌, ◌≡◌, refl, ap, sym, inl, inr, ◌∙◌, List, [], ◌∷◌, Bool,
  true, false, ◌&&◌, arith, Bool-cases,
}
use galery.Prelude.Bits.{byte_bit_or, two_bytes_bit_or, three_bytes_bit_or}
use galery.Prelude.Int.{ℤ, pos, negsuc, leb_ℤ}
use galery.Rdb.Integer.{
  encode_integer, integer_of, enc_int8, enc_int16, enc_int32, word64, text, object, raw, int,
  signed8, signed16, signed32, from_long_long, StringObject,
}
use galery.Util.{ll2string, sds_from_long_long}
use galery.Util.Roundtrip.{ll2string-sds_from_long_long}

join16 : (x y : ℕ) → x < 256 → y < 256 → bit_or x (y * 2 ^ 8) % 2 ^ 16 ≡ y * 256 + x
join16 x y h k = omega (arith, byte_bit_or y x h)

join32 :
    (x y z w : ℕ)
    → x < 256
    → y < 256
    → z < 256
    → w < 256
    → bit_or (bit_or (bit_or x (y * 2 ^ 8)) (z * 2 ^ 16)) (w * 2 ^ 24) % 2 ^ 32
      ≡ w * 16777216 + z * 65536 + y * 256 + x
join32 x y z w hx hy hz hw =
    let a : bit_or x (y * 2 ^ 8) ≡ y * 256 + x = byte_bit_or y x hx in
    let b : bit_or (y * 256 + x) (z * 2 ^ 16) ≡ z * 65536 + (y * 256 + x) =
      two_bytes_bit_or z (y * 256 + x) (omega arith) in
    let c : bit_or (z * 65536 + (y * 256 + x)) (w * 2 ^ 24)
        ≡ w * 16777216 + (z * 65536 + (y * 256 + x)) =
      three_bytes_bit_or w (z * 65536 + (y * 256 + x)) (omega arith) in
    ap (λ k. bit_or (bit_or k (z * 2 ^ 16)) (w * 2 ^ 24) % 2 ^ 32) a
    ∙ ap (λ k. bit_or k (w * 2 ^ 24) % 2 ^ 32) b
    ∙ ap (λ k. k % 2 ^ 32) c
    ∙ omega arith

-- The three shapes of an encoding, with the number of payload bytes and the value that loading gives.
pub data Encodes (value : ℤ) : List ℕ → Type 0 where
  too_wide : Encodes value []
  one : (x : ℕ) → integer_of enc_int8 (x ∷ []) ≡ value → Encodes value (0xC0 ∷ x ∷ [])
  two : (x y : ℕ) → integer_of enc_int16 (x ∷ y ∷ []) ≡ value → Encodes value (0xC1 ∷ x ∷ y ∷ [])
  four :
      (x y z w : ℕ)
      → integer_of enc_int32 (x ∷ y ∷ z ∷ w ∷ []) ≡ value
      → Encodes value (0xC2 ∷ x ∷ y ∷ z ∷ w ∷ [])

abbrev fits : ℕ → ℤ → Bool
fits top value = leb_ℤ (negsuc top) value && leb_ℤ value (pos top)

module _ (value : ℤ) where
  value8 : fits (2 ^ 7 - 1) value ≡ true → signed8 (word64 value % 2 ^ 8) ≡ value
  value8 h = ground arith

  value16 :
      fits (2 ^ 15 - 1) value ≡ true
      → signed16 (word64 value / 2 ^ 8 % 2 ^ 8 * 256 + word64 value % 2 ^ 8) ≡ value
  value16 h = ground arith

  value32 :
      fits (2 ^ 31 - 1) value ≡ true
      → signed32 (
          word64 value / 2 ^ 24 % 2 ^ 8 * 16777216
          + word64 value / 2 ^ 16 % 2 ^ 8 * 65536
          + word64 value / 2 ^ 8 % 2 ^ 8 * 256
          + word64 value % 2 ^ 8)
        ≡ value
  value32 h = ground arith

  -- The bytes put down are one of the three shapes, with the value in the payload.
  pub encode_integer-Encodes : Encodes value (encode_integer value)
  unfolding encode_integer integer_of
  encode_integer-Encodes = elim (Bool-cases (fits (2 ^ 7 - 1) value)) [
    | inl a ↦ rw a (one (v % 2 ^ 8) (value8 a))
    | inr a ↦ rw a (elim (Bool-cases (fits (2 ^ 15 - 1) value)) [
      | inl b ↦ rw b (
          two (v % 2 ^ 8) (v / 2 ^ 8 % 2 ^ 8) (
            ap signed16 (join16 (v % 2 ^ 8) (v / 2 ^ 8 % 2 ^ 8) (omega arith) (omega arith))
            ∙ value16 b))
      | inr b ↦ rw b (elim (Bool-cases (fits (2 ^ 31 - 1) value)) [
        | inl c ↦ rw c (
            four (v % 2 ^ 8) (v / 2 ^ 8 % 2 ^ 8) (v / 2 ^ 16 % 2 ^ 8) (v / 2 ^ 24 % 2 ^ 8) (
              ap signed32 (
                join32 (v % 2 ^ 8) (v / 2 ^ 8 % 2 ^ 8) (v / 2 ^ 16 % 2 ^ 8) (v / 2 ^ 24 % 2 ^ 8)
                  (omega arith) (omega arith) (omega arith) (omega arith))
              ∙ value32 c))
        | inr c ↦ rw c too_wide
      ])
    ])
  ]
    where
      v : ℕ
      v = word64 value

-- However it is loaded, as an int object or as an sds, the text is that of the value.
pub text-from_long_long :
    (encode : Bool) (value : ℤ)
    → (o : StringObject) × (from_long_long encode value ≡ object o) × (text o ≡ ll2string 32 value)
unfolding from_long_long
text-from_long_long true value = (int value, refl, refl)
text-from_long_long false value = (
  raw (sds_from_long_long value),
  refl,
  sym (ll2string-sds_from_long_long 32 value (omega arith)),
)
