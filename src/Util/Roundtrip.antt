-- ===== src/Util/Roundtrip.antt =====
-- redis-2.6.14/src/util.c: ll2string and string2ll are inverse to one another, in both directions.
use galery.Prelude.{
  ℕ, zero, suc, ◌-◌, ◌^◌, ◌≤◌, ◌<◌, ◌≡◌, refl, ap, ◌∙◌, sym, inl, inr, Bool, true, false, ◌&&◌,
  Option, none, some, List, [], ◌∷◌, ◌==◌, length, length-take, arith, Bool-cases,
}
use galery.Prelude.Int.{ℤ, pos, negsuc}
use galery.Util.{
  put_digits, read_digits, read_number, signed_value, digits_fuel, magnitude, ullong_max, llong_max,
  ll2string, string2ll, sds_from_long_long,
}
use galery.Util.Digits.{
  value_of, IsCanonical, value_of-put_digits, put_digits-value_of, put_digits-IsCanonical,
  put_digits-last, read_digits-value_of, read_digits-some, length-put_digits, le-value_of,
}

-- The range of a long long.
abbrev pub InLongLong : ℤ → Type 0
InLongLong (pos n) = n ≤ llong_max
InLongLong (negsuc n) = n ≤ llong_max

decimal : ℕ → List ℕ
decimal v = put_digits digits_fuel v []

-- With room for 20 digits, a sign and the final nul nothing is cut off.
ll2string-pos : (len n : ℕ) → 22 ≤ len → ll2string len (pos n) ≡ decimal n
unfolding ll2string decimal
ll2string-pos zero n h = absurd (omega arith)
ll2string-pos (suc len) n h = ground (arith, length-put_digits digits_fuel n [])

ll2string-negsuc : (len n : ℕ) → 22 ≤ len → ll2string len (negsuc n) ≡ b'-' ∷ decimal (suc n)
unfolding ll2string decimal
ll2string-negsuc zero n h = absurd (omega arith)
ll2string-negsuc (suc len) n h = ground (arith, length-put_digits digits_fuel (suc n) [])

value_of-nil : (n : ℕ) → value_of n [] ≡ n
unfolding value_of
value_of-nil n = refl

read_zero : string2ll (decimal 0) ≡ some (pos 0)
unfolding string2ll decimal put_digits
read_zero = refl

signed_value-pos : (n : ℕ) → n ≤ llong_max → signed_value false n ≡ some (pos n)
unfolding signed_value
signed_value-pos n h = ground arith

signed_value-negsuc : (n : ℕ) → n ≤ llong_max → signed_value true (suc n) ≡ some (negsuc n)
unfolding signed_value
signed_value-negsuc n h = ground arith

one_digit :
    (x : ℕ) (cs : List ℕ) → b'1' ≤ x → x ≤ b'9' → put_digits digits_fuel (x - b'0') cs ≡ x ∷ cs
one_digit x cs l h = put_digits-last 19 (x - b'0') cs (omega arith) ∙ ap (λ k. k ∷ cs) (omega arith)

pub length-ll2string : (len : ℕ) (value : ℤ) → length (ll2string (suc len) value) ≤ len
unfolding ll2string
length-ll2string len value = ground (
  arith,
  length-take len (put_digits digits_fuel (magnitude value) []),
  length-take len (b'-' ∷ put_digits digits_fuel (magnitude value) []),
)

pub ll2string-sds_from_long_long :
    (len : ℕ) (value : ℤ) → 22 ≤ len → ll2string len value ≡ sds_from_long_long value
unfolding sds_from_long_long
ll2string-sds_from_long_long len (pos n) h =
    ll2string-pos len n h ∙ (unfold decimal in ground arith)
ll2string-sds_from_long_long len (negsuc n) h =
    ll2string-negsuc len n h ∙ (unfold decimal in ground arith)

-- A canonical text is read as its value.
read_canonical :
    (negative : Bool) (slen : ℕ) (cs : List ℕ)
    → IsCanonical cs
    → value_of 0 cs ≤ ullong_max
    → read_number negative slen cs ≡ signed_value negative (value_of 0 cs)
unfolding read_number value_of
read_canonical negative slen [] c h = ground (arith, c.whole)
read_canonical negative slen (x ∷ cs) c h =
    ground (arith, c.whole, c.low, c.high, c.digits, read_digits-value_of (x - b'0') cs)

string2ll_canonical :
    (cs : List ℕ)
    → IsCanonical cs
    → value_of 0 cs ≤ ullong_max
    → string2ll cs ≡ signed_value false (value_of 0 cs)
unfolding string2ll
string2ll_canonical [] c h = ground (arith, c.whole)
string2ll_canonical (x ∷ cs) c h =
    ground (arith, c.whole, c.low, c.high, read_canonical false (length (x ∷ cs)) (x ∷ cs) c h)

string2ll_minus :
    (cs : List ℕ)
    → IsCanonical cs
    → value_of 0 cs ≤ ullong_max
    → string2ll (b'-' ∷ cs) ≡ signed_value true (value_of 0 cs)
unfolding string2ll
string2ll_minus cs c h = ground (arith, read_canonical true (length (b'-' ∷ cs)) cs c h)

decimal-IsCanonical : (n : ℕ) → 0 < n → n < 2 ^ 64 → IsCanonical (decimal n)
unfolding decimal
decimal-IsCanonical n p h = put_digits-IsCanonical digits_fuel n [] tt p (omega arith)

value_of-decimal : (n : ℕ) → n < 2 ^ 64 → value_of 0 (decimal n) ≡ n
unfolding decimal
value_of-decimal n h = value_of-put_digits digits_fuel n [] (omega arith) ∙ value_of-nil n

-- Every long long that `ll2string` prints into at least 22 bytes is read back by `string2ll` as itself.
pub string2ll-ll2string :
    (len : ℕ) (value : ℤ)
    → 22 ≤ len
    → InLongLong value
    → string2ll (ll2string len value) ≡ some value
string2ll-ll2string len (pos zero) h r = ap string2ll (ll2string-pos len 0 h) ∙ read_zero
string2ll-ll2string len (pos (suc n)) h r =
    ap string2ll (ll2string-pos len (suc n) h)
    ∙ string2ll_canonical (decimal (suc n))
        (decimal-IsCanonical (suc n) (omega arith) (omega arith))
        (omega (arith, value_of-decimal (suc n) (omega arith)))
    ∙ ap (signed_value false) (value_of-decimal (suc n) (omega arith))
    ∙ signed_value-pos (suc n) r
string2ll-ll2string len (negsuc n) h r =
    ap string2ll (ll2string-negsuc len n h)
    ∙ string2ll_minus (decimal (suc n)) (decimal-IsCanonical (suc n) (omega arith) (omega arith))
        (omega (arith, value_of-decimal (suc n) (omega arith)))
    ∙ ap (signed_value true) (value_of-decimal (suc n) (omega arith))
    ∙ signed_value-negsuc n r

value_of-first : (c : ℕ) (cs : List ℕ) → value_of 0 (c ∷ cs) ≡ value_of (c - b'0') cs
unfolding value_of
value_of-first c cs = ap (λ k. value_of k cs) (omega arith)

-- Past a lone 0, what `read_number` accepts is a canonical text of the value.
module _ (negative : Bool) (slen c : ℕ) (cs : List ℕ) (value : ℤ) where
  first_digit :
      (c == b'0' && slen == 1) ≡ false
      → read_number negative slen (c ∷ cs) ≡ some value
      → (b'1' ≤ c)
        × (c ≤ b'9')
        × ((n : ℕ) × (read_digits (c - b'0') cs ≡ some n) × (signed_value negative n ≡ some value))
  unfolding read_number
  first_digit z h = go (read_digits (c - b'0') cs) refl
    where
      go :
          (o : Option ℕ)
          → read_digits (c - b'0') cs ≡ o
          → (b'1' ≤ c)
            × (c ≤ b'9')
            × ((n : ℕ) × (read_digits (c - b'0') cs ≡ some n)
                × (signed_value negative n ≡ some value))
      go none e = absurd (ground arith)
      go (some n) e = (ground arith, ground arith, (n, e, ground arith))

  read-IsCanonical :
      (c == b'0' && slen == 1) ≡ false
      → read_number negative slen (c ∷ cs) ≡ some value
      → IsCanonical (c ∷ cs) × (signed_value negative (value_of 0 (c ∷ cs)) ≡ some value)
  read-IsCanonical z h =
      let f = first_digit z h in
      let d = read_digits-some (c - b'0') cs f.2.0 f.2.1 in
      (
        record { first = c; rest = cs; whole = refl; low = f.0; high = f.1; digits = d.0 },
        ap (signed_value negative) (value_of-first c cs ∙ sym d.1) ∙ f.2.2,
      )

decimal-value_of :
    (cs : List ℕ) → IsCanonical cs → value_of 0 cs < 2 ^ 64 → decimal (value_of 0 cs) ≡ cs
unfolding decimal
decimal-value_of [] c h = ground (arith, c.whole)
decimal-value_of (x ∷ cs) c h =
    ap (λ n. put_digits digits_fuel n []) (value_of-first x cs)
    ∙ put_digits-value_of digits_fuel (x - b'0') cs (ground (arith, c.whole, c.low))
        (ground (arith, c.whole, c.digits)) (omega (arith, value_of-first x cs))
    ∙ one_digit x cs (ground (arith, c.whole, c.low)) (ground (arith, c.whole, c.high))

negsuc-magnitude :
    (n : ℕ) (value : ℤ)
    → 0 < n
    → signed_value true n ≡ some value
    → (value ≡ negsuc (n - 1)) × (n < 2 ^ 64)
unfolding signed_value
negsuc-magnitude n value p h = ground arith

pos-magnitude :
    (n : ℕ) (value : ℤ) → signed_value false n ≡ some value → (value ≡ pos n) × (n < 2 ^ 64)
unfolding signed_value
pos-magnitude n value h = ground arith

canonical_pos : (cs : List ℕ) → IsCanonical cs → 0 < value_of 0 cs
canonical_pos [] c = absurd (ground (arith, c.whole))
canonical_pos (x ∷ cs) c =
    let low : b'1' ≤ x = ground (arith, c.whole, c.low) in
    omega (arith, value_of-first x cs, le-value_of (x - b'0') cs)

print_zero :
    (len : ℕ)
    → 22 ≤ len
    → (c : ℕ) (cs : List ℕ) → (length (c ∷ cs) == 1 && c == b'0') ≡ true
    → ll2string len (pos 0) ≡ c ∷ cs
print_zero len room c [] z =
    ll2string-pos len 0 room
    ∙ (unfold decimal put_digits in ap (λ k. k ∷ []) (let e : 48 ≡ c = ground arith in e))
print_zero len room c (d ∷ cs) z = absurd (ground arith)

module _ (len : ℕ) (room : 22 ≤ len) (value : ℤ) where
  print_canonical :
      (cs : List ℕ)
      → IsCanonical cs
      → signed_value false (value_of 0 cs) ≡ some value
      → ll2string len value ≡ cs
  print_canonical cs c h =
      let m = pos-magnitude (value_of 0 cs) value h in
      ap (ll2string len) m.0 ∙ ll2string-pos len _ room ∙ decimal-value_of cs c m.1

  print_minus :
      (cs : List ℕ)
      → IsCanonical cs
      → signed_value true (value_of 0 cs) ≡ some value
      → ll2string len value ≡ b'-' ∷ cs
  print_minus cs c h =
      let p : 0 < value_of 0 cs = canonical_pos cs c in
      let m = negsuc-magnitude (value_of 0 cs) value p h in
      ap (ll2string len) m.0
      ∙ ll2string-negsuc len _ room
      ∙ ap (λ n. b'-' ∷ decimal n)
          (let e : suc (value_of 0 cs - 1) ≡ value_of 0 cs = omega arith in e)
      ∙ ap (λ l. b'-' ∷ l) (decimal-value_of cs c m.1)

  -- Every text that `string2ll` reads as a long long is what `ll2string` prints for its value into at
  -- least 22 bytes.
  pub ll2string-string2ll : (s : List ℕ) → string2ll s ≡ some value → ll2string len value ≡ s
  unfolding string2ll
  ll2string-string2ll [] h = absurd (ground arith)
  ll2string-string2ll (c ∷ cs) h = elim (Bool-cases (length (c ∷ cs) == 1 && c == b'0')) [
    | inl z ↦ ap (ll2string len) (ground arith) ∙ print_zero len room c cs z
    | inr z ↦ elim (Bool-cases (c == b'-')) [
      | inl m ↦ minus cs z m (ground arith)
      | inr m ↦
          let r : read_number false (length (c ∷ cs)) (c ∷ cs) ≡ some value = ground arith in
          let k = read-IsCanonical false (length (c ∷ cs)) c cs value (ground arith) r in
          print_canonical (c ∷ cs) k.0 k.1
    ]
  ]
    where
      minus :
          (ds : List ℕ)
          → (length (c ∷ ds) == 1 && c == b'0') ≡ false
          → (c == b'-') ≡ true
          → read_number true (length (c ∷ ds)) ds ≡ some value
          → ll2string len value ≡ c ∷ ds
      minus [] z m r = absurd (unfold read_number in ground arith)
      minus (d ∷ ds) z m r =
          let k = read-IsCanonical true (length (c ∷ d ∷ ds)) d ds value (ground arith) r in
          print_minus (d ∷ ds) k.0 k.1 ∙ ap (λ x. x ∷ d ∷ ds) (ground arith)
