-- ===== src/Util.antt =====
-- redis-2.6.14/src/util.c: numbers as text. Text is a list of character codes.
pub mod Digits
pub mod Roundtrip
use galery.Prelude.{
  ℕ, zero, suc, ◌+◌, ◌-◌, ◌*◌, ◌/◌, ◌%◌, ◌^◌, Bool, true, false, ◌&&◌, Option, none, some, List, [],
  ◌∷◌, ltb, leb, ◌==◌, if◌then◌else◌, length, take,
}
use galery.Prelude.Int.{ℤ, pos, negsuc, ltb_ℤ}

abbrev pub ullong_max : ℕ
ullong_max = 2 ^ 64 - 1

abbrev pub llong_max : ℕ
llong_max = 2 ^ 63 - 1

-- The do-while loop of `ll2string`, which fills its buffer from the end: the digits of `v` before what
-- is there already. A number below 10 ^ 20 has at most 20 rounds.
unfoldable pub put_digits : ℕ → ℕ → List ℕ → List ℕ
put_digits zero v buf = buf
put_digits (suc f) v buf =
    let buf' = (b'0' + v % 10) ∷ buf in
    elim (v / 10 == 0) [ true ↦ buf' | false ↦ put_digits f (v / 10) buf' ]

abbrev pub digits_fuel : ℕ
digits_fuel = 20

-- `v = (value < 0) ? -value : value`, as an unsigned long long.
abbrev pub magnitude : ℤ → ℕ
magnitude (pos n) = n
magnitude (negsuc n) = suc n

unfoldable pub ll2string : ℕ → ℤ → List ℕ
ll2string zero value = []
ll2string (suc len) value =
    let buf = put_digits digits_fuel (magnitude value) [] in
    let p = if ltb_ℤ value (pos 0) then b'-' ∷ buf else buf in
    if ltb (suc len) (length p + 1) then take len p else p

-- redis-2.6.14/src/sds.c: the same loop into a new string.
unfoldable pub sds_from_long_long : ℤ → List ℕ
sds_from_long_long value =
    let buf = put_digits digits_fuel (magnitude value) [] in
    if ltb_ℤ value (pos 0) then b'-' ∷ buf else buf

-- The loop of `string2ll` over the digits that are left: none where it returns 0, on overflow and
-- where a byte is not used.
unfoldable pub read_digits : ℕ → List ℕ → Option ℕ
read_digits v [] = some v
read_digits v (c ∷ cs) =
    let rest = read_digits (v * 10 + (c - b'0')) cs in
    if leb b'0' c && leb c b'9'
    then (if ltb (ullong_max / 10) v
        then none
        else if ltb (ullong_max - (c - b'0')) (v * 10)
        then none
        else rest)
    else none

-- The range checks at the end.
unfoldable pub signed_value : Bool → ℕ → Option ℤ
signed_value true v = if ltb (llong_max + 1) v then none else some (negsuc (v - 1))
signed_value false v = if ltb llong_max v then none else some (pos v)

-- From the first digit on; `slen` is the length of the whole text.
unfoldable pub read_number : Bool → ℕ → List ℕ → Option ℤ
read_number negative slen [] = none
read_number negative slen (c ∷ cs) =
    if leb b'1' c && leb c b'9'
    then elim (read_digits (c - b'0') cs) [ none ↦ none | some v ↦ signed_value negative v ]
    else if c == b'0' && slen == 1
    then some (pos 0)
    else none

unfoldable pub string2ll : List ℕ → Option ℤ
string2ll [] = none
string2ll (c ∷ cs) =
    if length (c ∷ cs) == 1 && c == b'0'
    then some (pos 0)
    else if c == b'-'
    then read_number true (length (c ∷ cs)) cs
    else read_number false (length (c ∷ cs)) (c ∷ cs)
