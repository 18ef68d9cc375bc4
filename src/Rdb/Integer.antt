-- ===== src/Rdb/Integer.antt =====
-- redis-2.6.14/src/rdb.c: rdbEncodeInteger and rdbLoadIntegerObject, and the string objects of
-- object.c that loading creates. `value & 0xFF` is taken of the 64-bit two's complement word.
pub mod Roundtrip
use Prim.Native.Nat.{bit_or}
use galery.Prelude.{
  ℕ, suc, ◌+◌, ◌-◌, ◌*◌, ◌/◌, ◌%◌, ◌^◌, ◌<◌, ◌≡◌, Option, none, some, List, [], ◌∷◌, ◌++◌, Bool,
  true, false, ◌&&◌, arith, ltb, ◌==◌, if◌then◌else◌, length, get_or,
}
use galery.Prelude.Int.{ℤ, pos, negsuc, leb_ℤ, ltb_ℤ}
use galery.Rio.{Backend, Rio, rio_read}
use galery.Rdb.Len.{enc_val}
use galery.Util.{ll2string, sds_from_long_long}

-- REDIS_RDB_ENC_INT8, _INT16, _INT32 and _LZF
abbrev pub enc_int8 : ℕ
enc_int8 = 0

abbrev pub enc_int16 : ℕ
enc_int16 = 1

abbrev pub enc_int32 : ℕ
enc_int32 = 2

abbrev pub enc_lzf : ℕ
enc_lzf = 3

-- A string object: an sds, or the number of encoding REDIS_ENCODING_INT (shared or not).
pub data StringObject : Type 0 where
  raw : List ℕ → StringObject
  int : ℤ → StringObject

-- The text that a client sees of it.
abbrev pub text : StringObject → List ℕ
text (raw s) = s
text (int v) = ll2string 32 v

-- What a load function returns: an object, NULL, or a call of redisPanic.
pub data Loaded : Type 0 where
  object : StringObject → Loaded
  null panic : Loaded

-- The two's complement word of a long long.
abbrev pub word64 : ℤ → ℕ
word64 (pos n) = n % 2 ^ 64
word64 (negsuc n) = 2 ^ 64 - 1 - n % 2 ^ 64

-- The casts of a word to int8, int16 and int32.
abbrev pub signed8 : ℕ → ℤ
signed8 w = if ltb w (2 ^ 7) then pos w else negsuc (2 ^ 8 - 1 - w)

abbrev pub signed16 : ℕ → ℤ
signed16 w = if ltb w (2 ^ 15) then pos w else negsuc (2 ^ 16 - 1 - w)

abbrev pub signed32 : ℕ → ℤ
signed32 w = if ltb w (2 ^ 31) then pos w else negsuc (2 ^ 32 - 1 - w)

-- What an int of 32 bits holds after a sum is stored in it.
unfoldable pub to_int : ℤ → ℤ
to_int (pos n) = signed32 (n % 2 ^ 32)
to_int (negsuc n) = signed32 (2 ^ 32 - 1 - n % 2 ^ 32)

-- The bytes put into `enc`, none of them for the result 0.
unfoldable pub encode_integer : ℤ → List ℕ
encode_integer value =
    let v = word64 value in
    if leb_ℤ (negsuc (2 ^ 7 - 1)) value && leb_ℤ value (pos (2 ^ 7 - 1))
    then bit_or (enc_val * 2 ^ 6) enc_int8 ∷ v % 2 ^ 8 ∷ []
    else if leb_ℤ (negsuc (2 ^ 15 - 1)) value && leb_ℤ value (pos (2 ^ 15 - 1))
    then bit_or (enc_val * 2 ^ 6) enc_int16 ∷ v % 2 ^ 8 ∷ v / 2 ^ 8 % 2 ^ 8 ∷ []
    else if leb_ℤ (negsuc (2 ^ 31 - 1)) value && leb_ℤ value (pos (2 ^ 31 - 1))
    then bit_or (enc_val * 2 ^ 6) enc_int32
      ∷ v % 2 ^ 8
      ∷ v / 2 ^ 8 % 2 ^ 8
      ∷ v / 2 ^ 16 % 2 ^ 8
      ∷ v / 2 ^ 24 % 2 ^ 8
      ∷ []
    else []

-- `createStringObjectFromLongLong`, and an sds of `sdsfromlonglong`.
unfoldable pub from_long_long : Bool → ℤ → Loaded
from_long_long true value = object (int value)
from_long_long false value = object (raw (sds_from_long_long value))

-- The value that the bytes of an encoding stand for.
unfoldable pub integer_of : ℕ → List ℕ → ℤ
integer_of enctype enc =
    if enctype == enc_int8
    then signed8 (get_or enc 0 0)
    else if enctype == enc_int16
    then signed16 (bit_or (get_or enc 0 0) (get_or enc 1 0 * 2 ^ 8) % 2 ^ 16)
    else signed32 (
        bit_or (bit_or (bit_or (get_or enc 0 0) (get_or enc 1 0 * 2 ^ 8)) (get_or enc 2 0 * 2 ^ 16))
          (get_or enc 3 0 * 2 ^ 24)
        % 2 ^ 32)

module _ {S : Type 0} (b : Backend S) where
  load_bytes : ℕ → ℕ → Bool → Rio S → Loaded × Rio S
  load_bytes n enctype encode rdb =
      let (got, rdb') = rio_read b rdb n in
      elim got [
        | none ↦ (null, rdb')
        | some enc ↦ (from_long_long encode (integer_of enctype enc), rdb')
      ]

  unfoldable pub load_integer : Rio S → ℕ → Bool → Loaded × Rio S
  unfolding load_bytes
  load_integer rdb enctype encode =
      if enctype == enc_int8
      then load_bytes 1 enctype encode rdb
      else if enctype == enc_int16
      then load_bytes 2 enctype encode rdb
      else if enctype == enc_int32
      then load_bytes 4 enctype encode rdb
      else (panic, rdb)
