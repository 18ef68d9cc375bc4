-- ===== src/Rdb/Len.antt =====
-- redis-2.6.14/src/rdb.c: rdbWriteRaw, rdbSaveLen and rdbLoadLen. An int result is an integer, -1 for
-- an error; a NULL stream is none. `x & 0xFF` and `x & 0x3F` are the remainders by 2 ^ 8 and 2 ^ 6.
pub mod Roundtrip
pub mod Errors
use Prim.Native.Nat.{bit_and, bit_or}
use galery.Prelude.{
  ℕ, ◌+◌, ◌-◌, ◌*◌, ◌/◌, ◌%◌, ◌^◌, ◌<◌, ◌≡◌, Option, none, some, List, [], ◌∷◌, ◌++◌, Bool, true,
  false, arith, ltb, ◌==◌, if◌then◌else◌, length, get_or,
}
use galery.Prelude.Int.{ℤ, pos, negsuc, eqb_ℤ}
use galery.Rio.{Backend, Rio, rio_write, rio_read}

-- The tags of rdb.h in the top two bits of the first byte.
abbrev pub six_bit_len : ℕ
six_bit_len = 0

abbrev pub fourteen_bit_len : ℕ
fourteen_bit_len = 1

abbrev pub thirty_two_bit_len : ℕ
thirty_two_bit_len = 2

abbrev pub enc_val : ℕ
enc_val = 3

-- REDIS_RDB_LENERR is UINT_MAX.
abbrev pub len_err : ℕ
len_err = 2 ^ 32 - 1

-- The bytes in memory of `htonl(len)`.
unfoldable pub network_bytes : ℕ → List ℕ
network_bytes len = len / 2 ^ 24 % 256 ∷ len / 2 ^ 16 % 256 ∷ len / 2 ^ 8 % 256 ∷ len % 256 ∷ []

-- `ntohl` of four bytes in memory.
unfoldable pub from_network : List ℕ → ℕ
from_network bs =
    get_or bs 0 0 * 2 ^ 24 + get_or bs 1 0 * 2 ^ 16 + get_or bs 2 0 * 2 ^ 8 + get_or bs 3 0

module _ {S : Type 0} (b : Backend S) where
  unfoldable pub write_raw : Option (Rio S) → List ℕ → ℤ × Option (Rio S)
  write_raw none buf = (pos (length buf), none)
  write_raw (some r) buf =
      let (okay, r') = rio_write b r buf in
      if okay then (pos (length buf), some r') else (negsuc 0, some r')

  -- The third branch compares the result of its second write with -4.
  unfoldable pub save_len : Option (Rio S) → ℕ → ℤ × Option (Rio S)
  unfolding write_raw network_bytes
  save_len rdb len =
      if ltb len (2 ^ 6)
      then (let (n, rdb') = write_raw rdb (bit_or (len % 2 ^ 8) (six_bit_len * 2 ^ 6) ∷ []) in
          if eqb_ℤ n (negsuc 0) then (negsuc 0, rdb') else (pos 1, rdb'))
      else if ltb len (2 ^ 14)
      then (let (n, rdb') =
            write_raw rdb
              (bit_or (len / 2 ^ 8 % 2 ^ 8) (fourteen_bit_len * 2 ^ 6) ∷ len % 2 ^ 8 ∷ []) in
          if eqb_ℤ n (negsuc 0) then (negsuc 0, rdb') else (pos 2, rdb'))
      else (let (n, rdb') = write_raw rdb ((thirty_two_bit_len * 2 ^ 6) ∷ []) in
          if eqb_ℤ n (negsuc 0)
          then (negsuc 0, rdb')
          else (let (m, rdb'') = write_raw rdb' (network_bytes len) in
              if eqb_ℤ m (negsuc 3) then (negsuc 0, rdb'') else (pos (1 + 4), rdb'')))

  -- The rest of `rdbLoadLen` for the type of the first byte: the length and `isencoded`.
  load_len_of : ℕ → ℕ → Rio S → (ℕ × Bool) × Rio S
  load_len_of type first rdb =
      if type == enc_val
      then ((first % 2 ^ 6, true), rdb)
      else if type == six_bit_len
      then ((first % 2 ^ 6, false), rdb)
      else if type == fourteen_bit_len
      then (let (got, rdb') = rio_read b rdb 1 in
          elim got [
            | none ↦ ((len_err, false), rdb')
            | some buf ↦ ((bit_or (first % 2 ^ 6 * 2 ^ 8) (get_or buf 0 0), false), rdb')
          ])
      else (let (got, rdb') = rio_read b rdb 4 in
          elim got [
            | none ↦ ((len_err, false), rdb')
            | some buf ↦ ((from_network buf, false), rdb')
          ])

  unfoldable pub load_len : Rio S → (ℕ × Bool) × Rio S
  unfolding load_len_of from_network
  load_len rdb =
      let (got, rdb') = rio_read b rdb 1 in
      elim got [
        | none ↦ ((len_err, false), rdb')
        | some buf ↦
            let first = get_or buf 0 0 in load_len_of (bit_and first 0xC0 / 2 ^ 6) first rdb'
      ]
