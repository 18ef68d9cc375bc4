-- ===== src/Rdb/Len/Errors.antt =====
-- redis-2.6.14/src/rdb.c: what rdbSaveLen returns when the stream fails.
use galery.Prelude.{ℕ, ◌^◌, ◌≡◌, some, List, [], ◌∷◌, arith, ltb, if◌then◌else◌}
use Prim.Native.Nat.{bit_or, ◌%◌, ◌/◌, ◌*◌}
use galery.Prelude.Int.{pos, negsuc}
use galery.Rio.{Backend, Rio, rio_write}
use galery.Rdb.Len.{save_len}

-- The bytes of the first write of `rdbSaveLen`.
abbrev pub first_bytes : ℕ → List ℕ
first_bytes len =
    if ltb len (2 ^ 6)
    then bit_or (len % 2 ^ 8) 0 ∷ []
    else if ltb len (2 ^ 14)
    then bit_or (len / 2 ^ 8 % 2 ^ 8) (2 ^ 6) ∷ len % 2 ^ 8 ∷ []
    else (2 * 2 ^ 6) ∷ []

-- The bytes of a whole encoding, which `rdbSaveLen` returns.
abbrev pub encoded_bytes : ℕ → ℕ
encoded_bytes len = if ltb len (2 ^ 6) then 1 else if ltb len (2 ^ 14) then 2 else 5

module _ {S : Type 0} (b : Backend S) (r : Rio S) (len : ℕ) where
  -- On every stream and for every length, `rdbSaveLen` returns the number of bytes of the encoding when
  -- its first write succeeds and -1 when that write fails: the result of the second write, of the four
  -- bytes of a length from 2 ^ 14 on, plays no part.
  pub save_len_errors :
      (save_len b (some r) len).0
      ≡ (if (rio_write b r (first_bytes len)).0 then pos (encoded_bytes len) else negsuc 0)
  unfolding save_len
  save_len_errors = ground arith
