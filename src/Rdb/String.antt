-- ===== src/Rdb/String.antt =====
-- redis-2.6.14/src/rdb.c: string objects: rdbTryIntegerEncoding, rdbSaveLzfStringObject,
-- rdbSaveRawString, rdbSaveLongLongAsStringObject, rdbSaveStringObject and their loading. The strtoll of
-- the C library and the LZF library are parameters.
-- `nwritten` is an int.
pub mod Loads
pub mod Stores
pub mod Roundtrip
use Prim.Native.Nat.{bit_or}
use galery.Prelude.{
  ℕ, ◌+◌, ◌-◌, ◌*◌, ◌%◌, ◌^◌, ◌<◌, ◌≡◌, ◌≢◌, Option, none, some, List, [], ◌∷◌, Bool, true, false,
  ◌&&◌, ltb, leb, ◌==◌, if◌then◌else◌, length, same_bytes,
}
use galery.Prelude.Int.{ℤ, pos, negsuc, ltb_ℤ, ◌+ℤ◌}
use galery.Rio.{Backend, Rio, rio_read}
use galery.Rdb.Len.{enc_val, len_err, write_raw, save_len, load_len}
use galery.Rdb.Save.{Save, ◌>>=◌, return}
use galery.Rdb.Integer.{
  enc_int8, enc_int16, enc_int32, enc_lzf, to_int, encode_integer, load_integer, StringObject, raw,
  int, Loaded, object, null, panic,
}
use galery.Util.{ll2string}

-- What the code calls and does not define: `strtoll(s, &endptr, 10)` with the test that `endptr` is at
-- the end, `lzf_compress` into a buffer of a given size (the empty list for the result 0), and
-- `lzf_decompress` into a buffer of a given size (none for the result 0); and `server.rdb_compression`.
pub record Env : Type 0 where
  pub strtoll : List ℕ → ℤ × Bool
  pub lzf_compress : List ℕ → ℕ → List ℕ
  pub lzf_decompress : List ℕ → ℕ → Option (List ℕ)
  pub rdb_compression : Bool

module _ (env : Env) where
  unfoldable pub try_integer_encoding : List ℕ → List ℕ
  try_integer_encoding s =
      let (value, whole) = env.strtoll s in
      if whole then (if same_bytes (ll2string 32 value) s then encode_integer value else []) else []

  module _ {S : Type 0} (b : Backend S) where
    unfoldable pub save_lzf : List ℕ → Save S
    save_lzf s =
        let out = env.lzf_compress s (length s - 4) in
        if leb (length s) 4 then return (pos 0) else if length out == 0 then return (pos 0) else do
          n ← λ rdb. write_raw b rdb (bit_or (enc_val * 2 ^ 6) enc_lzf ∷ [])
          m ← λ rdb. save_len b rdb (length out % 2 ^ 32)
          l ← λ rdb. save_len b rdb (length s % 2 ^ 32)
          k ← λ rdb. write_raw b rdb out
          return (to_int (n +ℤ m +ℤ l +ℤ k))

    -- The part under "Store verbatim".
    unfoldable pub save_verbatim : List ℕ → Save S
    save_verbatim s = do
      n ← λ rdb. save_len b rdb (length s % 2 ^ 32)
      if ltb 0 (length s)
          then (do k ← λ rdb. write_raw b rdb s; return (to_int (n +ℤ pos (length s))))
          else return n

    unfoldable pub save_raw_string : List ℕ → Save S
    save_raw_string s =
        let enc = if leb (length s) 11 then try_integer_encoding s else [] in
        if ltb 0 (length enc)
        then (do n ← λ rdb. write_raw b rdb enc; return (pos (length enc)))
        else if env.rdb_compression && ltb 20 (length s)
        then (do n ← save_lzf s; if ltb_ℤ (pos 0) n then return n else save_verbatim s)
        else save_verbatim s

    -- `rdbSaveLongLongAsStringObject`
    unfoldable pub save_long_long : ℤ → Save S
    save_long_long value =
        let enc = encode_integer value in
        let buf = ll2string 32 value in
        if ltb 0 (length enc) then (λ rdb. write_raw b rdb enc) else do
          n ← λ rdb. save_len b rdb (length buf)
          m ← λ rdb. write_raw b rdb buf
          return (n +ℤ m)

    unfoldable pub save_string_object : StringObject → Save S
    save_string_object (int v) = save_long_long v
    save_string_object (raw s) = save_raw_string s

    unfoldable pub load_lzf : Rio S → Loaded × Rio S
    load_lzf rdb =
        let (l, rdb1) = load_len b rdb in
        if l.0 == len_err
        then (null, rdb1)
        else (let (m, rdb2) = load_len b rdb1 in
            if m.0 == len_err
            then (null, rdb2)
            else (let (got, rdb3) = rio_read b rdb2 l.0 in
                elim got [
                  | none ↦ (null, rdb3)
                  | some c ↦ elim (env.lzf_decompress c m.0) [
                    | none ↦ (null, rdb3)
                    | some val ↦ (object (raw val), rdb3)
                  ]
                ]))

    -- The part after the length for a string that is not encoded.
    unfoldable pub load_plain : Rio S → ℕ → Loaded × Rio S
    load_plain rdb len =
        if len == len_err
        then (null, rdb)
        else if len == 0
        then (object (raw []), rdb)
        else (let (got, rdb') = rio_read b rdb len in
            elim got [ none ↦ (null, rdb') | some val ↦ (object (raw val), rdb') ])

    -- `rdbGenericLoadStringObject`
    unfoldable pub load_string : Bool → Rio S → Loaded × Rio S
    load_string encode rdb =
        let (l, rdb') = load_len b rdb in
        if l.1
        then (if leb l.0 enc_int32
            then load_integer b rdb' l.0 encode
            else if l.0 == enc_lzf
            then load_lzf rdb'
            else (panic, rdb'))
        else load_plain rdb' l.0
