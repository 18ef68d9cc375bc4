-- ===== src/Intset.antt =====
-- redis-2.6.14/src/intset.c and intset.h: sets of integers, sorted in an array of 16, 32 or 64 bit slots.
-- The array is a memory of bytes in little-endian order; a resize to n bytes sets `size`, and an
-- uint32_t product wraps at 2 ^ 32.
pub mod Memory
pub mod Slots
pub mod Search
pub mod Values
pub mod Upgrade
pub mod Insert
pub mod Remove
use galery.Prelude.{
  ℕ, zero, suc, ◌+◌, ◌-◌, ◌*◌, ◌/◌, ◌%◌, ◌^◌, Option, none, some, Bool, true, false, ◌&&◌, ◌||◌,
  ltb, leb, ◌==◌, if◌then◌else◌,
}
use galery.Prelude.Int.{ℤ, pos, negsuc, ltb_ℤ, eqb_ℤ}
use galery.Rdb.Integer.{word64, signed16, signed32}

-- INTSET_ENC_INT16, _INT32 and _INT64
pub data Encoding : Type 0 where
  int16 int32 int64 : Encoding

-- Their values, the sizes of the types.
abbrev pub width : Encoding → ℕ
width int16 = 2
width int32 = 4
width int64 = 8

abbrev pub Memory : Type 0
Memory = ℕ → ℕ

-- `intset`, with the number of bytes allocated for its contents.
pub record Intset : Type 0 where
  pub encoding : Encoding
  pub len : ℕ
  pub contents : Memory
  pub size : ℕ

-- Byte `i` of a word.
unfoldable pub byte_of : ℕ → ℕ → ℕ
byte_of v zero = v % 256
byte_of v (suc i) = byte_of (v / 256) i

-- The word of `w` bytes at address `a`.
unfoldable pub read_word : ℕ → Memory → ℕ → ℕ
read_word zero mem a = 0
read_word (suc w) mem a = mem a + 256 * read_word w mem (a + 1)

unfoldable pub write_word : ℕ → Memory → ℕ → ℕ → Memory
write_word w mem a v k = if leb a k && ltb k (a + w) then byte_of v (k - a) else mem k

-- The cast of a word to int64_t.
abbrev pub signed64 : ℕ → ℤ
signed64 w = if ltb w (2 ^ 63) then pos w else negsuc (2 ^ 64 - 1 - w)

-- `_intsetValueEncoding`
unfoldable pub value_encoding : ℤ → Encoding
value_encoding v =
    if ltb_ℤ v (negsuc (2 ^ 31 - 1)) || ltb_ℤ (pos (2 ^ 31 - 1)) v
    then int64
    else if ltb_ℤ v (negsuc (2 ^ 15 - 1)) || ltb_ℤ (pos (2 ^ 15 - 1)) v
    then int32
    else int16

-- `_intsetGetEncoded`
unfoldable pub get_encoded : Memory → ℕ → Encoding → ℤ
get_encoded mem p int64 = signed64 (read_word 8 mem (p * 8))
get_encoded mem p int32 = signed32 (read_word 4 mem (p * 4))
get_encoded mem p int16 = signed16 (read_word 2 mem (p * 2))

-- `_intsetGet`
abbrev pub get_at : Intset → ℕ → ℤ
get_at s p = get_encoded s.contents p s.encoding

-- The store of `_intsetSet`; the cast to the width of a slot drops the upper bytes.
unfoldable pub set_encoded : Memory → ℕ → ℤ → Encoding → Memory
set_encoded mem p v int64 = write_word 8 mem (p * 8) (word64 v)
set_encoded mem p v int32 = write_word 4 mem (p * 4) (word64 v)
set_encoded mem p v int16 = write_word 2 mem (p * 2) (word64 v)

-- `_intsetSet`
unfoldable pub set_at : Intset → ℕ → ℤ → Intset
set_at s p v = record s { contents = set_encoded s.contents p v s.encoding }

unfoldable pub intset_new : Intset
intset_new = record { encoding = int16; len = 0; contents = λ k. 0; size = 0 }

unfoldable pub intset_resize : Intset → ℕ → Intset
intset_resize s len = record s { size = len * width s.encoding % 2 ^ 32 }

-- The loop of `intsetSearch` with `max` + 1 for `max`: min, mid and cur where it ends.
unfoldable pub search_loop : ℕ → Intset → ℤ → ℕ → ℕ → ℕ → ℤ → ℕ × ℕ × ℤ
search_loop zero s value lo hi mid cur = (lo, mid, cur)
search_loop (suc f) s value lo hi mid cur =
    let mid' = (lo + hi - 1) / 2 in
    let cur' = get_at s mid' in
    elim (ltb lo hi) [
      | false ↦ (lo, mid, cur)
      | true ↦ elim (ltb_ℤ cur' value) [
        | true ↦ search_loop f s value (mid' + 1) hi mid' cur'
        | false ↦ elim (ltb_ℤ value cur') [
          | true ↦ search_loop f s value lo mid' mid' cur'
          | false ↦ (lo, mid', cur')
        ]
      ]
    ]

-- `intsetSearch`, with the position that it stores. `mid` and `cur` start as -1.
unfoldable pub intset_search : Intset → ℤ → Bool × ℕ
intset_search s value =
    if s.len == 0
    then (false, 0)
    else if ltb_ℤ (get_at s (s.len - 1)) value
    then (false, s.len)
    else if ltb_ℤ value (get_at s 0)
    then (false, 0)
    else (let (lo, mid, cur) = search_loop s.len s value 0 s.len (2 ^ 32 - 1) (negsuc 0) in
        if eqb_ℤ value cur then (true, mid) else (false, lo))

-- The loop of `intsetUpgradeAndAdd`, from the last slot to the first.
unfoldable pub upgrade_loop : ℕ → ℕ → Encoding → Encoding → Memory → Memory
upgrade_loop zero prepend curenc newenc mem = mem
upgrade_loop (suc n) prepend curenc newenc mem =
    upgrade_loop n prepend curenc newenc
      (set_encoded mem (n + prepend) (get_encoded mem n curenc) newenc)

unfoldable pub intset_upgrade_and_add : Intset → ℤ → Intset
intset_upgrade_and_add s value =
    let curenc = s.encoding in
    let newenc = value_encoding value in
    let prepend : ℕ = if ltb_ℤ value (pos 0) then 1 else 0 in
    let s1 = intset_resize (record s { encoding = newenc }) (s.len + 1) in
    let s2 = record s1 { contents = upgrade_loop s.len prepend curenc newenc s1.contents } in
    let s3 = if prepend == 1 then set_at s2 0 value else set_at s2 s2.len value in
    record s3 { len = s3.len + 1 }

-- `memmove(dst,src,bytes)`
unfoldable pub move_bytes : Memory → ℕ → ℕ → ℕ → Memory
move_bytes mem dst src count k =
    if leb dst k && ltb k (dst + count) then mem (src + (k - dst)) else mem k

unfoldable pub intset_move_tail : Intset → ℕ → ℕ → Intset
intset_move_tail s from to =
    let w = width s.encoding in
    record s { contents = move_bytes s.contents (to * w) (from * w) ((s.len - from) * w % 2 ^ 32) }

-- `intsetAdd`, with `success`.
unfoldable pub intset_add : Intset → ℤ → Bool × Intset
intset_add s value =
    if ltb (width s.encoding) (width (value_encoding value))
    then (true, intset_upgrade_and_add s value)
    else (let (found, p) = intset_search s value in
        let s1 = intset_resize s (s.len + 1) in
        let s2 = if ltb p s1.len then intset_move_tail s1 p (p + 1) else s1 in
        let s3 = set_at s2 p value in
        if found then (false, s) else (true, record s3 { len = s3.len + 1 }))

-- `intsetRemove`, with `success`.
unfoldable pub intset_remove : Intset → ℤ → Bool × Intset
intset_remove s value =
    let (found, p) = intset_search s value in
    let s1 = if ltb p (s.len - 1) then intset_move_tail s (p + 1) p else s in
    let s2 = intset_resize s1 (s.len - 1) in
    if leb (width (value_encoding value)) (width s.encoding) && found
    then (true, record s2 { len = s.len - 1 })
    else (false, s)

unfoldable pub intset_find : Intset → ℤ → Bool
intset_find s value =
    leb (width (value_encoding value)) (width s.encoding) && (intset_search s value).0

-- `intsetRandom`, for a result of rand().
unfoldable pub intset_random : Intset → ℕ → ℤ
intset_random s random = get_at s (random % s.len)

-- `intsetGet`, with none for the result 0.
unfoldable pub intset_get : Intset → ℕ → Option ℤ
intset_get s p = if ltb p s.len then some (get_at s p) else none

abbrev pub intset_len : Intset → ℕ
intset_len s = s.len

-- `sizeof(intset)` is 8.
unfoldable pub intset_blob_len : Intset → ℕ
intset_blob_len s = 8 + s.len * width s.encoding % 2 ^ 32
