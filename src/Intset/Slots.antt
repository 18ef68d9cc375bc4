-- ===== src/Intset/Slots.antt =====
-- redis-2.6.14/src/intset.c: _intsetGetEncoded after _intsetSet and after the memmove of a tail.
use galery.Prelude.{
  ℕ, ◌+◌, ◌-◌, ◌*◌, ◌%◌, ◌^◌, ◌≤◌, ◌<◌, ◌≡◌, ◌≢◌, ◌⊎◌, ap, ◌∙◌, true, arith, if◌then◌else◌,
}
use galery.Prelude.Int.{ℤ, pos, negsuc, ltb_ℤ}
use galery.Rdb.Integer.{word64, signed16, signed32}
use galery.Intset.{
  Encoding, int16, int32, int64, width, Memory, read_word, write_word, signed64, get_encoded,
  set_encoded, move_bytes, value_encoding,
}
use galery.Intset.Memory.{Fits, read_word-cong, write_word-outside, read_word-written}

signed16_lem : (v : ℤ) → Fits int16 v → signed16 (word64 v % 2 ^ 16) ≡ v
signed16_lem (pos n) h = ground arith
signed16_lem (negsuc n) h = ground arith

signed32_lem : (v : ℤ) → Fits int32 v → signed32 (word64 v % 2 ^ 32) ≡ v
signed32_lem (pos n) h = ground arith
signed32_lem (negsuc n) h = ground arith

signed64_lem : (v : ℤ) → Fits int64 v → signed64 (word64 v % 2 ^ 64) ≡ v
signed64_lem (pos n) h = ground arith
signed64_lem (negsuc n) h = ground arith

-- A slot holds what was stored there.
pub get-set_self :
    (mem : Memory) (p : ℕ) (v : ℤ) (e : Encoding)
    → Fits e v
    → get_encoded (set_encoded mem p v e) p e ≡ v
unfolding get_encoded set_encoded
get-set_self mem p v int16 h =
    ap signed16 (read_word-written int16 mem (p * 2) (word64 v)) ∙ signed16_lem v h
get-set_self mem p v int32 h =
    ap signed32 (read_word-written int32 mem (p * 4) (word64 v)) ∙ signed32_lem v h
get-set_self mem p v int64 h =
    ap signed64 (read_word-written int64 mem (p * 8) (word64 v)) ∙ signed64_lem v h

-- The slots' addresses do not meet.
abbrev pub Apart : ℕ → Encoding → ℕ → Encoding → Type 0
Apart p e q e' = (p * width e + width e ≤ q * width e') ⊎ (q * width e' + width e' ≤ p * width e)

read_word-write_away :
    (w w' : ℕ) (mem : Memory) (a b v : ℕ)
    → (a + w ≤ b) ⊎ (b + w' ≤ a)
    → read_word w (write_word w' mem b v) a ≡ read_word w mem a
read_word-write_away w w' mem a b v h =
    read_word-cong w _ mem a a (λ i l. write_word-outside w' mem b v (a + i) (ground arith))

-- The bytes that a store leaves alone.
set_encoded-read :
    (mem : Memory) (q : ℕ) (v : ℤ) (e' : Encoding) (w a : ℕ)
    → (a + w ≤ q * width e') ⊎ (q * width e' + width e' ≤ a)
    → read_word w (set_encoded mem q v e') a ≡ read_word w mem a
unfolding set_encoded
set_encoded-read mem q v int16 w a h = read_word-write_away w 2 mem a (q * 2) (word64 v) h
set_encoded-read mem q v int32 w a h = read_word-write_away w 4 mem a (q * 4) (word64 v) h
set_encoded-read mem q v int64 w a h = read_word-write_away w 8 mem a (q * 8) (word64 v) h

-- Every slot that does not meet the stored one keeps its value.
pub get-set_away :
    (mem : Memory) (p q : ℕ) (v : ℤ) (e e' : Encoding)
    → Apart p e q e'
    → get_encoded (set_encoded mem q v e') p e ≡ get_encoded mem p e
unfolding get_encoded
get-set_away mem p q v int16 e' h = ap signed16 (set_encoded-read mem q v e' 2 (p * 2) h)
get-set_away mem p q v int32 e' h = ap signed32 (set_encoded-read mem q v e' 4 (p * 4) h)
get-set_away mem p q v int64 e' h = ap signed64 (set_encoded-read mem q v e' 8 (p * 8) h)

pub get-set_ne :
    (mem : Memory) (p q : ℕ) (v : ℤ) (e : Encoding)
    → p ≢ q
    → get_encoded (set_encoded mem q v e) p e ≡ get_encoded mem p e
get-set_ne mem p q v int16 h = get-set_away mem p q v int16 int16 (ground arith)
get-set_ne mem p q v int32 h = get-set_away mem p q v int32 int32 (ground arith)
get-set_ne mem p q v int64 h = get-set_away mem p q v int64 int64 (ground arith)

-- Slots from `to` on hold what those from `from` on held.
module _ (mem : Memory) (from to n p : ℕ) where
  moved_word :
      (w : ℕ)
      → to ≤ p
      → p < to + n
      → (k : ℕ) → (to * w + k ≡ p * w)
      → k + w ≤ n * w
      → read_word w (move_bytes mem (to * w) (from * w) (n * w)) (p * w)
        ≡ read_word w mem (from * w + k)
  unfolding move_bytes
  moved_word w l h k e b = read_word-cong w _ mem (p * w) (from * w + k) (λ i j.
      let inside : p * w + i - to * w ≡ k + i = omega arith in
      ground (
        arith,
        ap (λ x. mem (from * w + x)) inside,
        ap mem (let a : from * w + (k + i) ≡ from * w + k + i = omega arith in a),
      ))

  still_word :
      (w : ℕ)
      → (p * w + w ≤ to * w) ⊎ (to * w + n * w ≤ p * w)
      → read_word w (move_bytes mem (to * w) (from * w) (n * w)) (p * w) ≡ read_word w mem (p * w)
  unfolding move_bytes
  still_word w h = read_word-cong w _ mem (p * w) (p * w) (λ i j. ground arith)

  pub get-move_inside :
      (e : Encoding)
      → to ≤ p
      → p < to + n
      → get_encoded (move_bytes mem (to * width e) (from * width e) (n * width e)) p e
        ≡ get_encoded mem (from + (p - to)) e
  unfolding get_encoded
  get-move_inside int16 l h = ap signed16 (
      moved_word 2 l h ((p - to) * 2) (omega arith) (omega arith)
      ∙ ap (read_word 2 mem) (omega arith))
  get-move_inside int32 l h = ap signed32 (
      moved_word 4 l h ((p - to) * 4) (omega arith) (omega arith)
      ∙ ap (read_word 4 mem) (omega arith))
  get-move_inside int64 l h = ap signed64 (
      moved_word 8 l h ((p - to) * 8) (omega arith) (omega arith)
      ∙ ap (read_word 8 mem) (omega arith))

  pub get-move_outside :
      (e : Encoding)
      → (p < to) ⊎ (to + n ≤ p)
      → get_encoded (move_bytes mem (to * width e) (from * width e) (n * width e)) p e
        ≡ get_encoded mem p e
  unfolding get_encoded
  get-move_outside int16 h = ap signed16 (still_word 2 (ground arith))
  get-move_outside int32 h = ap signed32 (still_word 4 (ground arith))
  get-move_outside int64 h = ap signed64 (still_word 8 (ground arith))

-- A value needs the encoding that `_intsetValueEncoding` gives, and fits every wider one.
pub value_encoding-Fits :
    (v : ℤ) (e : Encoding) → Fits int64 v → width (value_encoding v) ≤ width e → Fits e v
unfolding value_encoding
value_encoding-Fits v int16 f h = ground arith
value_encoding-Fits v int32 f h = ground arith
value_encoding-Fits v int64 f h = f

pub Fits-wider : (v : ℤ) (e e' : Encoding) → width e ≤ width e' → Fits e v → Fits e' v
Fits-wider v int16 int16 h f = f
Fits-wider v int16 int32 h f = omega arith
Fits-wider v int16 int64 h f = omega arith
Fits-wider v int32 int16 h f = absurd (omega arith)
Fits-wider v int32 int32 h f = f
Fits-wider v int32 int64 h f = omega arith
Fits-wider v int64 int16 h f = absurd (omega arith)
Fits-wider v int64 int32 h f = absurd (omega arith)
Fits-wider v int64 int64 h f = f

-- A value that does not fit lies outside of the range of those that do.
pub value_encoding-outside :
    (v x : ℤ) (e : Encoding)
    → width e < width (value_encoding v)
    → Fits e x
    → (if ltb_ℤ v (pos 0) then ltb_ℤ v x else ltb_ℤ x v) ≡ true
unfolding value_encoding
value_encoding-outside v x int16 h f = ground arith
value_encoding-outside v x int32 h f = ground arith
value_encoding-outside v x int64 h f = absurd (ground arith)
