-- ===== src/Intset/Memory.antt =====
-- redis-2.6.14/src/intset.c: reads after writes of slots, in one width or two.
use galery.Prelude.{ℕ, zero, suc, ◌+◌, ◌-◌, ◌%◌, ◌^◌, ◌≤◌, ◌<◌, ◌≡◌, ◌⊎◌, refl, ap, ◌∙◌, arith}
use galery.Prelude.Int.{ℤ, pos, negsuc, ◌≤ℤ◌}
use galery.Intset.{Encoding, int16, int32, int64, width, Memory, byte_of, read_word, write_word}

-- The values that a slot of the encoding holds.
abbrev pub half : Encoding → ℕ
half int16 = 2 ^ 15
half int32 = 2 ^ 31
half int64 = 2 ^ 63

abbrev pub word_size : Encoding → ℕ
word_size int16 = 2 ^ 16
word_size int32 = 2 ^ 32
word_size int64 = 2 ^ 64

abbrev pub Fits : Encoding → ℤ → Type 0
Fits e v = (negsuc (half e - 1) ≤ℤ v) × (v ≤ℤ pos (half e - 1))

pub read_word-cong :
    (w : ℕ) (m n : Memory) (a b : ℕ)
    → ((i : ℕ) → i < w → m (a + i) ≡ n (b + i))
    → read_word w m a ≡ read_word w n b
unfolding read_word
read_word-cong zero m n a b h = refl
read_word-cong (suc w) m n a b h =
    let rest = read_word-cong w m n (a + 1) (b + 1) (λ i l.
      ap m (let e : a + 1 + i ≡ a + suc i = omega arith in e)
      ∙ h (suc i) (omega arith)
      ∙ ap n (let e : b + suc i ≡ b + 1 + i = omega arith in e)) in
    let first : m a ≡ n b =
      ap m (let e : a ≡ a + 0 = omega arith in e)
      ∙ h 0 (omega arith)
      ∙ ap n (let e : b + 0 ≡ b = omega arith in e) in
    omega (arith, rest, first)

pub write_word-inside :
    (w : ℕ) (mem : Memory) (a v i : ℕ) → i < w → write_word w mem a v (a + i) ≡ byte_of v i
unfolding write_word
write_word-inside w mem a v i h =
    let e : a + i - a ≡ i = omega arith in ground (arith, ap (byte_of v) e)

pub write_word-outside :
    (w : ℕ) (mem : Memory) (a v k : ℕ) → (k < a) ⊎ (a + w ≤ k) → write_word w mem a v k ≡ mem k
unfolding write_word
write_word-outside w mem a v k h = ground arith

-- A word that was written byte by byte.
read_word-bytes :
    (w : ℕ) (v : ℕ) (mem : Memory) (a : ℕ)
    → ((i : ℕ) → i < w → mem (a + i) ≡ byte_of v i)
    → read_word w mem a ≡ read_word w (byte_of v) 0
read_word-bytes w v mem a h =
    read_word-cong w mem (byte_of v) a 0 (λ i l. h i l ∙ ap (byte_of v) (omega arith))

word_bytes : (e : Encoding) (v : ℕ) → read_word (width e) (byte_of v) 0 ≡ v % word_size e
unfolding read_word byte_of
word_bytes int16 v = omega arith
word_bytes int32 v = omega arith
word_bytes int64 v = omega arith

-- The word that was written, cut to the width of the slot.
pub read_word-written :
    (e : Encoding) (mem : Memory) (a v : ℕ)
    → read_word (width e) (write_word (width e) mem a v) a ≡ v % word_size e
read_word-written e mem a v =
    read_word-bytes (width e) v _ a (write_word-inside (width e) mem a v) ∙ word_bytes e v
