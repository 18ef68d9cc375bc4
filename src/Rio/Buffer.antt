-- ===== src/Rio/Buffer.antt =====
-- redis-2.6.14/src/rio.c: rioBufferRead, rioBufferWrite and rioInitWithBuffer, and what a read
-- returns of bytes that were written. A size_t difference wraps at 2 ^ 64.
use galery.Prelude.{
  ℕ, zero, suc, ◌+◌, ◌-◌, ◌%◌, ◌^◌, ◌≤◌, ◌<◌, ◌≡◌, refl, sym, ◌∙◌, ap, Bool, true, Option, none,
  some, List, [], ◌∷◌, ◌++◌, arith, ltb, if◌then◌else◌, length, length-append, take, drop,
  length-drop,
}
use galery.Rio.{Backend, Rio, rio_read, checksum}

-- `io.buffer`: an sds and the position of the next read.
pub record Buffer : Type 0 where
  pub ptr : List ℕ
  pub at : ℕ

unfoldable pub buffer_write : Buffer → List ℕ → Bool × Buffer
buffer_write s buf = (true, record { ptr = s.ptr ++ buf; at = s.at + length buf })

unfoldable pub buffer_read : Buffer → ℕ → Option (List ℕ) × Buffer
buffer_read s len =
    if ltb ((length s.ptr + 2 ^ 64 - s.at) % 2 ^ 64) len
    then (none, s)
    else (some (take len (drop s.at s.ptr)), record s { at = s.at + len })

abbrev pub buffer_io : Backend Buffer
buffer_io = record { read = buffer_read; write = buffer_write }

-- `rioInitWithBuffer`
abbrev pub init_with_buffer : List ℕ → Rio Buffer
init_with_buffer s = record { io = record { ptr = s; at = 0 }; update_cksum = none; cksum = 0 }

-- The bytes that the next reads return.
pub record Ahead (r : Rio Buffer) (bytes : List ℕ) : Type 0 where
  pub left : drop r.io.at r.io.ptr ≡ bytes
  pub inside : r.io.at ≤ length r.io.ptr
  pub small : length r.io.ptr < 2 ^ 64

take-length-append : (xs ys : List ℕ) → take (length xs) (xs ++ ys) ≡ xs
take-length-append [] ys = refl
take-length-append (x ∷ xs) ys = ap (λ l. x ∷ l) (take-length-append xs ys)

drop-length-append : (xs ys : List ℕ) → drop (length xs) (xs ++ ys) ≡ ys
drop-length-append [] ys = refl
drop-length-append (x ∷ xs) ys = drop-length-append xs ys

drop-nil : (n : ℕ) → drop {A = ℕ} n [] ≡ []
drop-nil zero = refl
drop-nil (suc n) = refl

drop-add : (m n : ℕ) (xs : List ℕ) → drop (m + n) xs ≡ drop n (drop m xs)
drop-add zero n xs = ap (λ k. drop k xs) (omega arith)
drop-add (suc m) n [] = drop-nil (suc m + n) ∙ sym (drop-nil n)
drop-add (suc m) n (x ∷ xs) =
    ap (λ k. drop k (x ∷ xs)) (let e : suc m + n ≡ suc (m + n) = omega arith in e) ∙ drop-add m n xs

-- The state of the stream after a read of `n` bytes.
abbrev pub advanced : Rio Buffer → List ℕ → Rio Buffer
advanced r bs = record r {
  io = record { ptr = r.io.ptr; at = r.io.at + length bs };
  cksum = checksum r.update_cksum r.cksum bs;
}

module _ (bs rest : List ℕ) {r : Rio Buffer} (a : Ahead r (bs ++ rest)) where
  length-ahead : length bs + length rest + r.io.at ≡ length r.io.ptr
  length-ahead =
      omega (arith, length-drop r.io.at r.io.ptr, ap length a.left, length-append bs rest, a.inside)

  -- A read of as many bytes as `bs` has returns `bs`.
  pub read-ahead : rio_read buffer_io r (length bs) ≡ (some bs, advanced r bs)
  unfolding rio_read buffer_read
  read-ahead = ground (arith, length-ahead, a.left, a.small, take-length-append bs rest)

  -- And then `rest` is what the next reads return.
  pub Ahead-advanced : Ahead (advanced r bs) rest
  Ahead-advanced = record {
    left =
        drop-add r.io.at (length bs) r.io.ptr
        ∙ ap (drop (length bs)) a.left
        ∙ drop-length-append bs rest;
    inside = omega (arith, length-ahead);
    small = a.small;
  }

pub Ahead-init : (s : List ℕ) → length s < 2 ^ 64 → Ahead (init_with_buffer s) s
Ahead-init s h = record { left = refl; inside = omega arith; small = h }
