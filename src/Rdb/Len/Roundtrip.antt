-- ===== src/Rdb/Len/Roundtrip.antt =====
-- redis-2.6.14/src/rdb.c: rdbLoadLen after rdbSaveLen.
use galery.Prelude.{
  ℕ, ◌+◌, ◌*◌, ◌/◌, ◌%◌, ◌^◌, ◌<◌, ◌≡◌, refl, List, [], ◌∷◌, ◌++◌, Bool, true, false, arith, ltb,
  if◌then◌else◌,
}
use galery.Prelude.Bits.{bit_and_tags, bit_or_byte}
use galery.Rio.{Rio}
use galery.Rio.Buffer.{Buffer, buffer_io, Ahead, advanced, read-ahead, Ahead-advanced}
use galery.Rdb.Len.{from_network, load_len}

-- The bytes that stand for a length.
abbrev pub encode_len : ℕ → List ℕ
encode_len len =
    if ltb len (2 ^ 6)
    then len ∷ []
    else if ltb len (2 ^ 14)
    then (64 + len / 256) ∷ len % 256 ∷ []
    else 128 ∷ len / 2 ^ 24 % 256 ∷ len / 2 ^ 16 % 256 ∷ len / 2 ^ 8 % 256 ∷ len % 256 ∷ []

module _ (r : Rio Buffer) (rest : List ℕ) where
  short :
      (x : ℕ)
      → x < 64
      → Ahead r (x ∷ rest)
      → load_len buffer_io r ≡ ((x, false), advanced r (x ∷ []))
  unfolding load_len
  short x h a = ground (arith, read-ahead (x ∷ []) rest a, bit_and_tags x)

  middle :
      (x y : ℕ)
      → x < 64
      → y < 256
      → Ahead r ((64 + x) ∷ y ∷ rest)
      → load_len buffer_io r
        ≡ ((x * 256 + y, false), advanced (advanced r ((64 + x) ∷ [])) (y ∷ []))
  unfolding load_len
  middle x y h k a = ground (
    arith,
    read-ahead ((64 + x) ∷ []) (y ∷ rest) a,
    read-ahead (y ∷ []) rest (Ahead-advanced ((64 + x) ∷ []) (y ∷ rest) a),
    bit_and_tags (64 + x),
    bit_or_byte x y,
  )

  long :
      (x y z w : ℕ)
      → Ahead r (128 ∷ x ∷ y ∷ z ∷ w ∷ rest)
      → load_len buffer_io r ≡ (
        (from_network (x ∷ y ∷ z ∷ w ∷ []), false),
        advanced (advanced r (128 ∷ [])) (x ∷ y ∷ z ∷ w ∷ []),
      )
  unfolding load_len
  long x y z w a = ground (
    arith,
    read-ahead (128 ∷ []) (x ∷ y ∷ z ∷ w ∷ rest) a,
    read-ahead (x ∷ y ∷ z ∷ w ∷ []) rest (Ahead-advanced (128 ∷ []) (x ∷ y ∷ z ∷ w ∷ rest) a),
  )

-- A byte with the encoding tag.
pub load_len_tagged :
    (r : Rio Buffer) (rest : List ℕ) (t : ℕ)
    → t < 64
    → Ahead r ((192 + t) ∷ rest)
    → load_len buffer_io r ≡ ((t, true), advanced r ((192 + t) ∷ []))
unfolding load_len
load_len_tagged r rest t h a =
    ground (arith, read-ahead ((192 + t) ∷ []) rest a, bit_and_tags (192 + t))

from_network-bytes :
    (len : ℕ)
    → len < 2 ^ 32
    → from_network (len / 2 ^ 24 % 256 ∷ len / 2 ^ 16 % 256 ∷ len / 2 ^ 8 % 256 ∷ len % 256 ∷ [])
      ≡ len
unfolding from_network
from_network-bytes len h = omega arith

module _ (r : Rio Buffer) (len : ℕ) (rest : List ℕ) where
  -- A stream that holds the bytes of a length below 2 ^ 32 loads as that length, and is left where
  -- the bytes end.
  pub load_len-encode_len :
      len < 2 ^ 32
      → Ahead r (encode_len len ++ rest)
      → ((load_len buffer_io r).0 ≡ (len, false)) × Ahead (load_len buffer_io r).1 rest
  load_len-encode_len h = go (ltb len (2 ^ 6)) (ltb len (2 ^ 14)) refl refl
    where
      go :
          (p q : Bool)
          → ltb len (2 ^ 6) ≡ p
          → ltb len (2 ^ 14) ≡ q
          → Ahead r (
              (if p
                then len ∷ []
                else if q
                then (64 + len / 256) ∷ len % 256 ∷ []
                else 128
                  ∷ len / 2 ^ 24 % 256
                  ∷ len / 2 ^ 16 % 256
                  ∷ len / 2 ^ 8 % 256
                  ∷ len % 256
                  ∷ [])
              ++ rest)
          → ((load_len buffer_io r).0 ≡ (len, false)) × Ahead (load_len buffer_io r).1 rest
      go true q ep eq a =
          rw (short r rest len (ground arith) a) (refl, Ahead-advanced (len ∷ []) rest a)
      go false true ep eq a =
          rw (middle r rest (len / 256) (len % 256) (ground arith) (omega arith) a) (
            ground arith,
            Ahead-advanced (len % 256 ∷ []) rest
                (Ahead-advanced ((64 + len / 256) ∷ []) (len % 256 ∷ rest) a),
          )
      go false false ep eq a =
          rw
            (long r rest (len / 2 ^ 24 % 256) (len / 2 ^ 16 % 256) (len / 2 ^ 8 % 256) (len % 256)
              a)
            (
              rw (from_network-bytes len h),
              Ahead-advanced
                  (len / 2 ^ 24 % 256 ∷ len / 2 ^ 16 % 256 ∷ len / 2 ^ 8 % 256 ∷ len % 256 ∷ [])
                  rest
                  (Ahead-advanced (128 ∷ [])
                    (len / 2 ^ 24 % 256 ∷ len / 2 ^ 16 % 256 ∷ len / 2 ^ 8 % 256 ∷ len % 256 ∷ rest)
                    a),
            )
