-- ===== src/Examples/Texts.antt =====
-- redis-2.6.14/src/util.c and rdb.c: numbers and strings that are printed, saved and loaded.
use galery.Prelude.{
  ℕ, ◌≡◌, ◌^◌, ◌≤◌, ◌<◌, refl, Bool, true, false, none, some, List, [], ◌∷◌, ◌++◌, arith, length,
  replicate, ltb, ◌==◌, ◌&&◌, Bool-cases, inl, inr, Option, ap, ◌≢◌, if◌then◌else◌,
}
use galery.Prelude.Int.{ℤ, pos, negsuc}
use galery.Rio.{Backend, Rio, rio_write}
use galery.Rio.Buffer.{Buffer, buffer_io, buffer_write, init_with_buffer, Ahead}
use galery.Util.{ll2string, string2ll, read_number, read_digits, signed_value, llong_max}
use galery.Util.Roundtrip.{string2ll-ll2string, ll2string-string2ll}
use galery.Rdb.Len.{save_len, load_len, write_raw}
use galery.Rdb.Len.Errors.{first_bytes, encoded_bytes, save_len_errors}
use galery.Rdb.Save.{load_len-save_len}
use galery.Rdb.Integer.{raw, to_int}
use galery.Rdb.String.{Env, save_string_object, save_raw_string, save_lzf, load_string}
use galery.Rdb.String.Loads.{IsLossless, LoadsText}
use galery.Rdb.String.Roundtrip.{load_string-save_string_object}

string2ll-ll2string_example : string2ll (ll2string 32 (negsuc 4)) ≡ some (negsuc 4)
string2ll-ll2string_example =
    string2ll-ll2string 32 (negsuc 4) (omega arith) (let e : 4 ≤ llong_max = omega arith in e)

read_42 : string2ll (b'4' ∷ b'2' ∷ []) ≡ some (pos 42)
unfolding string2ll read_number read_digits signed_value
read_42 = refl

ll2string-string2ll_example : ll2string 32 (pos 42) ≡ b'4' ∷ b'2' ∷ []
ll2string-string2ll_example =
    ll2string-string2ll 32 (let e : 22 ≤ 32 = omega arith in e) (pos 42) (b'4' ∷ b'2' ∷ []) read_42

-- A stream whose medium is full.
abbrev full : Backend Buffer
full = record { read = λ s n. (none, s); write = λ s buf. (false, s) }

save_len_errors_example : (save_len full (some (init_with_buffer [])) 300).0 ≡ (
    if (rio_write full (init_with_buffer []) (first_bytes 300)).0
    then pos (encoded_bytes 300)
    else negsuc 0)
save_len_errors_example = save_len_errors full (init_with_buffer []) 300

-- The stream after the length 300.
abbrev length_saved : Rio Buffer
length_saved = record (init_with_buffer []) { io = record { ptr = 0x41 ∷ 0x2C ∷ []; at = 2 } }

save_300 : save_len buffer_io (some (init_with_buffer [])) 300 ≡ (pos 2, some length_saved)
unfolding save_len write_raw rio_write buffer_write
save_300 = refl

load_len-save_len_example :
    (pos 2 ≡ pos (length length_saved.io.ptr))
    × ((load_len buffer_io (init_with_buffer (length_saved.io.ptr ++ b'x' ∷ []))).0 ≡ (300, false))
    × Ahead (load_len buffer_io (init_with_buffer (length_saved.io.ptr ++ b'x' ∷ []))).1 (b'x' ∷ [])
load_len-save_len_example =
    load_len-save_len 300 (b'x' ∷ []) (pos 2) length_saved (let e : 300 < 2 ^ 32 = omega arith in e)
      (let e : 3 < 2 ^ 64 = omega arith in e) save_300

-- A compression of the texts of one byte again and again, to that byte.
all_same : ℕ → List ℕ → Bool
all_same x [] = true
all_same x (y ∷ ys) = (x == y) && all_same x ys

squeeze : List ℕ → ℕ → List ℕ
squeeze [] n = []
squeeze (x ∷ xs) n = if ltb 0 n && all_same x xs then x ∷ [] else []

stretch : List ℕ → ℕ → Option (List ℕ)
stretch (x ∷ []) n = some (replicate n x)
stretch _ n = none

replicate-all_same : (x : ℕ) (xs : List ℕ) → all_same x xs ≡ true → replicate (length xs) x ≡ xs
unfolding all_same
replicate-all_same x [] h = refl
replicate-all_same x (y ∷ ys) h = ground (arith, replicate-all_same x ys)

-- No text is a number.
abbrev plain : Env
plain = record {
  strtoll = λ s. (pos 0, false);
  lzf_compress = squeeze;
  lzf_decompress = stretch;
  rdb_compression = true;
}

squeeze-fits : (s : List ℕ) (n : ℕ) → length (squeeze s n) ≤ n
unfolding squeeze
squeeze-fits [] n = omega arith
squeeze-fits (x ∷ xs) n = ground arith

stretch-squeeze :
    (s : List ℕ) (n : ℕ) → length (squeeze s n) ≢ 0 → stretch (squeeze s n) (length s) ≡ some s
unfolding squeeze stretch
stretch-squeeze [] n h = absurd (h refl)
stretch-squeeze (x ∷ xs) n h = elim (Bool-cases (ltb 0 n && all_same x xs)) [
  | inl t ↦ rw t (ap (λ l. some (x ∷ l)) (replicate-all_same x xs (ground (arith, t))))
  | inr f ↦ absurd (h (rw f refl))
]

plain-IsLossless : IsLossless plain
plain-IsLossless = record { fits = squeeze-fits; restores = stretch-squeeze }

-- A text of 21 bytes, the shortest that is compressed.
abbrev many : List ℕ
many = replicate 21 b'a'

abbrev hi : List ℕ
hi = b'h' ∷ b'i' ∷ []

abbrev many_saved : Rio Buffer
many_saved = record (init_with_buffer []) { io = record { ptr = 195 ∷ 1 ∷ 21 ∷ b'a' ∷ []; at = 4 } }

save_many :
    save_string_object plain buffer_io (raw many) (some (init_with_buffer []))
    ≡ (pos 4, some many_saved)
unfolding save_string_object save_raw_string save_lzf save_len write_raw rio_write buffer_write
    squeeze all_same to_int galery.Rdb.Save.◌>>=◌ galery.Rdb.Save.return galery.Prelude.Int.◌+ℤ◌
save_many = refl

load_string-save_string_object_example :
    (pos 4 ≡ pos (length many_saved.io.ptr))
    × LoadsText
        (load_string plain buffer_io true (init_with_buffer (many_saved.io.ptr ++ hi)))
        many
        hi
load_string-save_string_object_example =
    load_string-save_string_object plain plain-IsLossless (raw many) true hi (pos 4) many_saved
      (let e : 28 < 2 ^ 31 = omega arith in e) (let e : 6 < 2 ^ 64 = omega arith in e) save_many
