-- ===== src/Dict/Types.antt =====
-- redis-2.6.14/src/dict.c and redis.c: the hash functions, and the type of a database's dict. The
-- argument `seed` is dict_hash_function_seed; a word of four bytes is read as on a little-endian machine.
use Prim.Native.Nat.{bit_xor}
use galery.Prelude.{
  ℕ, ◌+◌, ◌*◌, ◌/◌, ◌%◌, ◌^◌, ◌≡◌, refl, ap, ◌∙◌, List, [], ◌∷◌, arith, leb, ◌&&◌, if◌then◌else◌,
  map, length, same_bytes, same_bytes→eq, same_bytes_refl,
}
use galery.Dict.Chain.{DictType, IsLawful}

abbrev pub mix_constant : ℕ
mix_constant = 0x5bd1e995

-- One turn of the loop of MurmurHash2, on the word `w`.
unfoldable pub mix_word : ℕ → ℕ → ℕ
mix_word h w =
    let k = w * mix_constant % 2 ^ 32 in
    let k' = bit_xor k (k / 2 ^ 24) * mix_constant % 2 ^ 32 in
    bit_xor (h * mix_constant % 2 ^ 32) k'

-- The loop over the words, and the switch on the bytes that are left.
unfoldable pub mix_bytes : ℕ → List ℕ → ℕ
mix_bytes h [] = h
mix_bytes h (b0 ∷ []) = bit_xor h b0 * mix_constant % 2 ^ 32
mix_bytes h (b0 ∷ b1 ∷ []) = bit_xor (bit_xor h (b1 * 2 ^ 8)) b0 * mix_constant % 2 ^ 32
mix_bytes h (b0 ∷ b1 ∷ b2 ∷ []) =
    bit_xor (bit_xor (bit_xor h (b2 * 2 ^ 16)) (b1 * 2 ^ 8)) b0 * mix_constant % 2 ^ 32
mix_bytes h (b0 ∷ b1 ∷ b2 ∷ b3 ∷ bs) =
    mix_bytes (mix_word h (b0 + b1 * 2 ^ 8 + b2 * 2 ^ 16 + b3 * 2 ^ 24)) bs

-- `dictGenHashFunction`
unfoldable pub gen_hash : ℕ → List ℕ → ℕ
gen_hash seed key =
    let h = mix_bytes (bit_xor seed (length key)) key in
    let h' = bit_xor h (h / 2 ^ 13) * mix_constant % 2 ^ 32 in bit_xor h' (h' / 2 ^ 15)

-- `tolower` on ASCII.
abbrev pub to_lower : ℕ → ℕ
to_lower ch = if leb b'A' ch && leb ch b'Z' then ch + 32 else ch

-- `dictGenCaseHashFunction`, from the hash so far.
unfoldable pub gen_case_hash : ℕ → List ℕ → ℕ
gen_case_hash hash [] = hash
gen_case_hash hash (ch ∷ chs) =
    gen_case_hash ((hash * 2 ^ 5 % 2 ^ 32 + hash + to_lower ch) % 2 ^ 32) chs

-- `dbDictType`: dictSdsHash and dictSdsKeyCompare.
abbrev pub db_dict_type : ℕ → DictType (List ℕ)
db_dict_type seed = record { hash_function = gen_hash seed; key_compare = same_bytes }

same_bytes_sym : (a b : List ℕ) → same_bytes a b ≡ same_bytes b a
unfolding same_bytes
same_bytes_sym [] [] = refl
same_bytes_sym [] (y ∷ b) = refl
same_bytes_sym (x ∷ a) [] = refl
same_bytes_sym (x ∷ a) (y ∷ b) = ground (arith, same_bytes_sym a b)

-- The dict of a database has what the theorems on dicts assume: for every seed, keys that compare equal
-- are interchangeable and have one hash.
pub db_dict_type-IsLawful : (seed : ℕ) → IsLawful (db_dict_type seed)
db_dict_type-IsLawful seed = record {
  compare_refl = same_bytes_refl;
  compare_cong = λ a b c h. ap (same_bytes c) (same_bytes→eq a b h);
  compare_sym = same_bytes_sym;
  hash_cong = λ a b h. ap (gen_hash seed) (same_bytes→eq a b h);
}

-- Two texts that differ only in the case of letters have one hash by `dictGenCaseHashFunction`.
pub gen_case_hash_lem :
    (a b : List ℕ) (hash : ℕ)
    → map to_lower a ≡ map to_lower b
    → gen_case_hash hash a ≡ gen_case_hash hash b
unfolding gen_case_hash
gen_case_hash_lem [] [] hash e = refl
gen_case_hash_lem [] (y ∷ b) hash e = cc
gen_case_hash_lem (x ∷ a) [] hash e = cc
gen_case_hash_lem (x ∷ a) (y ∷ b) hash e =
    let same : to_lower x ≡ to_lower y = cc in
    let rest : map to_lower a ≡ map to_lower b = cc in
    ap (λ ch. gen_case_hash ((hash * 2 ^ 5 % 2 ^ 32 + hash + ch) % 2 ^ 32) a) same
    ∙ gen_case_hash_lem a b _ rest
