-- ===== src/Rdb/String/Loads.antt =====
-- redis-2.6.14/src/rdb.c: what rdbGenericLoadStringObject makes of the three forms of a string.
use galery.Prelude.{
  ℕ, zero, suc, ◌+◌, ◌^◌, ◌≤◌, ◌<◌, ◌≡◌, ◌≢◌, refl, some, List, [], ◌∷◌, ◌++◌, Bool, false, length,
  arith,
}
use galery.Prelude.Int.{ℤ}
use galery.Rio.{Rio}
use galery.Rio.Buffer.{Buffer, buffer_io, Ahead, advanced, read-ahead, Ahead-advanced}
use galery.Rdb.Len.{load_len}
use galery.Rdb.Len.Roundtrip.{encode_len, load_len-encode_len, load_len_tagged}
use galery.Rdb.Integer.{
  integer_of, load_integer, from_long_long, StringObject, raw, text, Loaded, object,
}
use galery.Rdb.Integer.Roundtrip.{Encodes, too_wide, one, two, four, text-from_long_long}
use galery.Rdb.String.{Env, load_lzf, load_plain, load_string}
use galery.Util.{ll2string}

-- LZF gives back what it compressed, and keeps to the size of the buffer that it is given.
pub record IsLossless (env : Env) : Type 0 where
  pub fits : (s : List ℕ) (n : ℕ) → length (env.lzf_compress s n) ≤ n
  pub restores :
      (s : List ℕ) (n : ℕ)
      → length (env.lzf_compress s n) ≢ 0
      → env.lzf_decompress (env.lzf_compress s n) (length s) ≡ some s

-- A load returned an object of text `s`, and left `rest` in the stream.
pub record LoadsText (got : Loaded × Rio Buffer) (s rest : List ℕ) : Type 0 where
  pub loaded : StringObject
  pub returned : got.0 ≡ object loaded
  pub same_text : text loaded ≡ s
  pub ahead : Ahead got.1 rest

module _ (env : Env) (encode : Bool) (r : Rio Buffer) (rest : List ℕ) where
  -- Loading a tagged integer of `n` bytes.
  load_tagged :
      (t : ℕ) (bs : List ℕ)
      → t ≤ 2
      → length bs ≡ 2 ^ t
      → Ahead r ((192 + t) ∷ (bs ++ rest))
      → load_string env buffer_io encode r
        ≡ (from_long_long encode (integer_of t bs), advanced (advanced r ((192 + t) ∷ [])) bs)
  load_tagged zero bs h l a =
      unfold load_string load_integer in
      ground (
        arith,
        l,
        load_len_tagged r (bs ++ rest) 0 (omega arith) a,
        read-ahead bs rest (Ahead-advanced ((192 + 0) ∷ []) (bs ++ rest) a),
      )
  load_tagged (suc zero) bs h l a =
      unfold load_string load_integer in
      ground (
        arith,
        l,
        load_len_tagged r (bs ++ rest) 1 (omega arith) a,
        read-ahead bs rest (Ahead-advanced ((192 + 1) ∷ []) (bs ++ rest) a),
      )
  load_tagged (suc (suc zero)) bs h l a =
      unfold load_string load_integer in
      ground (
        arith,
        l,
        load_len_tagged r (bs ++ rest) 2 (omega arith) a,
        read-ahead bs rest (Ahead-advanced ((192 + 2) ∷ []) (bs ++ rest) a),
      )
  load_tagged (suc (suc (suc t))) bs h l a = absurd (omega arith)

  LoadsText-tagged :
      (value : ℤ) (t : ℕ) (bs : List ℕ)
      → t ≤ 2
      → length bs ≡ 2 ^ t
      → integer_of t bs ≡ value
      → Ahead r ((192 + t) ∷ (bs ++ rest))
      → LoadsText (load_string env buffer_io encode r) (ll2string 32 value) rest
  LoadsText-tagged value t bs h l e a =
      let o = text-from_long_long encode value in
      rw (load_tagged t bs h l a, e)
        (record {
          loaded = o.0;
          returned = o.1;
          same_text = o.2;
          ahead = Ahead-advanced bs rest (Ahead-advanced ((192 + t) ∷ []) (bs ++ rest) a);
        })

  pub LoadsText-integer :
      (value : ℤ) (bs : List ℕ)
      → Encodes value bs
      → bs ≢ []
      → Ahead r (bs ++ rest)
      → LoadsText (load_string env buffer_io encode r) (ll2string 32 value) rest
  LoadsText-integer value _ too_wide ne a = absurd (ne refl)
  LoadsText-integer value _ (one x e) ne a =
      LoadsText-tagged value 0 (x ∷ []) (omega arith) refl e a
  LoadsText-integer value _ (two x y e) ne a =
      LoadsText-tagged value 1 (x ∷ y ∷ []) (omega arith) refl e a
  LoadsText-integer value _ (four x y z w e) ne a =
      LoadsText-tagged value 2 (x ∷ y ∷ z ∷ w ∷ []) (omega arith) refl e a

  load_string_plain :
      (len : ℕ)
      → (load_len buffer_io r).0 ≡ (len, false)
      → load_string env buffer_io encode r ≡ load_plain env buffer_io (load_len buffer_io r).1 len
  unfolding load_string
  load_string_plain len e = ground arith

  pub LoadsText-verbatim :
      (s : List ℕ)
      → length s < 2 ^ 31
      → Ahead r (encode_len (length s) ++ (s ++ rest))
      → LoadsText (load_string env buffer_io encode r) s rest
  LoadsText-verbatim s h a =
      let l = load_len-encode_len r (length s) (s ++ rest) (omega arith) a in
      rw (load_string_plain (length s) l.0) (after s h (load_len buffer_io r).1 l.1)
    where
      after :
          (s : List ℕ)
          → length s < 2 ^ 31
          → (q : Rio Buffer) → Ahead q (s ++ rest)
          → LoadsText (load_plain env buffer_io q (length s)) s rest
      after [] h q a =
          unfold load_plain in
          record { loaded = raw []; returned = refl; same_text = refl; ahead = a }
      after (x ∷ xs) h q a =
          let e : load_plain env buffer_io q (length (x ∷ xs))
              ≡ (object (raw (x ∷ xs)), advanced q (x ∷ xs)) =
            unfold load_plain in ground (arith, read-ahead (x ∷ xs) rest a) in
          rw e (record {
            loaded = raw (x ∷ xs);
            returned = refl;
            same_text = refl;
            ahead = Ahead-advanced (x ∷ xs) rest a;
          })

  load_lzf_lem :
      (c s : List ℕ)
      → length c < 2 ^ 31
      → length s < 2 ^ 31
      → env.lzf_decompress c (length s) ≡ some s
      → (q : Rio Buffer) → Ahead q (encode_len (length c) ++ (encode_len (length s) ++ (c ++ rest)))
      → LoadsText (load_lzf env buffer_io q) s rest
  load_lzf_lem c s hc hs d q a =
      let l =
        load_len-encode_len q (length c) (encode_len (length s) ++ (c ++ rest)) (omega arith) a in
      let m =
        load_len-encode_len (load_len buffer_io q).1 (length s) (c ++ rest) (omega arith) l.1 in
      let q2 = (load_len buffer_io (load_len buffer_io q).1).1 in
      let e : load_lzf env buffer_io q ≡ (object (raw s), advanced q2 c) =
        unfold load_lzf in ground (arith, l.0, m.0, d, read-ahead c rest m.1) in
      rw e (record {
        loaded = raw s;
        returned = refl;
        same_text = refl;
        ahead = Ahead-advanced c rest m.1;
      })

  pub LoadsText-lzf :
      (c s : List ℕ)
      → length c < 2 ^ 31
      → length s < 2 ^ 31
      → env.lzf_decompress c (length s) ≡ some s
      → Ahead r (195 ∷ (encode_len (length c) ++ (encode_len (length s) ++ (c ++ rest))))
      → LoadsText (load_string env buffer_io encode r) s rest
  LoadsText-lzf c s hc hs d a =
      let tail = encode_len (length c) ++ (encode_len (length s) ++ (c ++ rest)) in
      let t = load_len_tagged r tail 3 (omega arith) a in
      let e : load_string env buffer_io encode r ≡ load_lzf env buffer_io (advanced r (195 ∷ [])) =
        unfold load_string in ground (arith, t) in
      rw e (load_lzf_lem c s hc hs d (advanced r (195 ∷ [])) (Ahead-advanced (195 ∷ []) tail a))
