-- ===== src/Rdb/String/Stores.antt =====
-- redis-2.6.14/src/rdb.c: what rdbSaveRawString puts down in each of its three forms.
use mathlib.Core.Path.{subst}
use mathlib.Core.List.{append_assoc}
use native.Mathlib.Decide.{dec_le, ℕ_discrete}
use galery.Prelude.{
  ◌⊎◌, ℕ, ◌+◌, ◌-◌, ◌%◌, ◌^◌, ◌≤◌, ◌<◌, ◌≡◌, ◌≢◌, refl, ap, sym, ◌∙◌, inl, inr, List, [], ◌∷◌, ◌++◌,
  Bool, true, false, ◌&&◌, ltb, leb, ◌==◌, if◌then◌else◌, length, length-append, same_bytes,
  same_bytes→eq, arith, Bool-cases,
}
use galery.Prelude.Int.{ℤ, pos, ltb_ℤ, ◌+ℤ◌, pos-+ℤ-pos}
use galery.Rio.{Rio}
use galery.Rio.Buffer.{Buffer, buffer_io, Ahead}
use galery.Rdb.Len.{write_raw, save_len}
use galery.Rdb.Len.Roundtrip.{encode_len}
use galery.Rdb.Save.{
  Save, ◌>>=◌, return, Saves, Saves-return, Saves-bind, Saves-last, Saves-then, Saves-write_raw,
  Saves-save_len,
}
use galery.Rdb.Integer.{encode_integer, to_int}
use galery.Rdb.Integer.Roundtrip.{encode_integer-Encodes}
use galery.Rdb.String.{
  Env, try_integer_encoding, save_lzf, save_verbatim, save_raw_string, load_string,
}
use galery.Rdb.String.Loads.{
  IsLossless, LoadsText, LoadsText-integer, LoadsText-verbatim, LoadsText-lzf,
}
use galery.Util.{ll2string}

-- `m` puts down bytes, as many as it returns, that load as the text `s`.
pub record Stores (env : Env) (m : Save Buffer) (s : List ℕ) : Type 0 where
  pub bytes : List ℕ
  pub saves : Saves m (length bytes) bytes
  pub loads :
      (encode : Bool) (r : Rio Buffer) (rest : List ℕ)
      → Ahead r (bytes ++ rest)
      → LoadsText (load_string env buffer_io encode r) s rest

pub Saves-count :
    (len : ℕ)
    → len < 2 ^ 31
    → Saves
        (λ rdb. save_len buffer_io rdb (len % 2 ^ 32))
        (length (encode_len len))
        (encode_len len)
Saves-count len h =
    let e : len % 2 ^ 32 ≡ len = omega arith in rw e (Saves-save_len len (omega arith))

length-encode_len : (len : ℕ) → length (encode_len len) ≤ 5
length-encode_len len = ground arith

to_int-small : (n : ℕ) → n < 2 ^ 31 → to_int (pos n) ≡ pos n
unfolding to_int
to_int-small n h = ground arith

module _ (s : List ℕ) (env : Env) where
  Saves-verbatim :
      length s + 7 < 2 ^ 31
      → Saves
          (save_verbatim env buffer_io s)
          (length (encode_len (length s) ++ s))
          (encode_len (length s) ++ s)
  Saves-verbatim h = go s h
    where
      go :
          (s : List ℕ)
          → length s + 7 < 2 ^ 31
          → Saves
              (save_verbatim env buffer_io s)
              (length (encode_len (length s) ++ s))
              (encode_len (length s) ++ s)
      go [] h = unfold save_verbatim in Saves-last _ (Saves-count 0 (omega arith)) refl
      go (x ∷ xs) h =
          unfold save_verbatim in
          Saves-bind _ (Saves-count (length (x ∷ xs)) (omega arith)) (
            Saves-then (ltb 0 (length (x ∷ xs))) _ _ (ground arith) (
              Saves-last _ (Saves-write_raw (x ∷ xs)) (
                ap return (
                  ap to_int (
                    pos-+ℤ-pos _ _
                    ∙ ap pos (sym (length-append (encode_len (length (x ∷ xs))) (x ∷ xs))))
                  ∙ to_int-small _ (
                      omega (
                        arith,
                        length-append (encode_len (length (x ∷ xs))) (x ∷ xs),
                        length-encode_len (length (x ∷ xs)),
                      ))))))

abbrev pub write_raw_of : List ℕ → Save Buffer
write_raw_of buf = λ rdb. write_raw buffer_io rdb buf

-- The bytes of the LZF form.
abbrev lzf_bytes : List ℕ → List ℕ → List ℕ
lzf_bytes c s = 195 ∷ (encode_len (length c) ++ (encode_len (length s) ++ c))

module _ (env : Env) (lossless : IsLossless env) (s : List ℕ) (small : length s + 7 < 2 ^ 31) where
  Stores-verbatim : Stores env (save_verbatim env buffer_io s) s
  Stores-verbatim = record {
    bytes = encode_len (length s) ++ s;
    saves = Saves-verbatim s env small;
    loads = λ encode r rest a.
        LoadsText-verbatim env encode r rest s (omega arith)
          (rw (append_assoc (encode_len (length s)) s rest) at a);
  }

  compressed : List ℕ
  compressed = env.lzf_compress s (length s - 4)

  Saves-lzf :
      4 < length s
      → length compressed ≢ 0
      → Saves (save_lzf env buffer_io s) (length (lzf_bytes compressed s)) (lzf_bytes compressed s)
  unfolding save_lzf compressed
  Saves-lzf long some_out =
      rw (h4, h0)
        (Saves-bind _ (Saves-write_raw (195 ∷ [])) (
          Saves-bind _
            (Saves-count (length compressed) (omega (arith, lossless.fits s (length s - 4))))
            (Saves-bind _ (Saves-count (length s) (omega arith)) (
              Saves-last _ (Saves-write_raw compressed)
                (ap return (ap to_int sum ∙ to_int-small _ fits_int))))))
    where
      h4 : leb (length s) 4 ≡ false
      h4 = ground arith

      h0 : (length compressed == 0) ≡ false
      h0 = ground arith

      fits_int : length (lzf_bytes compressed s) < 2 ^ 31
      fits_int = omega (
        arith,
        length-append (encode_len (length compressed)) (encode_len (length s) ++ compressed),
        length-append (encode_len (length s)) compressed,
        length-encode_len (length compressed),
        length-encode_len (length s),
        lossless.fits s (length s - 4),
      )

      sum :
          pos 1
            +ℤ pos (length (encode_len (length compressed)))
            +ℤ pos (length (encode_len (length s)))
            +ℤ pos (length compressed)
          ≡ pos (length (lzf_bytes compressed s))
      sum = simp pos-+ℤ-pos (
          ap pos (
            omega (
              arith,
              length-append (encode_len (length compressed)) (encode_len (length s) ++ compressed),
              length-append (encode_len (length s)) compressed,
            )))

  Stores-lzf : 4 < length s → length compressed ≢ 0 → Stores env (save_lzf env buffer_io s) s
  unfolding compressed
  Stores-lzf long some_out = record {
    bytes = lzf_bytes compressed s;
    saves = Saves-lzf long some_out;
    loads = λ encode r rest a.
        LoadsText-lzf env encode r rest compressed s (omega (arith, lossless.fits s (length s - 4)))
          (omega arith) (lossless.restores s (length s - 4) some_out) (regroup rest a);
  }
    where
      regroup :
          {r : Rio Buffer} (rest : List ℕ)
          → Ahead r (lzf_bytes compressed s ++ rest)
          → Ahead r (
              195
              ∷ (encode_len (length compressed) ++ (encode_len (length s) ++ (compressed ++ rest))))
      regroup {r} rest a =
          subst (λ l. Ahead r (195 ∷ l))
            (append_assoc (encode_len (length compressed)) (encode_len (length s) ++ compressed)
                rest
              ∙ ap (λ l. encode_len (length compressed) ++ l)
                  (append_assoc (encode_len (length s)) compressed rest))
            a

  -- A text that the integer test accepts is the text of the value whose encoding is put down.
  integer_inv :
      try_integer_encoding env s ≢ []
      → (value : ℤ) × (try_integer_encoding env s ≡ encode_integer value) × (ll2string 32 value ≡ s)
  unfolding try_integer_encoding
  integer_inv ne = elim (Bool-cases (env.strtoll s).1) [
    | inl w ↦ elim (Bool-cases (same_bytes (ll2string 32 (env.strtoll s).0) s)) [
      | inl e ↦ ((env.strtoll s).0, ground arith, same_bytes→eq _ s e)
      | inr e ↦ absurd (ne (rw (w, e)))
    ]
    | inr w ↦ absurd (ne (rw w))
  ]

  Stores-integer :
      try_integer_encoding env s ≢ []
      → Stores env
          (write_raw_of (try_integer_encoding env s) >>= λ n.
            return (pos (length (try_integer_encoding env s))))
          s
  Stores-integer ne =
      let i = integer_inv ne in
      record {
        bytes = try_integer_encoding env s;
        saves = Saves-last _ (Saves-write_raw (try_integer_encoding env s)) refl;
        loads = λ encode r rest a.
            subst (λ t. LoadsText (load_string env buffer_io encode r) t rest) i.2
              (LoadsText-integer env encode r rest i.0 (try_integer_encoding env s)
                (rw i.1 (encode_integer-Encodes i.0)) ne a);
      }

  Stores-if :
      (b : Bool) (m m' : Save Buffer)
      → (b ≡ true → Stores env m s)
      → (b ≡ false → Stores env m' s)
      → Stores env (if b then m else m') s
  Stores-if true m m' p q = p refl
  Stores-if false m m' p q = q refl

  lzf_not_used :
      (length s ≤ 4) ⊎ (length compressed ≡ 0) → save_lzf env buffer_io s ≡ return (pos 0)
  unfolding save_lzf compressed
  lzf_not_used h = ground arith

  -- LZF, or the verbatim form where LZF returns 0.
  Stores-lzf_or_verbatim :
      Stores env
        (save_lzf env buffer_io s >>= λ n.
          if ltb_ℤ (pos 0) n then return n else save_verbatim env buffer_io s)
        s
  unfolding Stores-lzf
  Stores-lzf_or_verbatim = elim (dec_le (length s) 4) [
    | yes h ↦ given_up (inl h)
    | no h ↦ elim (ℕ_discrete (length compressed) 0) [
      | yes e ↦ given_up (inr e)
      | no ne ↦ record {
        bytes = lzf_bytes compressed s;
        saves = Saves-last _ (Saves-lzf (omega arith) ne) (ground arith);
        loads = (Stores-lzf (omega arith) ne).loads;
      }
    ]
  ]
    where
      given_up :
          (length s ≤ 4) ⊎ (length compressed ≡ 0)
          → Stores env
              (save_lzf env buffer_io s >>= λ n.
                if ltb_ℤ (pos 0) n then return n else save_verbatim env buffer_io s)
              s
      given_up h =
          let v = Stores-verbatim in
          rw (lzf_not_used h) (record {
            bytes = v.bytes;
            saves = Saves-bind _ (Saves-return 0) v.saves;
            loads = v.loads;
          })

  short_enc : List ℕ
  short_enc = if leb (length s) 11 then try_integer_encoding env s else []

  short_enc_inv :
      ltb 0 (length short_enc) ≡ true
      → (short_enc ≡ try_integer_encoding env s) × (try_integer_encoding env s ≢ [])
  unfolding short_enc
  short_enc_inv h = ground arith

  pub Stores-raw : Stores env (save_raw_string env buffer_io s) s
  unfolding save_raw_string short_enc
  Stores-raw =
      Stores-if (ltb 0 (length short_enc)) _ _
        (λ h. let e = short_enc_inv h in rw e.0 (Stores-integer e.1))
        (λ h.
          Stores-if (env.rdb_compression && ltb 20 (length s)) _ _ (λ k. Stores-lzf_or_verbatim)
            (λ k. Stores-verbatim))
