-- ===== src/Rdb/String/Roundtrip.antt =====
-- redis-2.6.14/src/rdb.c: rdbGenericLoadStringObject after rdbSaveStringObject.
use mathlib.Core.Path.{subst}
use mathlib.Core.List.{append_assoc}
use galery.Prelude.{
  ℕ, ◌+◌, ◌^◌, ◌<◌, ◌≡◌, ap, sym, ◌∙◌, inl, inr, none, some, List, [], ◌++◌, Bool, ltb, length,
  length-append, arith, Bool-cases,
}
use galery.Prelude.Int.{ℤ, pos, pos-+ℤ-pos}
use galery.Rio.{Rio}
use galery.Rio.Buffer.{Buffer, buffer_io, init_with_buffer, Ahead, Ahead-init}
use galery.Rdb.Len.Roundtrip.{encode_len}
use galery.Rdb.Save.{return, Saves-bind, Saves-last, Saves-write_raw, Saves-save_len}
use galery.Rdb.Integer.{encode_integer, StringObject, raw, int, text}
use galery.Rdb.Integer.Roundtrip.{encode_integer-Encodes}
use galery.Rdb.String.{Env, save_long_long, save_string_object, load_string}
use galery.Rdb.String.Loads.{IsLossless, LoadsText, LoadsText-integer, LoadsText-verbatim}
use galery.Util.{ll2string}
use galery.Util.Roundtrip.{length-ll2string}
use galery.Rdb.String.Stores.{Stores, Stores-raw}

module _ (env : Env) (value : ℤ) where
  Stores-long_long : Stores env (save_long_long env buffer_io value) (ll2string 32 value)
  unfolding save_long_long
  Stores-long_long = elim (Bool-cases (ltb 0 (length (encode_integer value)))) [
    | inl h ↦ rw h (record {
      bytes = encode_integer value;
      saves = Saves-write_raw (encode_integer value);
      loads = λ encode r rest a.
          LoadsText-integer env encode r rest value (encode_integer value)
            (encode_integer-Encodes value) (ground arith) a;
    })
    | inr h ↦ rw h (record {
      bytes = encode_len (length (ll2string 32 value)) ++ ll2string 32 value;
      saves =
          Saves-bind _
            (Saves-save_len (length (ll2string 32 value))
              (omega (arith, length-ll2string 31 value)))
            (Saves-last _ (Saves-write_raw (ll2string 32 value)) (
              ap return (
                pos-+ℤ-pos _ _
                ∙ ap pos (
                    sym (
                      length-append (encode_len (length (ll2string 32 value)))
                        (ll2string 32 value))))));
      loads = λ encode r rest a.
          LoadsText-verbatim env encode r rest (ll2string 32 value)
            (omega (arith, length-ll2string 31 value))
            (rw (append_assoc (encode_len (length (ll2string 32 value))) (ll2string 32 value) rest)
              at a);
    })
  ]

module _ (env : Env) (lossless : IsLossless env) where
  Stores-object :
      (o : StringObject)
      → length (text o) + 7 < 2 ^ 31
      → Stores env (save_string_object env buffer_io o) (text o)
  unfolding save_string_object
  Stores-object (raw s) h = Stores-raw env lossless s h
  Stores-object (int v) h = Stores-long_long env v

  -- With a lossless LZF, and for a text of fewer than 2 ^ 31 - 7 bytes: what is saved to an empty
  -- buffer, whatever follows it there, loads as an object of the same text and leaves what follows;
  -- the save returned the number of bytes.
  pub load_string-save_string_object :
      (o : StringObject) (encode : Bool) (rest : List ℕ) (n : ℤ) (w : Rio Buffer)
      → length (text o) + 7 < 2 ^ 31
      → length (w.io.ptr ++ rest) < 2 ^ 64
      → save_string_object env buffer_io o (some (init_with_buffer [])) ≡ (n, some w)
      → (n ≡ pos (length w.io.ptr))
        × LoadsText
            (load_string env buffer_io encode (init_with_buffer (w.io.ptr ++ rest)))
            (text o)
            rest
  load_string-save_string_object o encode rest n w small fits e =
      let s = Stores-object o small in
      let run = s.saves.runs (init_with_buffer []) in
      let same : w ≡ s.saves.after (init_with_buffer []) = cc in
      let bytes : w.io.ptr ≡ s.bytes =
        ap (λ (v : Rio Buffer). v.io.ptr) same ∙ s.saves.appends (init_with_buffer []) in
      let count : n ≡ pos (length s.bytes) = cc in
      (
        count ∙ ap (λ l. pos (length l)) (sym bytes),
        s.loads encode (init_with_buffer (w.io.ptr ++ rest)) rest (
            subst (λ l. Ahead (init_with_buffer (w.io.ptr ++ rest)) (l ++ rest)) bytes
              (Ahead-init (w.io.ptr ++ rest) fits)),
      )

  -- With a lossless LZF, and for a text of fewer than 2 ^ 31 - 7 bytes, a save to a buffer never
  -- fails: it appends bytes and returns their number, and with a NULL stream it returns the same
  -- number.
  pub save_string_object_counts :
      (o : StringObject) (w : Rio Buffer)
      → length (text o) + 7 < 2 ^ 31
      → (bytes : List ℕ) × (w' : Rio Buffer) × (save_string_object env buffer_io o (some w)
          ≡ (pos (length bytes), some w'))
        × (w'.io.ptr ≡ w.io.ptr ++ bytes)
        × (save_string_object env buffer_io o none ≡ (pos (length bytes), none))
  save_string_object_counts o w small =
      let s = Stores-object o small in
      (s.bytes, s.saves.after w, s.saves.runs w, s.saves.appends w, s.saves.dry)
