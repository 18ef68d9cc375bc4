-- ===== src/Rdb/Save.antt =====
-- redis-2.6.14/src/rdb.c: the way the save functions chain writes, `if ((n = f(rdb)) == -1) return -1`,
-- and what a chain leaves in a memory buffer.
use mathlib.Core.Option.{get_or}
use mathlib.Core.Path.{subst}
use mathlib.Core.List.{append_assoc, append-nil}
use galery.Prelude.Bits.{bit_or_tags}
use galery.Prelude.{
  Bool, ℕ, ◌∷◌, ◌<◌, ◌/◌, ◌%◌, ◌^◌, ◌≡◌, refl, ap, sym, ◌∙◌, Option, none, some, List, [], ◌++◌,
  true, false, arith, length, if◌then◌else◌,
}
use galery.Prelude.Int.{ℤ, pos, negsuc, eqb_ℤ}
use galery.Rio.{Rio, rio_write}
use galery.Rio.Buffer.{Buffer, buffer_io, buffer_write, init_with_buffer, Ahead, Ahead-init}
use galery.Rdb.Len.{write_raw, save_len, load_len}
use galery.Rdb.Len.Roundtrip.{encode_len, load_len-encode_len}

abbrev pub Save : Type 0 → Type 0
Save S = Option (Rio S) → ℤ × Option (Rio S)

module _ {S : Type 0} where
  abbrev pub continue : ℤ × Option (Rio S) → (ℤ → Save S) → ℤ × Option (Rio S)
  continue (n, rdb) k = if eqb_ℤ n (negsuc 0) then (negsuc 0, rdb) else k n rdb

  infixl 10 ◌>>=◌
  unfoldable pub ◌>>=◌ : Save S → (ℤ → Save S) → Save S
  ◌>>=◌ m k rdb = continue (m rdb) k

  unfoldable pub return : ℤ → Save S
  return n rdb = (n, rdb)

-- On a memory buffer the chain returns `n` and appends `bytes`; with no stream it returns `n` too.
pub record Saves (m : Save Buffer) (n : ℕ) (bytes : List ℕ) : Type 0 where
  pub after : Rio Buffer → Rio Buffer
  pub runs : (w : Rio Buffer) → m (some w) ≡ (pos n, some (after w))
  pub appends : (w : Rio Buffer) → (after w).io.ptr ≡ w.io.ptr ++ bytes
  pub dry : m none ≡ (pos n, none)

pub Saves-return : (n : ℕ) → Saves (return (pos n)) n []
unfolding return
Saves-return n = record {
  after = λ w. w;
  runs = λ w. refl;
  appends = λ w. sym (append-nil w.io.ptr);
  dry = refl;
}

module _ {m : Save Buffer} {n : ℕ} {bs : List ℕ} (k : ℤ → Save Buffer) {l : ℕ} {cs : List ℕ} where
  pub Saves-bind : Saves m n bs → Saves (k (pos n)) l cs → Saves (m >>= k) l (bs ++ cs)
  unfolding ◌>>=◌
  Saves-bind p q = record {
    after = λ w. q.after (p.after w);
    runs = λ w. ap (λ x. continue x k) (p.runs w) ∙ q.runs (p.after w);
    appends =
        λ w. q.appends (p.after w) ∙ ap (λ x. x ++ cs) (p.appends w) ∙ append_assoc w.io.ptr bs cs;
    dry = ap (λ x. continue x k) p.dry ∙ q.dry;
  }

module _ {m : Save Buffer} {n : ℕ} {bs : List ℕ} (k : ℤ → Save Buffer) {l : ℕ} where
  -- The last step returns a count.
  pub Saves-last : Saves m n bs → k (pos n) ≡ return (pos l) → Saves (m >>= k) l bs
  Saves-last p e =
      subst (Saves (m >>= k) l) (append-nil bs)
        (Saves-bind k p (subst (λ x. Saves x l []) (sym e) (Saves-return l)))

-- A branch of known test.
pub Saves-then :
    (b : Bool) (m m' : Save Buffer) {n : ℕ} {bs : List ℕ}
    → b ≡ true
    → Saves m n bs
    → Saves (if b then m else m') n bs
Saves-then b m m' e s = rw e s

pub Saves-else :
    (b : Bool) (m m' : Save Buffer) {n : ℕ} {bs : List ℕ}
    → b ≡ false
    → Saves m' n bs
    → Saves (if b then m else m') n bs
Saves-else b m m' e s = rw e s

abbrev wrote : Rio Buffer → List ℕ → Rio Buffer
wrote w buf = (rio_write buffer_io w buf).1

pub Saves-write_raw : (buf : List ℕ) → Saves (λ rdb. write_raw buffer_io rdb buf) (length buf) buf
unfolding write_raw rio_write buffer_write
Saves-write_raw buf = record {
  after = λ w. wrote w buf;
  runs = λ w. refl;
  appends = λ w. refl;
  dry = refl;
}

-- `rdbSaveLen` appends the bytes of the length, and returns their number.
module _ (len : ℕ) where
  after_len : Rio Buffer → Rio Buffer
  after_len w = get_or (save_len buffer_io (some w) len).1 w

  runs_len :
      len < 2 ^ 32
      → (w : Rio Buffer)
      → save_len buffer_io (some w) len ≡ (pos (length (encode_len len)), some (after_len w))
  unfolding save_len after_len rio_write buffer_write
  runs_len h w = ground arith

  appends_len : len < 2 ^ 32 → (w : Rio Buffer) → (after_len w).io.ptr ≡ w.io.ptr ++ encode_len len
  unfolding save_len after_len rio_write buffer_write
  appends_len h w = ground (
    arith,
    bit_or_tags len,
    bit_or_tags (len / 256),
    append_assoc w.io.ptr (128 ∷ [])
        (len / 2 ^ 24 % 256 ∷ len / 2 ^ 16 % 256 ∷ len / 2 ^ 8 % 256 ∷ len % 256 ∷ []),
  )

  dry_len : save_len buffer_io none len ≡ (pos (length (encode_len len)), none)
  unfolding save_len
  dry_len = ground arith

  pub Saves-save_len :
      len < 2 ^ 32
      → Saves (λ rdb. save_len buffer_io rdb len) (length (encode_len len)) (encode_len len)
  Saves-save_len h = record {
    after = after_len;
    runs = runs_len h;
    appends = appends_len h;
    dry = dry_len;
  }

-- The length that `rdbSaveLen` puts into an empty buffer is the one that `rdbLoadLen` reads from it,
-- whatever follows; the reader stops where the bytes end, and the saver returned their number.
pub load_len-save_len :
    (len : ℕ) (rest : List ℕ) (n : ℤ) (w : Rio Buffer)
    → len < 2 ^ 32
    → length (w.io.ptr ++ rest) < 2 ^ 64
    → save_len buffer_io (some (init_with_buffer [])) len ≡ (n, some w)
    → (n ≡ pos (length w.io.ptr))
      × ((load_len buffer_io (init_with_buffer (w.io.ptr ++ rest))).0 ≡ (len, false))
      × Ahead (load_len buffer_io (init_with_buffer (w.io.ptr ++ rest))).1 rest
load_len-save_len len rest n w small fits e =
    let s = Saves-save_len len small in
    let run = s.runs (init_with_buffer []) in
    let same : w ≡ s.after (init_with_buffer []) = cc in
    let count : n ≡ pos (length (encode_len len)) = cc in
    let bytes : w.io.ptr ≡ encode_len len =
      ap (λ (v : Rio Buffer). v.io.ptr) same ∙ s.appends (init_with_buffer []) in
    let l = load_len-encode_len (init_with_buffer (w.io.ptr ++ rest)) len rest small (
      subst (λ l. Ahead (init_with_buffer (w.io.ptr ++ rest)) (l ++ rest)) bytes
        (Ahead-init (w.io.ptr ++ rest) fits)) in
    (count ∙ ap (λ l. pos (length l)) (sym bytes), l.0, l.1)
