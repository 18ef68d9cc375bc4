-- ===== src/Rio.antt =====
-- redis-2.6.14/src/rio.h and rio.c: streams as a pair of functions over a backend's state, with the
-- checksum that both directions update, and the backend over a memory buffer.
pub mod Buffer
use galery.Prelude.{ℕ, Bool, true, false, Option, none, some, List}

-- The function pointers of `struct _rio`. A read returns the bytes, or none for the result 0.
pub record Backend (S : Type 0) : Type 0 where
  pub read : S → ℕ → Option (List ℕ) × S
  pub write : S → List ℕ → Bool × S

-- `rio`: the backend's state, `update_cksum` (none for NULL) and `cksum`.
pub record Rio (S : Type 0) : Type 0 where
  pub io : S
  pub update_cksum : Option (ℕ → List ℕ → ℕ)
  pub cksum : ℕ

abbrev pub checksum : Option (ℕ → List ℕ → ℕ) → ℕ → List ℕ → ℕ
checksum none sum buf = sum
checksum (some f) sum buf = f sum buf

module _ {S : Type 0} (b : Backend S) where
  -- `rioWrite`: the checksum takes the bytes in also when the backend then fails.
  unfoldable pub rio_write : Rio S → List ℕ → Bool × Rio S
  rio_write r buf =
      let (okay, s) = b.write r.io buf in
      (okay, record r { io = s; cksum = checksum r.update_cksum r.cksum buf })

  -- `rioRead`: the checksum takes in what was read.
  unfoldable pub rio_read : Rio S → ℕ → Option (List ℕ) × Rio S
  rio_read r len =
      let (got, s) = b.read r.io len in
      elim got [
        | none ↦ (none, record r { io = s })
        | some buf ↦ (some buf, record r { io = s; cksum = checksum r.update_cksum r.cksum buf })
      ]
