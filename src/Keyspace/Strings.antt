-- ===== src/Keyspace/Strings.antt =====
-- redis-2.6.14/src/t_string.c and db.c: the commands that count, and those on expiry.
use galery.Prelude.{
  ℕ, ◌+◌, ◌-◌, ◌/◌, ◌^◌, Option, none, some, List, Bool, not, ◌&&◌, ◌||◌, if◌then◌else◌,
}
use galery.Prelude.Int.{ℤ, pos, negsuc, pos_part, ltb_ℤ, leb_ℤ, eqb_ℤ, ◌+ℤ◌, ◌-ℤ◌}
use galery.Rdb.Integer.{StringObject, raw, int}
use galery.Keyspace.{
  Key, Value, string, other, Db, is_found, ◌>>=◌, db_exists, db_add, db_overwrite, db_delete,
  remove_expire, set_expire, get_expire, lookup_key_read, lookup_key_write, signal_modified_key,
}

abbrev pub llong_min_ℤ : ℤ
llong_min_ℤ = negsuc (2 ^ 63 - 1)

abbrev pub llong_max_ℤ : ℤ
llong_max_ℤ = pos (2 ^ 63 - 1)

-- What a command replies: the shared errors, or a number.
pub data KeyReply : Type 0 where
  wrong_type not_an_integer would_overflow : KeyReply
  number : ℤ → KeyReply

-- `getLongLongFromObject` of a string: strtoll accepts a text or not (`parse`).
unfoldable pub long_long_of : (List ℕ → Option ℤ) → StringObject → Option ℤ
long_long_of parse (raw s) = parse s
long_long_of parse (int v) = some v

-- The value that INCR counts from, or the reply that ends it: no key is 0.
pub data Counter : Type 0 where
  ends : KeyReply → Counter
  counts : ℤ → Counter

unfoldable pub counter_of : (List ℕ → Option ℤ) → Option Value → Counter
counter_of parse none = counts (pos 0)
counter_of parse (some (other t)) = ends wrong_type
counter_of parse (some (string o)) = elim (long_long_of parse o) [
  | none ↦ ends not_an_integer
  | some v ↦ counts v
]

-- The test of `incrDecrCommand`, with its differences of long longs.
unfoldable pub overflows : ℤ → ℤ → Bool
overflows old incr =
    ltb_ℤ incr (pos 0) && ltb_ℤ old (pos 0) && ltb_ℤ incr (llong_min_ℤ -ℤ old)
    || ltb_ℤ (pos 0) incr && ltb_ℤ (pos 0) old && ltb_ℤ (llong_max_ℤ -ℤ old) incr

-- `incrDecrCommand` with the old value, of a key that is found or not.
unfoldable pub add_to_value : Db → Key → Bool → ℤ → ℤ → Option (KeyReply × Db)
add_to_value db k found old incr =
    if overflows old incr
    then some (would_overflow, db)
    else (let new = string (int (old +ℤ incr)) in
        (if found then db_overwrite db k new else db_add db k new) >>= λ db1.
        some (number (old +ℤ incr), signal_modified_key (record db1 { dirty = db1.dirty + 1 }) k))

-- `incrDecrCommand`
unfoldable pub incr_decr : (List ℕ → Option ℤ) → ℤ → Db → Key → ℤ → Option (KeyReply × Db)
incr_decr parse now db k incr = do
  r ← lookup_key_write now db k
  elim (counter_of parse r.0) [
    | ends reply ↦ some (reply, r.1)
    | counts old ↦ add_to_value r.1 k (is_found r.0) old incr
  ]

-- `expireGenericCommand` after its argument is read, in milliseconds.
unfoldable pub expire_generic : ℤ → Db → Key → ℤ → Option (KeyReply × Db)
expire_generic now db k when = do
  r ← lookup_key_read now db k
  if not (is_found r.0)
      then some (number (pos 0), r.1)
      else if leb_ℤ when now && not r.1.loading && not r.1.slave
      then (let d = db_delete r.1 k in
          if d.0
          then some (number (pos 1), signal_modified_key (record d.1 { dirty = d.1.dirty + 1 }) k)
          else none)
      else (set_expire r.1 k when >>= λ db1.
          some (number (pos 1), signal_modified_key (record db1 { dirty = db1.dirty + 1 }) k))

-- `persistCommand`
unfoldable pub persist : Db → Key → Option (KeyReply × Db)
persist db k = if not (db_exists db k) then some (number (pos 0), db) else do
  r ← remove_expire db k
  if r.0
      then some (number (pos 1), record r.1 { dirty = r.1.dirty + 1 })
      else some (number (pos 0), r.1)

-- `ttlGenericCommand`; a negative time to live is -1.
unfoldable pub ttl_generic : ℤ → Bool → Db → Key → Option KeyReply
ttl_generic now output_ms db k = do
  expire ← get_expire db k
  let ttl = expire -ℤ now
  if eqb_ℤ expire (negsuc 0) || ltb_ℤ ttl (pos 0)
      then some (number (negsuc 0))
      else some (number (if output_ms then ttl else pos ((pos_part ttl + 500) / 1000)))
