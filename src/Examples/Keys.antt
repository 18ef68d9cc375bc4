-- ===== src/Examples/Keys.antt =====
-- redis-2.6.14/src/db.c and t_string.c: a database with a counter, and a key whose time has come.
use galery.Prelude.{◌≡◌, refl, none, some, [], ◌∷◌, true, false, if◌then◌else◌, same_bytes, arith}
use galery.Prelude.Int.{pos, ◌+ℤ◌}
use galery.Rdb.Integer.{int}
use galery.Keyspace.{Key, string, Db, lookup_key_read, set_key}
use galery.Keyspace.Strings.{incr_decr, counter_of, counts, long_long_of}
use galery.Keyspace.Covered.{IsCovered, Holds, Looked, is_dropped, is_expired}
use galery.Keyspace.Lookup.{
  visible, Sets, Counts, lookup_key_read-Looked, set_key-Sets, incr_decr-Counts,
}
use galery.Keyspace.Operations.{expire_at, operate, operate-IsCovered}

abbrev pub counter : Key
counter = b'n' ∷ []

-- A counter at 41 that expires at 5000.
abbrev pub counting : Db
counting = record {
  dict = λ k. if same_bytes k counter then some (string (int (pos 41))) else none;
  expires = λ k. if same_bytes k counter then some (pos 5000) else none;
  loading = false;
  slave = false;
  aof = true;
  slaves = true;
  stat_expiredkeys = 0;
  stat_keyspace_hits = 0;
  stat_keyspace_misses = 0;
  dirty = 0;
  deleted = [];
  modified = [];
}

counting-IsCovered : IsCovered counting
unfolding IsCovered
counting-IsCovered k h = ground (arith, h)

lookup_key_read-Looked_example :
    Holds
      (λ r.
        (r.0 ≡ visible (pos 6000) counting counter)
        × (r.0 ≡ r.1.dict counter)
        × Looked (pos 6000) counting counter r.1)
      (lookup_key_read (pos 6000) counting counter)
lookup_key_read-Looked_example =
    lookup_key_read-Looked (pos 6000) counting counter counting-IsCovered

set_key-Sets_example :
    Holds
      (Sets counting counter (string (int (pos 7))))
      (set_key (pos 4000) counting counter (string (int (pos 7))))
set_key-Sets_example =
    set_key-Sets (pos 4000) counting counter (string (int (pos 7))) counting-IsCovered

seen : counter_of (λ s. none) (visible (pos 4000) counting counter) ≡ counts (pos 41)
unfolding counter_of visible is_dropped is_expired same_bytes long_long_of
seen = refl

incr_decr-Counts_example :
    Holds
      (Counts (pos 4000) counting counter (pos 41 +ℤ pos 1))
      (incr_decr (λ s. none) (pos 4000) counting counter (pos 1))
incr_decr-Counts_example =
    incr_decr-Counts (λ s. none) (pos 4000) counting counter (pos 41) (pos 1) counting-IsCovered
      seen (refl, refl) (refl, refl)

operate-IsCovered_example :
    Holds IsCovered (operate (λ s. none) (pos 6000) (expire_at counter (pos 9000)) counting)
operate-IsCovered_example =
    operate-IsCovered (λ s. none) (pos 6000) (expire_at counter (pos 9000)) counting
      counting-IsCovered
