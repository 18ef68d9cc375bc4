-- ===== src/Keyspace/Operations.antt =====
-- redis-2.6.14/src/db.c and t_string.c: no assertion of the keyspace fails.
use galery.Prelude.{
  ℕ, ◌≡◌, refl, ap, ◌∙◌, Option, none, some, List, Bool, true, not, ◌&&◌, if◌then◌else◌, same_bytes,
  same_bytes→eq, arith,
}
use galery.Prelude.Int.{ℤ, pos, leb_ℤ, ◌+ℤ◌}
use galery.Rdb.Integer.{int}
use galery.Keyspace.{
  Key, Value, string, Db, put, is_found, ◌>>=◌, db_exists, db_add, db_overwrite, db_delete,
  remove_expire, set_expire, lookup_key_read, signal_modified_key, set_key,
}
use galery.Keyspace.Strings.{
  KeyReply, number, would_overflow, ends, counts, counter_of, overflows, add_to_value, incr_decr,
  expire_generic, persist,
}
use galery.Keyspace.Covered.{IsCovered, Holds, Holds-then, Holds-step, Holds-if}
use galery.Keyspace.Lookup.{
  write_value, write_value_lem, lookup_key_read-Looked, lookup_key_write-Looked, set_key-Sets,
}

-- A use of the keyspace at a time.
pub data Operation : Type 0 where
  look_up : Key → Operation
  set_value : Key → Value → Operation
  count : Key → ℤ → Operation
  expire_at : Key → ℤ → Operation
  make_persistent : Key → Operation

unfoldable pub operate : (List ℕ → Option ℤ) → ℤ → Operation → Db → Option Db
operate parse now (look_up k) db = lookup_key_read now db k >>= λ r. some r.1
operate parse now (set_value k v) db = set_key now db k v
operate parse now (count k incr) db = incr_decr parse now db k incr >>= λ r. some r.1
operate parse now (expire_at k when) db = expire_generic now db k when >>= λ r. some r.1
operate parse now (make_persistent k) db = persist db k >>= λ r. some r.1

count-IsCovered :
    (parse : List ℕ → Option ℤ) (now : ℤ) (db : Db) (k : Key) (incr : ℤ)
    → IsCovered db
    → Holds (λ r. IsCovered r.1) (incr_decr parse now db k incr)
unfolding incr_decr add_to_value signal_modified_key write_value IsCovered
count-IsCovered parse now db k incr h = Holds-then _ _ (lookup_key_write-Looked now db k h) (λ r p.
    elim (counter_of parse r.0)
      as (λ x.
        Holds (λ r. IsCovered r.1)
          (elim x as (λ y. Option (KeyReply × Db)) [
            | ends reply ↦ some (reply, r.1)
            | counts old ↦ add_to_value r.1 k (is_found r.0) old incr
          ])) [
            | ends reply ↦ ((reply, r.1), refl, p.2.covered)
            | counts old ↦
                Holds-if (overflows old incr) _ _ (λ t. ((would_overflow, r.1), refl, p.2.covered))
                  (λ f.
                    let new = string (int (old +ℤ incr)) in
                    Holds-step _ _ (write_value r.1 k new)
                      (ap (λ x. if is_found x then db_overwrite r.1 k new else db_add r.1 k new) p.1
                        ∙ write_value_lem r.1 k new)
                      (_, refl, λ j e. ground (arith, e, p.2.covered j)))
          ])

same_key_found :
    (db : Db) (j k : Key)
    → is_found (db.dict k) ≡ true
    → same_bytes j k ≡ true
    → is_found (db.dict j) ≡ true
same_key_found db j k h e = ap (λ x. is_found (db.dict x)) (same_bytes→eq j k e) ∙ h

expire-IsCovered :
    (now : ℤ) (db : Db) (k : Key) (when : ℤ)
    → IsCovered db
    → Holds (λ r. IsCovered r.1) (expire_generic now db k when)
unfolding expire_generic signal_modified_key set_expire db_delete db_exists IsCovered
expire-IsCovered now db k when h = Holds-then _ _ (lookup_key_read-Looked now db k h) (λ r p.
    Holds-if (not (is_found r.0)) _ _ (λ t. (_, refl, p.2.covered))
      (λ f.
        let found : is_found (r.1.dict k) ≡ true = ground (arith, f, p.1) in
        Holds-if (leb_ℤ when now && not r.1.loading && not r.1.slave) _ _
          (λ t.
            Holds-if (is_found (r.1.dict k)) _ _
              (λ y. (_, refl, λ j e. ground (arith, e, p.2.covered j)))
              (λ n. absurd (ground (arith, found, n))))
          (λ t.
            Holds-step (set_expire r.1 k when) _
              (record r.1 { expires = put r.1.expires k (some when) }) (rw (set_expire, found) refl)
              (
                _,
                refl,
                λ j e. ground (arith, e, p.2.covered j, found, same_key_found r.1 j k found),
              ))))

persist-IsCovered : (db : Db) (k : Key) → IsCovered db → Holds (λ r. IsCovered r.1) (persist db k)
unfolding persist remove_expire db_exists IsCovered
persist-IsCovered db k h =
    Holds-if (not (is_found (db.dict k))) _ _ (λ t. ((number (pos 0), db), refl, h))
      (λ f.
        let found : is_found (db.dict k) ≡ true = ground (arith, f) in
        Holds-step {A = Bool × Db} (remove_expire db k) _
          (is_found (db.expires k), record db { expires = put db.expires k none })
          (rw (remove_expire, found) refl)
          (Holds-if (is_found (db.expires k)) _ _ (λ y. (_, refl, λ j e. ground (arith, e, h j)))
            (λ n. (_, refl, λ j e. ground (arith, e, h j)))))

-- Where every key with a time to expire is a key of the database, no assertion fails in any of these
-- operations at any time, on a master or a slave, loading or not, and it stays so; for every strtoll.
pub operate-IsCovered :
    (parse : List ℕ → Option ℤ) (now : ℤ) (o : Operation) (db : Db)
    → IsCovered db
    → Holds IsCovered (operate parse now o db)
unfolding operate
operate-IsCovered parse now (look_up k) db h =
    Holds-then _ _ (lookup_key_read-Looked now db k h) (λ r p. (r.1, refl, p.2.covered))
operate-IsCovered parse now (set_value k v) db h =
    let (n, q, s) = set_key-Sets now db k v h in (n, q, s.covered)
operate-IsCovered parse now (count k incr) db h =
    Holds-then _ _ (count-IsCovered parse now db k incr h) (λ r c. (r.1, refl, c))
operate-IsCovered parse now (expire_at k when) db h =
    Holds-then _ _ (expire-IsCovered now db k when h) (λ r c. (r.1, refl, c))
operate-IsCovered parse now (make_persistent k) db h =
    Holds-then _ _ (persist-IsCovered db k h) (λ r c. (r.1, refl, c))
