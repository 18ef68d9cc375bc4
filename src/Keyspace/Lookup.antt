-- ===== src/Keyspace/Lookup.antt =====
-- redis-2.6.14/src/db.c and t_string.c: what lookups, SET and the commands that count leave in a database.
use galery.Prelude.{
  ℕ, ◌≡◌, refl, sym, ap, subst, ◌∙◌, Option, none, some, List, Bool, true, false, not, ◌&&◌,
  if◌then◌else◌, same_bytes, same_bytes_refl, arith,
}
use galery.Prelude.Int.{ℤ, leb_ℤ, ◌+ℤ◌, ◌-ℤ◌}
use galery.Rdb.Integer.{int}
use galery.Keyspace.{
  Key, Value, string, Db, put, is_found, db_exists, db_add, db_overwrite, remove_expire,
  lookup_key_read, lookup_key_write, signal_modified_key, set_key,
}
use galery.Keyspace.Strings.{
  KeyReply, number, would_overflow, ends, counts, counter_of, overflows, add_to_value, incr_decr,
  llong_min_ℤ, llong_max_ℤ,
}
use galery.Keyspace.Covered.{
  IsCovered, Holds, Holds-then, Holds-step, Holds-if, is_dropped, Looked, expire_if_needed-Looked,
}

-- The value that a client sees under a key: none where it has expired.
unfoldable pub visible : ℤ → Db → Key → Option Value
visible now db k = if is_dropped now db k then none else db.dict k

pub lookup_key_write-Looked :
    (now : ℤ) (db : Db) (k : Key)
    → IsCovered db
    → Holds
        (λ r. (r.0 ≡ visible now db k) × (r.0 ≡ r.1.dict k) × Looked now db k r.1)
        (lookup_key_write now db k)
unfolding lookup_key_write visible
lookup_key_write-Looked now db k h =
    Holds-then _ _ (expire_if_needed-Looked now db k h)
      (λ r p. ((r.1.dict k, r.1), refl, (ground (arith, p.1.dict k, same_bytes_refl k), refl, p.1)))

-- Where every key with a time to expire is a key of the database, the lookup of a key for reading
-- returns: what a client sees of it, none where its time has come on a master that is not loading,
-- and then the key is deleted with its time; every other key, and the key else, stays as it is.
pub lookup_key_read-Looked :
    (now : ℤ) (db : Db) (k : Key)
    → IsCovered db
    → Holds
        (λ r. (r.0 ≡ visible now db k) × (r.0 ≡ r.1.dict k) × Looked now db k r.1)
        (lookup_key_read now db k)
unfolding lookup_key_read visible IsCovered
lookup_key_read-Looked now db k h = Holds-then _ _ (expire_if_needed-Looked now db k h) (λ r p. (
  _,
  refl,
  (
    ground (arith, p.1.dict k, same_bytes_refl k),
    ground arith,
    record {
      dict = λ j. ground (arith, p.1.dict j);
      expires = λ j. ground (arith, p.1.expires j);
      covered = λ j e. ground (arith, e, p.1.covered j);
    },
  ),
))

-- A write of a value, by dbAdd or by dbOverwrite.
unfoldable pub write_value : Db → Key → Value → Db
write_value db k v = record db { dict = put db.dict k (some v) }

pub write_value_lem :
    (db : Db) (k : Key) (v : Value)
    → (if is_found (db.dict k) then db_overwrite db k v else db_add db k v)
      ≡ some (write_value db k v)
unfolding db_overwrite db_add db_exists write_value
write_value_lem db k v = ground arith

-- SET leaves the key with the value and with no time to expire, and the other keys as they are.
pub record Sets (db : Db) (k : Key) (v : Value) (n : Db) : Type 0 where
  pub dict : (j : Key) → n.dict j ≡ (if same_bytes j k then some v else db.dict j)
  pub expires : (j : Key) → n.expires j ≡ (if same_bytes j k then none else db.expires j)
  pub covered : IsCovered n

-- Where every key with a time to expire is a key of the database, setKey returns and leaves the key
-- with the value and with no time to expire, and every other key as it is.
pub set_key-Sets :
    (now : ℤ) (db : Db) (k : Key) (v : Value)
    → IsCovered db
    → Holds (Sets db k v) (set_key now db k v)
unfolding set_key write_value remove_expire db_exists signal_modified_key IsCovered
set_key-Sets now db k v h = Holds-then _ _ (lookup_key_write-Looked now db k h) (λ r p.
    let n = write_value r.1 k v in
    let w : (if is_found r.0 then db_overwrite r.1 k v else db_add r.1 k v) ≡ some n =
      ap (λ o. if is_found o then db_overwrite r.1 k v else db_add r.1 k v) p.1
      ∙ write_value_lem r.1 k v in
    let c : db_exists n k ≡ true = ground (arith, same_bytes_refl k) in
    Holds-step _ _ n w (
      Holds-step {A = Bool × Db} (remove_expire n k) _
        (is_found (n.expires k), record n { expires = put n.expires k none })
        (rw (remove_expire, c) refl)
        (
          signal_modified_key (record n { expires = put n.expires k none }) k,
          refl,
          record {
            dict = λ j. ground (arith, p.2.dict j);
            expires = λ j. ground (arith, p.2.expires j);
            covered = λ j e. ground (arith, e, p.2.covered j);
          },
        )))

-- A long long.
abbrev pub InRange : ℤ → Type 0
InRange v = (leb_ℤ llong_min_ℤ v ≡ true) × (leb_ℤ v llong_max_ℤ ≡ true)

overflows_lem :
    (old incr : ℤ)
    → InRange old
    → InRange incr
    → overflows old incr ≡ not (leb_ℤ llong_min_ℤ (old +ℤ incr) && leb_ℤ (old +ℤ incr) llong_max_ℤ)
unfolding overflows ◌+ℤ◌ ◌-ℤ◌
overflows_lem old incr a b = ground arith

-- Whether a count stays a long long.
abbrev pub fits : ℤ → Bool
fits v = leb_ℤ llong_min_ℤ v && leb_ℤ v llong_max_ℤ

-- What INCR of a number leaves: the sum and the reply with it where it is a long long; else the error and
-- the value as it is. The time to expire and the other keys stay.
pub record Counts (now : ℤ) (db : Db) (k : Key) (sum : ℤ) (r : KeyReply × Db) : Type 0 where
  pub reply : r.0 ≡ (if fits sum then number sum else would_overflow)
  pub value : r.1.dict k ≡ (if fits sum then some (string (int sum)) else visible now db k)
  pub others : (j : Key) → same_bytes j k ≡ false → r.1.dict j ≡ db.dict j
  pub expires :
      (j : Key)
      → r.1.expires j ≡ (if is_dropped now db k && same_bytes j k then none else db.expires j)
  pub covered : IsCovered r.1

add_to_value-Counts :
    (now : ℤ) (db n : Db) (k : Key) (o : Option Value) (old incr : ℤ)
    → o ≡ visible now db k
    → o ≡ n.dict k
    → Looked now db k n
    → InRange old
    → InRange incr
    → Holds (Counts now db k (old +ℤ incr)) (add_to_value n k (is_found o) old incr)
unfolding add_to_value signal_modified_key write_value IsCovered
add_to_value-Counts now db n k o old incr v q l a b =
    let over = overflows_lem old incr a b in
    let new = string (int (old +ℤ incr)) in
    Holds-if (overflows old incr) _ _
      (λ t. (
        (would_overflow, n),
        refl,
        record {
          reply = ground (arith, over, t);
          value = ground (arith, over, t, v, q);
          others = λ j f. ground (arith, l.dict j, f);
          expires = l.expires;
          covered = l.covered;
        },
      ))
      (λ f.
        Holds-step _ _ (write_value n k new)
          (ap (λ x. if is_found x then db_overwrite n k new else db_add n k new) q
            ∙ write_value_lem n k new)
          (
            _,
            refl,
            record {
              reply = ground (arith, over, f);
              value = ground (arith, over, f, same_bytes_refl k);
              others = λ j g. ground (arith, l.dict j, g);
              expires = l.expires;
              covered = λ j e. ground (arith, e, l.covered j);
            },
          ))

-- Where every key with a time to expire is a key of the database and a client sees a long long
-- under the key, or no key, for 0: INCR by a long long returns. Where the sum is a long long it
-- replies with it and stores it, else it replies with the error and leaves what the client sees;
-- the other keys and the time to expire stay.
pub incr_decr-Counts :
    (parse : List ℕ → Option ℤ) (now : ℤ) (db : Db) (k : Key) (old incr : ℤ)
    → IsCovered db
    → counter_of parse (visible now db k) ≡ counts old
    → InRange old
    → InRange incr
    → Holds (Counts now db k (old +ℤ incr)) (incr_decr parse now db k incr)
unfolding incr_decr
incr_decr-Counts parse now db k old incr h c a b =
    Holds-then _ _ (lookup_key_write-Looked now db k h) (λ r p.
      subst
        (λ x. Holds (Counts now db k (old +ℤ incr)) (elim x as (λ y. Option (KeyReply × Db)) [
          | ends reply ↦ some (reply, r.1)
          | counts old ↦ add_to_value r.1 k (is_found r.0) old incr
        ]))
        (sym (ap (counter_of parse) p.0 ∙ c))
        (add_to_value-Counts now db r.1 k r.0 old incr p.0 p.1 p.2 a b))
