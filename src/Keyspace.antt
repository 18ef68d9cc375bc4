-- ===== src/Keyspace.antt =====
-- redis-2.6.14/src/db.c: the keys of a database and their expiry. A dict is the map that it stands for, as
-- the modules of Dict show; none is a failed assertion.
pub mod Strings
pub mod Covered
pub mod Lookup
pub mod Operations
use galery.Prelude.{
  ℕ, ◌+◌, Option, none, some, List, [], ◌∷◌, ◌++◌, Bool, true, false, not, ◌&&◌, ◌||◌,
  if◌then◌else◌, same_bytes,
}
use galery.Prelude.Int.{ℤ, pos, negsuc, ltb_ℤ, leb_ℤ, ◌-ℤ◌}
use galery.Rdb.Integer.{StringObject}

abbrev pub Key : Type 0
Key = List ℕ

-- A value: a string, or an object of another type.
pub data Value : Type 0 where
  string : StringObject → Value
  other : ℕ → Value

-- `redisDb` with what the functions use of redisServer: `slave` is masterhost != NULL, `aof` that the
-- append only file is on, `slaves` that there are some. `deleted` are the DELs that are fed to the append
-- only file (true) and to the slaves (false), `modified` the keys given to signalModifiedKey.
pub record Db : Type 0 where
  pub dict : Key → Option Value
  pub expires : Key → Option ℤ
  pub loading : Bool
  pub slave : Bool
  pub aof : Bool
  pub slaves : Bool
  pub stat_expiredkeys : ℕ
  pub stat_keyspace_hits : ℕ
  pub stat_keyspace_misses : ℕ
  pub dirty : ℕ
  pub deleted : List (Bool × Key)
  pub modified : List Key

-- The map after a key is set or deleted.
abbrev pub put : {A : Type 0} → (Key → A) → Key → A → Key → A
put f k v j = if same_bytes j k then v else f j

abbrev pub is_found : {A : Type 0} → Option A → Bool
is_found none = false
is_found (some v) = true

-- A call after one whose assertions hold.
infixl 1 ◌>>=◌
abbrev pub ◌>>=◌ : {A B : Type 0} → Option A → (A → Option B) → Option B
o >>= f = elim o [ none ↦ none | some x ↦ f x ]

-- `dbExists`
unfoldable pub db_exists : Db → Key → Bool
db_exists db k = is_found (db.dict k)

-- `dbAdd`
unfoldable pub db_add : Db → Key → Value → Option Db
db_add db k v = if db_exists db k then none else some (record db { dict = put db.dict k (some v) })

-- `dbOverwrite`
unfoldable pub db_overwrite : Db → Key → Value → Option Db
db_overwrite db k v =
    if db_exists db k then some (record db { dict = put db.dict k (some v) }) else none

-- `dbDelete`
unfoldable pub db_delete : Db → Key → Bool × Db
db_delete db k =
    (db_exists db k, record db { expires = put db.expires k none; dict = put db.dict k none })

-- `removeExpire`
unfoldable pub remove_expire : Db → Key → Option (Bool × Db)
remove_expire db k =
    if db_exists db k
    then some (is_found (db.expires k), record db { expires = put db.expires k none })
    else none

-- `setExpire`
unfoldable pub set_expire : Db → Key → ℤ → Option Db
set_expire db k when =
    if db_exists db k then some (record db { expires = put db.expires k (some when) }) else none

-- `getExpire`
unfoldable pub get_expire : Db → Key → Option ℤ
get_expire db k = elim (db.expires k) [
  | none ↦ some (negsuc 0)
  | some when ↦ if db_exists db k then some when else none
]

-- `propagateExpire`
unfoldable pub propagate_expire : Db → Key → Db
propagate_expire db k = record db {
  deleted =
      db.deleted
      ++ (if db.aof then (true, k) ∷ [] else [])
      ++ (if db.slaves then (false, k) ∷ [] else []);
}

-- The deletion of an expired key.
unfoldable pub expire_key : Db → Key → Bool × Db
expire_key db k =
    db_delete (propagate_expire (record db { stat_expiredkeys = db.stat_expiredkeys + 1 }) k) k

-- `expireIfNeeded`, with the result of mstime.
unfoldable pub expire_if_needed : ℤ → Db → Key → Option (Bool × Db)
expire_if_needed now db k = elim (get_expire db k) [
  | none ↦ none
  | some when ↦
      if ltb_ℤ when (pos 0) || db.loading
      then some (false, db)
      else if db.slave
      then some (ltb_ℤ when now, db)
      else if leb_ℤ now when
      then some (false, db)
      else some (expire_key db k)
]

-- `lookupKeyWrite`; the access time of a value is not modelled.
unfoldable pub lookup_key_write : ℤ → Db → Key → Option (Option Value × Db)
lookup_key_write now db k = do r ← expire_if_needed now db k; some (r.1.dict k, r.1)

-- `lookupKeyRead`
unfoldable pub lookup_key_read : ℤ → Db → Key → Option (Option Value × Db)
lookup_key_read now db k = do
  r ← expire_if_needed now db k
  some (
    r.1.dict k,
    (if is_found (r.1.dict k)
        then record r.1 { stat_keyspace_hits = r.1.stat_keyspace_hits + 1 }
        else record r.1 { stat_keyspace_misses = r.1.stat_keyspace_misses + 1 }),
  )

-- `signalModifiedKey`
unfoldable pub signal_modified_key : Db → Key → Db
signal_modified_key db k = record db { modified = db.modified ++ k ∷ [] }

-- `setKey`
unfoldable pub set_key : ℤ → Db → Key → Value → Option Db
set_key now db k v = do
  r ← lookup_key_write now db k
  db1 ← if is_found r.0 then db_overwrite r.1 k v else db_add r.1 k v
  s ← remove_expire db1 k
  some (signal_modified_key s.1 k)
