-- ===== src/Keyspace/Covered.antt =====
-- redis-2.6.14/src/db.c: every key with a time to expire is a key of the database.
use galery.Prelude.{
  ◌≡◌, refl, ap, ◌∙◌, ◌⊎◌, inl, inr, Option, none, some, Bool, true, false, not, ◌&&◌, ◌||◌,
  if◌then◌else◌, same_bytes, Option-cases, arith,
}
use galery.Prelude.Int.{ℤ, pos, negsuc, ltb_ℤ, leb_ℤ}
use galery.Keyspace.{
  Key, Db, is_found, ◌>>=◌, db_exists, db_delete, get_expire, propagate_expire, expire_key,
  expire_if_needed,
}

-- What the assertions of db.c rely on.
unfoldable pub IsCovered : Db → Type 0
IsCovered db = (k : Key) → is_found (db.expires k) ≡ true → is_found (db.dict k) ≡ true

-- A call whose assertions hold, with what it answers and leaves.
abbrev pub Holds : {A : Type 0} → (A → Type 0) → Option A → Type 0
Holds {A = A} P o = (a : A) × (o ≡ some a) × P a

pub Holds-then :
    {A B : Type 0} {P : A → Type 0} {Q : B → Type 0} (o : Option A) (f : A → Option B)
    → Holds P o
    → ((a : A) → P a → Holds Q (f a))
    → Holds Q (o >>= f)
Holds-then o f (a, q, p) h = let (b, r, s) = h a p in (b, ap (λ x. x >>= f) q ∙ r, s)

pub Holds-step :
    {A B : Type 0} {Q : B → Type 0} (o : Option A) (f : A → Option B) (a : A)
    → o ≡ some a
    → Holds Q (f a)
    → Holds Q (o >>= f)
Holds-step o f a q (b, r, s) = (b, ap (λ x. x >>= f) q ∙ r, s)

pub Holds-if :
    {B : Type 0} {Q : B → Type 0} (b : Bool) (x y : Option B)
    → (b ≡ true → Holds Q x)
    → (b ≡ false → Holds Q y)
    → Holds Q (if b then x else y)
Holds-if true x y h k = h refl
Holds-if false x y h k = k refl

pub get_expire-Holds :
    (db : Db) (k : Key)
    → IsCovered db
    → Holds
        (λ when. (db.expires k ≡ none) × (when ≡ negsuc 0) ⊎ (db.expires k ≡ some when))
        (get_expire db k)
unfolding IsCovered get_expire db_exists
get_expire-Holds db k h = elim (Option-cases (db.expires k)) [
  | inl n ↦ (negsuc 0, rw (get_expire, n) refl, inl (n, refl))
  | inr (t, e) ↦ (t, rw (get_expire, e, h k (ap is_found e)) refl, inr e)
]

pub db_delete-IsCovered : (db : Db) (k : Key) → IsCovered db → IsCovered (db_delete db k).1
unfolding db_delete IsCovered
db_delete-IsCovered db k h j e = ground (arith, e, h j)

-- Whether the time of a key has come.
unfoldable pub is_expired : ℤ → Db → Key → Bool
is_expired now db k = elim (db.expires k) [
  | none ↦ false
  | some when ↦ not (ltb_ℤ when (pos 0)) && not (leb_ℤ now when)
]

-- Whether the lookup of a key deletes it.
unfoldable pub is_dropped : ℤ → Db → Key → Bool
is_dropped now db k = is_expired now db k && not db.loading && not db.slave

-- What a lookup leaves of the two maps: the key is deleted where it has expired.
pub record Looked (now : ℤ) (db : Db) (k : Key) (n : Db) : Type 0 where
  pub dict :
      (j : Key) → n.dict j ≡ (if is_dropped now db k && same_bytes j k then none else db.dict j)
  pub expires :
      (j : Key)
      → n.expires j ≡ (if is_dropped now db k && same_bytes j k then none else db.expires j)
  pub covered : IsCovered n

kept :
    (now : ℤ) (db : Db) (k : Key) → IsCovered db → is_dropped now db k ≡ false → Looked now db k db
kept now db k h f = record {
  dict = λ j. ground (arith, f);
  expires = λ j. ground (arith, f);
  covered = h;
}

dropped :
    (now : ℤ) (db : Db) (k : Key)
    → IsCovered db
    → is_dropped now db k ≡ true
    → Looked now db k (expire_key db k).1
unfolding expire_key db_delete propagate_expire IsCovered
dropped now db k h t = record {
  dict = λ j. ground (arith, t);
  expires = λ j. ground (arith, t);
  covered = λ j e. ground (arith, e, h j);
}

ltb_leb : (a b : ℤ) → ltb_ℤ a b ≡ not (leb_ℤ b a)
ltb_leb a b = ground arith

expired_at :
    (now : ℤ) (db : Db) (k : Key) (when : ℤ)
    → (db.expires k ≡ none) × (when ≡ negsuc 0) ⊎ (db.expires k ≡ some when)
    → is_expired now db k ≡ (not (ltb_ℤ when (pos 0)) && not (leb_ℤ now when))
unfolding is_expired
expired_at now db k when (inl (n, w)) = rw (is_expired, n, w) refl
expired_at now db k when (inr e) = rw (is_expired, e) refl

exists_at :
    (db : Db) (k : Key) (when : ℤ)
    → IsCovered db
    → ltb_ℤ when (pos 0) ≡ false
    → (db.expires k ≡ none) × (when ≡ negsuc 0) ⊎ (db.expires k ≡ some when)
    → db_exists db k ≡ true
unfolding db_exists IsCovered
exists_at db k when h f (inl (n, w)) = absurd (ground (arith, f, ap (λ x. ltb_ℤ x (pos 0)) w))
exists_at db k when h f (inr e) = h k (ap is_found e)

pub expire_if_needed-Looked :
    (now : ℤ) (db : Db) (k : Key)
    → IsCovered db
    → Holds
        (λ r. (r.0 ≡ (is_expired now db k && not db.loading)) × Looked now db k r.1)
        (expire_if_needed now db k)
unfolding expire_if_needed is_dropped expire_key db_delete propagate_expire db_exists
expire_if_needed-Looked now db k h =
    Holds-then (get_expire db k) _ (get_expire-Holds db k h) (λ when s.
      let x = expired_at now db k when s in
      let y = ltb_leb when now in
      Holds-if (ltb_ℤ when (pos 0) || db.loading) _ _
        (λ t. ((false, db), refl, (ground (arith, x, t), kept now db k h (ground (arith, x, t)))))
        (λ f.
          Holds-if db.slave _ _
            (λ t. (
              (ltb_ℤ when now, db),
              refl,
              (ground (arith, x, y, f, t), kept now db k h (ground (arith, x, t))),
            ))
            (λ m.
              Holds-if (leb_ℤ now when) _ _
                (λ t. (
                  (false, db),
                  refl,
                  (ground (arith, x, t), kept now db k h (ground (arith, x, t))),
                ))
                (λ g. (
                  expire_key db k,
                  refl,
                  (
                    ground (arith, exists_at db k when h (ground (arith, f)) s, x, f, g),
                    dropped now db k h (ground (arith, x, f, m, g)),
                  ),
                )))))
