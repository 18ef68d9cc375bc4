-- ===== src/Adlist/Rotate.antt =====
-- redis-2.6.14/src/adlist.c: listRotate moves the last value of a linked list to the front.
use galery.Prelude.{
  ℕ, ◌+◌, ◌-◌, ◌≤◌, ◌<◌, ◌≡◌, ◌≢◌, refl, ap, inl, inr, Option, none, some, true, false, arith, ltb,
  ◌==◌, if◌then◌else◌, Bool-cases,
}
use galery.Adlist.{node, Heap, AdList, write, set_next, set_prev, list_rotate}
use galery.Adlist.Linked.{before, after, Linked}
use galery.Adlist.Insert.{set_next_lem, set_prev_lem}

-- The last of `n` entries first.
abbrev pub rotate {ℓ} : {A : Type ℓ} → ℕ → (ℕ → A) → ℕ → A
rotate n f i = if i == 0 then f (n - 1) else f (i - 1)

module _ {V : Type 0} (h : Heap V) (l : AdList) (n : ℕ) (a : ℕ → ℕ) (v : ℕ → V)
    (w : Linked h l n a v) where
  abbrev rotated : AdList
  rotated = record l { head = some (a (n - 1)); tail = some (a (n - 2)) }

  -- The heap after each of the four writes.
  h1 : Heap V
  h1 = write h (a (n - 2)) (some (node (before a (n - 2)) none (v (n - 2))))

  abbrev second : Option ℕ
  second = if n == 2 then none else some (a 1)

  h2 : Heap V
  h2 = write h1 (a 0) (some (node (some (a (n - 1))) second (v 0)))

  h3 : Heap V
  h3 = write h2 (a (n - 1)) (some (node none none (v (n - 1))))

  h4 : Heap V
  h4 = write h3 (a (n - 1)) (some (node none (some (a 0)) (v (n - 1))))

  module _ (two : 2 ≤ n) where
    step1 : set_next h (a (n - 2)) none ≡ some h1
    unfolding h1
    step1 = set_next_lem h (a (n - 2)) none _ (w.nodes (n - 2) (omega arith))

    step2 : set_prev h1 (a 0) (some (a (n - 1))) ≡ some h2
    unfolding h2
    step2 =
        set_prev_lem h1 (a 0) (some (a (n - 1))) (node none second (v 0))
          (unfold h1 write in ground (arith, w.nodes 0 (omega arith), w.distinct 0 (n - 2)))

    step3 : set_prev h2 (a (n - 1)) none ≡ some h3
    unfolding h3
    step3 = set_prev_lem h2 (a (n - 1)) none (node (some (a (n - 2))) none (v (n - 1))) (
        unfold h1 h2 write in
        ground (
          arith,
          w.nodes (n - 1) (omega arith),
          w.distinct (n - 1) (n - 2),
          w.distinct (n - 1) 0,
          ap a (let e : n - 1 - 1 ≡ n - 2 = omega arith in e),
        ))

    step4 : set_next h3 (a (n - 1)) (some (a 0)) ≡ some h4
    unfolding h4
    step4 =
        set_next_lem h3 (a (n - 1)) (some (a 0)) (node none none (v (n - 1)))
          (unfold h3 write in ground arith)

    returned : list_rotate h l ≡ some (h4, rotated)
    unfolding list_rotate
    returned =
        let c : ltb l.len 2 ≡ false = ground (arith, w.length) in
        let t : l.tail ≡ some (a (n - 1)) = ground (arith, w.tail) in
        let d : l.head ≡ some (a 0) = ground (arith, w.head) in
        let o : h (a (n - 1)) ≡ some (node (some (a (n - 2))) none (v (n - 1))) = ground (
          arith,
          w.nodes (n - 1) (omega arith),
          ap a (let e : n - 1 - 1 ≡ n - 2 = omega arith in e),
        ) in
        rw (c, t, o, step1, d, step2, step3, step4) refl

    nodes :
        (i : ℕ)
        → i < n
        → h4 (rotate n a i)
          ≡ some (node (before (rotate n a) i) (after (rotate n a) n i) (rotate n v i))
    unfolding h1 h2 h3 h4 write
    nodes i b = elim (Bool-cases (i == 0)) [
      | inl z ↦ let e : i ≡ 0 = ground arith in rw e (ground (arith, two))
      | inr z ↦ elim (Bool-cases (i == 1)) [
        | inl o ↦ let e : i ≡ 1 = ground arith in rw e (ground (arith, two, w.distinct 0 (n - 1)))
        | inr o ↦ elim (Bool-cases (i == n - 1)) [
          | inl m ↦
              let e : i ≡ n - 1 = ground arith in
              let f : n - 1 - 1 ≡ n - 2 = omega arith in
              rw (e, f) (ground (arith, two, w.distinct (n - 2) (n - 1), w.distinct (n - 2) 0))
          | inr m ↦ ground (
            arith,
            two,
            w.nodes (i - 1) (ground arith),
            w.distinct (i - 1) (n - 1),
            w.distinct (i - 1) 0,
            w.distinct (i - 1) (n - 2),
            ap a (let e : i - 1 + 1 ≡ i = ground arith in e),
          )
        ]
      ]
    ]

    linked : Linked h4 rotated n (rotate n a) (rotate n v)
    linked = record {
      nodes = nodes;
      head = ground (arith, two);
      tail = ground (arith, two, ap a (let e : n - 1 - 1 ≡ n - 2 = omega arith in e));
      length = w.length;
      distinct = λ i j b c e. ground (
        arith,
        e,
        w.distinct (n - 1) (j - 1),
        w.distinct (i - 1) (n - 1),
        w.distinct (i - 1) (j - 1),
      );
    }

  -- `listRotate` returned a heap and a list with the last value first; a list of one value or none stays.
  pub record Rotates (r : Option (Heap V × AdList)) : Type 0 where
    pub heap : Heap V
    pub list : AdList
    pub returned : r ≡ some (heap, list)
    pub linked : Linked heap list n (rotate n a) (rotate n v)
    pub elsewhere : (k : ℕ) → ((i : ℕ) → i < n → k ≢ a i) → heap k ≡ h k

  -- A list of at most one value is as it was.
  short : n < 2 → Linked h l n (rotate n a) (rotate n v)
  short c = record {
    nodes = λ i b.
        let e : i ≡ 0 = omega arith in
        let f : n ≡ 1 = omega arith in rw (e, f) (ground (arith, w.nodes 0, f));
    head = ground (arith, w.head, c);
    tail = ground (arith, w.tail, c);
    length = w.length;
    distinct = λ i j b d e. omega arith;
  }

  -- `listRotate` of a linked list does not fail: the last node comes first, the others keep their order,
  -- and no memory outside the list changes.
  pub list_rotate-Rotates : Rotates (list_rotate h l)
  unfolding list_rotate
  list_rotate-Rotates = elim (Bool-cases (ltb n 2)) [
    | inl c ↦
        let s : ltb l.len 2 ≡ true = ground (arith, w.length) in
        record {
          heap = h;
          list = l;
          returned = rw s refl;
          linked = short (ground arith);
          elsewhere = λ k o. refl;
        }
    | inr c ↦
        let two : 2 ≤ n = ground arith in
        record {
          heap = h4;
          list = rotated;
          returned = returned two;
          linked = linked two;
          elsewhere =
              λ k o. unfold h1 h2 h3 h4 write in ground (arith, o (n - 2), o 0, o (n - 1), two);
        }
  ]
