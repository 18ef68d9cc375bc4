-- ===== src/Adlist/Iterate.antt =====
-- redis-2.6.14/src/adlist.c: iterators, listSearchKey and listIndex on linked lists.
use galery.Prelude.{
  ℕ, zero, suc, ◌+◌, ◌-◌, ◌≤◌, ◌<◌, ◌≡◌, refl, ap, sym, ◌∙◌, inl, inr, Option, none, some, Bool,
  true, false, arith, ltb, leb, ◌==◌, if◌then◌else◌, Bool-cases,
}
use galery.Prelude.Int.{pos, negsuc}
use galery.Adlist.{
  Heap, AdList, ListIter, start_head, start_tail, list_get_iterator, list_next, search_loop,
  list_search_key, walk_next, walk_prev, list_index, list_del_node,
}
use galery.Adlist.Linked.{Linked, skip_at}
use galery.Adlist.Delete.{Deleted, list_del_node-Deleted}

-- The first place from `i` on, of `k` places, whose value passes the test.
unfoldable pub first_match : {V : Type 0} → ℕ → ℕ → (ℕ → V) → (V → Bool) → Option ℕ
first_match zero i v match = none
first_match (suc k) i v match = if match (v i) then some i else first_match k (suc i) v match

-- The iterator from the head that comes to place `i` next.
abbrev pub at_place : ℕ → (ℕ → ℕ) → ℕ → ListIter
at_place n a i = record { next = if i == n then none else some (a i); direction = start_head }

-- The iterator from the tail that has `i` places left, and comes to place i - 1 next.
abbrev pub from_tail : (ℕ → ℕ) → ℕ → ListIter
from_tail a i = record { next = if i == 0 then none else some (a (i - 1)); direction = start_tail }

module _ {V : Type 0} (h : Heap V) (l : AdList) (n : ℕ) (a : ℕ → ℕ) (v : ℕ → V)
    (w : Linked h l n a v) where
  pub list_next-place :
      (i : ℕ) → i < n → list_next h (at_place n a i) ≡ some (some (a i), at_place n a (i + 1))
  unfolding list_next
  list_next-place i b = let e : (i == n) ≡ false = ground arith in rw (e, w.nodes i b) refl

  pub list_next-end : list_next h (at_place n a n) ≡ some (none, at_place n a n)
  unfolding list_next
  list_next-end = let e : (n == n) ≡ true = ground arith in rw e refl

  pub list_next-back :
      (i : ℕ) → i < n → list_next h (from_tail a (i + 1)) ≡ some (some (a i), from_tail a i)
  unfolding list_next
  list_next-back i b =
      let e : (i + 1 == 0) ≡ false = ground arith in
      let f : i + 1 - 1 ≡ i = omega arith in rw (e, f, w.nodes i b) refl

  pub list_next-start : list_next h (from_tail a 0) ≡ some (none, from_tail a 0)
  unfolding list_next
  list_next-start = refl

  -- The node at a place.
  abbrev pub place_pointer : Option ℕ → Option ℕ
  place_pointer none = none
  place_pointer (some i) = some (a i)

  search_loop-first :
      (match : V → Bool) (k i f : ℕ)
      → i + k ≡ n
      → k < f
      → search_loop f h match (at_place n a i) ≡ some (place_pointer (first_match k i v match))
  unfolding search_loop first_match
  search_loop-first match k i zero e c = absurd (omega arith)
  search_loop-first match zero i (suc f) e c =
      let same : i ≡ n = omega arith in rw (same, list_next-end) refl
  search_loop-first match (suc k) i (suc f) e c = elim (Bool-cases (match (v i))) [
    | inl m ↦ rw (list_next-place i (omega arith), w.nodes i (omega arith), m) refl
    | inr m ↦
        let s : i + 1 ≡ suc i = omega arith in
        rw (list_next-place i (omega arith), w.nodes i (omega arith), m)
          (ap (λ j. search_loop f h match (at_place n a j)) s
            ∙ search_loop-first match k (suc i) f (omega arith) (omega arith))
  ]

  -- On a linked list `listSearchKey` ends, and returns the node of the first value that matches, and NULL
  -- if there is none.
  pub list_search_key_lem :
      (match : V → Bool)
      → list_search_key h l match ≡ some (place_pointer (first_match n 0 v match))
  unfolding list_search_key
  list_search_key_lem match =
      let start : list_get_iterator l start_head ≡ at_place n a 0 =
        unfold list_get_iterator in ground (arith, w.head) in
      rw start (search_loop-first match n 0 (l.len + 1) (omega arith) (omega (arith, w.length)))

  walk_next-place :
      (k i : ℕ)
      → i ≤ n
      → walk_next k h (if i == n then none else some (a i))
        ≡ some (if ltb (i + k) n then some (a (i + k)) else none)
  unfolding walk_next
  walk_next-place zero i b = let e : i + 0 ≡ i = omega arith in rw e (ground arith)
  walk_next-place (suc k) i b = elim (Bool-cases (i == n)) [
    | inl z ↦ let c : ltb (i + suc k) n ≡ false = ground arith in rw (z, c) refl
    | inr z ↦
        let e : i + 1 + k ≡ i + suc k = omega arith in
        rw (z, w.nodes i (ground arith)) (rw e at (walk_next-place k (i + 1) (ground arith)))
  ]

  past : (k : ℕ) → walk_prev k h none ≡ some none
  unfolding walk_prev
  past zero = refl
  past (suc k) = refl

  walk_prev-place :
      (k i : ℕ)
      → i < n
      → walk_prev k h (some (a i)) ≡ some (if leb k i then some (a (i - k)) else none)
  unfolding walk_prev
  walk_prev-place zero i b = let e : i - 0 ≡ i = omega arith in rw e (ground arith)
  walk_prev-place (suc k) i b = elim (Bool-cases (i == 0)) [
    | inl z ↦ let c : leb (suc k) i ≡ false = ground arith in rw (w.nodes i b, z, c) (past k)
    | inr z ↦
        let e : i - 1 - k ≡ i - suc k = omega arith in
        let c : leb k (i - 1) ≡ leb (suc k) i = ground arith in
        rw (w.nodes i b, z) (rw (e, c) at (walk_prev-place k (i - 1) (omega arith)))
  ]

  -- On a linked list `listIndex` returns the node at the place from the head, or for a negative index
  -- from the tail, and NULL out of range.
  pub list_index_lem :
      (i : ℕ)
      → (list_index h l (pos i) ≡ some (if ltb i n then some (a i) else none))
        × (list_index h l (negsuc i) ≡ some (if ltb i n then some (a (n - 1 - i)) else none))
  unfolding list_index
  list_index_lem i = (forward, backward)
    where
      forward : walk_next i h l.head ≡ some (if ltb i n then some (a i) else none)
      forward =
          let start : l.head ≡ (if 0 == n then none else some (a 0)) = ground (arith, w.head) in
          let e : 0 + i ≡ i = omega arith in rw start (rw e at (walk_next-place i 0 (omega arith)))

      backward : walk_prev i h l.tail ≡ some (if ltb i n then some (a (n - 1 - i)) else none)
      backward = elim (Bool-cases (n == 0)) [
        | inl z ↦
            let start : l.tail ≡ none = ground (arith, w.tail) in
            let c : ltb i n ≡ false = ground arith in rw (start, c) (past i)
        | inr z ↦
            let start : l.tail ≡ some (a (n - 1)) = ground (arith, w.tail) in
            let c : leb i (n - 1) ≡ ltb i n = ground arith in
            rw start (rw c at (walk_prev-place i (n - 1) (ground arith)))
      ]

module _ {V : Type 0} (h : Heap V) (l : AdList) (n : ℕ) (a : ℕ → ℕ) (v : ℕ → V)
    (w : Linked h l n a v) where
  ahead : (i : ℕ) → i < n → at_place n a (i + 1) ≡ at_place (n - 1) (skip_at i a) i
  ahead i b = ground arith

  back_to : (i j : ℕ) → j + 1 ≡ i → from_tail a i ≡ from_tail (skip_at i a) (j + 1)
  back_to i j e = ground arith

  -- A heap where the walks that came to place `i` go on as if its node were still there: towards
  -- the tail with the place behind it, towards the head with the place before it.
  pub record GoesOn (i : ℕ) (h' : Heap V) : Type 0 where
    pub forward :
        i + 1 < n
        → list_next h' (at_place n a (i + 1)) ≡ some (some (a (i + 1)), at_place n a (i + 2))
    pub forward_end :
        i + 1 ≡ n → list_next h' (at_place n a (i + 1)) ≡ some (none, at_place n a (i + 1))
    pub backward :
        (j : ℕ) → j + 1 ≡ i → list_next h' (from_tail a i) ≡ some (some (a j), from_tail a j)
    pub backward_end : i ≡ 0 → list_next h' (from_tail a i) ≡ some (none, from_tail a i)

  linked-GoesOn :
      (i : ℕ) (h' : Heap V) (l' : AdList)
      → i < n
      → Linked h' l' (n - 1) (skip_at i a) (skip_at i v)
      → GoesOn i h'
  linked-GoesOn i h' l' b x =
      let a' = skip_at i a in
      record {
        forward = λ c.
            ap (list_next h') (ahead i b)
            ∙ list_next-place h' l' (n - 1) a' (skip_at i v) x i (omega arith)
            ∙ (ground arith);
        forward_end = λ c.
            let e : i ≡ n - 1 = omega arith in
            ap (list_next h') (ahead i b)
            ∙ ap (λ k. list_next h' (at_place (n - 1) a' k)) e
            ∙ list_next-end h' l' (n - 1) a' (skip_at i v) x
            ∙ (ground arith);
        backward = λ j c.
            ap (list_next h') (back_to i j c)
            ∙ list_next-back h' l' (n - 1) a' (skip_at i v) x j (omega arith)
            ∙ (ground arith);
        backward_end = λ z.
            let e : from_tail a i ≡ from_tail a 0 = ap (from_tail a) z in
            ap (list_next h') e
            ∙ list_next-start h' l' (n - 1) a' (skip_at i v) x
            ∙ ap (λ f. some (none, f)) (sym e);
      }

  -- Deleting the node that listNext returned is safe while an iterator walks a linked list, in either
  -- direction: an iterator from the head that comes to place `i` returns its node and moves on
  -- to the next place, one from the tail to the place before; after the node is deleted, the next
  -- call in the new heap returns the node of that place, or NULL at the end, and moves on as before.
  pub list_next-after_delete :
      (i : ℕ) (b : i < n)
      → (list_next h (at_place n a i) ≡ some (some (a i), at_place n a (i + 1)))
        × (list_next h (from_tail a (i + 1)) ≡ some (some (a i), from_tail a i))
        × ((d : Deleted h l n a v w i b (list_del_node h l (a i))) × GoesOn i d.heap)
  list_next-after_delete i b =
      let d = list_del_node-Deleted h l n a v w i b in
      (
        list_next-place h l n a v w i b,
        list_next-back h l n a v w i b,
        (d, linked-GoesOn i d.heap d.list b d.linked),
      )
