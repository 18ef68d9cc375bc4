-- ===== src/Adlist/Delete.antt =====
-- redis-2.6.14/src/adlist.c: listDelNode on a linked list.
use galery.Prelude.{
  ℕ, ◌+◌, ◌-◌, ◌<◌, ◌≡◌, ◌≢◌, refl, inl, inr, Option, none, some, arith, ◌==◌, if◌then◌else◌,
  Bool-cases,
}
use galery.Adlist.{node, Heap, AdList, write, set_next_if, set_prev_if, list_del_node}
use galery.Adlist.Linked.{before, after, Linked, skip_at, Cuts, Cuts-Linked}
use galery.Adlist.Insert.{set_next_lem, set_prev_lem}

module _ {V : Type 0} (h : Heap V) (l : AdList) (n : ℕ) (a : ℕ → ℕ) (v : ℕ → V)
    (w : Linked h l n a v) (p : ℕ) (b : p < n) where
  -- The list after the call.
  abbrev shorter : AdList
  shorter = record {
    head = if p == 0 then after a n p else l.head;
    tail = if p + 1 == n then before a p else l.tail;
    len = l.len - 1;
  }

  -- The heap after the write to the left neighbour, and after that to the right one.
  left_heap : Heap V
  left_heap =
      if p == 0
      then h
      else write h (a (p - 1)) (some (node (before a (p - 1)) (after a n p) (v (p - 1))))

  abbrev right_heap : Heap V
  right_heap =
      if p + 1 == n
      then left_heap
      else write left_heap (a (p + 1)) (some (node (before a p) (after a n (p + 1)) (v (p + 1))))

  left_step : set_next_if h (before a p) (after a n p) ≡ some left_heap
  unfolding set_next_if left_heap
  left_step = elim (Bool-cases (p == 0)) [
    | inl z ↦ rw z refl
    | inr z ↦ rw z (set_next_lem h (a (p - 1)) (after a n p) _ (w.nodes (p - 1) (omega arith)))
  ]

  left_heap-here : left_heap (a p) ≡ some (node (before a p) (after a n p) (v p))
  unfolding write left_heap
  left_heap-here = ground (arith, w.nodes p b, w.distinct p (p - 1) b)

  left_heap-next :
      p + 1 < n
      → left_heap (a (p + 1)) ≡ some (node (before a (p + 1)) (after a n (p + 1)) (v (p + 1)))
  unfolding write left_heap
  left_heap-next c = ground (arith, w.nodes (p + 1) c, w.distinct (p + 1) (p - 1) c)

  right_step : set_prev_if left_heap (after a n p) (before a p) ≡ some right_heap
  unfolding set_prev_if
  right_step = elim (Bool-cases (p + 1 == n)) [
    | inl z ↦ rw z refl
    | inr z ↦
        rw z (set_prev_lem left_heap (a (p + 1)) (before a p) _ (left_heap-next (ground arith)))
  ]

  list_del_node-returns : list_del_node h l (a p) ≡ some (write right_heap (a p) none, shorter)
  unfolding list_del_node
  list_del_node-returns = rw (w.nodes p b, left_step, left_heap-here, right_step) (ground arith)

  cuts : Cuts h (write right_heap (a p) none) l shorter n a v p
  unfolding write left_heap
  cuts = record {
    place = b;
    left = λ i q.
        let same : i ≡ p - 1 = omega arith in
        rw same (ground (arith, w.distinct (p - 1) p, w.distinct (p - 1) (p + 1)));
    right = λ c. ground (arith, w.distinct (p + 1) p c b);
    others = λ k q o r. ground (arith, q, o (p - 1), r);
    first = refl;
    last = refl;
    count = refl;
  }

  -- The call returned a heap and a list without the node, which is free now, and no memory outside of
  -- the list has changed.
  pub record Deleted (r : Option (Heap V × AdList)) : Type 0 where
    pub heap : Heap V
    pub list : AdList
    pub returned : r ≡ some (heap, list)
    pub linked : Linked heap list (n - 1) (skip_at p a) (skip_at p v)
    pub freed : heap (a p) ≡ none
    pub elsewhere : (k : ℕ) → ((i : ℕ) → i < n → k ≢ a i) → heap k ≡ h k

  -- `listDelNode` of the node at a place of a linked list does not fail: it frees the node and no other
  -- memory, and leaves the rest linked in its order; no memory outside the list changes.
  pub list_del_node-Deleted : Deleted (list_del_node h l (a p))
  list_del_node-Deleted = record {
    heap = write right_heap (a p) none;
    list = shorter;
    returned = list_del_node-returns;
    linked = Cuts-Linked h _ l shorter n a v p w cuts;
    freed = unfold write in ground arith;
    elsewhere = λ k o. cuts.others k (o p b) (λ i e. o i (omega arith)) (λ c. o (p + 1) c);
  }
