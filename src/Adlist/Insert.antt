-- ===== src/Adlist/Insert.antt =====
-- redis-2.6.14/src/adlist.c: listAddNodeHead, listAddNodeTail and listInsertNode on linked lists.
use galery.Prelude.{
  ℕ, ◌+◌, ◌-◌, ◌≤◌, ◌<◌, ◌≡◌, ◌≢◌, refl, ap, ◌∙◌, inl, inr, Option, none, some, Bool, true, false,
  arith, ◌==◌, if◌then◌else◌, Bool-cases,
}
use galery.Adlist.{
  Node, node, Heap, AdList, write, set_next, set_prev, set_next_if, set_prev_if, ◌>>=◌,
  list_add_node_head, list_add_node_tail, list_insert_node, same_pointer,
}
use galery.Adlist.Linked.{before, after, Linked, insert_at, Joins, Splices-Linked}

bind_assoc :
    {A B C : Type 0} (m : Option A) (f : A → Option B) (g : B → Option C)
    → (m >>= λ x. f x >>= g) ≡ ((m >>= f) >>= g)
bind_assoc none f g = refl
bind_assoc (some x) f g = refl

module _ {V : Type 0} where
  pub set_next_lem :
      (h : Heap V) (p : ℕ) (q : Option ℕ) (n : Node V)
      → h p ≡ some n
      → set_next h p q ≡ some (write h p (some (record n { next = q })))
  unfolding set_next
  set_next_lem h p q n e = rw e refl

  pub set_prev_lem :
      (h : Heap V) (p : ℕ) (q : Option ℕ) (n : Node V)
      → h p ≡ some n
      → set_prev h p q ≡ some (write h p (some (record n { prev = q })))
  unfolding set_prev
  set_prev_lem h p q n e = rw e refl

module _ {V : Type 0} (h : Heap V) (l : AdList) (n : ℕ) (a : ℕ → ℕ) (v : ℕ → V) (fresh : ℕ) (x : V)
    (w : Linked h l n a v) (unused : h fresh ≡ none) where
  pub new : (i : ℕ) → i < n → a i ≢ fresh
  new i b e = cc (w.nodes i b, ap h e, unused)

  -- The writes to the heap that all three functions do, at place `p`.
  abbrev here : ℕ → Option ℕ
  here p = if p == n then none else some (a p)

  join : ℕ → Option (Heap V)
  join p =
      set_next_if (write h fresh (some (node (before a p) (here p) x))) (before a p) (some fresh)
      >>= λ h1. set_prev_if h1 (here p) (some fresh)

  -- The heap with the new node, and with the neighbours' pointers to it.
  abbrev first_write : ℕ → Heap V
  first_write p = write h fresh (some (node (before a p) (here p) x))

  abbrev left_node : ℕ → Node V
  left_node p = node (before a (p - 1)) (some fresh) (v (p - 1))

  abbrev right_node : ℕ → Node V
  right_node p = node (some fresh) (after a n p) (v p)

  -- A node of the list is still in a heap that differs at other addresses.
  still : (p i : ℕ) → i < n → first_write p (a i) ≡ some (node (before a i) (after a n i) (v i))
  unfolding write
  still p i b = ground (arith, new i b, w.nodes i b)

  left_write :
      (p : ℕ)
      → 0 < p
      → p ≤ n
      → set_next (first_write p) (a (p - 1)) (some fresh)
        ≡ some (write (first_write p) (a (p - 1)) (some (left_node p)))
  left_write p z b =
      set_next_lem (first_write p) (a (p - 1)) (some fresh) _ (still p (p - 1) (omega arith))

  right_write :
      (p : ℕ)
      → p < n
      → set_prev (first_write p) (a p) (some fresh)
        ≡ some (write (first_write p) (a p) (some (right_node p)))
  right_write p b = set_prev_lem (first_write p) (a p) (some fresh) _ (still p p b)

  both_write :
      (p : ℕ)
      → 0 < p
      → p < n
      → set_prev (write (first_write p) (a (p - 1)) (some (left_node p))) (a p) (some fresh)
        ≡ some (
            write
              (write (first_write p) (a (p - 1)) (some (left_node p)))
              (a p)
              (some (right_node p)))
  both_write p z b =
      set_prev_lem _ (a p) (some fresh) (node (before a p) (after a n p) (v p))
        (unfold write in ground (arith, new p b, w.nodes p b, w.distinct p (p - 1) b))

  join-Joins : (p : ℕ) → p ≤ n → (h2 : Heap V) × (join p ≡ some h2) × Joins h h2 n a v p fresh x
  unfolding join set_next_if set_prev_if
  join-Joins p b = elim (Bool-cases (p == 0)) [
    | inl z ↦ elim (Bool-cases (p == n)) [
      | inl e ↦ (
        first_write p,
        rw (z, e) refl,
        unfold write in
            record {
              between = ground arith;
              left = λ i q. absurd (ground arith);
              right = λ q. absurd (ground arith);
              others = λ k q o r. ground (arith, q);
            },
      )
      | inr e ↦ (
        write (first_write p) (a p) (some (right_node p)),
        rw (z, e) (rw (z, e) at (right_write p (ground arith))),
        unfold write in
            record {
              between = ground (arith, new p);
              left = λ i q. absurd (ground arith);
              right = λ q. ground arith;
              others = λ k q o r. ground (arith, q, r);
            },
      )
    ]
    | inr z ↦ elim (Bool-cases (p == n)) [
      | inl e ↦ (
        write (first_write p) (a (p - 1)) (some (left_node p)),
        rw (z, e) (rw (rw (z, e) at (left_write p (ground arith) b)) refl),
        unfold write in
            record {
              between = ground (arith, new (p - 1));
              left = λ i q. let same : i ≡ p - 1 = omega arith in rw same (ground arith);
              right = λ q. absurd (ground arith);
              others = λ k q o r. ground (arith, q, o (p - 1));
            },
      )
      | inr e ↦ (
        write (write (first_write p) (a (p - 1)) (some (left_node p))) (a p) (some (right_node p)),
        rw (z, e)
            (rw (rw (z, e) at (left_write p (ground arith) b))
              (rw (z, e) at (both_write p (ground arith) (ground arith)))),
        unfold write in
            record {
              between = ground (arith, new (p - 1), new p);
              left = λ i q.
                  let same : i ≡ p - 1 = omega arith in
                  rw same (ground (arith, w.distinct (p - 1) p));
              right = λ q. ground arith;
              others = λ k q o r. ground (arith, q, o (p - 1), r);
            },
      )
    ]
  ]

  -- The call returned a heap and a list that have the new value at place `p`, and no other memory has
  -- changed.
  pub record Inserted (r : Option (Heap V × AdList)) (p : ℕ) : Type 0 where
    pub heap : Heap V
    pub list : AdList
    pub returned : r ≡ some (heap, list)
    pub linked : Linked heap list (n + 1) (insert_at p fresh a) (insert_at p x v)
    pub elsewhere : (k : ℕ) → k ≢ fresh → ((i : ℕ) → i < n → k ≢ a i) → heap k ≡ h k

  join-Inserted :
      (p : ℕ) (r : Option (Heap V × AdList)) (l' : AdList)
      → p ≤ n
      → r ≡ (join p >>= λ h2. some (h2, l'))
      → l'.head ≡ (if p == 0 then some fresh else l.head)
      → l'.tail ≡ (if p == n then some fresh else l.tail)
      → l'.len ≡ l.len + 1
      → Inserted r p
  join-Inserted p r l' b e hd tl c =
      let j = join-Joins p b in
      record {
        heap = j.0;
        list = l';
        returned = e ∙ rw j.1 refl;
        linked =
            Splices-Linked h j.0 l l' n a v p fresh x w
              (record { place = b; new = new; joins = j.2; first = hd; last = tl; count = c });
        elsewhere = λ k q o. j.2.others k q (λ i f. o i (omega arith)) (λ f. o p f);
      }

  pub list_add_node_head-Inserted : Inserted (list_add_node_head fresh h l x) 0
  unfolding list_add_node_head join set_next_if set_prev_if
  list_add_node_head-Inserted = elim (Bool-cases (n == 0)) [
    | inl z ↦
        let e : n ≡ 0 = ground arith in
        let k : l.len ≡ 0 = omega (arith, w.length) in
        join-Inserted 0 _ (record { head = some fresh; tail = some fresh; len = l.len + 1 })
          (omega arith) (ground (arith, k, e)) refl (ground arith) refl
    | inr z ↦
        let e : l.head ≡ some (a 0) = ground (arith, w.head) in
        let k : (l.len == 0) ≡ false = ground (arith, w.length) in
        join-Inserted 0 _ (record l { head = some fresh; len = l.len + 1 }) (omega arith)
          (ground (arith, k, e)) refl (ground arith) refl
  ]

  pub list_add_node_tail-Inserted : Inserted (list_add_node_tail fresh h l x) n
  unfolding list_add_node_tail join set_next_if set_prev_if
  list_add_node_tail-Inserted = elim (Bool-cases (n == 0)) [
    | inl z ↦
        let e : n ≡ 0 = ground arith in
        let k : l.len ≡ 0 = omega (arith, w.length) in
        join-Inserted n _ (record { head = some fresh; tail = some fresh; len = l.len + 1 })
          (omega arith) (ground (arith, k, e)) (ground arith) (ground arith) refl
    | inr z ↦
        let e : l.tail ≡ some (a (n - 1)) = ground (arith, w.tail) in
        let k : (l.len == 0) ≡ false = ground (arith, w.length) in
        join-Inserted n _ (record l { tail = some fresh; len = l.len + 1 }) (omega arith)
          (ground (arith, k, e)) (ground arith) (ground arith) refl
  ]

  -- In a heap where the list is linked and `fresh` is unused, `listAddNodeHead` puts the value in front and
  -- `listAddNodeTail` at the end; both return a linked list, and no other memory changes.
  pub list_add_node-Inserted :
      Inserted (list_add_node_head fresh h l x) 0 × Inserted (list_add_node_tail fresh h l x) n
  list_add_node-Inserted = (list_add_node_head-Inserted, list_add_node_tail-Inserted)

  abbrev done : AdList → Heap V → Option (Heap V × AdList)
  done l' h2 = some (h2, l')

  -- The writes in the order of the code, with what follows them.
  in_order :
      (left right : Option ℕ) (l' : AdList)
      → (set_next_if (write h fresh (some (node left right x))) left (some fresh) >>= λ h1.
          set_prev_if h1 right (some fresh) >>= λ h2. done l' h2)
        ≡ ((set_next_if (write h fresh (some (node left right x))) left (some fresh) >>= λ h1.
              set_prev_if h1 right (some fresh))
            >>= λ h2. done l' h2)
  in_order left right l' =
      bind_assoc (set_next_if (write h fresh (some (node left right x))) left (some fresh))
        (λ h1. set_prev_if h1 right (some fresh)) (λ h2. done l' h2)

  -- With a heap where the list is linked and `fresh` is unused, `listInsertNode` at a node of the list
  -- puts the value right before or right after it; no memory outside the list and the new node changes.
  pub list_insert_node-Inserted :
      (q : ℕ) (behind : Bool)
      → q < n
      → Inserted (list_insert_node fresh h l (a q) x behind) (if behind then q + 1 else q)
  unfolding list_insert_node join
  list_insert_node-Inserted q true b =
      let o = w.nodes q b in
      let e : q + 1 - 1 ≡ q = omega arith in
      let left : before a (q + 1) ≡ some (a q) = ground (arith, ap a e) in
      let l' : AdList = record {
        head = l.head;
        tail = if same_pointer l.tail (a q) then some fresh else l.tail;
        len = l.len + 1;
      } in
      join-Inserted (q + 1) _ l' (omega arith)
        (rw (o, left) (in_order (some (a q)) (here (q + 1)) l')) (ground arith)
        (ground (arith, w.tail, w.distinct q (n - 1))) refl
  list_insert_node-Inserted q false b =
      let o = w.nodes q b in
      let right : here q ≡ some (a q) = ground arith in
      let l' : AdList = record {
        head = if same_pointer l.head (a q) then some fresh else l.head;
        tail = l.tail;
        len = l.len + 1;
      } in
      join-Inserted q _ l' (omega arith) (rw (o, right) (in_order (before a q) (some (a q)) l'))
        (ground (arith, w.head, w.distinct q 0)) (ground arith) refl
