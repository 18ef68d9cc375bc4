-- ===== src/Adlist/Whole.antt =====
-- redis-2.6.14/src/adlist.c: listRelease and listDup, which walk a whole linked list.
use galery.Prelude.{
  ℕ, zero, suc, ◌+◌, ◌-◌, ◌≤◌, ◌<◌, ◌≡◌, ◌≢◌, refl, sym, ◌∙◌, inl, inr, Option, none, some, false,
  arith, ◌==◌, if◌then◌else◌, Bool-cases,
}
use galery.Adlist.{
  node, Heap, AdList, write, release_loop, list_release, dup_loop, list_dup, list_create,
  list_get_iterator, start_head,
}
use galery.Adlist.Linked.{before, after, Linked, insert_at}
use galery.Adlist.Insert.{list_add_node_tail-Inserted}
use galery.Adlist.Iterate.{at_place, list_next-place, list_next-end}

module _ {V : Type 0} (n : ℕ) (a : ℕ → ℕ) (v : ℕ → V)
    (distinct : (i j : ℕ) → i < n → j < n → a i ≡ a j → i ≡ j) where
  -- From place `i` on, `k` nodes are freed.
  record Released (h : Heap V) (i k : ℕ) (p : Option ℕ) : Type 0 where
    heap : Heap V
    returned : release_loop k h p ≡ some heap
    freed : (j : ℕ) → i ≤ j → j < n → heap (a j) ≡ none
    elsewhere : (q : ℕ) → ((j : ℕ) → i ≤ j → j < n → q ≢ a j) → heap q ≡ h q

  release_loop-Released :
      (k i : ℕ) (h : Heap V)
      → i + k ≡ n
      → ((j : ℕ) → i ≤ j → j < n → h (a j) ≡ some (node (before a j) (after a n j) (v j)))
      → Released h i k (if i == n then none else some (a i))
  unfolding release_loop
  release_loop-Released zero i h e nodes = record {
    heap = h;
    returned = refl;
    freed = λ j b c. absurd (omega arith);
    elsewhere = λ q o. refl;
  }
  release_loop-Released (suc k) i h e nodes =
      let c : (i == n) ≡ false = ground arith in
      let next =
        release_loop-Released k (i + 1) (write h (a i) none) (omega arith)
          (λ j b d. unfold write in ground (arith, nodes j, distinct j i d)) in
      record {
        heap = next.heap;
        returned = rw (c, nodes i (omega arith) (omega arith)) next.returned;
        freed = λ j b d. elim (Bool-cases (i == j)) [
          | inl s ↦
              let same : j ≡ i = ground arith in
              rw same (
                next.elsewhere (a i)
                  (λ m f g q. absurd (omega (arith, distinct i m (omega arith) g q)))
                ∙ (unfold write in ground arith))
          | inr s ↦ next.freed j (ground arith) d
        ];
        elsewhere = λ q o.
            next.elsewhere q (λ j f g. o j (omega arith) g)
            ∙ (unfold write in ground (arith, o i (omega arith) (omega arith)));
      }

module _ {V : Type 0} (h : Heap V) (l : AdList) (n : ℕ) (a : ℕ → ℕ) (v : ℕ → V)
    (w : Linked h l n a v) where
  -- `listRelease` of a linked list ends, frees every node of it and changes no other memory.
  pub list_release_lem :
      (h' : Heap V) × (list_release h l ≡ some h')
      × ((i : ℕ) → i < n → h' (a i) ≡ none)
      × ((k : ℕ) → ((i : ℕ) → i < n → k ≢ a i) → h' k ≡ h k)
  unfolding list_release
  list_release_lem =
      let r = release_loop-Released n a v w.distinct n 0 h (omega arith) (λ j b c. w.nodes j c) in
      let start : l.head ≡ (if 0 == n then none else some (a 0)) = ground (arith, w.head) in
      (
        r.heap,
        rw (start, w.length) r.returned,
        (λ i b. r.freed i (omega arith) b),
        (λ k o. r.elsewhere k (λ j b c. o j c)),
      )

-- A list in another heap that has the same nodes.
pub Linked-elsewhere :
    {V : Type 0} (h h' : Heap V) (l : AdList) (n : ℕ) (a : ℕ → ℕ) (v : ℕ → V)
    → ((i : ℕ) → i < n → h' (a i) ≡ h (a i))
    → Linked h l n a v
    → Linked h' l n a v
Linked-elsewhere h h' l n a v same w = record {
  nodes = λ i b. same i b ∙ w.nodes i b;
  head = w.head;
  tail = w.tail;
  length = w.length;
  distinct = w.distinct;
}

pub list_create-Linked :
    {V : Type 0} (h : Heap V) (a : ℕ → ℕ) (v : ℕ → V) → Linked h list_create 0 a v
unfolding list_create
list_create-Linked h a v = record {
  nodes = λ i b. absurd (omega arith);
  head = refl;
  tail = refl;
  length = refl;
  distinct = λ i j b. absurd (omega arith);
}

-- Addresses and values of a list given at the first places only.
Linked-cong :
    {V : Type 0} (h : Heap V) (l : AdList) (n : ℕ) (a b : ℕ → ℕ) (v u : ℕ → V)
    → ((i : ℕ) → i < n → b i ≡ a i)
    → ((i : ℕ) → i < n → u i ≡ v i)
    → Linked h l n a v
    → Linked h l n b u
Linked-cong h l n a b v u p q w = record {
  nodes = λ i c. ground (arith, w.nodes i c, p i c, q i c, p (i - 1), p (i + 1));
  head = ground (arith, w.head, p 0);
  tail = ground (arith, w.tail, p (n - 1));
  length = w.length;
  distinct = λ i j c d e. w.distinct i j c d (sym (p i c) ∙ e ∙ p j d);
}

module _ {V : Type 0} (l : AdList) (n : ℕ) (a : ℕ → ℕ) (v : ℕ → V) (fresh : ℕ → ℕ)
    (apart : (i k : ℕ) → i < n → a i ≢ fresh k)
    (different : (i j : ℕ) → fresh i ≡ fresh j → i ≡ j) where
  -- The copy that the loop makes, and the list that it leaves as it was.
  pub record Copied (h : Heap V) (r : Option (Heap V × Option AdList)) : Type 0 where
    pub heap : Heap V
    pub copy : AdList
    pub returned : r ≡ some (heap, some copy)
    pub original : Linked heap l n a v
    pub linked : Linked heap copy n fresh v

  dup_loop-Copied :
      (k i f : ℕ) (h : Heap V) (copy : AdList)
      → i + k ≡ n
      → k < f
      → Linked h l n a v
      → Linked h copy i fresh v
      → ((j : ℕ) → i ≤ j → h (fresh j) ≡ none)
      → Copied h (dup_loop f fresh i some h (at_place n a i) copy)
  unfolding dup_loop
  dup_loop-Copied k i zero h copy e c w u free = absurd (omega arith)
  dup_loop-Copied zero i (suc f) h copy e c w u free =
      let same : i ≡ n = omega arith in
      record {
        heap = h;
        copy = copy;
        returned = rw (same, list_next-end h l n a v w) refl;
        original = w;
        linked = rw same at u;
      }
  dup_loop-Copied (suc k) i (suc f) h copy e c w u free =
      let b : i < n = omega arith in
      let t =
        list_add_node_tail-Inserted h copy i fresh v (fresh i) (v i) u (free i (omega arith)) in
      let next =
        dup_loop-Copied k (i + 1) f t.heap t.list (omega arith) (omega arith)
          (Linked-elsewhere h t.heap l n a v
            (λ j d. t.elsewhere (a j) (apart j i d) (λ m g. apart j m d)) w)
          (Linked-cong t.heap t.list (i + 1) (insert_at i (fresh i) fresh) fresh
            (insert_at i (v i) v) v (λ j d. ground arith) (λ j d. ground arith) t.linked)
          (λ j d.
            t.elsewhere (fresh j) (λ q. absurd (omega (arith, different j i q)))
              (λ m g q. absurd (omega (arith, different j m q)))
            ∙ free j (omega arith)) in
      record {
        heap = next.heap;
        copy = next.copy;
        returned = rw (list_next-place h l n a v w i b, w.nodes i b, t.returned) next.returned;
        original = next.original;
        linked = next.linked;
      }

  -- Without the method `dup`, and with unused and distinct addresses outside the list, `listDup` of a
  -- linked list returns a linked list of its own nodes with the same values, and leaves the original
  -- linked as it was.
  pub list_dup-Copied :
      (h : Heap V)
      → Linked h l n a v
      → ((j : ℕ) → h (fresh j) ≡ none)
      → Copied h (list_dup fresh some h l)
  unfolding list_dup
  list_dup-Copied h w free =
      let start : list_get_iterator l start_head ≡ at_place n a 0 =
        unfold list_get_iterator in ground (arith, w.head) in
      rw start (
        dup_loop-Copied n 0 (l.len + 1) h list_create (omega arith) (omega (arith, w.length)) w
          (list_create-Linked h fresh v) (λ j b. free j))
