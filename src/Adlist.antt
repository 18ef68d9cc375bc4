-- ===== src/Adlist.antt =====
-- redis-2.6.14/src/adlist.c and adlist.h: doubly linked lists in a heap of nodes. A pointer is an address
-- or none for NULL, `fresh` is the address that zmalloc returns, and to follow a pointer to an address
-- without a node is a fault, the result none. The methods of a list are arguments where they are used.
pub mod Linked
pub mod Insert
pub mod Delete
pub mod Iterate
pub mod Rotate
pub mod Whole
use galery.Prelude.{
  ℕ, zero, suc, ◌+◌, ◌-◌, Option, none, some, List, [], ◌∷◌, Bool, true, false, ltb, ◌==◌,
  if◌then◌else◌,
}
use galery.Prelude.Int.{ℤ, pos, negsuc}

-- `listNode`
pub record Node (V : Type 0) : Type 0 where
  pub prev : Option ℕ
  pub next : Option ℕ
  pub value : V

abbrev pub node : {V : Type 0} → Option ℕ → Option ℕ → V → Node V
node p q x = record { prev = p; next = q; value = x }

abbrev pub Heap : Type 0 → Type 0
Heap V = ℕ → Option (Node V)

-- `list`
pub record AdList : Type 0 where
  pub head : Option ℕ
  pub tail : Option ℕ
  pub len : ℕ

pub data Direction : Type 0 where
  start_head start_tail : Direction

-- `listIter`
pub record ListIter : Type 0 where
  pub next : Option ℕ
  pub direction : Direction

-- A step that may fault.
infixl 5 ◌>>=◌
abbrev pub ◌>>=◌ : {A B : Type 0} → Option A → (A → Option B) → Option B
none >>= k = none
some a >>= k = k a

abbrev pub same_pointer : Option ℕ → ℕ → Bool
same_pointer none p = false
same_pointer (some q) p = q == p

-- `listCreate`
unfoldable pub list_create : AdList
list_create = record { head = none; tail = none; len = 0 }

-- `listGetIterator`, `listRewind` and `listRewindTail`
unfoldable pub list_get_iterator : AdList → Direction → ListIter
list_get_iterator l start_head = record { next = l.head; direction = start_head }
list_get_iterator l start_tail = record { next = l.tail; direction = start_tail }

module _ {V : Type 0} where
  unfoldable pub write : Heap V → ℕ → Option (Node V) → Heap V
  write h p c k = if k == p then c else h k

  -- `p->next = q` and `p->prev = q`
  unfoldable pub set_next : Heap V → ℕ → Option ℕ → Option (Heap V)
  set_next h p q = h p >>= λ n. some (write h p (some (record n { next = q })))

  unfoldable pub set_prev : Heap V → ℕ → Option ℕ → Option (Heap V)
  set_prev h p q = h p >>= λ n. some (write h p (some (record n { prev = q })))

  -- The same under `if (p)`.
  unfoldable pub set_next_if : Heap V → Option ℕ → Option ℕ → Option (Heap V)
  set_next_if h none q = some h
  set_next_if h (some p) q = set_next h p q

  unfoldable pub set_prev_if : Heap V → Option ℕ → Option ℕ → Option (Heap V)
  set_prev_if h none q = some h
  set_prev_if h (some p) q = set_prev h p q

  unfoldable pub list_add_node_head : ℕ → Heap V → AdList → V → Option (Heap V × AdList)
  list_add_node_head fresh h l x =
      if l.len == 0
      then some (
        write h fresh (some (node none none x)),
        record { head = some fresh; tail = some fresh; len = l.len + 1 },
      )
      else l.head >>= λ first.
          set_prev (write h fresh (some (node none l.head x))) first (some fresh) >>= λ h'.
          some (h', record l { head = some fresh; len = l.len + 1 })

  unfoldable pub list_add_node_tail : ℕ → Heap V → AdList → V → Option (Heap V × AdList)
  list_add_node_tail fresh h l x =
      if l.len == 0
      then some (
        write h fresh (some (node none none x)),
        record { head = some fresh; tail = some fresh; len = l.len + 1 },
      )
      else l.tail >>= λ last.
          set_next (write h fresh (some (node l.tail none x))) last (some fresh) >>= λ h'.
          some (h', record l { tail = some fresh; len = l.len + 1 })

  -- `listInsertNode`: the new node's fields, the ends of the list, and then the neighbours.
  unfoldable pub list_insert_node : ℕ → Heap V → AdList → ℕ → V → Bool → Option (Heap V × AdList)
  list_insert_node fresh h l old x after = h old >>= λ o.
      let n : Node V = if after then node (some old) o.next x else node o.prev (some old) x in
      let tail =
        if after then (if same_pointer l.tail old then some fresh else l.tail) else l.tail in
      let head =
        if after then l.head else (if same_pointer l.head old then some fresh else l.head) in
      set_next_if (write h fresh (some n)) n.prev (some fresh) >>= λ h1.
      set_prev_if h1 n.next (some fresh) >>= λ h2.
      some (h2, record { head = head; tail = tail; len = l.len + 1 })

  -- `listDelNode`: the node is read again before each use.
  unfoldable pub list_del_node : Heap V → AdList → ℕ → Option (Heap V × AdList)
  list_del_node h l p = h p >>= λ n.
      let head : Option ℕ = elim n.prev [ none ↦ n.next | some q ↦ l.head ] in
      set_next_if h n.prev n.next >>= λ h1. h1 p >>= λ n1.
      let tail : Option ℕ = elim n1.next [ none ↦ n1.prev | some q ↦ l.tail ] in
      set_prev_if h1 n1.next n1.prev >>= λ h2.
      some (write h2 p none, record { head = head; tail = tail; len = l.len - 1 })

  unfoldable pub list_next : Heap V → ListIter → Option (Option ℕ × ListIter)
  list_next h iter = elim iter.next [
    | none ↦ some (none, iter)
    | some p ↦ h p >>= λ n. some (
      some p,
      record iter { next = elim iter.direction [ start_head ↦ n.next | start_tail ↦ n.prev ] },
    )
  ]

  -- The loop of `listSearchKey`, for a list of at most as many nodes as its fuel; none for a fault.
  unfoldable pub search_loop : ℕ → Heap V → (V → Bool) → ListIter → Option (Option ℕ)
  search_loop zero h match iter = some none
  search_loop (suc f) h match iter = list_next h iter >>= λ r. elim r.0 [
    | none ↦ some none
    | some p ↦ h p >>= λ n. elim (match n.value) [
      | true ↦ some (some p)
      | false ↦ search_loop f h match r.1
    ]
  ]

  -- `listSearchKey`, with `match(value, key)` or the equation of the pointers as a test.
  unfoldable pub list_search_key : Heap V → AdList → (V → Bool) → Option (Option ℕ)
  list_search_key h l match = search_loop (l.len + 1) h match (list_get_iterator l start_head)

  -- The loops of `listIndex`.
  unfoldable pub walk_next : ℕ → Heap V → Option ℕ → Option (Option ℕ)
  walk_next zero h p = some p
  walk_next (suc i) h none = some none
  walk_next (suc i) h (some p) = h p >>= λ n. walk_next i h n.next

  unfoldable pub walk_prev : ℕ → Heap V → Option ℕ → Option (Option ℕ)
  walk_prev zero h p = some p
  walk_prev (suc i) h none = some none
  walk_prev (suc i) h (some p) = h p >>= λ n. walk_prev i h n.prev

  unfoldable pub list_index : Heap V → AdList → ℤ → Option (Option ℕ)
  list_index h l (pos i) = walk_next i h l.head
  list_index h l (negsuc i) = walk_prev i h l.tail

  -- `listRotate`
  unfoldable pub list_rotate : Heap V → AdList → Option (Heap V × AdList)
  list_rotate h l =
      if ltb l.len 2
      then some (h, l)
      else l.tail >>= λ old. h old >>= λ n. n.prev >>= λ last. set_next h last none >>= λ h1.
          l.head >>= λ first. set_prev h1 first (some old) >>= λ h2. set_prev h2 old none >>= λ h3.
          set_next h3 old (some first) >>= λ h4.
          some (h4, record l { head = some old; tail = some last })

  -- The loop of `listRelease` over `len` nodes; `list->free` works on the values alone.
  unfoldable pub release_loop : ℕ → Heap V → Option ℕ → Option (Heap V)
  release_loop zero h current = some h
  release_loop (suc len) h current =
      current >>= λ p. h p >>= λ n. release_loop len (write h p none) n.next

  unfoldable pub list_release : Heap V → AdList → Option (Heap V)
  list_release h l = release_loop l.len h l.head

  -- The loop of `listDup`: node `k` of the copy is at the address `fresh k`. none inside for NULL.
  unfoldable pub dup_loop :
      ℕ
      → (ℕ → ℕ)
      → ℕ
      → (V → Option V)
      → Heap V
      → ListIter
      → AdList
      → Option (Heap V × Option AdList)
  dup_loop zero fresh k dup h iter copy = some (h, some copy)
  dup_loop (suc f) fresh k dup h iter copy = list_next h iter >>= λ r. elim r.0 [
    | none ↦ some (h, some copy)
    | some p ↦ h p >>= λ n. elim (dup n.value) [
      | none ↦ list_release h copy >>= λ h'. some (h', none)
      | some x ↦
          list_add_node_tail (fresh k) h copy x >>= λ s. dup_loop f fresh (k + 1) dup s.0 r.1 s.1
    ]
  ]

  -- `listDup`, with `some` for a list without the method `dup`.
  unfoldable pub list_dup :
      (ℕ → ℕ) → (V → Option V) → Heap V → AdList → Option (Heap V × Option AdList)
  list_dup fresh dup h orig =
      dup_loop (orig.len + 1) fresh 0 dup h (list_get_iterator orig start_head) list_create
