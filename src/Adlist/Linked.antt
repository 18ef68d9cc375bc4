-- ===== src/Adlist/Linked.antt =====
-- redis-2.6.14/src/adlist.c: which heap stands for a list of values, and what a splice does to it.
use galery.Prelude.{
  ℕ, ◌+◌, ◌-◌, ◌≤◌, ◌<◌, ◌≡◌, ◌≢◌, ap, ◌∙◌, inl, inr, Option, none, some, arith, ltb, ◌==◌,
  if◌then◌else◌, Bool-cases,
}
use galery.Adlist.{node, Heap, AdList}

-- The neighbours of place `i` among the addresses of `n` nodes.
abbrev pub before : (ℕ → ℕ) → ℕ → Option ℕ
before a i = if i == 0 then none else some (a (i - 1))

abbrev pub after : (ℕ → ℕ) → ℕ → ℕ → Option ℕ
after a n i = if i + 1 == n then none else some (a (i + 1))

module _ {V : Type 0} where
  -- Nodes at `n` distinct addresses, linked both ways, hold the values.
  pub record Linked (h : Heap V) (l : AdList) (n : ℕ) (a : ℕ → ℕ) (v : ℕ → V) : Type 0 where
    pub nodes : (i : ℕ) → i < n → h (a i) ≡ some (node (before a i) (after a n i) (v i))
    pub head : l.head ≡ (if n == 0 then none else some (a 0))
    pub tail : l.tail ≡ (if n == 0 then none else some (a (n - 1)))
    pub length : l.len ≡ n
    pub distinct : (i j : ℕ) → i < n → j < n → a i ≡ a j → i ≡ j

-- A new entry at place `p`.
abbrev pub insert_at {ℓ} : {A : Type ℓ} → ℕ → A → (ℕ → A) → ℕ → A
insert_at p x f i = if ltb i p then f i else if i == p then x else f (i - 1)

-- The entry at place `p` taken out.
abbrev pub skip_at {ℓ} : {A : Type ℓ} → ℕ → (ℕ → A) → ℕ → A
skip_at p f i = if ltb i p then f i else f (i + 1)

-- The heap `h'` has a new node between the two neighbours of place `p`.
pub record Joins {V : Type 0} (h h' : Heap V) (n : ℕ) (a : ℕ → ℕ) (v : ℕ → V) (p fresh : ℕ) (x : V)
    : Type 0 where
  pub between : h' fresh ≡ some (node (before a p) (if p == n then none else some (a p)) x)
  pub left : (i : ℕ) → i + 1 ≡ p → h' (a i) ≡ some (node (before a i) (some fresh) (v i))
  pub right : p < n → h' (a p) ≡ some (node (some fresh) (after a n p) (v p))
  pub others :
      (k : ℕ) → k ≢ fresh → ((i : ℕ) → i + 1 ≡ p → k ≢ a i) → (p < n → k ≢ a p) → h' k ≡ h k

module _ {V : Type 0} (h h' : Heap V) (l l' : AdList) (n : ℕ) (a : ℕ → ℕ) (v : ℕ → V) (p fresh : ℕ)
    (x : V) where
  -- So have the ends of the list.
  pub record Splices : Type 0 where
    pub place : p ≤ n
    pub new : (i : ℕ) → i < n → a i ≢ fresh
    pub joins : Joins h h' n a v p fresh x
    pub first : l'.head ≡ (if p == 0 then some fresh else l.head)
    pub last : l'.tail ≡ (if p == n then some fresh else l.tail)
    pub count : l'.len ≡ l.len + 1

  kept :
      Linked h l n a v
      → Splices
      → (j : ℕ) → j < n
      → j + 1 ≢ p
      → j ≢ p
      → h' (a j) ≡ some (node (before a j) (after a n j) (v j))
  kept w s j b ne ne' =
      s.joins.others (a j) (s.new j b)
        (λ i e q. ne (ap (λ k. k + 1) (w.distinct j i b (omega (arith, s.place)) q) ∙ e))
        (λ c q. ne' (w.distinct j p b c q))
      ∙ w.nodes j b

  Splices-nodes :
      Linked h l n a v
      → Splices
      → (i : ℕ) → i < n + 1
      → h' (insert_at p fresh a i)
        ≡ some (
            node
              (before (insert_at p fresh a) i)
              (after (insert_at p fresh a) (n + 1) i)
              (insert_at p x v i))
  Splices-nodes w s i b = elim (Bool-cases (ltb (i + 1) p)) [
    | inl c ↦ ground (
      arith,
      kept w s i (ground (arith, s.place)) (λ e. absurd (ground arith))
          (λ e. absurd (ground arith)),
    )
    | inr c ↦ elim (Bool-cases (i + 1 == p)) [
      | inl d ↦ ground (arith, s.joins.left i (ground arith), s.place)
      | inr d ↦ elim (Bool-cases (i == p)) [
        | inl e ↦ ground (arith, s.joins.between, s.place)
        | inr e ↦ elim (Bool-cases (i == p + 1)) [
          | inl f ↦ ground (arith, s.joins.right (ground arith))
          | inr f ↦ ground (
            arith,
            kept w s (i - 1) (ground (arith, s.place)) (λ q. absurd (ground arith))
                (λ q. absurd (ground arith)),
          )
        ]
      ]
    ]
  ]

  pub Splices-Linked :
      Linked h l n a v → Splices → Linked h' l' (n + 1) (insert_at p fresh a) (insert_at p x v)
  Splices-Linked w s = record {
    nodes = Splices-nodes w s;
    head = ground (arith, s.first, w.head, s.place);
    tail = ground (arith, s.last, w.tail, s.place);
    length = omega (arith, s.count, w.length);
    distinct = λ i j b c e. ground (
      arith,
      e,
      w.distinct i j,
      w.distinct i (j - 1),
      w.distinct (i - 1) j,
      w.distinct (i - 1) (j - 1),
      s.new i,
      s.new j,
      s.new (i - 1),
      s.new (j - 1),
      s.place,
    );
  }

module _ {V : Type 0} (h h' : Heap V) (l l' : AdList) (n : ℕ) (a : ℕ → ℕ) (v : ℕ → V) (p : ℕ) where
  -- The node at place `p` goes, and its neighbours meet.
  pub record Cuts : Type 0 where
    pub place : p < n
    pub left : (i : ℕ) → i + 1 ≡ p → h' (a i) ≡ some (node (before a i) (after a n p) (v i))
    pub right :
        p + 1 < n → h' (a (p + 1)) ≡ some (node (before a p) (after a n (p + 1)) (v (p + 1)))
    pub others :
        (k : ℕ)
        → k ≢ a p
        → ((i : ℕ) → i + 1 ≡ p → k ≢ a i)
        → (p + 1 < n → k ≢ a (p + 1))
        → h' k ≡ h k
    pub first : l'.head ≡ (if p == 0 then after a n p else l.head)
    pub last : l'.tail ≡ (if p + 1 == n then before a p else l.tail)
    pub count : l'.len ≡ l.len - 1

  spared :
      Linked h l n a v
      → Cuts
      → (j : ℕ) → j < n
      → j + 1 ≢ p
      → j ≢ p
      → j ≢ p + 1
      → h' (a j) ≡ some (node (before a j) (after a n j) (v j))
  spared w s j b ne ne' ne'' =
      s.others (a j) (λ q. ne' (w.distinct j p b s.place q))
        (λ i e q. ne (ap (λ k. k + 1) (w.distinct j i b (omega (arith, s.place)) q) ∙ e))
        (λ c q. ne'' (w.distinct j (p + 1) b c q))
      ∙ w.nodes j b

  Cuts-nodes :
      Linked h l n a v
      → Cuts
      → (i : ℕ) → i < n - 1
      → h' (skip_at p a i)
        ≡ some (node (before (skip_at p a) i) (after (skip_at p a) (n - 1) i) (skip_at p v i))
  Cuts-nodes w s i b = elim (Bool-cases (ltb (i + 1) p)) [
    | inl c ↦ ground (
      arith,
      spared w s i (ground arith) (λ e. absurd (ground arith)) (λ e. absurd (ground arith))
          (λ e. absurd (ground arith)),
      s.place,
    )
    | inr c ↦ elim (Bool-cases (i + 1 == p)) [
      | inl d ↦ ground (arith, s.left i (ground arith), s.place)
      | inr d ↦ elim (Bool-cases (i == p)) [
        | inl e ↦ ground (arith, s.right (ground arith), s.place)
        | inr e ↦ ground (
          arith,
          spared w s (i + 1) (omega arith) (λ q. absurd (ground arith)) (λ q. absurd (ground arith))
              (λ q. absurd (ground arith)),
          s.place,
        )
      ]
    ]
  ]

  pub Cuts-Linked : Linked h l n a v → Cuts → Linked h' l' (n - 1) (skip_at p a) (skip_at p v)
  Cuts-Linked w s = record {
    nodes = Cuts-nodes w s;
    head = ground (arith, s.first, w.head, s.place);
    tail = ground (arith, s.last, w.tail, s.place);
    length = omega (arith, s.count, w.length, s.place);
    distinct = λ i j b c e. ground (
      arith,
      e,
      w.distinct i j,
      w.distinct i (j + 1),
      w.distinct (i + 1) j,
      w.distinct (i + 1) (j + 1),
      s.place,
    );
  }
